-- ===== src/Rtcp/Remb.antt =====
-- src/libs/rtp/RtpHeaders.h, class RtcpHeader: the bit rate of a REMB packet, a 6-bit exponent and
-- an 18-bit mantissa in `brLength`.
pub mod Rate
pub mod RoundTrip
use payloader.Base.{
  ℕ, zero, suc, ◌+◌, ◌-◌, ◌*◌, ◌/◌, ◌%◌, ◌^◌, true, false, leb, ltb, if◌then◌else◌, swap32,
  low_bits, shr, u32, u64, Outcome, ok, fault,
}
use payloader.Rtcp.Header.{RtcpHeader}
use payloader.Rtcp.Reports.{with_high24}

-- `while (bitRate >= max && exp < 64) { exp += 1; max = max << 1; }`, where `rounds` is `64 - exp`.
unfoldable pub remb_exponent : (rounds bit_rate max exp : ℕ) → ℕ
remb_exponent zero bit_rate max exp = exp
remb_exponent (suc rounds) bit_rate max exp = elim (leb max bit_rate) [
  | true ↦ remb_exponent rounds bit_rate (u64 (max * 2)) (exp + 1)
  | false ↦ exp
]

-- The 24 bits written for a mantissa and an exponent.
pub remb_line : (mantissa exp : ℕ) → ℕ
remb_line mantissa exp =
    low_bits 24 (shr (swap32 (u32 (low_bits 18 mantissa + low_bits 6 exp * 2 ^ 18))) 8)

-- A shift of a 64-bit value by 64 is undefined.
pub set_remb_bit_rate : ℕ → RtcpHeader → Outcome RtcpHeader
set_remb_bit_rate bit_rate h =
    let exp = remb_exponent 64 bit_rate 0x3ffff 0 in
    if ltb exp 64
    then ok (record h { word2 = with_high24 h.word2 (remb_line (bit_rate / 2 ^ exp) exp) })
    else fault

pub get_br_exp : RtcpHeader → ℕ
get_br_exp h = shr (swap32 (shr h.word2 8)) 26

pub get_br_mantis : RtcpHeader → ℕ
get_br_mantis h = low_bits 18 (shr (swap32 (shr h.word2 8)) 8)

-- Both operands of `<<` are 32-bit: a shift by 32 or more is undefined, and the result is cut to
-- 32 bits before it becomes a `uint64_t`.
pub get_remb_bit_rate : RtcpHeader → Outcome ℕ
get_remb_bit_rate h =
    if ltb (get_br_exp h) 32 then ok (u32 (get_br_mantis h * 2 ^ get_br_exp h)) else fault
