-- ===== src/Rtcp/Remb/RoundTrip.antt =====
-- What `getREMBBitRate` returns of what `setREMBBitRate` was given.
use native.Mathlib.Nat.{div-lt_iff_lt-mul, one-le-pow, div-add-mod', mod-lt}
use payloader.Base.{
  ℕ, ◌+◌, ◌-◌, ◌*◌, ◌/◌, ◌%◌, ◌^◌, ◌≤◌, ◌<◌, ◌≡◌, ◌⊎◌, inl, inr, arith, swap32, ok, fault, ◌>>=◌,
  lt→ltb,
}
use payloader.Rtcp.Header.{RtcpHeader}
use payloader.Rtcp.Reports.{get_remb_num_ssrc}
use payloader.Rtcp.Remb.Rate.{Fits, exponent, exponent-Fits, two_pow_bound}
use payloader.Rtcp.Remb.{remb_line, set_remb_bit_rate, get_br_exp, get_br_mantis, get_remb_bit_rate}

-- The header that the setter leaves.
abbrev rated : ℕ → RtcpHeader → RtcpHeader
rated bit_rate h = record h {
  word2 =
      h.word2 % 2 ^ 8 + remb_line (bit_rate / 2 ^ exponent bit_rate) (exponent bit_rate) * 2 ^ 8;
}

line_fields :
    (h : RtcpHeader) (m e : ℕ)
    → m < 2 ^ 18
    → e < 64
    → let r = record h { word2 = h.word2 % 2 ^ 8 + remb_line m e * 2 ^ 8 } in
      (get_br_exp r ≡ e) × (get_br_mantis r ≡ m) × (get_remb_num_ssrc r ≡ h.word2 % 256)
unfolding get_br_exp get_br_mantis get_remb_num_ssrc remb_line swap32
line_fields h m e p q = (omega arith, omega arith, omega arith)

mantissa-lt : (b e : ℕ) → b < 0x3ffff * 2 ^ e → b / 2 ^ e < 2 ^ 18
mantissa-lt b e h = omega (arith, (div-lt_iff_lt-mul (one-le-pow e 2 (omega arith))).1 h)

set_remb_bit_rate-rated :
    (bit_rate : ℕ) (h : RtcpHeader)
    → exponent bit_rate < 64
    → set_remb_bit_rate bit_rate h ≡ ok (rated bit_rate h)
unfolding set_remb_bit_rate
set_remb_bit_rate-rated bit_rate h e = rw (lt→ltb (exponent bit_rate) 64 e)

-- For a rate below 0x3FFFF * 2^46 the setter returns; the two getters read back an exponent of
-- at most 46 and the rate divided by its power of two; the exponent is the least that leaves
-- 18 bits, up to one mantissa bit (the rate is below 0x3FFFF * 2^exponent, and at least half
-- of it unless the exponent is 0); and the count of sources stays.
pub set_remb_bit_rate_lem :
    (bit_rate : ℕ) (h : RtcpHeader)
    → bit_rate < 0x3ffff * 2 ^ 46
    → (r : RtcpHeader) × (set_remb_bit_rate bit_rate h ≡ ok r)
      × Fits bit_rate (get_br_exp r)
      × (get_br_mantis r ≡ bit_rate / 2 ^ get_br_exp r)
      × (get_remb_num_ssrc r ≡ h.word2 % 256)
set_remb_bit_rate_lem bit_rate h b =
    let fits = exponent-Fits bit_rate b in
    let e = exponent bit_rate in
    let m = mantissa-lt bit_rate e fits.1 in
    let fields = line_fields h (bit_rate / 2 ^ e) e m (omega arith) in
    (
      rated bit_rate h,
      set_remb_bit_rate-rated bit_rate h (omega arith),
      rw fields.0 fits,
      rw fields.0 fields.1,
      fields.2,
    )

get_remb_bit_rate-ok :
    (r : RtcpHeader)
    → get_br_exp r < 32
    → get_br_mantis r * 2 ^ get_br_exp r < 2 ^ 32
    → get_remb_bit_rate r ≡ ok (get_br_mantis r * 2 ^ get_br_exp r)
unfolding get_remb_bit_rate
get_remb_bit_rate-ok r e m = ground (arith, lt→ltb (get_br_exp r) 32 e)

get_remb_bit_rate-fault : (r : RtcpHeader) → 32 ≤ get_br_exp r → get_remb_bit_rate r ≡ fault
unfolding get_remb_bit_rate
get_remb_bit_rate-fault r e = ground arith

-- The exponent of a rate below 2^32 is small, and that of a rate from 0x3FFFF * 2^31 on is not.
small_exponent : (b e : ℕ) → Fits b e → b < 2 ^ 32 → e < 32
small_exponent b e f h =
    let c : (e < 32) ⊎ (32 ≤ e) = omega arith in
    elim c [ inl p ↦ p | inr q ↦ absurd (omega (arith, two_pow_bound 32 e q)) ]

large_exponent : (b e : ℕ) → Fits b e → 0x3ffff * 2 ^ 31 ≤ b → 32 ≤ e
large_exponent b e f h =
    let c : (e ≤ 31) ⊎ (32 ≤ e) = omega arith in
    elim c [ inl p ↦ absurd (omega (arith, two_pow_bound e 31 p)) | inr q ↦ q ]

-- The rate, rounded down to a multiple of the power of two.
rounding :
    (b e : ℕ) → Fits b e → (b / 2 ^ e * 2 ^ e ≤ b) × ((b - b / 2 ^ e * 2 ^ e) * 0x3ffff ≤ 2 * b)
rounding b e f =
    let split = div-add-mod' b (2 ^ e) in
    let rest : b % 2 ^ e < 2 ^ e = mod-lt b (one-le-pow e 2 (omega arith)) in
    (
      omega (arith, split),
      elim f.2 [
        | inl z ↦ let one : 2 ^ e ≡ 1 = rw z in omega (arith, split, rest)
        | inr tight ↦ omega (arith, split, rest)
      ],
    )

-- A rate below 2^32 is read back rounded down, by at most 2 parts in 0x3FFFF.
pub get-set_remb_bit_rate :
    (bit_rate : ℕ) (h : RtcpHeader)
    → bit_rate < 2 ^ 32
    → (q : ℕ) × ((set_remb_bit_rate bit_rate h >>= get_remb_bit_rate) ≡ ok q)
      × (q ≤ bit_rate)
      × ((bit_rate - q) * 0x3ffff ≤ 2 * bit_rate)
get-set_remb_bit_rate bit_rate h b =
    let (r, returns, fits, mantissa, same) = set_remb_bit_rate_lem bit_rate h (omega arith) in
    let near = rounding bit_rate (get_br_exp r) fits in
    (
      bit_rate / 2 ^ get_br_exp r * 2 ^ get_br_exp r,
      rw (returns, ← mantissa)
          (get_remb_bit_rate-ok r (small_exponent bit_rate (get_br_exp r) fits b)
            (rw mantissa (omega (arith, near.0)))),
      near.0,
      near.1,
    )

-- From 0x3FFFF * 2^31 on, up to the largest rate that the setter takes, the getter shifts a 32-bit
-- value by 32 or more, although it is declared to return 64 bits.
pub get_remb_bit_rate_faults :
    (bit_rate : ℕ) (h : RtcpHeader)
    → 0x3ffff * 2 ^ 31 ≤ bit_rate
    → bit_rate < 0x3ffff * 2 ^ 46
    → (set_remb_bit_rate bit_rate h >>= get_remb_bit_rate) ≡ fault
get_remb_bit_rate_faults bit_rate h low high =
    let (r, returns, fits, mantissa, same) = set_remb_bit_rate_lem bit_rate h high in
    rw returns (get_remb_bit_rate-fault r (large_exponent bit_rate (get_br_exp r) fits low))
