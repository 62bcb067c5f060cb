-- ===== src/Rtp/Extensions/Laws.antt =====
-- The accessors of the extension headers against the bytes that stand on the wire.
use payloader.Base.{ℕ, ◌+◌, ◌*◌, ◌/◌, ◌%◌, ◌^◌, ◌<◌, ◌≡◌, arith, swap16, swap32}
use payloader.Rtp.Extensions.{
  AbsSendTimeExtension, get_id, get_ext_length, get_abs_send_time, set_abs_send_time, RtpRtxHeader,
  get_osn, set_os, RedHeader, get_ts, get_length,
}

-- In an extension whose first byte is a byte, the send time comes back modulo 2^24, and the
-- setter leaves the identifier and the length, which share the first byte.
pub get_abs_send_time-set_abs_send_time :
    (x : AbsSendTimeExtension) (t : ℕ)
    → x.ext_info < 256
    → (get_abs_send_time (set_abs_send_time t x) ≡ t % 2 ^ 24)
      × (get_id (set_abs_send_time t x) * 16 + get_ext_length (set_abs_send_time t x) ≡ x.ext_info)
unfolding get_abs_send_time set_abs_send_time get_id get_ext_length swap32
get_abs_send_time-set_abs_send_time x t h = omega arith

-- The original sequence number of a retransmission survives modulo 2^16.
pub get_osn-set_os : (x : RtpRtxHeader) (v : ℕ) → get_osn (set_os v x) ≡ v % 2 ^ 16
unfolding get_osn set_os swap16
get_osn-set_os x v = omega arith

-- The redundancy header whose three bytes behind the payload type are `b1 b2 b3`.
abbrev pub red_header : ℕ → ℕ → ℕ → ℕ → ℕ → RedHeader
red_header pt follow b1 b2 b3 = record {
  payloadtype = pt;
  follow = follow;
  ts_length = b1 + b2 * 2 ^ 8 + b3 * 2 ^ 16;
}

-- With the bytes b1 b2 b3 on the wire, RFC 2198 has a timestamp offset of the high 14 bits and
-- a block length of the low 10 bits of the 24-bit number b1 b2 b3. `getTS` returns the offset;
-- `getLength` returns 256 times the block length.
pub red_header-fields :
    (pt follow b1 b2 b3 : ℕ)
    → b1 < 256
    → b2 < 256
    → b3 < 256
    → (get_ts (red_header pt follow b1 b2 b3) ≡ (b1 * 2 ^ 16 + b2 * 2 ^ 8 + b3) / 2 ^ 10)
      × (get_length (red_header pt follow b1 b2 b3)
          ≡ 256 * ((b1 * 2 ^ 16 + b2 * 2 ^ 8 + b3) % 2 ^ 10))
unfolding get_ts get_length swap32
red_header-fields pt follow b1 b2 b3 h1 h2 h3 = omega arith
