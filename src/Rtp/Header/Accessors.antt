-- ===== src/Rtp/Header/Accessors.antt =====
-- What the getters read back after the setters, and which fields a setter leaves alone.
use payloader.Base.{ℕ, ◌%◌, ◌^◌, ◌≤◌, ◌<◌, ◌≡◌, arith, swap16, swap32}
use payloader.Rtp.Header.{
  RtpHeader, IsHeader, new_header, get_version, set_version, get_marker, set_marker, get_extension,
  set_extension, get_cc, set_cc, get_payload_type, set_payload_type, get_seq_number, set_seq_number,
  get_timestamp, set_timestamp, get_ssrc, set_ssrc, get_ext_id, set_ext_id, get_ext_length,
  set_ext_length, get_header_length,
}

-- Each getter returns the low bits of what its setter was given: as many as the field holds.
pub get-set :
    (h : RtpHeader) (v : ℕ)
    → (get_version (set_version v h) ≡ v % 4)
      × (get_marker (set_marker v h) ≡ v % 2)
      × (get_extension (set_extension v h) ≡ v % 2)
      × (get_cc (set_cc v h) ≡ v % 16)
      × (get_payload_type (set_payload_type v h) ≡ v % 128)
      × (get_seq_number (set_seq_number v h) ≡ v % 2 ^ 16)
      × (get_timestamp (set_timestamp v h) ≡ v % 2 ^ 32)
      × (get_ssrc (set_ssrc v h) ≡ v % 2 ^ 32)
      × (get_ext_id (set_ext_id v h) ≡ v % 2 ^ 16)
      × (get_ext_length (set_ext_length v h) ≡ v % 2 ^ 16)
unfolding get_seq_number set_seq_number get_timestamp set_timestamp get_ssrc set_ssrc get_ext_id
    set_ext_id get_ext_length set_ext_length swap16 swap32
get-set h v = (
  omega arith,
  omega arith,
  omega arith,
  omega arith,
  omega arith,
  omega arith,
  omega arith,
  omega arith,
  omega arith,
  omega arith,
)

-- A new header, and a header whose fields are set by the setters, fits its bit-fields.
pub new_header-IsHeader : (garbage : ℕ) → garbage < 2 ^ 32 → IsHeader (new_header garbage)
new_header-IsHeader garbage h = omega arith

module _ (v : ℕ) {h : RtpHeader} (fits : IsHeader h) where
  pub set_marker-IsHeader : IsHeader (set_marker v h)
  set_marker-IsHeader = omega arith

  pub set_payload_type-IsHeader : IsHeader (set_payload_type v h)
  set_payload_type-IsHeader = omega arith

  pub set_seq_number-IsHeader : IsHeader (set_seq_number v h)
  unfolding set_seq_number swap16
  set_seq_number-IsHeader = omega arith

  pub set_timestamp-IsHeader : IsHeader (set_timestamp v h)
  unfolding set_timestamp swap32
  set_timestamp-IsHeader = omega arith

  pub set_ssrc-IsHeader : IsHeader (set_ssrc v h)
  unfolding set_ssrc swap32
  set_ssrc-IsHeader = omega arith

-- The length of a header that fits its bit-fields is at least the fixed part and at most
-- 262216.
pub get_header_length_bounds :
    (h : RtpHeader) → IsHeader h → (12 ≤ get_header_length h) × (get_header_length h ≤ 262216)
unfolding get_header_length swap16
get_header_length_bounds h f = grind arith
