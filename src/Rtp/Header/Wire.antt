-- ===== src/Rtp/Header/Wire.antt =====
-- The memory image of a header against the packet format of RFC 3550.
use payloader.Base.{
  ℕ, ◌+◌, ◌*◌, ◌/◌, ◌%◌, ◌^◌, ◌≡◌, refl, arith, [], ◌∷◌, ◌++◌, Bytes, some, length, take, swap16,
  swap32,
}
use payloader.Rtp.Header.{RtpHeader, IsHeader, get_seq_number, get_timestamp, get_ssrc}
use payloader.Rtp.Header.Image.{first_word, image, read_header}

-- RFC 3550, section 5.1: the fixed header, most significant byte and bit first.
abbrev pub big_endian16 : ℕ → Bytes
big_endian16 n = n / 256 % 256 ∷ n % 256 ∷ []

abbrev pub big_endian32 : ℕ → Bytes
big_endian32 n = n / 2 ^ 24 % 256 ∷ n / 2 ^ 16 % 256 ∷ n / 2 ^ 8 % 256 ∷ n % 256 ∷ []

abbrev pub fixed_header : (v p x cc m pt seq ts ssrc : ℕ) → Bytes
fixed_header v p x cc m pt seq ts ssrc =
    (v * 64 + p * 32 + x * 16 + cc)
    ∷ (m * 128 + pt)
    ∷ (big_endian16 seq ++ (big_endian32 ts ++ big_endian32 ssrc))

byte_ext : {a b a' b' : ℕ} {xs ys : Bytes} → a ≡ a' → b ≡ b' → xs ≡ ys → a ∷ b ∷ xs ≡ a' ∷ b' ∷ ys
byte_ext p q r = cc

-- For a header that fits its bit-fields, the first 12 bytes that it occupies in memory are the
-- RFC 3550 fixed header of its bit-fields and of the values that the getters return.
pub image-fixed_header :
    (h : RtpHeader)
    → IsHeader h
    → take 12 (image h)
      ≡ fixed_header h.version h.padding h.hasextension h.cc h.marker h.payloadtype
          (get_seq_number h)
          (get_timestamp h)
          (get_ssrc h)
unfolding image first_word get_seq_number get_timestamp get_ssrc swap16 swap32
image-fixed_header h f = byte_ext (omega arith) (omega arith) (
    byte_ext (omega arith) (omega arith) (
      byte_ext (omega arith) (omega arith) (
        byte_ext (omega arith) (omega arith)
          (byte_ext (omega arith) (omega arith) (byte_ext (omega arith) (omega arith) refl)))))

pub length-image : (h : RtpHeader) → length (image h) ≡ 20
unfolding image
length-image h = refl

-- For a header that fits its bit-fields, a cast of its image reads the header back, whatever
-- follows it in memory.
pub read_header-image :
    (h : RtpHeader) (rest : Bytes) → IsHeader h → read_header (image h ++ rest) ≡ some h
unfolding image first_word read_header
read_header-image h rest f = ground arith

-- Where only the first 12 bytes are those of the image, the cast reads the same header but for the
-- extension's fields, which are those of the 8 bytes behind.
pub read_header_fixed :
    (h : RtpHeader) (b0 b1 b2 b3 b4 b5 b6 b7 : ℕ) (rest : Bytes)
    → IsHeader h
    → (payload : ℕ) × (words : ℕ) × (ext : ℕ) × (read_header
          (take 12 (image h) ++ (b0 ∷ b1 ∷ b2 ∷ b3 ∷ b4 ∷ b5 ∷ b6 ∷ b7 ∷ rest))
        ≡ some (record h { extensionpayload = payload; extensionlength = words; extensions = ext }))
unfolding image first_word read_header
read_header_fixed h b0 b1 b2 b3 b4 b5 b6 b7 rest f = (
  (b0 + b1 * 2 ^ 8 + b2 * 2 ^ 16 + b3 * 2 ^ 24) % 2 ^ 16,
  (b0 + b1 * 2 ^ 8 + b2 * 2 ^ 16 + b3 * 2 ^ 24) / 2 ^ 16,
  b4 + b5 * 2 ^ 8 + b6 * 2 ^ 16 + b7 * 2 ^ 24,
  ground arith,
)
