-- ===== src/Rtp/Header/Image.antt =====
-- The bytes of an RtpHeader in memory, as `memcpy` takes them and a cast of a buffer reads them.
-- The layout is that of GCC on a little-endian host: bit-fields from the lowest bit up.
use payloader.Base.{ℕ, ◌+◌, ◌*◌, ◌/◌, ◌%◌, ◌^◌, [], ◌∷◌, ◌++◌, Bytes, Option, none, some}
use payloader.Rtp.Header.{RtpHeader}

abbrev pub word_bytes : ℕ → Bytes
word_bytes w = w % 256 ∷ w / 2 ^ 8 % 256 ∷ w / 2 ^ 16 % 256 ∷ w / 2 ^ 24 % 256 ∷ []

-- The first 32 bits: cc 4, hasextension 1, padding 1, version 2, payloadtype 7, marker 1, seqnum 16.
unfoldable pub first_word : RtpHeader → ℕ
first_word h =
    h.cc
    + h.hasextension * 2 ^ 4
    + h.padding * 2 ^ 5
    + h.version * 2 ^ 6
    + h.payloadtype * 2 ^ 8
    + h.marker * 2 ^ 15
    + h.seqnum * 2 ^ 16

unfoldable pub image : RtpHeader → Bytes
image h =
    word_bytes (first_word h)
    ++ (word_bytes h.timestamp
        ++ (word_bytes h.ssrc
            ++ (word_bytes (h.extensionpayload + h.extensionlength * 2 ^ 16)
                ++ word_bytes h.extensions)))

abbrev word_at : ℕ → ℕ → ℕ → ℕ → ℕ
word_at b0 b1 b2 b3 = b0 + b1 * 2 ^ 8 + b2 * 2 ^ 16 + b3 * 2 ^ 24

abbrev of_words : ℕ → ℕ → ℕ → ℕ → ℕ → RtpHeader
of_words w t s x e = record {
  cc = w % 2 ^ 4;
  hasextension = w / 2 ^ 4 % 2;
  padding = w / 2 ^ 5 % 2;
  version = w / 2 ^ 6 % 2 ^ 2;
  payloadtype = w / 2 ^ 8 % 2 ^ 7;
  marker = w / 2 ^ 15 % 2;
  seqnum = w / 2 ^ 16 % 2 ^ 16;
  timestamp = t;
  ssrc = s;
  extensionpayload = x % 2 ^ 16;
  extensionlength = x / 2 ^ 16;
  extensions = e;
}

-- A 32-bit load from the front of a block, and what follows it.
unfoldable pub read_word : Bytes → Option (ℕ × Bytes)
read_word (b0 ∷ b1 ∷ b2 ∷ b3 ∷ rest) = some (word_at b0 b1 b2 b3, rest)
read_word _ = none

infixl 5 ◌>>=◌
abbrev ◌>>=◌ {ℓ κ} : {A : Type ℓ} {B : Type κ} → Option A → (A → Option B) → Option B
none >>= f = none
some a >>= f = f a

-- `reinterpret_cast<RtpHeader*>`: the fields of the 20 bytes that stand in front.
unfoldable pub read_header : Bytes → Option RtpHeader
unfolding read_word
read_header bytes = do
  (w, bytes1) ← read_word bytes
  (t, bytes2) ← read_word bytes1
  (s, bytes3) ← read_word bytes2
  (x, bytes4) ← read_word bytes3
  (e, bytes5) ← read_word bytes4
  some (of_words w t s x e)
