-- ===== src/Rtp/Header/Front.antt =====
-- The header in front of a received packet.
use mathlib.Core.Path.{subst}
use payloader.Base.{
  sym, ◌∙◌, ℕ, ◌≤◌, ◌≡◌, refl, arith, ap, [], ◌∷◌, ◌++◌, Bytes, some, length, take,
}
use payloader.Rtp.Header.{RtpHeader, IsHeader, get_header_length, get_timestamp}
use payloader.Rtp.Header.Image.{image, read_header}
use payloader.Rtp.Header.Wire.{read_header_fixed}

four_bytes :
    (bytes : Bytes)
    → 4 ≤ length bytes
    → (a : ℕ) × (b : ℕ) × (c : ℕ) × (d : ℕ) × (rest : Bytes) × (bytes ≡ a ∷ b ∷ c ∷ d ∷ rest)
four_bytes [] h = absurd (omega arith)
four_bytes (a ∷ []) h = absurd (omega arith)
four_bytes (a ∷ b ∷ []) h = absurd (omega arith)
four_bytes (a ∷ b ∷ c ∷ []) h = absurd (omega arith)
four_bytes (a ∷ b ∷ c ∷ d ∷ rest) h = (a, b, c, d, rest, refl)

-- What a cast finds: a header of 12 bytes with the marker and the timestamp of `h`.
pub record Front (h : RtpHeader) (bytes : Bytes) : Type 0 where
  pub head : RtpHeader
  pub reads : read_header bytes ≡ some head
  pub short : get_header_length head ≡ 12
  pub same_marker : head.marker ≡ h.marker
  pub same_timestamp : get_timestamp head ≡ get_timestamp h

eight_bytes :
    (bytes : Bytes)
    → 8 ≤ length bytes
    → (a : ℕ) × (b : ℕ) × (c : ℕ) × (d : ℕ) × (e : ℕ) × (f : ℕ) × (g : ℕ) × (h : ℕ) × (rest : Bytes)
      × (bytes ≡ a ∷ b ∷ c ∷ d ∷ e ∷ f ∷ g ∷ h ∷ rest)
eight_bytes bytes room =
    let (a, b, c, d, rest1, e1) = four_bytes bytes (omega arith) in
    let (e, f, g, h, rest2, e2) = four_bytes rest1 (omega (arith, ap length e1)) in
    (a, b, c, d, e, f, g, h, rest2, e1 ∙ ap (λ (t : Bytes). a ∷ b ∷ c ∷ d ∷ t) e2)

front_of_eight :
    (h : RtpHeader) (b0 b1 b2 b3 b4 b5 b6 b7 : ℕ) (rest : Bytes)
    → IsHeader h
    → h.cc ≡ 0
    → h.hasextension ≡ 0
    → Front h (take 12 (image h) ++ (b0 ∷ b1 ∷ b2 ∷ b3 ∷ b4 ∷ b5 ∷ b6 ∷ b7 ∷ rest))
unfolding get_header_length get_timestamp
front_of_eight h b0 b1 b2 b3 b4 b5 b6 b7 rest f no_sources no_extension =
    let (x, y, z, found) = read_header_fixed h b0 b1 b2 b3 b4 b5 b6 b7 rest f in
    record {
      head = record h { extensionpayload = x; extensionlength = y; extensions = z };
      reads = found;
      short = ground arith;
      same_marker = refl;
      same_timestamp = refl;
    }

-- In a block of 20 bytes or more that begins with the first 12 bytes of the image of a header
-- without sources and extension, the cast finds a header of length 12 with the same marker and
-- timestamp.
pub image-Front :
    (h : RtpHeader) (rest : Bytes)
    → IsHeader h
    → h.cc ≡ 0
    → h.hasextension ≡ 0
    → 8 ≤ length rest
    → Front h (take 12 (image h) ++ rest)
image-Front h rest f no_sources no_extension room =
    let (b0, b1, b2, b3, b4, b5, b6, b7, rest', e) = eight_bytes rest room in
    subst (λ (r : Bytes). Front h (take 12 (image h) ++ r)) (sym e)
      (front_of_eight h b0 b1 b2 b3 b4 b5 b6 b7 rest' f no_sources no_extension)
