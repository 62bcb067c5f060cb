-- ===== src/Rtsp/Fields.antt =====
-- `ParseRtspRequest` of src/libs/TcpConnection.cpp: the fields `CSeq` and `Content-Length`.
pub mod Line
pub mod Ending
use payloader.Base.{
  ℕ, zero, suc, ◌+◌, ◌-◌, List, [], ◌∷◌, Bool, true, false, ◌&&◌, ◌||◌, Option, none, some, ◌==◌,
  ltb, if◌then◌else◌, Bytes, take, drop, length, Outcome, ok, fault, timeout, ◌>>=◌,
}
use payloader.Rtsp.{Connection, codes}
use payloader.Rtsp.Command.{byte_at, starts_with, c_string}
use payloader.Rtsp.Strings.{string_at, scan_unsigned}
use payloader.Rtsp.Url.{skip_blanks, find_at, param_size}

-- The bytes up to the end of the line, for at most `room` bytes, and whether the end has been found.
unfoldable pub read_value : (room left : ℕ) → Bytes → (j : ℕ) → Outcome (Bytes × Bool)
read_value zero left m j = ok ([], false)
read_value (suc room) zero m j = ok ([], false)
read_value (suc room) (suc left) m j =
    let rest = read_value room left m (j + 1) in
    byte_at m j >>= λ c.
    (if (c == 13) || (c == 10) then ok ([], true) else rest >>= λ r. ok (c ∷ r.0, r.1))

-- The first `CSeq:` from `i` on; the flag says whether its line has been read to its end.
unfoldable pub read_c_seq : Bytes → (size i : ℕ) → Connection → Outcome (Connection × Bool)
read_c_seq m size i c = elim (find_at (size - 5 - i) (codes "CSeq:") m i) [
  | none ↦ ok (c, false)
  | some j ↦ skip_blanks (size - (j + 5)) m (j + 5) >>= λ at.
      read_value (param_size - 1) (size - at) m at >>= λ r.
      ok (record c { c_seq = c_string r.0 }, r.1)
]

-- `Content-Length:`, where the letter behind the dash is in either case.
abbrev pub is_content_length : Bytes → Bool
is_content_length text =
    starts_with (codes "Content-Length:") text || starts_with (codes "Content-length:") text

abbrev pub or_old : (old : ℕ) → Option ℕ → ℕ
or_old old none = old
or_old old (some n) = n

-- The loop over the rest of the request, which goes on behind a field; the last field counts.
unfoldable pub read_length : (fuel : ℕ) → Bytes → (size j old : ℕ) → Outcome ℕ
read_length zero m size j old = if ltb (j + 15) size then timeout else ok old
read_length (suc fuel) m size j old =
    let field = skip_blanks (size - (j + 15)) m (j + 15) >>= λ at. string_at (drop at m) >>= λ text.
    scan_unsigned text >>= λ num. read_length fuel m size (at + 1) (or_old old num) in
    let next = read_length fuel m size (j + 1) old in
    if ltb (j + 15) size then (if is_content_length (drop j m) then field else next) else ok old
