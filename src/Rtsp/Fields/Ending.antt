-- ===== src/Rtsp/Fields/Ending.antt =====
-- The loops over the fields end.
use payloader.Base.{
  ℕ, zero, suc, ◌+◌, ◌-◌, arith, [], true, false, ◌||◌, ◌==◌, ltb, Bytes, drop, ok, ◌>>=◌, Ends,
  bind-Ends, ◌≤◌, ◌≡◌, if-Ends, option-Ends,
}
use payloader.Rtsp.{Connection, codes}
use payloader.Rtsp.Command.{byte_at, c_string}
use payloader.Rtsp.Strings.{string_at, scan_unsigned}
use payloader.Rtsp.Url.{skip_blanks, find_at, param_size}
use payloader.Rtsp.Fields.{read_value, read_c_seq, read_length, is_content_length, or_old}
use payloader.Rtsp.Url.Ending.{byte_at-Ends, skip_blanks-Ends, skip_blanks_le}
use payloader.Rtsp.Strings.Ending.{string_at-Ends, scan_unsigned-Ends}

read_value-Ends : (room left : ℕ) (m : Bytes) (j : ℕ) → Ends (read_value room left m j)
unfolding read_value
read_value-Ends zero left m j = tt
read_value-Ends (suc room) zero m j = tt
read_value-Ends (suc room) (suc left) m j = bind-Ends (byte_at m j) _ (byte_at-Ends m j) (λ c e.
    if-Ends ((c == 13) || (c == 10)) (ok ([], true)) _ tt (
      bind-Ends (read_value room left m (j + 1)) _ (read_value-Ends room left m (j + 1))
        (λ r e2. tt)))

pub read_c_seq-Ends : (m : Bytes) (size i : ℕ) (c : Connection) → Ends (read_c_seq m size i c)
unfolding read_c_seq
read_c_seq-Ends m size i c =
    option-Ends (find_at (size - 5 - i) (codes "CSeq:") m i) (ok (c, false))
      (λ j. skip_blanks (size - (j + 5)) m (j + 5) >>= λ at.
        read_value (param_size - 1) (size - at) m at >>= λ r.
        ok (record c { c_seq = c_string r.0 }, r.1))
      tt
      (λ j. bind-Ends (skip_blanks (size - (j + 5)) m (j + 5)) _ (skip_blanks-Ends _ m _) (λ at e.
        bind-Ends (read_value (param_size - 1) (size - at) m at) _ (read_value-Ends _ _ m at)
          (λ r e2. tt)))

-- As many rounds as there are bytes left are enough for the search for the length.
pub read_length-Ends :
    (fuel : ℕ) (m : Bytes) (size j old : ℕ) → size ≤ j + fuel → Ends (read_length fuel m size j old)
unfolding read_length
read_length-Ends zero m size j old enough =
    let over : ltb (j + 15) size ≡ false = ground arith in rw (over) tt
read_length-Ends (suc fuel) m size j old enough =
    let next = read_length-Ends fuel m size (j + 1) old (omega arith) in
    let field =
      bind-Ends (skip_blanks (size - (j + 15)) m (j + 15)) _ (skip_blanks-Ends _ m _) (λ at e.
        let forwards = skip_blanks_le _ m (j + 15) at e in
        bind-Ends (string_at (drop at m)) _ (string_at-Ends (drop at m)) (λ text e2.
          bind-Ends (scan_unsigned text) _ (scan_unsigned-Ends text)
            (λ num e3. read_length-Ends fuel m size (at + 1) (or_old old num) (omega arith)))) in
    if-Ends (ltb (j + 15) size) _ (ok old) (if-Ends (is_content_length (drop j m)) _ _ field next)
      tt
