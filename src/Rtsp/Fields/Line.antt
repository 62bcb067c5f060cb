-- ===== src/Rtsp/Fields/Line.antt =====
-- The number of a request is the text of its line.
use payloader.Base.{
  ℕ, zero, suc, ◌+◌, ◌-◌, ◌<◌, ◌≡◌, refl, arith, [], ◌∷◌, ◌++◌, true, false, ◌||◌, some, ◌==◌,
  Bytes, drop, length, ok,
}
use payloader.Rtsp.{Connection, codes}
use payloader.Rtsp.Command.{is_blank, c_string}
use payloader.Rtsp.Url.{skip_blanks, find_at}
use payloader.Rtsp.Places.{drop_next, byte_front}
use payloader.Rtsp.Fields.{read_value, read_c_seq}

-- A text on one line, without a zero.
abbrev pub IsLine : Bytes → Type 0
IsLine [] = Unit
IsLine (c ∷ cs) = (((c == 13) || (c == 10)) ≡ false) × ((c == 0) ≡ false) × IsLine cs

c_string-IsLine : (text : Bytes) → IsLine text → c_string text ≡ text
c_string-IsLine [] is_line = refl
c_string-IsLine (c ∷ cs) (one_line, no_zero, rest) = rw (no_zero, c_string-IsLine cs rest)

read_value-line :
    (text rest m : Bytes) (room left j : ℕ)
    → IsLine text
    → drop j m ≡ text ++ 13 ∷ rest
    → length text < room
    → length text < left
    → read_value room left m j ≡ ok (text, true)
unfolding read_value
read_value-line text rest m zero left j is_line e has_room inside = absurd (omega arith)
read_value-line text rest m (suc room) zero j is_line e has_room inside = absurd (omega arith)
read_value-line [] rest m (suc room) (suc left) j is_line e has_room inside =
    let byte = byte_front m rest 13 j e in rw (read_value, byte)
read_value-line (c ∷ cs) rest m (suc room) (suc left) j (one_line, no_zero, more) e has_room
      inside =
    let byte = byte_front m (cs ++ 13 ∷ rest) c j e in
    let later =
      read_value-line cs rest m room left (j + 1) more (drop_next m (cs ++ 13 ∷ rest) c j e)
        (omega arith) (omega arith) in
    rw (read_value, byte) (rw (one_line, later))

skip_blanks-one :
    (m rest : Bytes) (c left j : ℕ)
    → is_blank c ≡ false
    → drop j m ≡ 32 ∷ c ∷ rest
    → 1 < left
    → skip_blanks left m j ≡ ok (j + 1)
unfolding skip_blanks is_blank
skip_blanks-one m rest c zero j letter e inside = absurd (omega arith)
skip_blanks-one m rest c (suc zero) j letter e inside = absurd (omega arith)
skip_blanks-one m rest c (suc (suc left)) j letter e inside =
    let byte = byte_front m (c ∷ rest) 32 j e in
    let next = byte_front m rest c (j + 1) (drop_next m (c ∷ rest) 32 j e) in
    rw (skip_blanks, byte, next, letter)

-- The first `CSeq:` of a request, with a space and a line of at most 198 bytes behind it that begins
-- with no blank: its text becomes the number of the request, whatever it was before.
pub read_c_seq-line :
    (m text rest : Bytes) (c size i j : ℕ) (connection : Connection)
    → find_at (size - 5 - i) (codes "CSeq:") m i ≡ some j
    → drop (j + 5) m ≡ 32 ∷ c ∷ text ++ 13 ∷ rest
    → is_blank c ≡ false
    → IsLine (c ∷ text)
    → length (c ∷ text) < 199
    → j + 6 + length (c ∷ text) < size
    → read_c_seq m size i connection ≡ ok (record connection { c_seq = c ∷ text }, true)
unfolding read_c_seq
read_c_seq-line m text rest c size i j connection found e letter is_line short inside =
    let skipped =
      skip_blanks-one m (text ++ 13 ∷ rest) c (size - (j + 5)) (j + 5) letter e (omega arith) in
    let value =
      read_value-line (c ∷ text) rest m 199 (size - (j + 5 + 1)) (j + 5 + 1) is_line
        (drop_next m (c ∷ text ++ 13 ∷ rest) 32 (j + 5) e) short (omega arith) in
    let string = c_string-IsLine (c ∷ text) is_line in
    rw (read_c_seq, found) (rw (skipped) (rw (value) (rw (string))))
