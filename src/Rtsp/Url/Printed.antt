-- ===== src/Rtsp/Url/Printed.antt =====
-- A URL that is written out is read again: its host and the two parts of its path.
use payloader.Base.{
  ℕ, zero, suc, ◌+◌, ◌-◌, ◌≤◌, ◌<◌, ◌≡◌, refl, sym, ap, ◌∙◌, arith, [], ◌∷◌, ◌++◌, true, false,
  ◌==◌, ltb, leb, Bytes, drop, length, ok, le→leb, lt→ltb,
}
use payloader.Rtsp.{codes}
use payloader.Rtsp.Command.{byte_at, is_blank}
use payloader.Rtsp.Places.{drop_next, byte_front, drop_part, Lacks, byte_of_part}
use payloader.Rtsp.Url.{
  skip_blanks, is_rtsp_url, read_host, skip_prefix, find_url, skip_back, back_to_slash,
}

pub skip_blanks-none :
    (left : ℕ) (m rest : Bytes) (c j : ℕ)
    → drop j m ≡ c ∷ rest
    → is_blank c ≡ false
    → skip_blanks left m j ≡ ok j
unfolding skip_blanks
skip_blanks-none zero m rest c j e letter = refl
skip_blanks-none (suc left) m rest c j e letter =
    let byte = byte_front m rest c j e in rw (skip_blanks, byte) (rw (letter) refl)

-- The host ends at a slash or a space.
read_host-host :
    (left : ℕ) (m host rest : Bytes) (j : ℕ)
    → drop j m ≡ host ++ 47 ∷ rest
    → Lacks 47 host
    → Lacks 32 host
    → length host < left
    → read_host left m j ≡ ok (j + length host, host)
unfolding read_host
read_host-host zero m host rest j e slash space enough = absurd (omega arith)
read_host-host (suc left) m [] rest j e slash space enough =
    let byte = byte_front m rest 47 j e in
    let place : j + 0 ≡ j = omega arith in rw (read_host, byte) (rw (place) refl)
read_host-host (suc left) m (c ∷ host) rest j e (not_slash, slash) (not_space, space) enough =
    let byte = byte_front m (host ++ 47 ∷ rest) c j e in
    let later =
      read_host-host left m host rest (j + 1) (drop_next m (host ++ 47 ∷ rest) c j e) slash space
        (omega arith) in
    let place : j + suc (length host) ≡ j + 1 + length host = omega arith in
    rw (read_host, byte) (rw (not_slash, not_space) (rw (later) (rw (place) refl)))

-- The URL stands where the search begins.
pub find_url-front :
    (rounds : ℕ) (m host rest : Bytes) (size j i : ℕ)
    → drop j m ≡ codes "rtsp://" ++ (host ++ 47 ∷ rest)
    → Lacks 47 host
    → Lacks 32 host
    → 0 < rounds
    → j + 7 + length host < size
    → find_url rounds m size j i ≡ ok (j + 7 + length host, host)
unfolding find_url skip_prefix
find_url-front zero m host rest size j i e slash space some_round inside = absurd (omega arith)
find_url-front (suc rounds) m host rest size j i e slash space some_round inside =
    let found : is_rtsp_url (drop j m) ≡ true = ap is_rtsp_url e in
    let six : drop (j + 6) m ≡ 47 ∷ (host ++ 47 ∷ rest) =
      drop_part m (codes "rtsp:/") (47 ∷ (host ++ 47 ∷ rest)) j (j + 6) e refl in
    let byte = byte_front m (host ++ 47 ∷ rest) 47 (j + 6) six in
    let seven = drop_part m (codes "rtsp://") (host ++ 47 ∷ rest) j (j + 7) e refl in
    let read =
      read_host-host (size - (j + 7)) m host rest (j + 7) seven slash space (omega arith) in
    rw (find_url, found) (rw (skip_prefix, byte) read)

-- One blank behind a place that has none.
pub skip_back-blank :
    (m : Bytes) (k i b : ℕ)
    → byte_at m (suc k) ≡ ok 32
    → byte_at m k ≡ ok b
    → (b == 32) ≡ false
    → 0 < k
    → i ≤ k
    → skip_back (suc k) m i ≡ ok k
unfolding skip_back
skip_back-blank m zero i b blank byte letter positive before = absurd (omega arith)
skip_back-blank m (suc k) i b blank byte letter positive before =
    let two : leb i (suc (suc k)) ≡ true = le→leb i (suc (suc k)) (omega arith) in
    let one : leb i (suc k) ≡ true = le→leb i (suc k) before in
    rw (skip_back, two, blank) (rw (one, byte) (rw (letter) refl))

-- Back over a part without a slash to the slash in front of it.
pub back_to_slash-part :
    (m part rest : Bytes) (i k1 n : ℕ)
    → Lacks 47 part
    → drop k1 m ≡ 47 ∷ (part ++ rest)
    → n ≤ length part
    → i < k1
    → back_to_slash (k1 + n) m i ≡ ok k1
unfolding back_to_slash
back_to_slash-part m part rest i zero n lacks e inside behind = absurd (omega arith)
back_to_slash-part m part rest i (suc k1) zero lacks e inside behind =
    let byte = byte_front m (part ++ rest) 47 (suc k1) e in
    let place : suc k1 + 0 ≡ suc k1 = omega arith in
    let more : ltb i (suc k1) ≡ true = lt→ltb i (suc k1) behind in
    ap (λ (k : ℕ). back_to_slash k m i) place ∙ rw (back_to_slash, more, byte) refl
back_to_slash-part m part rest i (suc k1) (suc n) lacks e inside behind =
    let (b, byte, other) =
      byte_of_part 47 m part rest (suc k1 + 1) n lacks (drop_next m (part ++ rest) 47 (suc k1) e)
        (omega arith) in
    let place : suc k1 + suc n ≡ suc (k1 + suc n) = omega arith in
    let same : suc k1 + 1 + n ≡ suc (k1 + suc n) = omega arith in
    let byte' : byte_at m (suc (k1 + suc n)) ≡ ok b =
      ap (λ (k : ℕ). byte_at m k) (sym same) ∙ byte in
    let more : ltb i (suc (k1 + suc n)) ≡ true = lt→ltb i (suc (k1 + suc n)) (omega arith) in
    let down : suc k1 + n ≡ k1 + suc n = omega arith in
    let later : back_to_slash (k1 + suc n) m i ≡ ok (suc k1) =
      ap (λ (k : ℕ). back_to_slash k m i) (sym down)
      ∙ back_to_slash-part m part rest i (suc k1) n lacks e (omega arith) behind in
    ap (λ (k : ℕ). back_to_slash k m i) place ∙ rw (back_to_slash, more, byte') (rw (other) later)
