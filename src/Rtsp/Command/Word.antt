-- ===== src/Rtsp/Command/Word.antt =====
-- The command of a request is the word in front of its first blank.
use payloader.Base.{
  ℕ, zero, suc, ◌+◌, ◌<◌, ◌≡◌, refl, sym, arith, ap, ◌∙◌, [], ◌∷◌, ◌++◌, true, false, Option, some,
  ltb, lt→ltb, drop, drop-drop, length, Bytes, Outcome, ok, ◌>>=◌,
}
use payloader.Rtsp.Command.{read_command, byte_at, is_blank, prepend, command_byte}

-- A word without a blank.
abbrev pub IsWord : Bytes → Type 0
IsWord [] = Unit
IsWord (c ∷ cs) = (is_blank c ≡ false) × IsWord cs

command_byte-blank :
    (i c : ℕ) (rest : Outcome (Option (Bytes × ℕ)))
    → is_blank c ≡ true
    → command_byte i rest c ≡ ok (some ([], i))
unfolding command_byte
command_byte-blank i c rest b = rw (command_byte, b)

command_byte-letter :
    (i c : ℕ) (rest : Outcome (Option (Bytes × ℕ)))
    → is_blank c ≡ false
    → command_byte i rest c ≡ (rest >>= λ found. ok (prepend c found))
unfolding command_byte
command_byte-letter i c rest b = rw (command_byte, b)

read_command-from :
    (room : ℕ) (request word rest : Bytes) (blank size i : ℕ)
    → drop i request ≡ word ++ blank ∷ rest
    → IsWord word
    → is_blank blank ≡ true
    → length word < room
    → i + length word < size
    → read_command room request size i ≡ ok (some (word, i + length word))
unfolding read_command
read_command-from zero request word rest blank size i e w b space inside = absurd (omega arith)
read_command-from (suc room) request [] rest blank size i e w b space inside =
    let more : ltb i size ≡ true = lt→ltb i size (omega arith) in
    let zero_more : i + 0 ≡ i = omega arith in
    let byte : byte_at request i ≡ ok blank = rw (byte_at, e) in
    rw (read_command, more, byte) (command_byte-blank i blank _ b ∙ rw (zero_more))
read_command-from (suc room) request (c ∷ cs) rest blank size i e (one, w) b space inside =
    let more : ltb i size ≡ true = lt→ltb i size (omega arith) in
    let next : drop (i + 1) request ≡ cs ++ blank ∷ rest =
      sym (drop-drop 1 i (i + 1) request refl) ∙ ap (λ (t : Bytes). drop 1 t) e in
    let later =
      read_command-from room request cs rest blank size (i + 1) next w b (omega arith)
        (omega arith) in
    let place : i + 1 + length cs ≡ i + suc (length cs) = omega arith in
    let byte : byte_at request i ≡ ok c = rw (byte_at, e) in
    rw (read_command, more, byte) (command_byte-letter i c _ one ∙ rw (later, place))

-- A request that begins with a word of fewer than 199 bytes and a blank, all of them received: the
-- command is that word, whatever follows, and the reading goes on at the blank.
pub read_command-word :
    (word rest : Bytes) (blank size : ℕ)
    → IsWord word
    → is_blank blank ≡ true
    → length word < 199
    → length word < size
    → read_command 199 (word ++ blank ∷ rest) size 0 ≡ ok (some (word, length word))
read_command-word word rest blank size w b space inside =
    let none_before : 0 + length word ≡ length word = omega arith in
    read_command-from 199 (word ++ blank ∷ rest) word rest blank size 0 refl w b space (omega arith)
    ∙ ap (λ at. ok (some (word, at))) none_before
