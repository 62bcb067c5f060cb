-- ===== src/Rtsp/Strings.antt =====
-- What `ParseRtspRequest` of src/libs/TcpConnection.cpp uses of the C library. A pointer into a
-- block is the block from there on.
pub mod Numbers
pub mod Front
pub mod Ending
use payloader.Base.{
  ℕ, zero, suc, ◌+◌, ◌-◌, ◌*◌, ◌^◌, List, [], ◌∷◌, Bool, true, false, ◌&&◌, ◌||◌, Option, none,
  some, ◌==◌, ltb, leb, if◌then◌else◌, Bytes, Outcome, ok, fault, ◌>>=◌, u32,
}
use payloader.Rtsp.Command.{starts_with}

-- The string that a pointer leads to: without a zero in the block the reading leaves it.
unfoldable pub string_at : Bytes → Outcome Bytes
string_at [] = fault
string_at (c ∷ block) = if c == 0 then ok [] else string_at block >>= λ text. ok (c ∷ text)

-- `strstr(text, pattern)` as the offset of the match.
unfoldable pub strstr : (text pattern : Bytes) → Option ℕ
strstr [] pattern = if starts_with pattern [] then some 0 else none
strstr (c ∷ text) pattern =
    if starts_with pattern (c ∷ text)
    then some 0
    else elim (strstr text pattern) [ none ↦ none | some at ↦ some (1 + at) ]

abbrev pub is_digit : ℕ → Bool
is_digit c = leb 48 c && leb c 57

-- `isspace`: a blank, or one of the five from tab to carriage return.
abbrev pub is_space : ℕ → Bool
is_space c = (c == 32) || (leb 9 c && leb c 13)

abbrev pub skip_spaces : Bytes → Bytes
skip_spaces [] = []
skip_spaces (c ∷ text) = if is_space c then skip_spaces text else c ∷ text

-- The digits at the front, and behind `value`, which has been read before.
abbrev pub read_digits : (value : ℕ) → Bytes → ℕ
read_digits value [] = value
read_digits value (c ∷ text) =
    if is_digit c then read_digits (value * 10 + (c - 48)) text else value

-- An optional sign, and the number behind it.
abbrev pub signed : Bytes → Bool × Bytes
signed [] = (false, [])
signed (c ∷ text) = if c == 45 then (true, text) else (false, if c == 43 then text else c ∷ text)

-- `atoi` as the pattern of its `int`. The behaviour is undefined where the number does not fit.
unfoldable pub atoi : Bytes → Outcome ℕ
atoi text =
    let (negative, rest) = signed (skip_spaces text) in
    let value = read_digits 0 rest in
    if negative
    then (if leb value (2 ^ 31) then ok (u32 (2 ^ 32 - value)) else fault)
    else (if ltb value (2 ^ 31) then ok value else fault)

abbrev pub starts_digit : Bytes → Bool
starts_digit [] = false
starts_digit (c ∷ text) = is_digit c

-- `sscanf(text, "%u", &num)`: the number, or `none` where no item is read. The behaviour is undefined
-- where the number does not fit.
unfoldable pub scan_unsigned : Bytes → Outcome (Option ℕ)
scan_unsigned text =
    let (negative, rest) = signed (skip_spaces text) in
    let value = read_digits 0 rest in
    if starts_digit rest
    then (if ltb value (2 ^ 32)
        then ok (some (if negative then u32 (2 ^ 32 - value) else value))
        else fault)
    else ok none
