-- ===== src/Rtsp/Strings/Ending.antt =====
-- What the parse uses of the C library ends.
use payloader.Base.{
  ℕ, ◌-◌, ◌^◌, [], ◌∷◌, true, false, Option, none, some, ◌==◌, ltb, leb, if◌then◌else◌, Bytes, ok,
  fault, Ends, bind-Ends, u32, Bool, if-Ends,
}
use payloader.Rtsp.Strings.{
  string_at, atoi, scan_unsigned, signed, skip_spaces, read_digits, starts_digit,
}

pub string_at-Ends : (block : Bytes) → Ends (string_at block)
unfolding string_at
string_at-Ends [] = tt
string_at-Ends (c ∷ block) =
    if-Ends (c == 0) (ok []) _ tt (bind-Ends (string_at block) _ (string_at-Ends block) (λ t e. tt))

pub number-Ends :
    (is_number fits : Bool) (num : Option ℕ)
    → Ends (if is_number then (if fits then ok num else fault) else ok none)
number-Ends true true num = tt
number-Ends true false num = tt
number-Ends false fits num = tt

pub scan_unsigned-Ends : (text : Bytes) → Ends (scan_unsigned text)
unfolding scan_unsigned
scan_unsigned-Ends text =
    let (negative, rest) = signed (skip_spaces text) in
    let value = read_digits 0 rest in
    number-Ends (starts_digit rest) (ltb value (2 ^ 32))
      (some (if negative then u32 (2 ^ 32 - value) else value))

pub atoi-Ends : (text : Bytes) → Ends (atoi text)
unfolding atoi
atoi-Ends text =
    let (negative, rest) = signed (skip_spaces text) in
    let value = read_digits 0 rest in
    if-Ends negative (if leb value (2 ^ 31) then ok (u32 (2 ^ 32 - value)) else fault)
      (if ltb value (2 ^ 31) then ok value else fault)
      (if-Ends (leb value (2 ^ 31)) (ok (u32 (2 ^ 32 - value))) fault tt tt)
      (if-Ends (ltb value (2 ^ 31)) (ok value) fault tt tt)
