-- ===== src/Rtsp/Strings/Numbers.antt =====
-- A number that is printed is read again by `atoi`.
use mathlib.Core.List.{append_assoc}
use native.Mathlib.Nat.{pow-succ'}
use payloader.Base.{
  ℕ, zero, suc, ◌+◌, ◌-◌, ◌*◌, ◌/◌, ◌%◌, ◌^◌, ◌≤◌, ◌<◌, ◌≡◌, refl, sym, ap, ◌∙◌, arith, [], ◌∷◌,
  ◌++◌, true, false, ◌==◌, ltb, Bytes, ok, inl, inr, Bool-cases,
}
use payloader.Rtsp.{digits, print_int}
use payloader.Rtsp.Strings.{
  is_digit, is_space, skip_spaces, read_digits, signed, starts_digit, atoi,
}

read_digits-digit :
    (value n : ℕ) (rest : Bytes)
    → read_digits value ((48 + n % 10) ∷ rest) ≡ read_digits (value * 10 + n % 10) rest
read_digits-digit value n rest =
    let digit : is_digit (48 + n % 10) ≡ true = ground arith in
    let place : value * 10 + (48 + n % 10 - 48) ≡ value * 10 + n % 10 = omega arith in
    rw (digit, place)

read_digits-digits :
    (fuel n : ℕ) (rest : Bytes)
    → n < 10 ^ fuel
    → read_digits 0 (digits fuel n ++ rest) ≡ read_digits n rest
read_digits-digits zero n rest small = let none_left : n ≡ 0 = omega arith in rw (none_left)
read_digits-digits (suc fuel) n rest small = elim (Bool-cases (ltb n 10)) [
  | inl one ↦
      let last : 0 * 10 + n % 10 ≡ n = ground arith in
      rw (one) (read_digits-digit 0 n rest ∙ rw (last))
  | inr more ↦
      let power : 10 ^ suc fuel ≡ 10 * 10 ^ fuel = pow-succ' 10 fuel in
      let fewer : n / 10 < 10 ^ fuel = ground arith in
      let last : n / 10 * 10 + n % 10 ≡ n = omega arith in
      rw (more, append_assoc (digits fuel (n / 10)) ((48 + n % 10) ∷ []) rest)
        (read_digits-digits fuel (n / 10) ((48 + n % 10) ∷ rest) fewer
          ∙ (read_digits-digit (n / 10) n rest ∙ rw (last)))
]

-- Where a text begins with a digit, `atoi` reads it as a number without a sign.
abbrev IsUnsigned : Bytes → Type 0
IsUnsigned text = (d : ℕ) × (rest : Bytes) × (text ≡ d ∷ rest) × (48 ≤ d) × (d < 58)

digit-IsUnsigned : (n : ℕ) → IsUnsigned ((48 + n % 10) ∷ [])
digit-IsUnsigned n = (48 + n % 10, [], refl, omega arith, omega arith)

append-IsUnsigned : (text rest : Bytes) → IsUnsigned text → IsUnsigned (text ++ rest)
append-IsUnsigned text rest (d, others, e, low, high) =
    (d, others ++ rest, ap (λ (t : Bytes). t ++ rest) e, low, high)

digits-IsUnsigned : (fuel n : ℕ) → 0 < fuel → IsUnsigned (digits fuel n)
digits-IsUnsigned zero n h = absurd (omega arith)
digits-IsUnsigned (suc zero) n h = elim (Bool-cases (ltb n 10)) [
  | inl one ↦ rw (one) (digit-IsUnsigned n)
  | inr more ↦ rw (more) (digit-IsUnsigned n)
]
digits-IsUnsigned (suc (suc fuel)) n h = elim (Bool-cases (ltb n 10)) [
  | inl one ↦ rw (one) (digit-IsUnsigned n)
  | inr more ↦
      rw (more) (append-IsUnsigned _ _ (digits-IsUnsigned (suc fuel) (n / 10) (omega arith)))
]

signed-digit :
    (d : ℕ) (rest : Bytes) → 48 ≤ d → d < 58 → signed (skip_spaces (d ∷ rest)) ≡ (false, d ∷ rest)
signed-digit d rest low high =
    let no_space : is_space d ≡ false = ground arith in
    let no_minus : (d == 45) ≡ false = ground arith in
    let no_plus : (d == 43) ≡ false = ground arith in rw (no_space, no_minus, no_plus)

atoi-IsUnsigned :
    (text : Bytes) (n : ℕ)
    → IsUnsigned text
    → read_digits 0 text ≡ n
    → n < 2 ^ 31
    → atoi text ≡ ok n
unfolding atoi
atoi-IsUnsigned text n (d, rest, e, low, high) value small =
    let parts : signed (skip_spaces text) ≡ (false, text) =
      ap (λ (t : Bytes). signed (skip_spaces t)) e
      ∙ (signed-digit d rest low high ∙ ap (λ (t : Bytes). (false, t)) (sym e)) in
    let fits : ltb n (2 ^ 31) ≡ true = ground arith in rw (atoi, parts, value, fits)

read_digits-ends : (n : ℕ) (rest : Bytes) → starts_digit rest ≡ false → read_digits n rest ≡ n
read_digits-ends n [] ends = refl
read_digits-ends n (c ∷ rest) ends = rw (ends)

atoi-digits :
    (fuel n : ℕ) (rest : Bytes)
    → n < 10 ^ fuel
    → 0 < fuel
    → n < 2 ^ 31
    → starts_digit rest ≡ false
    → atoi (digits fuel n ++ rest) ≡ ok n
atoi-digits fuel n rest room some_left small ends =
    atoi-IsUnsigned (digits fuel n ++ rest) n
      (append-IsUnsigned (digits fuel n) rest (digits-IsUnsigned fuel n some_left))
      (read_digits-digits fuel n rest room ∙ read_digits-ends n rest ends) small

pub print_int-digits : (n : ℕ) → n < 2 ^ 31 → print_int n ≡ digits 10 n
print_int-digits n small = let positive : ltb n (2 ^ 31) ≡ true = ground arith in rw (positive)

-- A number below 2 ^ 31 that `printf` has written is read again by `atoi`, if no digit follows it.
pub atoi-print_int :
    (n : ℕ) (rest : Bytes)
    → n < 2 ^ 31
    → starts_digit rest ≡ false
    → atoi (print_int n ++ rest) ≡ ok n
atoi-print_int n rest small ends =
    ap (λ (t : Bytes). atoi (t ++ rest)) (print_int-digits n small)
    ∙ atoi-digits 10 n rest (omega arith) (omega arith) small ends
