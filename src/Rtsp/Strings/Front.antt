-- ===== src/Rtsp/Strings/Front.antt =====
-- Strings and what is found in them, by their parts.
use payloader.Base.{
  ℕ, suc, ◌+◌, ◌≡◌, refl, ap, arith, [], ◌∷◌, ◌++◌, true, false, some, ◌==◌, Bytes, length, ok,
}
use payloader.Rtsp.Command.{starts_with}
use payloader.Rtsp.Places.{Lacks, Misses}
use payloader.Rtsp.Strings.{string_at, strstr}

-- The string of a block ends at its first zero.
pub string_at-Lacks : (text rest : Bytes) → Lacks 0 text → string_at (text ++ 0 ∷ rest) ≡ ok text
unfolding string_at
string_at-Lacks [] rest lacks = refl
string_at-Lacks (c ∷ text) rest (one, lacks) = rw (one) (rw (string_at-Lacks text rest lacks) refl)

pub strstr-front :
    (pattern front back : Bytes)
    → Misses pattern front back
    → starts_with pattern back ≡ true
    → strstr (front ++ back) pattern ≡ some (length front)
unfolding strstr
strstr-front pattern [] [] misses starts = rw (starts) refl
strstr-front pattern [] (b ∷ back) misses starts = rw (starts) refl
strstr-front pattern (c ∷ front) back (one, misses) starts =
    let count : 1 + length front ≡ suc (length front) = omega arith in
    rw (one) (rw (strstr-front pattern front back misses starts) (ap (λ (n : ℕ). some n) count))

pub Lacks-append : (c : ℕ) (xs ys : Bytes) → Lacks c xs → Lacks c ys → Lacks c (xs ++ ys)
Lacks-append c [] ys p q = q
Lacks-append c (x ∷ xs) ys (one, p) q = (one, Lacks-append c xs ys p q)

-- A line without a carriage return ends where one stands.
pub Lacks-Misses : (text back : Bytes) → Lacks 13 text → Misses (13 ∷ 10 ∷ []) text back
Lacks-Misses [] back lacks = tt
Lacks-Misses (c ∷ text) back (one, lacks) =
    let other : (13 == c) ≡ false = ground arith in (rw (other) refl, Lacks-Misses text back lacks)
