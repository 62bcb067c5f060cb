-- ===== src/Rtsp/Places.antt =====
-- The bytes of a request at their places in the block.
use payloader.Base.{
  ℕ, zero, suc, ◌+◌, ◌<◌, ◌≡◌, refl, sym, ap, ◌∙◌, arith, [], ◌∷◌, ◌++◌, true, false, some, ◌==◌,
  Bytes, drop, drop-drop, drop-append, length, ok,
}
use payloader.Rtsp.Command.{byte_at, starts_with}
use payloader.Rtsp.Url.{find_at}

pub drop_next : (m rest : Bytes) (c j : ℕ) → drop j m ≡ c ∷ rest → drop (j + 1) m ≡ rest
drop_next m rest c j e = sym (drop-drop 1 j (j + 1) m refl) ∙ ap (λ (t : Bytes). drop 1 t) e

pub byte_front : (m rest : Bytes) (c j : ℕ) → drop j m ≡ c ∷ rest → byte_at m j ≡ ok c
byte_front m rest c j e = rw (byte_at, e)

-- The place behind a part.
pub drop_part :
    (m part rest : Bytes) (j k : ℕ)
    → drop j m ≡ part ++ rest
    → k ≡ j + length part
    → drop k m ≡ rest
drop_part m part rest j k e place =
    sym (drop-drop (length part) j k m place)
    ∙ (ap (λ (t : Bytes). drop (length part) t) e ∙ drop-append part rest (length part) refl)

-- The byte `c` stands nowhere in the text.
abbrev pub Lacks : ℕ → Bytes → Type 0
Lacks c [] = Unit
Lacks c (b ∷ bs) = ((b == c) ≡ false) × Lacks c bs

-- A byte of a part that lacks another one.
pub byte_of_part :
    (c : ℕ) (m part rest : Bytes) (j n : ℕ)
    → Lacks c part
    → drop j m ≡ part ++ rest
    → n < length part
    → (b : ℕ) × (byte_at m (j + n) ≡ ok b) × ((b == c) ≡ false)
byte_of_part c m [] rest j n lacks e inside = absurd (omega arith)
byte_of_part c m (b ∷ bs) rest j zero (one, lacks) e inside =
    let place : j + 0 ≡ j = omega arith in
    (b, ap (λ (k : ℕ). byte_at m k) place ∙ byte_front m (bs ++ rest) b j e, one)
byte_of_part c m (b ∷ bs) rest j (suc n) (one, lacks) e inside =
    let (d, byte, differs) =
      byte_of_part c m bs rest (j + 1) n lacks (drop_next m (bs ++ rest) b j e) (omega arith) in
    let place : j + suc n ≡ j + 1 + n = omega arith in
    (d, ap (λ (k : ℕ). byte_at m k) place ∙ byte, differs)

-- The text `text` does not begin inside `front`, where `back` follows.
abbrev pub Misses : Bytes → (front back : Bytes) → Type 0
Misses text [] back = Unit
Misses text (c ∷ front) back =
    (starts_with text (c ∷ (front ++ back)) ≡ false) × Misses text front back

pub find_at-front :
    (rounds : ℕ) (text m front back : Bytes) (k : ℕ)
    → drop k m ≡ front ++ back
    → Misses text front back
    → starts_with text back ≡ true
    → length front < rounds
    → find_at rounds text m k ≡ some (k + length front)
unfolding find_at
find_at-front zero text m front back k e misses starts enough = absurd (omega arith)
find_at-front (suc rounds) text m [] back k e misses starts enough =
    let found : starts_with text (drop k m) ≡ true = ap (starts_with text) e ∙ starts in
    let place : k + 0 ≡ k = omega arith in rw (find_at, found) (rw (place) refl)
find_at-front (suc rounds) text m (c ∷ front) back k e (one, misses) starts enough =
    let not_yet : starts_with text (drop k m) ≡ false = ap (starts_with text) e ∙ one in
    let later =
      find_at-front rounds text m front back (k + 1) (drop_next m (front ++ back) c k e) misses
        starts (omega arith) in
    let place : k + suc (length front) ≡ k + 1 + length front = omega arith in
    rw (find_at, not_yet) (later ∙ ap (λ (n : ℕ). some n) (sym place))
