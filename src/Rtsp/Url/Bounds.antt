-- ===== src/Rtsp/Url/Bounds.antt =====
-- The parts of the path fit their arrays of 200 bytes, and the parse goes on inside the request.
use payloader.Base.{
  ℕ, zero, suc, ◌+◌, ◌-◌, ◌^◌, ◌≤◌, ◌<◌, ◌≡◌, refl, arith, [], ◌∷◌, false, Option, none, some, ◌==◌,
  ltb, leb, Bytes, drop, length, length-take, ok, u32, inl, inr, Bool-cases, bind-eq-ok,
  Option-cases,
}
use payloader.Rtsp.{Connection, codes}
use payloader.Rtsp.Command.{byte_at, starts_with, c_string}
use payloader.Rtsp.Url.{
  find_at, skip_back, back_to_slash, slice, store_parts, read_suffix, param_size,
}

-- The strings of the path leave room for their zeros.
abbrev pub IsPath : Connection → Type 0
IsPath c = (length c.url_pre_suffix < param_size) × (length c.url_suffix < param_size)

pub length-c_string : (text : Bytes) → length (c_string text) ≤ length text
length-c_string [] = omega arith
length-c_string (x ∷ text) = let rest = length-c_string text in ground arith

length-slice : (m : Bytes) (from to : ℕ) → length (c_string (slice m from to)) ≤ to + 1 - from
length-slice m from to =
    omega (arith, length-c_string (slice m from to), length-take (to + 1 - from) (drop from m))

-- A text that is found stands behind the start and inside the rounds.
pub find_at_bounds :
    (rounds : ℕ) (text m : Bytes) (k at : ℕ)
    → find_at rounds text m k ≡ some at
    → (k ≤ at) × (at < k + rounds)
unfolding find_at
find_at_bounds zero text m k at e = ground arith
find_at_bounds (suc rounds) text m k at e = elim (Bool-cases (starts_with text (drop k m))) [
  | inl here ↦ ground arith
  | inr not_here ↦
      let later = find_at_bounds rounds text m (k + 1) at (ground arith) in ground arith
]

pub skip_back_le : (k : ℕ) (m : Bytes) (i r : ℕ) → skip_back k m i ≡ ok r → r ≤ k
unfolding skip_back
skip_back_le zero m i r e = ground arith
skip_back_le (suc k) m i r e = let later = skip_back_le k m i r in ground arith

pub back_to_slash_le : (k : ℕ) (m : Bytes) (i r : ℕ) → back_to_slash k m i ≡ ok r → r ≤ k
unfolding back_to_slash
back_to_slash_le zero m i r e = ground arith
back_to_slash_le (suc k) m i r e = let later = back_to_slash_le k m i r in ground arith

store_parts-IsPath :
    (m : Bytes) (i k1 k : ℕ) (c t : Connection) (next : Option ℕ)
    → k1 < 2 ^ 31
    → store_parts m i k1 k c ≡ ok (t, next)
    → IsPath c
    → IsPath t × (t.c_seq ≡ c.c_seq)
unfolding store_parts
store_parts-IsPath m i k1 k c t next inside_k e path =
    let suffix = length-slice m (k1 + 1) k in
    let pre_suffix = length-slice m (i + 1) (k1 - 1) in ground arith

pub byte_at_inside : (m : Bytes) (k : ℕ) → k < length m → (c : ℕ) × (byte_at m k ≡ ok c)
byte_at_inside [] k inside = absurd (omega arith)
byte_at_inside (c ∷ m) zero inside = (c, refl)
byte_at_inside (c ∷ m) (suc k) inside = byte_at_inside m k (omega arith)

-- Behind a place that is not the first, the way back over the spaces stays in the block.
skip_back_inside :
    (k : ℕ) (m : Bytes) (i : ℕ)
    → 0 < i
    → i ≤ k + 1
    → k < length m
    → (r : ℕ) × (skip_back k m i ≡ ok r) × (r ≤ k) × (i ≤ r + 1)
unfolding skip_back
skip_back_inside zero m i positive above inside = (0, ground arith, omega arith, omega arith)
skip_back_inside (suc k) m i positive above inside =
    let (c, byte) = byte_at_inside m (suc k) inside in
    elim (Bool-cases (leb i (suc k))) [
      | inr below ↦ (suc k, ground arith, omega arith, above)
      | inl on ↦ elim (Bool-cases (c == 32)) [
        | inl space ↦
            let (r, e, le, ge) = skip_back_inside k m i positive (ground arith) (omega arith) in
            (r, ground arith, omega arith, ge)
        | inr end ↦ (suc k, ground arith, omega arith, above)
      ]
    ]

back_to_slash_inside :
    (k : ℕ) (m : Bytes) (i : ℕ) → k < length m → (r : ℕ) × (back_to_slash k m i ≡ ok r) × (r ≤ k)
unfolding back_to_slash
back_to_slash_inside zero m i inside = (0, refl, omega arith)
back_to_slash_inside (suc k) m i inside =
    let (c, byte) = byte_at_inside m (suc k) inside in
    elim (Bool-cases (ltb i (suc k))) [
      | inr below ↦ (suc k, ground arith, omega arith)
      | inl on ↦ elim (Bool-cases (c == 47)) [
        | inl slash ↦ (suc k, ground arith, omega arith)
        | inr other ↦
            let (r, e, le) = back_to_slash_inside k m i (omega arith) in
            (r, ground arith, omega arith)
      ]
    ]

-- Where the parse goes on: nowhere, or at a place of the request behind `i`.
abbrev pub GoesOn : (i size : ℕ) → Option ℕ → Type 0
GoesOn i size none = Unit
GoesOn i size (some next) = (i < next) × (next ≤ size)

store_parts_inside :
    (m : Bytes) (i k1 k size : ℕ) (c : Connection)
    → 0 < i
    → i < 2 ^ 31
    → k1 ≤ k
    → i ≤ k + 1
    → k + 7 ≤ size
    → size < 2 ^ 31
    → (t : Connection) × (next : Option ℕ) × (store_parts m i k1 k c ≡ ok (t, next))
      × GoesOn i size next
unfolding store_parts
store_parts_inside m i k1 k size c positive inside_i order above inside small =
    let long = Bool-cases (ltb param_size (k - k1 + 1)) in
    let far = Bool-cases (ltb param_size (u32 (k1 + 2 ^ 32 - i))) in
    let with_suffix : Connection = record c { url_suffix = c_string (slice m (k1 + 1) k) } in
    let both : Connection = record with_suffix {
      url_pre_suffix = c_string (slice m (i + 1) (k1 - 1));
    } in
    elim long [
      | inl too_long ↦ (c, none, rw (store_parts, too_long), tt)
      | inr short ↦ elim far [
        | inl too_far ↦ (with_suffix, none, rw (store_parts, short, too_far), tt)
        | inr near ↦
            let first : (k1 == 0) ≡ false = ground arith in
            (both, some (k + 7), rw (store_parts, short, near, first), (omega arith, inside))
      ]
    ]

-- The search for the path in a request that is in the block, from a place on that is not the first:
-- it always returns, both parts fit their arrays of 200 bytes with their zeros, and where the
-- parse goes on it is at a place of the request behind its start.
pub read_suffix_bounds :
    (m : Bytes) (size i : ℕ) (c : Connection)
    → 0 < i
    → i < 2 ^ 31
    → size ≤ length m
    → size < 2 ^ 31
    → IsPath c
    → (t : Connection) × (next : Option ℕ) × (read_suffix m size i c ≡ ok (t, next))
      × IsPath t
      × GoesOn i size next
unfolding read_suffix
read_suffix_bounds m size i c positive inside_i inside small path =
    elim (Option-cases (find_at (size - 5 - (i + 1)) (codes "RTSP/") m (i + 1))) [
      | inl missing ↦ (c, none, rw (read_suffix, missing), path, tt)
      | inr (at, found) ↦
          let (after, before) = find_at_bounds _ (codes "RTSP/") m (i + 1) at found in
          let (k, back, k_le, k_ge) =
            skip_back_inside (at - 1) m i positive (omega arith) (omega arith) in
          let (k1, slash, k1_le) = back_to_slash_inside k m i (omega arith) in
          let (t, next, stored, goes_on) =
            store_parts_inside m i k1 k size c positive inside_i k1_le k_ge (omega arith) small in
          let fits = store_parts-IsPath m i k1 k c t next (omega arith) stored path in
          (t, next, rw (read_suffix, found, back, slash, stored), fits.0, goes_on)
    ]

-- Whatever the place is, the parts that are stored fit.
pub read_suffix-IsPath :
    (m : Bytes) (size i : ℕ) (c t : Connection) (next : Option ℕ)
    → size < 2 ^ 31
    → read_suffix m size i c ≡ ok (t, next)
    → IsPath c
    → IsPath t × (t.c_seq ≡ c.c_seq)
unfolding read_suffix
read_suffix-IsPath m size i c t next small e path =
    elim (Option-cases (find_at (size - 5 - (i + 1)) (codes "RTSP/") m (i + 1))) [
      | inl missing ↦
          let missed : read_suffix m size i c ≡ ok (c, none) = rw (read_suffix, missing) in
          ground arith
      | inr (at, found) ↦
          let (after, before) = find_at_bounds _ (codes "RTSP/") m (i + 1) at found in
          let (k, back, rest) = bind-eq-ok _ _ (rw (read_suffix, found) at e) in
          let (k1, slash, stored) = bind-eq-ok _ _ rest in
          let k_le = skip_back_le (at - 1) m i k back in
          let k1_le = back_to_slash_le k m i k1 slash in
          store_parts-IsPath m i k1 k c t next (omega arith) stored path
    ]
