-- ===== src/Rtsp/Url.antt =====
-- `ParseRtspRequest` of src/libs/TcpConnection.cpp: the host and the two parts of the path of the URL.
-- The block `m` is `CurRequest`, of which `size` bytes are the request. The number of rounds of a loop
-- is the number of places that its bound leaves.
pub mod Bounds
pub mod Printed
pub mod Path
pub mod Ending
use payloader.Base.{
  ℕ, zero, suc, ◌+◌, ◌-◌, ◌^◌, List, [], ◌∷◌, ◌++◌, Bool, true, false, ◌&&◌, ◌||◌, Option, none,
  some, ◌==◌, ltb, leb, if◌then◌else◌, Bytes, take, drop, length, Outcome, ok, fault, ◌>>=◌, u32,
}
use payloader.Rtsp.{Connection, codes}
use payloader.Rtsp.Command.{byte_at, is_blank, starts_with, c_string}

-- `while (j < CurRequestSize && ...) ++j`
unfoldable pub skip_blanks : (left : ℕ) → Bytes → (j : ℕ) → Outcome ℕ
skip_blanks zero m j = ok j
skip_blanks (suc left) m j =
    let rest = skip_blanks left m (j + 1) in
    byte_at m j >>= λ c. (if is_blank c then rest else ok j)

-- A letter in either case, by the code of the small one.
abbrev pub is_letter : ℕ → ℕ → Bool
is_letter small c = (c == small) || (c == small - 32)

-- Whether `rtsp:/` stands at the front.
abbrev pub is_rtsp_url : Bytes → Bool
is_rtsp_url (r ∷ t ∷ s ∷ p ∷ colon ∷ slash ∷ _) =
    is_letter 114 r
    && (is_letter 116 t
        && (is_letter 115 s && (is_letter 112 p && ((colon == 58) && (slash == 47)))))
is_rtsp_url _ = false

-- The bytes of the host, up to a slash or a space, and the place behind them.
unfoldable pub read_host : (left : ℕ) → Bytes → (j : ℕ) → Outcome (ℕ × Bytes)
read_host zero m j = ok (j, [])
read_host (suc left) m j =
    let rest = read_host left m (j + 1) in
    byte_at m j >>= λ c.
    (if (c == 47) || (c == 32) then ok (j, []) else rest >>= λ r. ok (r.0, c ∷ r.1))

-- Behind the match at `j`: with one slash alone the place is the slash.
unfoldable pub skip_prefix : Bytes → (size j : ℕ) → Outcome (ℕ × Bytes)
skip_prefix m size j = byte_at m (j + 6) >>= λ c.
    (if c == 47 then read_host (size - (j + 7)) m (j + 7) else ok (j + 5, []))

-- The loop that looks for the URL; without one the place stays `i`. Its reads are inside the request.
unfoldable pub find_url : (rounds : ℕ) → Bytes → (size j i : ℕ) → Outcome (ℕ × Bytes)
find_url zero m size j i = ok (i, [])
find_url (suc rounds) m size j i =
    let rest = find_url rounds m size (j + 1) i in
    if is_rtsp_url (drop j m) then skip_prefix m size j else rest

-- The loop that looks for a fixed text.
unfoldable pub find_at : (rounds : ℕ) → (text : Bytes) → Bytes → (k : ℕ) → Option ℕ
find_at zero text m k = none
find_at (suc rounds) text m k =
    let rest = find_at rounds text m (k + 1) in if starts_with text (drop k m) then some k else rest

-- `while (--k >= i && CurRequest[k] == ' ') {}` behind its first `--k`. At zero the next one wraps to
-- a place that is out of the block.
unfoldable pub skip_back : (k : ℕ) → Bytes → (i : ℕ) → Outcome ℕ
skip_back zero m i =
    if i == 0 then (byte_at m 0 >>= λ c. (if c == 32 then fault else ok 0)) else ok 0
skip_back (suc k) m i =
    let rest = skip_back k m i in
    if leb i (suc k)
    then (byte_at m (suc k) >>= λ c. (if c == 32 then rest else ok (suc k)))
    else ok (suc k)

-- `while (k1 > i && CurRequest[k1] != '/') --k1`
unfoldable pub back_to_slash : (k1 : ℕ) → Bytes → (i : ℕ) → Outcome ℕ
back_to_slash zero m i = ok 0
back_to_slash (suc k1) m i =
    let rest = back_to_slash k1 m i in
    if ltb i (suc k1)
    then (byte_at m (suc k1) >>= λ c. (if c == 47 then ok (suc k1) else rest))
    else ok (suc k1)

-- `RTSP_PARAM_STRING_MAX`
abbrev pub param_size : ℕ
param_size = 200

-- The bytes from one place to another, both included.
abbrev pub slice : Bytes → (from to : ℕ) → Bytes
slice m from to = take (to + 1 - from) (drop from m)

-- The two parts of the path between `i`, the slash at `k1` and `k`, with the place behind the version;
-- `none` is a parse that fails. At a slash at zero the copy of the first part does not end.
unfoldable pub store_parts : Bytes → (i k1 k : ℕ) → Connection → Outcome (Connection × Option ℕ)
store_parts m i k1 k c =
    let with_suffix = record c { url_suffix = c_string (slice m (k1 + 1) k) } in
    let both = record with_suffix { url_pre_suffix = c_string (slice m (i + 1) (k1 - 1)) } in
    if ltb param_size (k - k1 + 1)
    then ok (c, none)
    else (if ltb param_size (u32 (k1 + 2 ^ 32 - i))
        then ok (with_suffix, none)
        else (if k1 == 0 then fault else ok (both, some (k + 7))))

-- The part of the request from `i` to the version.
unfoldable pub read_suffix : Bytes → (size i : ℕ) → Connection → Outcome (Connection × Option ℕ)
read_suffix m size i c = elim (find_at (size - 5 - (i + 1)) (codes "RTSP/") m (i + 1)) [
  | none ↦ ok (c, none)
  | some at ↦ skip_back (at - 1) m i >>= λ k. back_to_slash k m i >>= λ k1. store_parts m i k1 k c
]
