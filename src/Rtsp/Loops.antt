-- ===== src/Rtsp/Loops.antt =====
-- The loops of `ParseRtspRequest` in src/libs/TcpConnection.cpp, each with its own condition and on fuel:
-- a loop whose fuel is used up is the result `timeout`.
pub mod Counted
use payloader.Base.{
  ℕ, zero, suc, ◌+◌, [], ◌∷◌, Bool, true, false, ◌||◌, Option, none, some, ◌==◌, ltb, if◌then◌else◌,
  Bytes, drop, Outcome, ok, timeout, ◌>>=◌,
}
use payloader.Rtsp.Command.{byte_at, is_blank, starts_with}
use payloader.Rtsp.Url.{is_rtsp_url}

-- `while (j < CurRequestSize && ...) ++j`
unfoldable pub skip_loop : (fuel : ℕ) → Bytes → (size j : ℕ) → Outcome ℕ
skip_loop zero m size j = timeout
skip_loop (suc fuel) m size j =
    let rest = skip_loop fuel m size (j + 1) in
    if ltb j size then (byte_at m j >>= λ c. (if is_blank c then rest else ok j)) else ok j

-- The loop over the host.
unfoldable pub host_loop : (fuel : ℕ) → Bytes → (size j : ℕ) → Outcome (ℕ × Bytes)
host_loop zero m size j = timeout
host_loop (suc fuel) m size j =
    let rest = host_loop fuel m size (j + 1) in
    if ltb j size
    then (byte_at m j >>= λ c.
        (if (c == 47) || (c == 32) then ok (j, []) else rest >>= λ r. ok (r.0, c ∷ r.1)))
    else ok (j, [])

-- Behind a match of `rtsp:/`.
abbrev pub behind_match : (fuel : ℕ) → Bytes → (size j : ℕ) → Outcome (ℕ × Bytes)
behind_match fuel m size j =
    byte_at m (j + 6) >>= λ c. (if c == 47 then host_loop fuel m size (j + 7) else ok (j + 5, []))

-- The loop that looks for the URL.
unfoldable pub url_loop : (fuel : ℕ) → Bytes → (size j i : ℕ) → Outcome (ℕ × Bytes)
url_loop zero m size j i = timeout
url_loop (suc fuel) m size j i =
    let rest = url_loop fuel m size (j + 1) i in
    if ltb (j + 8) size
    then (if is_rtsp_url (drop j m) then behind_match fuel m size j else rest)
    else ok (i, [])

-- The loop that looks for a text of five letters.
unfoldable pub text_loop : (fuel : ℕ) → (text : Bytes) → Bytes → (size k : ℕ) → Outcome (Option ℕ)
text_loop zero text m size k = timeout
text_loop (suc fuel) text m size k =
    let rest = text_loop fuel text m size (k + 1) in
    if ltb (k + 5) size
    then (if starts_with text (drop k m) then ok (some k) else rest)
    else ok none

-- The loop over a value, for at most `room` bytes.
unfoldable pub value_loop : (fuel : ℕ) → (room : ℕ) → Bytes → (size j : ℕ) → Outcome (Bytes × Bool)
value_loop zero room m size j = timeout
value_loop (suc fuel) zero m size j = ok ([], false)
value_loop (suc fuel) (suc room) m size j =
    let rest = value_loop fuel room m size (j + 1) in
    if ltb j size
    then (byte_at m j >>= λ c.
        (if (c == 13) || (c == 10) then ok ([], true) else rest >>= λ r. ok (c ∷ r.0, r.1)))
    else ok ([], false)
