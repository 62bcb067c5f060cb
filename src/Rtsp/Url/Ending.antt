-- ===== src/Rtsp/Url/Ending.antt =====
-- The loops over the command and the URL end.
use payloader.Base.{
  ℕ, zero, suc, ◌+◌, ◌-◌, ◌^◌, arith, [], ◌∷◌, ◌||◌, Option, none, some, ◌==◌, ltb, leb, Bytes,
  drop, Outcome, ok, fault, ◌>>=◌, Ends, bind-Ends, u32, ◌≤◌, ◌≡◌, if-Ends, option-Ends,
}
use payloader.Rtsp.{Connection, codes}
use payloader.Rtsp.Command.{byte_at, is_blank, read_command, command_byte}
use payloader.Rtsp.Url.{
  skip_blanks, read_host, skip_prefix, find_url, is_rtsp_url, find_at, skip_back, back_to_slash,
  store_parts, read_suffix, param_size,
}

pub byte_at-Ends : (m : Bytes) (k : ℕ) → Ends (byte_at m k)
byte_at-Ends [] zero = tt
byte_at-Ends [] (suc k) = tt
byte_at-Ends (c ∷ m) zero = tt
byte_at-Ends (c ∷ m) (suc k) = byte_at-Ends m k

pub skip_blanks-Ends : (left : ℕ) (m : Bytes) (j : ℕ) → Ends (skip_blanks left m j)
unfolding skip_blanks
skip_blanks-Ends zero m j = tt
skip_blanks-Ends (suc left) m j =
    bind-Ends (byte_at m j) _ (byte_at-Ends m j)
      (λ c e. if-Ends (is_blank c) _ _ (skip_blanks-Ends left m (j + 1)) tt)

-- Blanks are skipped forwards.
pub skip_blanks_le : (left : ℕ) (m : Bytes) (j at : ℕ) → skip_blanks left m j ≡ ok at → j ≤ at
unfolding skip_blanks
skip_blanks_le zero m j at e = ground arith
skip_blanks_le (suc left) m j at e = let later = skip_blanks_le left m (j + 1) at in ground arith

command_byte-Ends :
    (i : ℕ) (rest : Outcome (Option (Bytes × ℕ))) (c : ℕ) → Ends rest → Ends (command_byte i rest c)
unfolding command_byte
command_byte-Ends i rest c ends =
    if-Ends (is_blank c) (ok (some ([], i))) _ tt (bind-Ends rest _ ends (λ v e. tt))

pub read_command-Ends : (room : ℕ) (m : Bytes) (size i : ℕ) → Ends (read_command room m size i)
unfolding read_command
read_command-Ends zero m size i = tt
read_command-Ends (suc room) m size i =
    if-Ends (ltb i size) _ (ok none)
      (bind-Ends (byte_at m i) _ (byte_at-Ends m i) (λ c e.
        command_byte-Ends i (read_command room m size (i + 1)) c
          (read_command-Ends room m size (i + 1))))
      tt

read_host-Ends : (left : ℕ) (m : Bytes) (j : ℕ) → Ends (read_host left m j)
unfolding read_host
read_host-Ends zero m j = tt
read_host-Ends (suc left) m j = bind-Ends (byte_at m j) _ (byte_at-Ends m j) (λ c e.
    if-Ends ((c == 47) || (c == 32)) (ok (j, [])) _ tt
      (bind-Ends (read_host left m (j + 1)) _ (read_host-Ends left m (j + 1)) (λ r e2. tt)))

skip_prefix-Ends : (m : Bytes) (size j : ℕ) → Ends (skip_prefix m size j)
unfolding skip_prefix
skip_prefix-Ends m size j =
    bind-Ends (byte_at m (j + 6)) _ (byte_at-Ends m (j + 6))
      (λ c e. if-Ends (c == 47) _ (ok (j + 5, [])) (read_host-Ends (size - (j + 7)) m (j + 7)) tt)

pub find_url-Ends : (rounds : ℕ) (m : Bytes) (size j i : ℕ) → Ends (find_url rounds m size j i)
unfolding find_url
find_url-Ends zero m size j i = tt
find_url-Ends (suc rounds) m size j i =
    if-Ends (is_rtsp_url (drop j m)) _ _ (skip_prefix-Ends m size j)
      (find_url-Ends rounds m size (j + 1) i)

skip_back-Ends : (k : ℕ) (m : Bytes) (i : ℕ) → Ends (skip_back k m i)
unfolding skip_back
skip_back-Ends zero m i =
    if-Ends (i == 0) _ (ok 0)
      (bind-Ends (byte_at m 0) _ (byte_at-Ends m 0) (λ c e. if-Ends (c == 32) fault (ok 0) tt tt))
      tt
skip_back-Ends (suc k) m i =
    if-Ends (leb i (suc k)) _ (ok (suc k))
      (bind-Ends (byte_at m (suc k)) _ (byte_at-Ends m (suc k))
        (λ c e. if-Ends (c == 32) _ (ok (suc k)) (skip_back-Ends k m i) tt))
      tt

back_to_slash-Ends : (k : ℕ) (m : Bytes) (i : ℕ) → Ends (back_to_slash k m i)
unfolding back_to_slash
back_to_slash-Ends zero m i = tt
back_to_slash-Ends (suc k) m i =
    if-Ends (ltb i (suc k)) _ (ok (suc k))
      (bind-Ends (byte_at m (suc k)) _ (byte_at-Ends m (suc k))
        (λ c e. if-Ends (c == 47) (ok (suc k)) _ tt (back_to_slash-Ends k m i)))
      tt

store_parts-Ends : (m : Bytes) (i k1 k : ℕ) (c : Connection) → Ends (store_parts m i k1 k c)
unfolding store_parts
store_parts-Ends m i k1 k c = if-Ends (ltb param_size (k - k1 + 1)) (ok (c, none)) _ tt (
    if-Ends (ltb param_size (u32 (k1 + 2 ^ 32 - i))) (ok _) _ tt
      (if-Ends (k1 == 0) fault (ok _) tt tt))

pub read_suffix-Ends : (m : Bytes) (size i : ℕ) (c : Connection) → Ends (read_suffix m size i c)
unfolding read_suffix
read_suffix-Ends m size i c =
    option-Ends (find_at (size - 5 - (i + 1)) (codes "RTSP/") m (i + 1)) (ok (c, none))
      (λ at. skip_back (at - 1) m i >>= λ k. back_to_slash k m i >>= λ k1. store_parts m i k1 k c)
      tt
      (λ at. bind-Ends (skip_back (at - 1) m i) _ (skip_back-Ends (at - 1) m i) (λ k e.
        bind-Ends (back_to_slash k m i) _ (back_to_slash-Ends k m i)
          (λ k1 e2. store_parts-Ends m i k1 k c)))
