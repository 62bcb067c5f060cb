-- ===== src/Rtsp/Loops/Counted.antt =====
-- The loops end, and do what the loops that count their rounds do.
use payloader.Base.{
  ℕ, zero, suc, ◌+◌, ◌-◌, ◌<◌, ◌≡◌, ◌≢◌, refl, ap, arith, ltb, if◌then◌else◌, Bytes, drop, Outcome,
  ok, timeout, Bool-cases, inl, inr,
}
use payloader.Rtsp.Command.{starts_with}
use payloader.Rtsp.Url.{skip_blanks, is_rtsp_url, read_host, skip_prefix, find_url, find_at}
use payloader.Rtsp.Fields.{read_value}
use payloader.Rtsp.Request.{Session, parse_rtsp_request}
use payloader.Rtsp.Request.Ending.{parse_rtsp_request-end}
use payloader.Rtsp.Loops.{skip_loop, host_loop, behind_match, url_loop, text_loop, value_loop}

skip_loop-counted :
    (fuel : ℕ) (m : Bytes) (size j : ℕ)
    → size - j < fuel
    → skip_loop fuel m size j ≡ skip_blanks (size - j) m j
unfolding skip_loop skip_blanks
skip_loop-counted zero m size j enough = absurd (omega arith)
skip_loop-counted (suc fuel) m size j enough = elim (Bool-cases (ltb j size)) [
  | inl more ↦
      let count : size - j ≡ suc (size - (j + 1)) = ground arith in
      let rest = skip_loop-counted fuel m size (j + 1) (omega arith) in
      rw (skip_loop, more) (rw (rest) (rw (count) refl))
  | inr over ↦ let count : size - j ≡ 0 = ground arith in rw (skip_loop, over) (rw (count) refl)
]

host_loop-counted :
    (fuel : ℕ) (m : Bytes) (size j : ℕ)
    → size - j < fuel
    → host_loop fuel m size j ≡ read_host (size - j) m j
unfolding host_loop read_host
host_loop-counted zero m size j enough = absurd (omega arith)
host_loop-counted (suc fuel) m size j enough = elim (Bool-cases (ltb j size)) [
  | inl more ↦
      let count : size - j ≡ suc (size - (j + 1)) = ground arith in
      let rest = host_loop-counted fuel m size (j + 1) (omega arith) in
      rw (host_loop, more) (rw (rest) (rw (count) refl))
  | inr over ↦ let count : size - j ≡ 0 = ground arith in rw (host_loop, over) (rw (count) refl)
]

behind_match-counted :
    (fuel : ℕ) (m : Bytes) (size j : ℕ)
    → size - (j + 7) < fuel
    → behind_match fuel m size j ≡ skip_prefix m size j
unfolding skip_prefix
behind_match-counted fuel m size j enough =
    let host = host_loop-counted fuel m size (j + 7) enough in rw (host) refl

url_loop-counted :
    (fuel : ℕ) (m : Bytes) (size j i : ℕ)
    → size - j < fuel
    → url_loop fuel m size j i ≡ find_url (size - 8 - j) m size j i
unfolding url_loop find_url
url_loop-counted zero m size j i enough = absurd (omega arith)
url_loop-counted (suc fuel) m size j i enough = elim (Bool-cases (ltb (j + 8) size)) [
  | inl more ↦
      let count : size - 8 - j ≡ suc (size - 8 - (j + 1)) = ground arith in
      let rest = url_loop-counted fuel m size (j + 1) i (omega arith) in
      let found = behind_match-counted fuel m size j (omega arith) in
      rw (url_loop, more)
        (rw (rest) (
          rw (count) (
            ap
              (λ (o : Outcome (ℕ × Bytes)).
                if is_rtsp_url (drop j m)
                then o
                else find_url (size - 8 - (j + 1)) m size (j + 1) i)
              found)))
  | inr over ↦ let count : size - 8 - j ≡ 0 = ground arith in rw (url_loop, over) (rw (count) refl)
]

text_loop-counted :
    (fuel : ℕ) (text m : Bytes) (size k : ℕ)
    → size - k < fuel
    → text_loop fuel text m size k ≡ ok (find_at (size - 5 - k) text m k)
unfolding text_loop find_at
text_loop-counted zero text m size k enough = absurd (omega arith)
text_loop-counted (suc fuel) text m size k enough = elim (Bool-cases (ltb (k + 5) size)) [
  | inl more ↦
      let count : size - 5 - k ≡ suc (size - 5 - (k + 1)) = ground arith in
      let rest = text_loop-counted fuel text m size (k + 1) (omega arith) in
      elim (Bool-cases (starts_with text (drop k m))) [
        | inl here ↦ rw (text_loop, more) (rw (rest) (rw (count) (rw (here) refl)))
        | inr later ↦ rw (text_loop, more) (rw (rest) (rw (count) (rw (later) refl)))
      ]
  | inr over ↦ let count : size - 5 - k ≡ 0 = ground arith in rw (text_loop, over) (rw (count) refl)
]

value_loop-counted :
    (fuel room : ℕ) (m : Bytes) (size j : ℕ)
    → size - j < fuel
    → value_loop fuel room m size j ≡ read_value room (size - j) m j
unfolding value_loop read_value
value_loop-counted zero room m size j enough = absurd (omega arith)
value_loop-counted (suc fuel) zero m size j enough = refl
value_loop-counted (suc fuel) (suc room) m size j enough = elim (Bool-cases (ltb j size)) [
  | inl more ↦
      let count : size - j ≡ suc (size - (j + 1)) = ground arith in
      let rest = value_loop-counted fuel room m size (j + 1) (omega arith) in
      rw (value_loop, more) (rw (rest) (rw (count) refl))
  | inr over ↦ let count : size - j ≡ 0 = ground arith in rw (value_loop, over) (rw (count) refl)
]

-- The parse of a request ends: with any fuel above the size of the request, at any block and from any
-- place, the loops over blanks, the host, the URL, the texts `RTSP/` and `CSeq:` and a value, each run
-- under its own condition, do exactly what the loops of the parser do, which make a fixed number of
-- rounds; so their conditions end them before the fuel does. And the whole parse, with its loop for
-- `Content-Length`, which goes on behind a field that it has found, is never a timeout.
pub parse_rtsp_request-counted :
    (garbage request : Bytes) (size fuel : ℕ) (s : Session)
    → size < fuel
    → ((m : Bytes) (j : ℕ) → skip_loop fuel m size j ≡ skip_blanks (size - j) m j)
      × ((m : Bytes) (j : ℕ) → host_loop fuel m size j ≡ read_host (size - j) m j)
      × ((m : Bytes) (j i : ℕ) → url_loop fuel m size j i ≡ find_url (size - 8 - j) m size j i)
      × ((text m : Bytes) (k : ℕ)
          → text_loop fuel text m size k ≡ ok (find_at (size - 5 - k) text m k))
      × ((m : Bytes) (room j : ℕ) → value_loop fuel room m size j ≡ read_value room (size - j) m j)
      × (parse_rtsp_request garbage request size s ≢ timeout)
parse_rtsp_request-counted garbage request size fuel s enough = (
  λ m j. skip_loop-counted fuel m size j (omega arith),
  λ m j. host_loop-counted fuel m size j (omega arith),
  λ m j i. url_loop-counted fuel m size j i (omega arith),
  λ text m k. text_loop-counted fuel text m size k (omega arith),
  λ m room j. value_loop-counted fuel room m size j (omega arith),
  parse_rtsp_request-end garbage request size s,
)
