-- ===== src/Rtsp/ClientPort/Printed.antt =====
-- The ports of a client that prints them the way the server does.
use payloader.Base.{
  ℕ, zero, suc, ◌+◌, ◌/◌, ◌%◌, ◌^◌, ◌≤◌, ◌<◌, ◌≡◌, refl, sym, ap, ◌∙◌, arith, [], ◌∷◌, ◌++◌, true,
  false, some, ◌==◌, ltb, Bytes, take, drop, length, length-take, take-append, ok, u16, Bool-cases,
  inl, inr, lt→ltb,
}
use payloader.Rtsp.{codes, digits, print_int}
use payloader.Rtsp.Strings.{string_at, strstr, atoi}
use payloader.Rtsp.Strings.Numbers.{atoi-print_int, print_int-digits}
use payloader.Rtsp.ClientPort.{
  cp_size, cut_at, Ports, ports_of, line_ports, text_ports, client_ports,
}

-- A text without a dash.
abbrev IsPlain : Bytes → Type 0
IsPlain [] = Unit
IsPlain (c ∷ cs) = ((45 == c) ≡ false) × IsPlain cs

append-IsPlain : (xs ys : Bytes) → IsPlain xs → IsPlain ys → IsPlain (xs ++ ys)
append-IsPlain [] ys p q = q
append-IsPlain (x ∷ xs) ys (one, p) q = (one, append-IsPlain xs ys p q)

digit-IsPlain : (n : ℕ) → IsPlain ((48 + n % 10) ∷ [])
digit-IsPlain n = (ground arith, tt)

digits-IsPlain : (fuel n : ℕ) → IsPlain (digits fuel n)
digits-IsPlain zero n = tt
digits-IsPlain (suc fuel) n = elim (Bool-cases (ltb n 10)) [
  | inl one ↦ rw (one) (digit-IsPlain n)
  | inr more ↦
      rw (more)
        (append-IsPlain (digits fuel (n / 10)) _ (digits-IsPlain fuel (n / 10)) (digit-IsPlain n))
]

strstr-dash :
    (text rest : Bytes) → IsPlain text → strstr (text ++ 45 ∷ rest) (45 ∷ []) ≡ some (length text)
unfolding strstr
strstr-dash [] rest plain = refl
strstr-dash (c ∷ cs) rest (one, plain) =
    let later = strstr-dash cs rest plain in
    let count : 1 + length cs ≡ length (c ∷ cs) = omega arith in rw (one, later, count)

append_nil : (xs : Bytes) → xs ++ [] ≡ xs
append_nil [] = refl
append_nil (x ∷ xs) = ap (◌∷◌ x) (append_nil xs)

abbrev pub ports_from : ℕ → Ports
ports_from p = record { client_rtp_port = p; client_rtcp_port = u16 (p + 1) }

-- `text` is a number that is printed.
ports_of-text :
    (text rest : Bytes) (p : ℕ) (old : Ports)
    → IsPlain text
    → atoi text ≡ ok p
    → p < 2 ^ 16
    → ports_of (text ++ 45 ∷ rest) old ≡ ok (ports_from p)
unfolding ports_of
ports_of-text text rest p old plain number small =
    let dash = strstr-dash text rest plain in
    let front : take (length text) (text ++ 45 ∷ rest) ≡ text =
      take-append text (45 ∷ rest) (length text) refl in
    let same : u16 p ≡ p = omega arith in rw (ports_of, dash, front, number, same)

ports_of-print_int :
    (p : ℕ) (rest : Bytes) (old : Ports)
    → p < 2 ^ 16
    → ports_of (print_int p ++ 45 ∷ rest) old ≡ ok (ports_from p)
ports_of-print_int p rest old small =
    let below : p < 2 ^ 31 = omega arith in
    let e = print_int-digits p below in
    let plain : IsPlain (print_int p) = rw (e) (digits-IsPlain 10 p) in
    let number = ap atoi (sym (append_nil (print_int p))) ∙ atoi-print_int p [] below refl in
    ports_of-text (print_int p) rest p old plain number small

line_ports-value :
    (value : Bytes) (old : Ports)
    → length (codes "client_port=" ++ value) < 24
    → line_ports (codes "client_port=" ++ value) old ≡ ports_of value old
unfolding line_ports strstr
line_ports-value value old room =
    let fits = lt→ltb (length (codes "client_port=" ++ value)) cp_size (omega arith) in
    let apart : ltb (length value) 12 ≡ true = ground arith in rw (line_ports, fits, apart)

client_ports-value :
    (block text value : Bytes) (at end : ℕ) (old new : Ports)
    → string_at block ≡ ok text
    → strstr text (codes "client_port") ≡ some at
    → strstr (drop at text) (13 ∷ 10 ∷ []) ≡ some end
    → take end (drop at text) ≡ codes "client_port=" ++ value
    → end < 24
    → ports_of value old ≡ ok new
    → client_ports block old ≡ ok (cut_at (at + end) block, new)
unfolding client_ports text_ports
client_ports-value block text value at end old new string found line_end line room read =
    let longest : length (take end (drop at text)) ≤ end =
      omega (arith, length-take end (drop at text)) in
    let counted : length (take end (drop at text)) ≡ length (codes "client_port=" ++ value) =
      ap length line in
    let fits : length (codes "client_port=" ++ value) < 24 = omega arith in
    let ported = line_ports-value value old fits ∙ read in
    let read_text : client_ports block old ≡ text_ports text block old =
      rw (client_ports, string) in
    read_text ∙ rw (text_ports, found, line_end, line, ported)

-- The first line of a request that names `client_port` gives the ports that it prints: if the string
-- in the block has such a line, and the line is shorter than 24 bytes, so that its part behind `=` and
-- the copy of it do not overlap, the ports are those, and the block is cut at the end of the line.
pub client_ports-print_int :
    (block text rest : Bytes) (at end p : ℕ) (old : Ports)
    → string_at block ≡ ok text
    → strstr text (codes "client_port") ≡ some at
    → strstr (drop at text) (13 ∷ 10 ∷ []) ≡ some end
    → take end (drop at text) ≡ codes "client_port=" ++ (print_int p ++ 45 ∷ rest)
    → end < 24
    → p < 2 ^ 16
    → client_ports block old ≡ ok (cut_at (at + end) block, ports_from p)
client_ports-print_int block text rest at end p old string found line_end line room small =
    client_ports-value block text (print_int p ++ 45 ∷ rest) at end old (ports_from p) string found
      line_end line room (ports_of-print_int p rest old small)
