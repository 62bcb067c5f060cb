-- ===== src/Rtsp/Request/Setup.antt =====
-- A SETUP that is written out is read again, with the ports of its client.
use mathlib.Core.List.{append_assoc}
use mathlib.Core.Path.{subst}
use payloader.Base.{
  ℕ, suc, ◌+◌, ◌^◌, ◌≤◌, ◌<◌, ◌≡◌, refl, sym, ap, ◌∙◌, arith, [], ◌∷◌, ◌++◌, true, some, Bytes,
  take, drop, length, length-append, take-append, drop-append, ok, read_block, write_block,
  read_block_fits, write_block-front,
}
use payloader.Rtsp.{codes, print_int}
use payloader.Rtsp.Places.{Lacks, Misses}
use payloader.Rtsp.Strings.{string_at, strstr}
use payloader.Rtsp.Strings.Front.{string_at-Lacks, strstr-front, Lacks-Misses}
use payloader.Rtsp.ClientPort.{Ports, cut_at, client_ports}
use payloader.Rtsp.ClientPort.Printed.{ports_from, client_ports-print_int}
use payloader.Rtsp.Request.{Session, read_request, ports, set_ports, parse_rtsp_request}
use payloader.Rtsp.Request.Printed.{version_text, path_text, request_text, IsRequest, session_of}
use payloader.Rtsp.Request.RoundTrip.{read_request-printed}

-- More text behind a request.
request_text-append :
    (word host pre suf number a b : Bytes)
    → request_text word host pre suf number a ++ b ≡ request_text word host pre suf number (a ++ b)
request_text-append word host pre suf number a b =
    let version : version_text number a ++ b ≡ version_text number (a ++ b) =
      ap (λ (t : Bytes). codes "1.0" ++ (13 ∷ 10 ∷ (codes "CSeq:" ++ (32 ∷ t))))
        (append_assoc number (13 ∷ 10 ∷ a) b) in
    let path : path_text pre suf (version_text number a) ++ b
        ≡ path_text pre suf (version_text number (a ++ b)) =
      ap (λ (t : Bytes). 47 ∷ t)
        (append_assoc pre (47 ∷ (suf ++ (32 ∷ (codes "RTSP/" ++ version_text number a)))) b
          ∙ ap (λ (t : Bytes). pre ++ (47 ∷ t))
              (append_assoc suf (32 ∷ (codes "RTSP/" ++ version_text number a)) b
                ∙ ap (λ (t : Bytes). suf ++ (32 ∷ (codes "RTSP/" ++ t))) version)) in
    append_assoc word
      (32 ∷ (codes "rtsp://" ++ (host ++ path_text pre suf (version_text number a)))) b
    ∙ ap (λ (t : Bytes). word ++ (32 ∷ (codes "rtsp://" ++ t)))
        (append_assoc host (path_text pre suf (version_text number a)) b
          ∙ ap (λ (t : Bytes). host ++ t) path)

-- The text of the ports: the first one, and what stands behind the dash.
abbrev pub port_line : (p : ℕ) (more : Bytes) → Bytes
port_line p more = codes "client_port=" ++ (print_int p ++ 45 ∷ more)

cut_at-front :
    (front rest : Bytes) (c n : ℕ)
    → n ≡ length front
    → cut_at n (front ++ c ∷ rest) ≡ front ++ 0 ∷ rest
cut_at-front front rest c n e =
    let whole : front ++ c ∷ rest ≡ (front ++ c ∷ []) ++ rest =
      sym (append_assoc front (c ∷ []) rest) in
    let behind : drop (suc n) (front ++ c ∷ rest) ≡ rest =
      ap (drop (suc n)) whole
      ∙ drop-append (front ++ c ∷ []) rest (suc n) (omega (arith, length-append front (c ∷ []))) in
    rw (take-append front (c ∷ rest) n e, behind) refl

-- The ports are read, and the request is cut behind them.
client_ports-line :
    (front more behind back : Bytes) (p : ℕ) (old : Ports)
    → Lacks 0 (front ++ (port_line p more ++ (13 ∷ 10 ∷ behind)))
    → Misses (codes "client_port") front (port_line p more ++ (13 ∷ 10 ∷ behind))
    → Lacks 13 (port_line p more)
    → length (port_line p more) < 24
    → p < 2 ^ 16
    → client_ports (front ++ (port_line p more ++ (13 ∷ 10 ∷ (behind ++ 0 ∷ back)))) old
      ≡ ok (front ++ (port_line p more ++ (0 ∷ 10 ∷ (behind ++ 0 ∷ back))), ports_from p)
client_ports-line front more behind back p old no_zero first one_line room small =
    let line = port_line p more in
    let text = front ++ (line ++ (13 ∷ 10 ∷ behind)) in
    let block = front ++ (line ++ (13 ∷ 10 ∷ (behind ++ 0 ∷ back))) in
    let split : text ++ 0 ∷ back ≡ block =
      append_assoc front (line ++ (13 ∷ 10 ∷ behind)) (0 ∷ back)
      ∙ ap (λ (t : Bytes). front ++ t) (append_assoc line (13 ∷ 10 ∷ behind) (0 ∷ back)) in
    let string : string_at block ≡ ok text =
      ap string_at (sym split) ∙ string_at-Lacks text back no_zero in
    let found : strstr text (codes "client_port") ≡ some (length front) =
      strstr-front (codes "client_port") front (line ++ (13 ∷ 10 ∷ behind)) first refl in
    let at_line : drop (length front) text ≡ line ++ (13 ∷ 10 ∷ behind) =
      drop-append front (line ++ (13 ∷ 10 ∷ behind)) (length front) refl in
    let ends : strstr (drop (length front) text) (13 ∷ 10 ∷ []) ≡ some (length line) =
      ap (λ (t : Bytes). strstr t (13 ∷ 10 ∷ [])) at_line
      ∙ strstr-front (13 ∷ 10 ∷ []) line (13 ∷ 10 ∷ behind)
          (Lacks-Misses line (13 ∷ 10 ∷ behind) one_line) refl in
    let taken : take (length line) (drop (length front) text) ≡ line =
      ap (take (length line)) at_line ∙ take-append line (13 ∷ 10 ∷ behind) (length line) refl in
    let joined : block ≡ (front ++ line) ++ (13 ∷ 10 ∷ (behind ++ 0 ∷ back)) =
      sym (append_assoc front line (13 ∷ 10 ∷ (behind ++ 0 ∷ back))) in
    let cut : cut_at (length front + length line) block
        ≡ front ++ (line ++ (0 ∷ 10 ∷ (behind ++ 0 ∷ back))) =
      ap (cut_at (length front + length line)) joined
      ∙ (cut_at-front (front ++ line) (10 ∷ (behind ++ 0 ∷ back)) 13 (length front + length line)
            (omega (arith, length-append front line))
          ∙ append_assoc front line (0 ∷ 10 ∷ (behind ++ 0 ∷ back))) in
    client_ports-print_int block text more (length front) (length line) p old string found ends
      taken room small
    ∙ ap (λ (b : Bytes). ok (b, ports_from p)) cut

Lacks-front : (c : ℕ) (xs ys : Bytes) → Lacks c (xs ++ ys) → Lacks c xs
Lacks-front c [] ys lacks = tt
Lacks-front c (x ∷ xs) ys (one, lacks) = (one, Lacks-front c xs ys lacks)

-- The request up to the ports, with the ports, and cut behind them.
abbrev pub setup_text_of : (word host pre suf number lead more behind : Bytes) (p : ℕ) → Bytes
setup_text_of word host pre suf number lead more behind p =
    request_text word host pre suf number (lead ++ (port_line p more ++ (13 ∷ 10 ∷ behind)))

abbrev pub cut_rest : (lead more behind : Bytes) (p : ℕ) → Bytes
cut_rest lead more behind p = lead ++ (port_line p more ++ (0 ∷ 10 ∷ behind))

length-cut :
    (word host pre suf number lead more behind : Bytes) (p : ℕ)
    → length (request_text word host pre suf number (cut_rest lead more behind p))
      ≡ length (setup_text_of word host pre suf number lead more behind p)
length-cut word host pre suf number lead more behind p =
    let line = port_line p more in
    ap length (sym (request_text-append word host pre suf number lead (line ++ (0 ∷ 10 ∷ behind))))
    ∙ (omega (
      arith,
      length-append (request_text word host pre suf number lead) (line ++ (0 ∷ 10 ∷ behind)),
      length-append (request_text word host pre suf number lead) (line ++ (13 ∷ 10 ∷ behind)),
      length-append line (0 ∷ 10 ∷ behind),
      length-append line (13 ∷ 10 ∷ behind),
    )
        ∙ ap length
            (request_text-append word host pre suf number lead (line ++ (13 ∷ 10 ∷ behind))))

-- A request as a client sends it for a SETUP, with a line that names its ports, at the front of a block:
-- if its parts can be told apart, it has no zero and fits the stack's array, where a zero follows it, the
-- ports stand on one line of fewer than 24 bytes, so that the text behind `=` does not overlap with the
-- place to which it is copied, and no `client_port` stands before: the parse succeeds, the ports of the session are the printed one and the one
-- behind it, and the rest is what the request's parts say.
pub parse_rtsp_request-setup :
    (garbage block word host pre suf : Bytes) (c : ℕ) (number lead more behind back : Bytes) (p : ℕ)
    (s : Session)
    → IsRequest word host pre suf c number (cut_rest lead more behind p) (0 ∷ back)
    → length (setup_text_of word host pre suf (c ∷ number) lead more behind p) ≤ length block
    → take (length (setup_text_of word host pre suf (c ∷ number) lead more behind p)) block
      ≡ setup_text_of word host pre suf (c ∷ number) lead more behind p
    → length (setup_text_of word host pre suf (c ∷ number) lead more behind p) ≤ length garbage
    → drop (length (setup_text_of word host pre suf (c ∷ number) lead more behind p)) garbage
      ≡ 0 ∷ back
    → Lacks 0 (
        request_text word host pre suf (c ∷ number) lead
        ++ (port_line p more ++ (13 ∷ 10 ∷ behind)))
    → Misses
        (codes "client_port")
        (request_text word host pre suf (c ∷ number) lead)
        (port_line p more ++ (13 ∷ 10 ∷ behind))
    → Lacks 13 (port_line p more)
    → length (port_line p more) < 24
    → p < 2 ^ 16
    → parse_rtsp_request garbage block
        (length (setup_text_of word host pre suf (c ∷ number) lead more behind p))
        s
      ≡ ok (
        session_of
            (request_text word host pre suf (c ∷ number) lead ++ port_line p more)
            word
            host
            pre
            suf
            (c ∷ number)
            (set_ports (ports_from p) s),
        true,
      )
unfolding parse_rtsp_request
parse_rtsp_request-setup garbage block word host pre suf c number lead more behind back p s k long
      taken fits stack no_zero first one_line room small =
    let line = port_line p more in
    let front = request_text word host pre suf (c ∷ number) lead in
    let request = setup_text_of word host pre suf (c ∷ number) lead more behind p in
    let size = length request in
    let read : read_block block 0 size ≡ some request =
      read_block_fits block 0 size (omega arith) ∙ ap (λ (t : Bytes). some t) taken in
    let m = front ++ (line ++ (13 ∷ 10 ∷ (behind ++ 0 ∷ back))) in
    let text : request ++ 0 ∷ back ≡ m =
      ap (λ (t : Bytes). t ++ 0 ∷ back)
        (sym (request_text-append word host pre suf (c ∷ number) lead (line ++ (13 ∷ 10 ∷ behind))))
      ∙ (append_assoc front (line ++ (13 ∷ 10 ∷ behind)) (0 ∷ back)
          ∙ ap (λ (t : Bytes). front ++ t) (append_assoc line (13 ∷ 10 ∷ behind) (0 ∷ back))) in
    let written : write_block garbage 0 request ≡ some m =
      write_block-front garbage request fits
      ∙ (ap (λ (t : Bytes). some (request ++ t)) stack ∙ ap (λ (t : Bytes). some t) text) in
    let cut = front ++ (line ++ (0 ∷ 10 ∷ (behind ++ 0 ∷ back))) in
    let ported =
      client_ports-line front more behind back p (ports s) no_zero first one_line room small in
    let cut_text : request_text word host pre suf (c ∷ number) (cut_rest lead more behind p)
          ++ 0 ∷ back
        ≡ cut =
      ap (λ (t : Bytes). t ++ 0 ∷ back)
        (sym (request_text-append word host pre suf (c ∷ number) lead (line ++ (0 ∷ 10 ∷ behind))))
      ∙ (append_assoc front (line ++ (0 ∷ 10 ∷ behind)) (0 ∷ back)
          ∙ ap (λ (t : Bytes). front ++ t) (append_assoc line (0 ∷ 10 ∷ behind) (0 ∷ back))) in
    let plain : Lacks 0 (front ++ line) =
      Lacks-front 0 (front ++ line) (13 ∷ 10 ∷ behind)
        (subst (Lacks 0) (sym (append_assoc front line (13 ∷ 10 ∷ behind))) no_zero) in
    let string : string_at
          (request_text word host pre suf (c ∷ number) (cut_rest lead more behind p) ++ 0 ∷ back)
        ≡ ok (front ++ line) =
      ap string_at (cut_text ∙ sym (append_assoc front line (0 ∷ 10 ∷ (behind ++ 0 ∷ back))))
      ∙ string_at-Lacks (front ++ line) (10 ∷ (behind ++ 0 ∷ back)) plain in
    let parsed =
      read_request-printed word host pre suf c number (cut_rest lead more behind p) (0 ∷ back)
        (front ++ line) k (set_ports (ports_from p) s) string in
    let sized : read_request cut size (set_ports (ports_from p) s)
        ≡ ok (
          session_of (front ++ line) word host pre suf (c ∷ number) (set_ports (ports_from p) s),
          true,
        ) =
      ap (λ (t : Bytes). read_request t size (set_ports (ports_from p) s)) (sym cut_text)
      ∙ (ap
            (λ (n : ℕ).
              read_request
                (request_text word host pre suf (c ∷ number) (cut_rest lead more behind p)
                  ++ 0 ∷ back)
                n (set_ports (ports_from p) s))
            (sym (length-cut word host pre suf (c ∷ number) lead more behind p))
          ∙ parsed) in
    rw (parse_rtsp_request, read) (rw (written) (rw (ported) sized))
