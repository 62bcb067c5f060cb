-- ===== src/Rtsp/ClientPort/Ending.antt =====
-- The search for the ports ends.
use payloader.Base.{
  ℕ, ◌+◌, [], ◌∷◌, none, some, ltb, Bytes, take, drop, length, Outcome, ok, fault, ◌>>=◌, Ends,
  bind-Ends, u16, if-Ends, option-Ends,
}
use payloader.Rtsp.{codes}
use payloader.Rtsp.Strings.{string_at, strstr, atoi}
use payloader.Rtsp.ClientPort.{
  Ports, strcpy_down, cp_size, cut_at, ports_of, line_ports, text_ports, client_ports,
}
use payloader.Rtsp.Strings.Ending.{string_at-Ends, atoi-Ends}

ports_of-Ends : (cp : Bytes) (old : Ports) → Ends (ports_of cp old)
unfolding ports_of
ports_of-Ends cp old =
    option-Ends (strstr cp (codes "-")) (ok old)
      (λ dash. atoi (take dash cp) >>= λ port.
        ok (record { client_rtp_port = u16 port; client_rtcp_port = u16 (u16 port + 1) }))
      tt (λ dash. bind-Ends (atoi (take dash cp)) _ (atoi-Ends (take dash cp)) (λ port e. tt))

strcpy_down-Ends : (from : ℕ) (string : Bytes) → Ends (strcpy_down from string)
strcpy_down-Ends from string =
    if-Ends (ltb (length (drop from string)) from) (ok (drop from string)) fault tt tt

line_ports-Ends : (line : Bytes) (old : Ports) → Ends (line_ports line old)
unfolding line_ports
line_ports-Ends line old =
    if-Ends (ltb (length line) cp_size) _ fault
      (option-Ends (strstr line (codes "=")) (ok old)
        (λ equals. strcpy_down (equals + 1) line >>= λ cp. ports_of cp old) tt
        (λ equals.
          bind-Ends (strcpy_down (equals + 1) line) _ (strcpy_down-Ends (equals + 1) line)
            (λ cp e. ports_of-Ends cp old)))
      tt

text_ports-Ends : (text m : Bytes) (old : Ports) → Ends (text_ports text m old)
unfolding text_ports
text_ports-Ends text m old =
    let cut : ℕ → ℕ → Outcome (Bytes × Ports) = λ at end.
      line_ports (take end (drop at text)) old >>= λ ports. ok (cut_at (at + end) m, ports) in
    let cut-ends : (at end : ℕ) → Ends (cut at end) = λ at end.
      bind-Ends (line_ports (take end (drop at text)) old) _
        (line_ports-Ends (take end (drop at text)) old) (λ ports e. tt) in
    option-Ends (strstr text (codes "client_port")) (ok (m, old))
      (λ at. elim (strstr (drop at text) (13 ∷ 10 ∷ [])) [
        | none ↦ ok (m, old)
        | some end ↦ cut at end
      ])
      tt
      (λ at.
        option-Ends (strstr (drop at text) (13 ∷ 10 ∷ [])) (ok (m, old)) (cut at) tt (cut-ends at))

pub client_ports-Ends : (m : Bytes) (old : Ports) → Ends (client_ports m old)
unfolding client_ports
client_ports-Ends m old =
    bind-Ends (string_at m) _ (string_at-Ends m) (λ text e. text_ports-Ends text m old)
