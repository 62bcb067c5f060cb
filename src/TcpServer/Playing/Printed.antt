-- ===== src/TcpServer/Playing/Printed.antt =====
-- A session from the bytes of its requests to the stream: src/libs/TcpServer.cpp and TcpConnection.cpp.
use payloader.Base.{
  ℕ, ◌-◌, replicate, ◌^◌, ◌≤◌, ◌<◌, ◌≡◌, refl, ap, ◌∙◌, arith, [], ◌∷◌, ◌++◌, false, none, ok,
  Bytes, take, drop, length, length-append, take-append, take_all, swap16,
}
use payloader.Streamer.{Streamer}
use payloader.Streamer.Ports.{Found}
use payloader.Streamer.Streaming.{recv_addr}
use payloader.Rtsp.{codes}
use payloader.Rtsp.Command.{command_type, setup, play}
use payloader.Rtsp.Handlers.{setup_text, transport_text, play_text}
use payloader.Rtsp.Places.{Lacks, Misses}
use payloader.Rtsp.Strings.{string_at, strstr}
use payloader.Rtsp.ClientPort.Printed.{ports_from}
use payloader.Rtsp.Request.{
  parse_rtsp_request, Session, Environment, set_ports, is_found, buffer_size,
}
use payloader.Rtsp.Request.Printed.{request_text, IsRequest, session_of}
use payloader.Rtsp.Request.RoundTrip.{parse_rtsp_request-printed}
use payloader.Rtsp.Request.Setup.{setup_text_of, cut_rest, port_line, parse_rtsp_request-setup}
use payloader.TcpServer.{
  received, tick, readable, Server, answer, start_streaming, recv_buf, res, run,
}
use payloader.TcpServer.Playing.{Parses, dated, run-plays}

-- The request up to its line of ports, and with that line.
abbrev lead_text : (host pre suf : Bytes) (c : ℕ) (number lead : Bytes) → Bytes
lead_text host pre suf c number lead = request_text (codes "SETUP") host pre suf (c ∷ number) lead

abbrev pub setup_bytes :
    (host pre suf : Bytes) (c : ℕ) (number lead more behind : Bytes) (p : ℕ) → Bytes
setup_bytes host pre suf c number lead more behind p =
    setup_text_of (codes "SETUP") host pre suf (c ∷ number) lead more behind p

abbrev pub play_bytes : (host pre suf : Bytes) (c : ℕ) (number rest : Bytes) → Bytes
play_bytes host pre suf c number rest = request_text (codes "PLAY") host pre suf (c ∷ number) rest

-- A SETUP over UDP that the environment can parse: its parts can be told apart and have no zero, it fits
-- the arrays with a zero behind it, and its ports stand on one line, whose copy does not overlap with it.
pub record IsSetup (env : Environment) (host pre suf : Bytes) (c : ℕ)
    (number lead more behind back : Bytes) (p : ℕ) : Type 0 where
  pub is_request :
      IsRequest (codes "SETUP") host pre suf c number (cut_rest lead more behind p) (0 ∷ back)
  pub received_whole : length (setup_bytes host pre suf c number lead more behind p) ≤ buffer_size
  pub on_stack : length (setup_bytes host pre suf c number lead more behind p) ≤ length env.garbage
  pub zero_behind :
      drop (length (setup_bytes host pre suf c number lead more behind p)) env.garbage ≡ 0 ∷ back
  pub no_zero :
      Lacks 0 (lead_text host pre suf c number lead ++ (port_line p more ++ (13 ∷ 10 ∷ behind)))
  pub first_ports :
      Misses
        (codes "client_port")
        (lead_text host pre suf c number lead)
        (port_line p more ++ (13 ∷ 10 ∷ behind))
  pub one_line : Lacks 13 (port_line p more)
  pub short_line : length (port_line p more) < 24
  pub small_port : p < 2 ^ 16
  pub no_tcp :
      strstr (lead_text host pre suf c number lead ++ port_line p more) (codes "RTP/AVP/TCP") ≡ none
  pub date_fits : length env.date ≤ 199

-- A PLAY that the environment can parse, without a line of ports.
pub record IsPlay (env : Environment) (host pre suf : Bytes) (c : ℕ) (number rest text : Bytes)
    : Type 0 where
  pub is_request :
      IsRequest
        (codes "PLAY")
        host
        pre
        suf
        c
        number
        rest
        (drop (length (play_bytes host pre suf c number rest)) env.garbage)
  pub received_whole : length (play_bytes host pre suf c number rest) ≤ buffer_size
  pub on_stack : length (play_bytes host pre suf c number rest) ≤ length env.garbage
  pub string :
      string_at (
        play_bytes host pre suf c number rest
        ++ drop (length (play_bytes host pre suf c number rest)) env.garbage)
      ≡ ok text
  pub no_ports : strstr text (codes "client_port") ≡ none
  pub date_fits : length env.date ≤ 199

recv_buf-front :
    (text : Bytes)
    → length text ≤ buffer_size
    → (res (received text) ≡ length text)
      × (length text ≤ length (recv_buf (received text)))
      × (take (length text) (recv_buf (received text)) ≡ text)
recv_buf-front text fits =
    let whole : take buffer_size text ≡ text = take_all buffer_size text fits in
    let split : recv_buf (received text)
        ≡ text ++ replicate (buffer_size - length (take buffer_size text)) 0 =
      ap (λ (t : Bytes). t ++ replicate (buffer_size - length (take buffer_size text)) 0) whole in
    (
      ap length whole,
      omega (
        arith,
        ap length split,
        length-append text (replicate (buffer_size - length (take buffer_size text)) 0),
      ),
      ap (take (length text)) split
          ∙ take-append text (replicate (buffer_size - length (take buffer_size text)) 0)
              (length text) refl,
    )

-- The sessions behind the two requests.
abbrev pub setup_session :
    (host pre suf : Bytes) (c : ℕ) (number lead more : Bytes) (p : ℕ) → Session → Session
setup_session host pre suf c number lead more p s =
    session_of (lead_text host pre suf c number lead ++ port_line p more) (codes "SETUP") host pre
      suf (c ∷ number) (set_ports (ports_from p) s)

abbrev pub play_session : (host pre suf : Bytes) (c : ℕ) (number text : Bytes) → Session → Session
play_session host pre suf c number text s =
    session_of text (codes "PLAY") host pre suf (c ∷ number) s

setup-Parses :
    (env : Environment) (host pre suf : Bytes) (c : ℕ) (number lead more behind back : Bytes)
    (p : ℕ) (s : Session)
    → IsSetup env host pre suf c number lead more behind back p
    → Parses env
        (received (setup_bytes host pre suf c number lead more behind p))
        s
        (setup_session host pre suf c number lead more p s)
        setup
unfolding command_type
setup-Parses env host pre suf c number lead more behind back p s k =
    let text = setup_bytes host pre suf c number lead more behind p in
    let (sized, long, front) = recv_buf-front text (k.received_whole) in
    record {
      starts = refl;
      parsed =
          ap (λ (n : ℕ). parse_rtsp_request env.garbage (recv_buf (received text)) n s) sized
          ∙ parse_rtsp_request-setup env.garbage (recv_buf (received text)) (codes "SETUP") host pre
              suf c number lead more behind back p s k.is_request long front k.on_stack
              k.zero_behind k.no_zero k.first_ports k.one_line k.short_line k.small_port;
      same_type = refl;
      fits = record {
        c_seq_fits = omega (arith, k.is_request.short_number);
        date_fits = k.date_fits;
      };
    }

play-Parses :
    (env : Environment) (host pre suf : Bytes) (c : ℕ) (number rest text : Bytes) (s : Session)
    → IsPlay env host pre suf c number rest text
    → Parses env
        (received (play_bytes host pre suf c number rest))
        s
        (play_session host pre suf c number text s)
        play
unfolding command_type
play-Parses env host pre suf c number rest text s k =
    let request = play_bytes host pre suf c number rest in
    let (sized, long, front) = recv_buf-front request (k.received_whole) in
    record {
      starts = refl;
      parsed =
          ap (λ (n : ℕ). parse_rtsp_request env.garbage (recv_buf (received request)) n s) sized
          ∙ parse_rtsp_request-printed env.garbage (recv_buf (received request)) (codes "PLAY") host
              pre suf c number rest text s k.is_request long front k.on_stack k.string k.no_ports;
      same_type = refl;
      fits = record {
        c_seq_fits = omega (arith, k.is_request.short_number);
        date_fits = k.date_fits;
      };
    }

-- A client sends a SETUP over UDP that names the port `p`, and then a PLAY, each written out as its
-- parts say and each taken whole by one `recv`, to a loop that is not over, and then the periodic check
-- comes. The conditions on the requests: their parts can be told apart, they have at most 10000 bytes and
-- fit the array on the stack, and the dates have at most 199 bytes. The SETUP (`IsSetup`) has no zero byte
-- and has one behind it on the stack, its first `client_port` begins the line of the ports, that line has
-- fewer than 24 bytes, so that no copy of it overlaps, `p` is below 2^16, and no `RTP/AVP/TCP` stands
-- before the end of that line. The PLAY (`IsPlay`) has a string on the stack without `client_port`. Then
-- each request is answered once, from a session that has the number it carries, and the check starts a
-- stream. The streamer has the server's ports that the search finds, and it sends to the port `p`.
pub run-printed :
    (first second : Environment) (host pre suf : Bytes) (c : ℕ)
    (number lead more behind back : Bytes) (p : ℕ) (host2 pre2 suf2 : Bytes) (d : ℕ)
    (number2 rest text : Bytes) (s : Server) (peer : ℕ)
    → s.stop ≡ false
    → IsSetup first host pre suf c number lead more behind back p
    → IsPlay second host2 pre2 suf2 d number2 rest text
    → (t : Session) × (u : Session) × (streamer : Streamer) × (final : Server) × (run
          (readable first (received (setup_bytes host pre suf c number lead more behind p))
            ∷ readable second (received (play_bytes host2 pre2 suf2 d number2 rest))
            ∷ tick
            ∷ [])
          s
        ≡ ok (
          final,
          answer (setup_text (dated first t) (transport_text (dated first t) streamer))
              ∷ answer (play_text (dated second u))
              ∷ start_streaming streamer
              ∷ [],
        ))
      × (t.connection.c_seq ≡ c ∷ number)
      × (u.connection.c_seq ≡ d ∷ number2)
      × Found first.binds 6970 s.streamer streamer
      × ((recv_addr peer streamer).sin_port ≡ swap16 p)
unfolding command_type strstr
run-printed first second host pre suf c number lead more behind back p host2 pre2 suf2 d number2
      rest text s peer going is_setup is_play =
    let t = setup_session host pre suf c number lead more p s.session in
    let u = play_session host2 pre2 suf2 d number2 text (record t { connection = dated first t }) in
    let udp : t.connection.tcp_transport ≡ false = ap is_found (is_setup.no_tcp) in
    let (streamer, final, runs, found, port) =
      run-plays first second (received (setup_bytes host pre suf c number lead more behind p))
        (received (play_bytes host2 pre2 suf2 d number2 rest)) s t u peer going
        (setup-Parses first host pre suf c number lead more behind back p s.session is_setup) udp
        (play-Parses second host2 pre2 suf2 d number2 rest text
          (record t { connection = dated first t }) is_play) in
    (t, u, streamer, final, runs, refl, refl, found, port)
