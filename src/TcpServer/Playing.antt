-- ===== src/TcpServer/Playing.antt =====
-- A session from SETUP to the stream: src/libs/TcpServer.cpp, TcpConnection.cpp and Streamer.cpp.
pub mod Printed
use payloader.Base.{
  ℕ, ◌≡◌, refl, sym, ap, ◌∙◌, List, [], ◌∷◌, map, Bool, true, false, ok, ◌>>=◌, Bytes, Outcome,
  swap16, bind-eq-ok,
}
use payloader.Streamer.{Streamer, init_transport}
use payloader.Streamer.Ports.{Found}
use payloader.Streamer.Ports.Clients.{init_transport-client}
use payloader.Streamer.Streaming.{recv_addr}
use payloader.Rtsp.{Connection}
use payloader.Rtsp.Command.{RtspCmdType, setup, play}
use payloader.Rtsp.Handlers.{setup_text, transport_text, play_text, handle_setup, handle_play}
use payloader.Rtsp.Handlers.Replies.{IsConnection, handle_complete, handle_setup-udp}
use payloader.Rtsp.Request
use payloader.Rtsp.Request.{
  Session, Environment, Handled, Served, parse_rtsp_request, handle_rtsp_request,
}
use payloader.TcpServer.{
  Received, tick, readable, Server, answer, start_streaming, recv_buf, res, starts_command,
  after_command, step, run,
}
use payloader.TcpServer.Phases.{run-rounds}

-- The connection behind a parse, with the date of its answer.
abbrev pub dated : Environment → Session → Connection
dated env t = record (t.connection) { date = env.date }

-- The bytes that have come are parsed as a request of the type.
pub record Parses (env : Environment) (r : Received) (s t : Session) (type : RtspCmdType)
    : Type 0 where
  pub starts : starts_command (recv_buf r) ≡ true
  pub parsed : parse_rtsp_request env.garbage (recv_buf r) (res r) s ≡ ok (t, true)
  pub same_type : t.cmd_type ≡ type
  pub fits : IsConnection (dated env t)

-- What is left of a request whose command has been handled.
handle_rtsp_request-dispatch :
    (env : Environment) (request : Bytes) (size : ℕ) (s t : Session) (streamer : Streamer)
    (type : RtspCmdType) (h : Handled)
    → parse_rtsp_request env.garbage request size s ≡ ok (t, true)
    → t.cmd_type ≡ type
    → Request.dispatch env.binds type (dated env t) streamer ≡ ok h
    → handle_rtsp_request env request size s streamer
      ≡ ok (record {
        session = record t { connection = h.connection };
        streamer = h.streamer;
        answers = h.answers;
      })
unfolding handle_rtsp_request
handle_rtsp_request-dispatch env request size s t streamer type h parsed same handled =
    let finish : Outcome Handled → Outcome Served = λ o. o >>= λ (g : Handled). ok (record {
      session = record t { connection = g.connection };
      streamer = g.streamer;
      answers = g.answers;
    }) in
    let start : handle_rtsp_request env request size s streamer
        ≡ finish (Request.dispatch env.binds t.cmd_type (dated env t) streamer) =
      rw (handle_rtsp_request, parsed) refl in
    start
    ∙ (ap (λ (c : RtspCmdType). finish (Request.dispatch env.binds c (dated env t) streamer)) same
        ∙ ap finish handled)

step-command :
    (env : Environment) (r : Received) (s : Server) (t : Session) (type : RtspCmdType) (h : Handled)
    → Parses env r s.session t type
    → Request.dispatch env.binds type (dated env t) s.streamer ≡ ok h
    → step (readable env r) s
      ≡ ok (
        after_command type
            (record s { session = record t { connection = h.connection }; streamer = h.streamer }),
        map answer h.answers,
      )
unfolding step
step-command env r s t type h k handled =
    let done =
      handle_rtsp_request-dispatch env (recv_buf r) (res r) s.session t s.streamer type h k.parsed
        k.same_type handled in
    let state : Server = record s {
      session = record t { connection = h.connection };
      streamer = h.streamer;
    } in
    let round : step (readable env r) s
        ≡ ok (after_command t.cmd_type state, map answer h.answers) =
      rw (step, k.starts) (rw (done) refl) in
    round ∙ ap (λ (c : RtspCmdType). ok (after_command c state, map answer h.answers)) k.same_type

-- The server behind a PLAY.
abbrev played : Environment → Server → Session → Server
played env s t = record s {
  session = record t { connection = record (dated env t) { connected = true } };
  streaming_started = true;
}

step-play :
    (env : Environment) (r : Received) (s : Server) (t : Session)
    → Parses env r s.session t play
    → step (readable env r) s ≡ ok (played env s t, answer (play_text (dated env t)) ∷ [])
unfolding Request.dispatch
step-play env r s t k =
    let whole =
      ap (λ (p : Connection × List Bytes). p.1) (handle_complete (dated env t) k.fits).2 in
    step-command env r s t play
      (record {
        connection = record (dated env t) { connected = true };
        streamer = s.streamer;
        answers = (handle_play (dated env t)).1;
      })
      k refl
    ∙ ap (λ (answers : List Bytes). ok (played env s t, map answer answers)) whole

-- The server behind a SETUP.
abbrev set_up : Environment → Server → Session → Streamer → Server
set_up env s t streamer = record s {
  session = record t { connection = dated env t };
  streamer = streamer;
}

handle_setup-client :
    (binds : ℕ → Bool) (c : Connection) (s t : Streamer) (answers : List Bytes)
    → c.tcp_transport ≡ false
    → handle_setup binds c s ≡ ok (t, answers)
    → t.rtp_client_port ≡ c.client_rtp_port
unfolding handle_setup
handle_setup-client binds c s t answers udp e =
    let (u, inits, rest) =
      bind-eq-ok (init_transport binds c.client_rtp_port c.client_rtcp_port c.tcp_transport s) _
        e in
    let same : u ≡ t = cc in
    let over_udp : init_transport binds c.client_rtp_port c.client_rtcp_port false s ≡ ok u =
      ap (λ (b : Bool). init_transport binds c.client_rtp_port c.client_rtcp_port b s) (sym udp)
      ∙ inits in
    let (port, _) = init_transport-client binds c.client_rtp_port c.client_rtcp_port s u over_udp in
    ap (λ (v : Streamer). v.rtp_client_port) (sym same) ∙ port

step-setup :
    (env : Environment) (r : Received) (s : Server) (t : Session)
    → Parses env r s.session t setup
    → t.connection.tcp_transport ≡ false
    → (streamer : Streamer) × (step (readable env r) s
        ≡ ok (
          set_up env s t streamer,
          answer (setup_text (dated env t) (transport_text (dated env t) streamer)) ∷ [],
        ))
      × Found env.binds 6970 s.streamer streamer
      × (streamer.rtp_client_port ≡ t.connection.client_rtp_port)
unfolding Request.dispatch
step-setup env r s t k udp =
    let (streamer, sends, found) = handle_setup-udp env.binds (dated env t) s.streamer k.fits udp in
    let h : Handled = record {
      connection = dated env t;
      streamer = streamer;
      answers = setup_text (dated env t) (transport_text (dated env t) streamer) ∷ [];
    } in
    let handled : Request.dispatch env.binds setup (dated env t) s.streamer ≡ ok h =
      rw (sends) refl in
    (
      streamer,
      step-command env r s t setup h k handled,
      found,
      handle_setup-client env.binds (dated env t) s.streamer streamer _ udp sends,
    )

-- A SETUP over UDP and then a PLAY, each parsed, at a loop that is not over, and then the periodic check:
-- each command is answered once, completely and with its own number, and the check starts a stream. The
-- streamer of that stream has the server's ports that the search finds, the ports that the answer to the
-- SETUP names, and it sends to the port that the client has named in its SETUP.
pub run-plays :
    (first second : Environment) (r q : Received) (s : Server) (t u : Session) (peer : ℕ)
    → s.stop ≡ false
    → Parses first r s.session t setup
    → t.connection.tcp_transport ≡ false
    → Parses second q (record t { connection = dated first t }) u play
    → (streamer : Streamer) × (final : Server) × (run
          (readable first r ∷ readable second q ∷ tick ∷ [])
          s
        ≡ ok (
          final,
          answer (setup_text (dated first t) (transport_text (dated first t) streamer))
              ∷ answer (play_text (dated second u))
              ∷ start_streaming streamer
              ∷ [],
        ))
      × Found first.binds 6970 s.streamer streamer
      × ((recv_addr peer streamer).sin_port ≡ swap16 t.connection.client_rtp_port)
unfolding run step
run-plays first second r q s t u peer going is_setup udp is_play =
    let (streamer, setup_round, found, port) = step-setup first r s t is_setup udp in
    let behind = set_up first s t streamer in
    let play_round = step-play second q behind u is_play in
    let checked = run-rounds tick [] (played second behind u) going in
    let played_run = run-rounds (readable second q) (tick ∷ []) behind going in
    let whole = run-rounds (readable first r) (readable second q ∷ tick ∷ []) s going in
    (
      streamer,
      played second behind u,
      whole ∙ rw (setup_round) (rw (played_run) (rw (play_round) (rw (checked) refl))),
      found,
      ap swap16 port,
    )
