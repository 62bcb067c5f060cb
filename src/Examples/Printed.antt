-- ===== src/Examples/Printed.antt =====
-- A PLAY request, written out and parsed.
use payloader.Base.{◌+◌, ◌≡◌, refl, arith, [], ◌∷◌, ◌++◌, true, Bytes, drop, length, replicate, ok}
use payloader.Rtsp.{codes}
use payloader.Rtsp.Command.{is_blank}
use payloader.Rtsp.Strings.{string_at, strstr}
use payloader.Rtsp.Request.{Session, Environment, set_ports, parse_rtsp_request}
use payloader.Rtsp.Request.Printed.{IsRequest, request_text, session_of}
use payloader.Rtsp.Request.RoundTrip.{parse_rtsp_request-printed}
use payloader.Rtsp.Request.Setup.{setup_text_of, cut_rest, port_line, parse_rtsp_request-setup}
use payloader.Rtsp.ClientPort.Printed.{ports_from}
use payloader.Examples.Request.{first_session, fresh_streamer}
use payloader.Streamer.{Streamer}
use payloader.Streamer.Ports.{Found}
use payloader.Streamer.Streaming.{recv_addr}
use payloader.Rtsp.Handlers.{setup_text, transport_text, play_text}
use payloader.TcpServer.{received, tick, readable, Server, answer, start_streaming, new_server, run}
use payloader.TcpServer.Playing.{dated}
use payloader.TcpServer.Playing.Printed.{IsSetup, IsPlay, run-printed}
use payloader.Base.{swap16}

abbrev request : Bytes
request =
    request_text (codes "PLAY") (codes "h:8554") (codes "ej") (codes "1") (codes "14")
      (13 ∷ 10 ∷ [])

abbrev stack : Bytes
stack = replicate 100 0

request-IsRequest :
    IsRequest
      (codes "PLAY")
      (codes "h:8554")
      (codes "ej")
      (codes "1")
      49
      (codes "4")
      (13 ∷ 10 ∷ [])
      (drop (length request) stack)
unfolding is_blank
request-IsRequest = record {
  is_word = (refl, (refl, (refl, (refl, tt))));
  short_word = omega arith;
  host_slash = (refl, (refl, (refl, (refl, (refl, (refl, tt))))));
  host_space = (refl, (refl, (refl, (refl, (refl, (refl, tt))))));
  pre_zero = (refl, (refl, tt));
  suf_zero = (refl, tt);
  suf_space = (refl, tt);
  suf_slash = (refl, tt);
  short_pre = omega arith;
  short_suf = omega arith;
  version = ground arith;
  letter = refl;
  is_line = ground arith;
  short_number = omega arith;
  no_length = ground arith;
  small = omega arith;
}

parse_rtsp_request-printed_example :
    parse_rtsp_request stack request (length request) first_session
    ≡ ok (
      session_of request
          (codes "PLAY")
          (codes "h:8554")
          (codes "ej")
          (codes "1")
          (codes "14")
          first_session,
      true,
    )
unfolding string_at strstr
parse_rtsp_request-printed_example =
    parse_rtsp_request-printed stack request (codes "PLAY") (codes "h:8554") (codes "ej")
      (codes "1") 49 (codes "4") (13 ∷ 10 ∷ []) request first_session request-IsRequest
      (omega arith) refl (omega arith) refl refl

-- A SETUP with the ports 5000 and 5001.
abbrev lead : Bytes
lead = codes "Transport: RTP/AVP;unicast;"

abbrev setup_request : Bytes
setup_request =
    setup_text_of (codes "SETUP") (codes "h:8554") (codes "ej") (codes "1") (codes "13") lead
      (codes "5001") (13 ∷ 10 ∷ []) 5000

abbrev large_stack : Bytes
large_stack = replicate 200 0

setup_request-IsRequest :
    IsRequest
      (codes "SETUP")
      (codes "h:8554")
      (codes "ej")
      (codes "1")
      49
      (codes "3")
      (cut_rest lead (codes "5001") (13 ∷ 10 ∷ []) 5000)
      (0 ∷ drop (length setup_request + 1) large_stack)
unfolding is_blank
setup_request-IsRequest = record {
  is_word = (refl, (refl, (refl, (refl, (refl, tt)))));
  short_word = omega arith;
  host_slash = (refl, (refl, (refl, (refl, (refl, (refl, tt))))));
  host_space = (refl, (refl, (refl, (refl, (refl, (refl, tt))))));
  pre_zero = (refl, (refl, tt));
  suf_zero = (refl, tt);
  suf_space = (refl, tt);
  suf_slash = (refl, tt);
  short_pre = omega arith;
  short_suf = omega arith;
  version = ground arith;
  letter = refl;
  is_line = ground arith;
  short_number = omega arith;
  no_length = ground arith;
  small = omega arith;
}

parse_rtsp_request-setup_example :
    parse_rtsp_request large_stack setup_request (length setup_request) first_session
    ≡ ok (
      session_of
          (request_text (codes "SETUP") (codes "h:8554") (codes "ej") (codes "1") (codes "13") lead
            ++ port_line 5000 (codes "5001"))
          (codes "SETUP")
          (codes "h:8554")
          (codes "ej")
          (codes "1")
          (codes "13")
          (set_ports (ports_from 5000) first_session),
      true,
    )
parse_rtsp_request-setup_example =
    parse_rtsp_request-setup large_stack setup_request (codes "SETUP") (codes "h:8554") (codes "ej")
      (codes "1") 49 (codes "3") lead (codes "5001") (13 ∷ 10 ∷ [])
      (drop (length setup_request + 1) large_stack) 5000 first_session setup_request-IsRequest
      (omega arith) refl (omega arith) refl (ground arith) (ground arith) (ground arith)
      (omega arith) (omega arith)

-- The two requests at the server's loop.
abbrev with_stack : Bytes → Environment
with_stack garbage = record { binds = λ p. true; garbage = garbage; date = codes "Date: Thu" }

abbrev server : Server
server = new_server first_session fresh_streamer

setup_request-IsSetup :
    IsSetup
      (with_stack large_stack)
      (codes "h:8554")
      (codes "ej")
      (codes "1")
      49
      (codes "3")
      lead
      (codes "5001")
      (13 ∷ 10 ∷ [])
      (drop (length setup_request + 1) large_stack)
      5000
unfolding strstr
setup_request-IsSetup = record {
  is_request = setup_request-IsRequest;
  received_whole = omega arith;
  on_stack = omega arith;
  zero_behind = refl;
  no_zero = ground arith;
  first_ports = ground arith;
  one_line = ground arith;
  short_line = omega arith;
  small_port = omega arith;
  no_tcp = refl;
  date_fits = omega arith;
}

request-IsPlay :
    IsPlay
      (with_stack stack)
      (codes "h:8554")
      (codes "ej")
      (codes "1")
      49
      (codes "4")
      (13 ∷ 10 ∷ [])
      request
unfolding string_at strstr
request-IsPlay = record {
  is_request = request-IsRequest;
  received_whole = omega arith;
  on_stack = omega arith;
  string = refl;
  no_ports = refl;
  date_fits = omega arith;
}

run-printed_example :
    (t : Session) × (u : Session) × (streamer : Streamer) × (final : Server) × (run
        (readable (with_stack large_stack) (received setup_request)
          ∷ readable (with_stack stack) (received request)
          ∷ tick
          ∷ [])
        server
      ≡ ok (
        final,
        answer (
              setup_text
                (dated (with_stack large_stack) t)
                (transport_text (dated (with_stack large_stack) t) streamer))
            ∷ answer (play_text (dated (with_stack stack) u))
            ∷ start_streaming streamer
            ∷ [],
      ))
    × (t.connection.c_seq ≡ codes "13")
    × (u.connection.c_seq ≡ codes "14")
    × Found (λ p. true) 6970 fresh_streamer streamer
    × ((recv_addr 9 streamer).sin_port ≡ swap16 5000)
run-printed_example =
    run-printed (with_stack large_stack) (with_stack stack) (codes "h:8554") (codes "ej")
      (codes "1") 49 (codes "3") lead (codes "5001") (13 ∷ 10 ∷ [])
      (drop (length setup_request + 1) large_stack) 5000 (codes "h:8554") (codes "ej") (codes "1")
      49 (codes "4") (13 ∷ 10 ∷ []) request server 9 refl setup_request-IsSetup request-IsPlay
