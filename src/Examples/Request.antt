-- ===== src/Examples/Request.antt =====
-- Requests that go through `ParseRtspRequest` and `Handle_RtspRequest` of src/libs/TcpConnection.cpp.
use payloader.Base.{
  read_block, write_block, ℕ, ◌≡◌, ◌≢◌, refl, arith, [], ◌++◌, Bool, true, false, Option, none,
  some, Bytes, length, replicate, Outcome, ok, fault, timeout,
}
use payloader.Streamer.{Streamer}
use payloader.Rtsp.{Connection, codes, line, empty_line}
use payloader.Rtsp.Command.{read_command, command_byte, is_blank, command_type}
use payloader.Rtsp.Handlers.{play_text}
use payloader.Rtsp.Strings.{scan_unsigned, string_at, strstr}
use payloader.Rtsp.ClientPort.{text_ports, client_ports}
use payloader.Rtsp.Url.{
  skip_blanks, find_url, skip_prefix, read_host, find_at, skip_back, back_to_slash, store_parts,
  read_suffix,
}
use payloader.Base.{◌-◌}
use payloader.Rtsp.Loops.{skip_loop, host_loop, url_loop, text_loop, value_loop}
use payloader.Rtsp.Loops.Counted.{parse_rtsp_request-counted}
use payloader.Rtsp.Url.Bounds.{IsPath, GoesOn, read_suffix_bounds}
use payloader.Rtsp.Fields.{read_c_seq, read_value, read_length}
use payloader.Rtsp.Request.{
  Session, read_request, read_behind_command, read_transport, read_line, read_behind_path,
  read_fields, new_session, parse_rtsp_request, Environment, handle_rtsp_request, buffer_size,
}
use payloader.Rtsp.Request.Fits.{FitsArrays, parse_rtsp_request-FitsArrays}
use payloader.Rtsp.Request.Answers.{complete_answer, Answered, handle_rtsp_request-Answered}

abbrev pub play_request : Bytes
play_request = line (codes "PLAY rtsp://h/ej/1 RTSP/1.0") ++ (line (codes "CSeq: 4") ++ empty_line)

abbrev pub zeros : Bytes
zeros = replicate buffer_size 0

abbrev pub first_session : Session
first_session = new_session 1 2 []

abbrev session_of : Outcome (Session × Bool) → Session
session_of (ok (s, b)) = s
session_of fault = first_session
session_of timeout = first_session

abbrev parsed : Session
parsed = session_of (parse_rtsp_request zeros play_request 38 first_session)

first_session-FitsArrays : FitsArrays (first_session.connection)
first_session-FitsArrays = ((omega arith, omega arith), omega arith)

zeros-length : length zeros ≡ buffer_size
zeros-length = refl

play_request-parsed : parse_rtsp_request zeros play_request 38 first_session ≡ ok (parsed, true)
unfolding parse_rtsp_request read_block write_block client_ports string_at text_ports strstr
    read_request read_command command_byte is_blank read_behind_command command_type read_transport
    read_line skip_blanks find_url skip_prefix read_host read_suffix find_at skip_back back_to_slash
    store_parts read_behind_path read_fields read_c_seq read_value read_length scan_unsigned
play_request-parsed = refl

parse_rtsp_request-FitsArrays_example : FitsArrays (parsed.connection)
parse_rtsp_request-FitsArrays_example =
    parse_rtsp_request-FitsArrays zeros play_request 38 first_session parsed true zeros-length
      play_request-parsed first_session-FitsArrays

abbrev pub env : Environment
env = record { binds = λ p. true; garbage = zeros; date = codes "Date: Thu" }

abbrev pub fresh_streamer : Streamer
fresh_streamer = record {
  rtp_socket = none;
  rtcp_socket = none;
  rtp_client_port = 0;
  rtcp_client_port = 0;
  rtp_server_port = 0;
  rtcp_server_port = 0;
  tcp_transport = false;
}

abbrev dated : Connection
dated = record (parsed.connection) { date = codes "Date: Thu" }

play_request-answer : complete_answer parsed.cmd_type dated ≡ some (play_text dated)
unfolding parse_rtsp_request read_block write_block client_ports string_at text_ports strstr
    read_request read_command command_byte is_blank read_behind_command command_type read_transport
    read_line skip_blanks find_url skip_prefix read_host read_suffix find_at skip_back back_to_slash
    store_parts read_behind_path read_fields read_c_seq read_value read_length scan_unsigned
play_request-answer = refl

handle_rtsp_request-Answered_example :
    Answered
      (handle_rtsp_request env play_request 38 first_session fresh_streamer)
      fresh_streamer
      parsed.cmd_type
      (parsed.connection)
      (play_text dated)
handle_rtsp_request-Answered_example =
    handle_rtsp_request-Answered env play_request 38 first_session parsed fresh_streamer
      (play_text dated) zeros-length (omega arith) first_session-FitsArrays play_request-parsed
      play_request-answer

abbrev port_line : Bytes
port_line = codes "client_port=5000-5001" ++ empty_line

abbrev play_line : Bytes
play_line = codes "PLAY /ej/1 RTSP/1.0"

read_suffix_bounds_example :
    (t : Connection) × (next : Option ℕ) × (read_suffix play_line 19 4 first_session.connection
      ≡ ok (t, next))
    × IsPath t
    × GoesOn 4 19 next
read_suffix_bounds_example =
    read_suffix_bounds play_line 19 4 (first_session.connection) (omega arith) (omega arith)
      (omega arith) (omega arith) first_session-FitsArrays.0

abbrev number_line : Bytes
number_line = codes "CSeq: 42" ++ empty_line

parse_rtsp_request-counted_example :
    ((m : Bytes) (j : ℕ) → skip_loop 39 m 38 j ≡ skip_blanks (38 - j) m j)
    × ((m : Bytes) (j : ℕ) → host_loop 39 m 38 j ≡ read_host (38 - j) m j)
    × ((m : Bytes) (j i : ℕ) → url_loop 39 m 38 j i ≡ find_url (38 - 8 - j) m 38 j i)
    × ((text m : Bytes) (k : ℕ) → text_loop 39 text m 38 k ≡ ok (find_at (38 - 5 - k) text m k))
    × ((m : Bytes) (room j : ℕ) → value_loop 39 room m 38 j ≡ read_value room (38 - j) m j)
    × (parse_rtsp_request zeros play_request 38 first_session ≢ timeout)
parse_rtsp_request-counted_example =
    parse_rtsp_request-counted zeros play_request 38 39 first_session (omega arith)
