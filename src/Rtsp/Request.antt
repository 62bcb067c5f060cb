-- ===== src/Rtsp/Request.antt =====
-- `ParseRtspRequest`, `Handle_RtspRequest` and the constructor of src/libs/TcpConnection.cpp.
pub mod Fits
pub mod Answers
pub mod Ending
pub mod Printed
pub mod RoundTrip
pub mod Setup
use payloader.Base.{
  ℕ, zero, suc, ◌+◌, ◌-◌, ◌*◌, ◌^◌, List, [], ◌∷◌, ◌++◌, Bool, true, false, Option, none, some,
  if◌then◌else◌, Bytes, take, drop, length, replicate, Outcome, ok, fault, ◌>>=◌, access,
  read_block, write_block, bit_or, u32,
}
use payloader.Streamer.{Streamer}
use payloader.Rtsp.{Connection, codes}
use payloader.Rtsp.Command.{
  RtspCmdType, options, describe, setup, play, teardown, pause, unknown, read_command, command_room,
  command_type, c_string,
}
use payloader.Rtsp.Handlers.{
  handle_option, handle_describe, handle_setup, handle_play, handle_pause,
}
use payloader.Rtsp.Strings.{string_at, strstr}
use payloader.Rtsp.ClientPort.{Ports, client_ports}
use payloader.Rtsp.Url.{skip_blanks, find_url, read_suffix}
use payloader.Rtsp.Fields.{read_c_seq, read_length}

-- What a connection keeps beside the members that the handlers read: `host_port` is the whole of
-- `m_URLHostPort`, whose string is the member of the connection.
pub record Session : Type 0 where
  pub connection : Connection
  pub host_port : Bytes
  pub cmd_type : RtspCmdType
  pub content_length : ℕ

-- `RTSP_BUFFER_SIZE`
abbrev pub buffer_size : ℕ
buffer_size = 10000

abbrev pub is_setup : RtspCmdType → Bool
is_setup setup = true
is_setup _ = false

abbrev pub is_found : Option ℕ → Bool
is_found none = false
is_found (some n) = true

-- The transport of a SETUP.
unfoldable pub read_transport : Bytes → Session → Outcome Session
read_transport m s =
    let tcp = string_at m >>= λ text. ok (record s {
      connection = record (s.connection) {
        tcp_transport = is_found (strstr text (codes "RTP/AVP/TCP"));
      };
    }) in
    if is_setup s.cmd_type then tcp else ok s

-- No zero is written behind the host.
abbrev pub set_host : Bytes → Session → Session
set_host host s =
    let buffer = host ++ drop (length host) s.host_port in
    record s {
      connection = record (s.connection) { url_host_port = c_string buffer };
      host_port = buffer;
    }

-- The fields behind the version, which ends at `next`.
unfoldable pub read_fields : Bytes → (size next : ℕ) → Session → Outcome (Session × Bool)
read_fields m size next s = read_c_seq m size next s.connection >>= λ r.
    (if r.1
      then (read_length size m size next s.content_length >>= λ n.
          ok (record s { connection = r.0; content_length = n }, true))
      else ok (record s { connection = r.0 }, false))

-- Without a path the parse fails.
unfoldable pub read_behind_path : Bytes → (size : ℕ) → Session → Option ℕ → Outcome (Session × Bool)
read_behind_path m size s none = ok (s, false)
read_behind_path m size s (some next) = read_fields m size next s

-- What follows the command, which ends at `i`.
unfoldable pub read_line : Bytes → (size i : ℕ) → Session → Outcome (Session × Bool)
read_line m size i s = skip_blanks (size - (i + 1)) m (i + 1) >>= λ j.
    find_url (size - 8 - j) m size j i >>= λ url.
    (let t = set_host url.1 s in
      read_suffix m size url.0 t.connection >>= λ r.
      read_behind_path m size (record t { connection = r.0 }) r.1)

-- The command is known, or there is none.
unfoldable pub read_behind_command :
    Bytes → (size : ℕ) → Session → Option (Bytes × ℕ) → Outcome (Session × Bool)
read_behind_command m size s none = ok (s, false)
read_behind_command m size s (some (name, i)) =
    read_transport m (record s { cmd_type = command_type name s.cmd_type }) >>= λ t.
    read_line m size i t

-- From the command on.
unfoldable pub read_request : Bytes → (size : ℕ) → Session → Outcome (Session × Bool)
read_request m size s =
    read_command command_room m size 0 >>= λ word. read_behind_command m size s word

abbrev pub ports : Session → Ports
ports s = record {
  client_rtp_port = s.connection.client_rtp_port;
  client_rtcp_port = s.connection.client_rtcp_port;
}

abbrev pub set_ports : Ports → Session → Session
set_ports p s = record s {
  connection = record (s.connection) {
    client_rtp_port = p.client_rtp_port;
    client_rtcp_port = p.client_rtcp_port;
  };
}

-- `ParseRtspRequest`: `garbage` is what the local array `CurRequest` holds before the copy.
unfoldable pub parse_rtsp_request :
    (garbage request : Bytes) (size : ℕ) → Session → Outcome (Session × Bool)
parse_rtsp_request garbage request size s = access (read_block request 0 size) >>= λ bytes.
    access (write_block garbage 0 bytes) >>= λ cur_request.
    client_ports cur_request (ports s) >>= λ r. read_request r.0 size (set_ports r.1 s)

-- What a handler leaves: the connection, the streamer and the answers that it sends.
pub record Handled : Type 0 where
  pub connection : Connection
  pub streamer : Streamer
  pub answers : List Bytes

-- The switch over the type of the command: nothing answers a TEARDOWN.
unfoldable pub dispatch : (binds : ℕ → Bool) → RtspCmdType → Connection → Streamer → Outcome Handled
dispatch binds options c s = ok (record { connection = c; streamer = s; answers = handle_option c })
dispatch binds describe c s =
    handle_describe c >>= λ answers. ok (record { connection = c; streamer = s; answers = answers })
dispatch binds setup c s =
    handle_setup binds c s >>= λ r. ok (record { connection = c; streamer = r.0; answers = r.1 })
dispatch binds play c s =
    let (connected, answers) = handle_play c in
    ok (record { connection = connected; streamer = s; answers = answers })
dispatch binds pause c s = ok (record { connection = c; streamer = s; answers = handle_pause c })
dispatch binds teardown c s = ok (record { connection = c; streamer = s; answers = [] })
dispatch binds unknown c s = ok (record { connection = c; streamer = s; answers = [] })

-- The environment of a request: where a `bind` succeeds, what the stack holds, and the date.
pub record Environment : Type 0 where
  pub binds : ℕ → Bool
  pub garbage : Bytes
  pub date : Bytes

-- The session and the streamer behind a request, and the answers.
pub record Served : Type 0 where
  pub session : Session
  pub streamer : Streamer
  pub answers : List Bytes

-- `Handle_RtspRequest`: the type that it returns is the one of the session behind it.
unfoldable pub handle_rtsp_request :
    Environment → (request : Bytes) → (size : ℕ) → Session → Streamer → Outcome Served
handle_rtsp_request env request size s streamer =
    parse_rtsp_request env.garbage request size s >>= λ r.
    (let t = r.0 in
      if r.1
      then (dispatch env.binds t.cmd_type (record (t.connection) { date = env.date }) streamer
          >>= λ h. ok (record {
            session = record t { connection = h.connection };
            streamer = h.streamer;
            answers = h.answers;
          }))
      else ok (record { session = t; streamer = streamer; answers = [] }))

-- `m_RtspSessionID` of two answers of `rand`: the bit that the third line sets makes it negative.
abbrev pub session_id_of : (high low : ℕ) → ℕ
session_id_of high low = bit_or 32 (bit_or 32 (u32 (high * 2 ^ 16)) low) (2 ^ 31)

-- The constructor: the arrays of strings are zero, and the date is not yet written.
abbrev pub new_session : (high low : ℕ) → (garbage_date : Bytes) → Session
new_session high low garbage_date = record {
  connection = record {
    session_id = session_id_of high low;
    client_rtp_port = 0;
    client_rtcp_port = 0;
    tcp_transport = false;
    connected = false;
    url_pre_suffix = [];
    url_suffix = [];
    c_seq = [];
    url_host_port = [];
    date = garbage_date;
  };
  host_port = replicate buffer_size 0;
  cmd_type = unknown;
  content_length = 0;
}
