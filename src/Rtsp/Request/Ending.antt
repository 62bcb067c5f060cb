-- ===== src/Rtsp/Request/Ending.antt =====
-- Every request is parsed and answered in a bounded number of steps.
use payloader.Base.{
  ℕ, ◌+◌, ◌-◌, ◌≢◌, arith, Option, none, some, Bytes, ok, timeout, access, read_block, write_block,
  Ends, bind-Ends, access-Ends, Ends-not_timeout, if-Ends,
}
use payloader.Rtsp.Command.{read_command, command_room, command_type}
use payloader.Rtsp.Strings.{string_at}
use payloader.Rtsp.ClientPort.{client_ports}
use payloader.Rtsp.Url.{skip_blanks, find_url, read_suffix}
use payloader.Rtsp.Fields.{read_c_seq, read_length}
use payloader.Rtsp.Request.{
  Session, is_setup, read_transport, set_host, read_fields, read_behind_path, read_line,
  read_behind_command, read_request, ports, set_ports, parse_rtsp_request,
}
use payloader.Rtsp.Strings.Ending.{string_at-Ends}
use payloader.Rtsp.ClientPort.Ending.{client_ports-Ends}
use payloader.Rtsp.Url.Ending.{skip_blanks-Ends, read_command-Ends, find_url-Ends, read_suffix-Ends}
use payloader.Rtsp.Fields.Ending.{read_c_seq-Ends, read_length-Ends}

read_transport-Ends : (m : Bytes) (s : Session) → Ends (read_transport m s)
unfolding read_transport
read_transport-Ends m s =
    if-Ends (is_setup s.cmd_type) _ (ok s)
      (bind-Ends (string_at m) _ (string_at-Ends m) (λ text e. tt)) tt

read_fields-Ends : (m : Bytes) (size next : ℕ) (s : Session) → Ends (read_fields m size next s)
unfolding read_fields
read_fields-Ends m size next s =
    bind-Ends (read_c_seq m size next s.connection) _ (read_c_seq-Ends m size next s.connection)
      (λ r e.
        if-Ends (r.1) _ (ok _)
          (bind-Ends (read_length size m size next s.content_length) _
            (read_length-Ends size m size next s.content_length (omega arith)) (λ n e2. tt))
          tt)

read_behind_path-Ends :
    (m : Bytes) (size : ℕ) (s : Session) (next : Option ℕ) → Ends (read_behind_path m size s next)
unfolding read_behind_path
read_behind_path-Ends m size s none = tt
read_behind_path-Ends m size s (some next) = read_fields-Ends m size next s

read_line-Ends : (m : Bytes) (size i : ℕ) (s : Session) → Ends (read_line m size i s)
unfolding read_line
read_line-Ends m size i s =
    bind-Ends (skip_blanks (size - (i + 1)) m (i + 1)) _ (skip_blanks-Ends _ m _) (λ j e.
      bind-Ends (find_url (size - 8 - j) m size j i) _ (find_url-Ends _ m size j i) (λ url e2.
        let t : Session = set_host url.1 s in
        bind-Ends (read_suffix m size url.0 t.connection) _
          (read_suffix-Ends m size url.0 t.connection)
          (λ r e3. read_behind_path-Ends m size (record t { connection = r.0 }) r.1)))

read_behind_command-Ends :
    (m : Bytes) (size : ℕ) (s : Session) (word : Option (Bytes × ℕ))
    → Ends (read_behind_command m size s word)
unfolding read_behind_command
read_behind_command-Ends m size s none = tt
read_behind_command-Ends m size s (some (name, i)) =
    let typed : Session = record s { cmd_type = command_type name s.cmd_type } in
    bind-Ends (read_transport m typed) _ (read_transport-Ends m typed)
      (λ t e. read_line-Ends m size i t)

read_request-Ends : (m : Bytes) (size : ℕ) (s : Session) → Ends (read_request m size s)
unfolding read_request
read_request-Ends m size s =
    bind-Ends (read_command command_room m size 0) _ (read_command-Ends command_room m size 0)
      (λ word e. read_behind_command-Ends m size s word)

pub parse_rtsp_request-Ends :
    (garbage request : Bytes) (size : ℕ) (s : Session)
    → Ends (parse_rtsp_request garbage request size s)
unfolding parse_rtsp_request
parse_rtsp_request-Ends garbage request size s =
    bind-Ends (access (read_block request 0 size)) _ (access-Ends _) (λ bytes e.
      bind-Ends (access (write_block garbage 0 bytes)) _ (access-Ends _) (λ m e2.
        bind-Ends (client_ports m (ports s)) _ (client_ports-Ends m (ports s))
          (λ r e3. read_request-Ends r.0 size (set_ports r.1 s))))

-- Every request is parsed in a bounded number of steps: whatever its bytes and its size are and
-- whatever the stack held, the rounds that the loops are given are enough, among them the one for
-- `Content-Length`, which goes on behind a field that it has found.
pub parse_rtsp_request-end :
    (garbage request : Bytes) (size : ℕ) (s : Session)
    → parse_rtsp_request garbage request size s ≢ timeout
parse_rtsp_request-end garbage request size s =
    Ends-not_timeout _ (parse_rtsp_request-Ends garbage request size s)
