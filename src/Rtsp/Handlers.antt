-- ===== src/Rtsp/Handlers.antt =====
-- The handlers of src/libs/TcpConnection.cpp: the answer that each of them sends.
pub mod Replies
use payloader.Base.{
  ℕ, ◌+◌, ◌-◌, ◌==◌, leb, Option, none, some, List, [], ◌∷◌, ◌++◌, Bool, true, false, ◌&&◌,
  if◌then◌else◌, length, Bytes, Outcome, ok, fault, ◌>>=◌,
}
use payloader.Streamer.{Streamer, init_transport, get_rtp_server_port, get_rtcp_server_port}
use payloader.Rtsp.{Connection, codes, line, empty_line, print_int, snprintf, strcmp_eq}

-- `char response[1024]`, `char Transport[255]` and `char OBuf[256]`.
abbrev pub response_size : ℕ
response_size = 1024

abbrev pub status_ok : Bytes → Bytes
status_ok c_seq = line (codes "RTSP/1.0 200 OK") ++ line (codes "CSeq: " ++ c_seq)

abbrev pub option_text : Connection → Bytes
option_text c =
    status_ok c.c_seq
    ++ (line (codes "Public: DESCRIBE, SETUP, TEARDOWN, PLAY, PAUSE") ++ empty_line)

abbrev pub handle_option : Connection → List Bytes
handle_option c = snprintf response_size (option_text c) ∷ []

abbrev pub pause_text : Connection → Bytes
pause_text c =
    status_ok c.c_seq
    ++ (line c.date
        ++ (line (codes "Range: npt=339.072020-")
            ++ (line (codes "Session: " ++ print_int c.session_id) ++ empty_line)))

abbrev pub handle_pause : Connection → List Bytes
handle_pause c = snprintf response_size (pause_text c) ∷ []

abbrev pub play_text : Connection → Bytes
play_text c =
    status_ok c.c_seq
    ++ (line c.date
        ++ (line (codes "RTP-Info: url=rtsp://138.4.7.72:8554/ej/1/video;seq=12312232;rtptime=650")
            ++ (line (codes "Range: npt=0.000-")
                ++ (line (codes "Session: " ++ print_int c.session_id) ++ empty_line))))

abbrev pub handle_play : Connection → Connection × List Bytes
handle_play c = (record c { connected = true }, snprintf response_size (play_text c) ∷ [])

abbrev pub transport_text : Connection → Streamer → Bytes
transport_text c s =
    codes "RTP/AVP/UDP;unicast;client_port="
    ++ (print_int c.client_rtp_port
        ++ (codes "-"
            ++ (print_int c.client_rtcp_port
                ++ (codes ";server_port="
                    ++ (print_int (get_rtp_server_port s)
                        ++ (codes "-" ++ (print_int (get_rtcp_server_port s) ++ codes ";")))))))

abbrev pub setup_text : Connection → (transport : Bytes) → Bytes
setup_text c transport =
    status_ok c.c_seq
    ++ (line c.date
        ++ (line (codes "Transport: " ++ transport)
            ++ (line (codes "Session: " ++ (print_int c.session_id ++ codes ";")) ++ empty_line)))

abbrev pub setup_answer : Connection → Streamer → Bytes
setup_answer c s = snprintf response_size (setup_text c (snprintf 255 (transport_text c s)))

-- The answer is sent in the branch of UDP alone.
unfoldable pub handle_setup :
    (binds : ℕ → Bool) → Connection → Streamer → Outcome (Streamer × List Bytes)
handle_setup binds c s = do
  t ← init_transport binds c.client_rtp_port c.client_rtcp_port c.tcp_transport s
  ok (t, if c.tcp_transport then [] else setup_answer c t ∷ [])

-- The stream that a request names.
unfoldable pub stream_id : Connection → Option ℕ
stream_id c =
    if strcmp_eq c.url_pre_suffix (codes "ej") && strcmp_eq c.url_suffix (codes "1")
    then some 0
    else (if strcmp_eq c.url_pre_suffix (codes "ej") && strcmp_eq c.url_suffix (codes "2")
        then some 1
        else none)

abbrev pub not_found_text : Connection → Bytes
not_found_text c =
    line (codes "RTSP/1.0 404 Stream Not Found")
    ++ (line (codes "CSeq: " ++ c.c_seq) ++ line c.date)

-- The part of the host in front of a colon.
abbrev pub before_colon : Bytes → Bytes
before_colon [] = []
before_colon (x ∷ xs) = if x == 58 then [] else x ∷ before_colon xs

abbrev pub sdp_text : Bytes → Bytes
sdp_text host =
    line (codes "v=0")
    ++ (line (codes "o=- 0 0 IN IP4 " ++ host)
        ++ (line (codes "s=Unnamed")
            ++ (line (codes "t=0 0")
                ++ (line (codes "m=video 0 RTP/AVP 96")
                    ++ (line (codes "b=AS:1561")
                        ++ (line (codes "a=rtpmap:96 MP4V-ES/90000")
                            ++ (line (
                                  codes
                                    "a=fmtp:96 profile-level-id=1; config=000001B0F5000001B509000001000000012008BC040687FFFF0AAD8B0218CA31000001B25876694430303530")
                                ++ line (codes "a=control:streamid=0"))))))))

abbrev pub stream_name : ℕ → Bytes
stream_name id = if id == 0 then codes "ej/1" else codes "ej/2"

abbrev pub url_text : Connection → ℕ → Bytes
url_text c id = codes "rtsp://" ++ (c.url_host_port ++ (codes "/" ++ stream_name id))

abbrev pub describe_text : Connection → (sdp url : Bytes) → Bytes
describe_text c sdp url =
    line (codes "RTSP/1.0 200 OK")
    ++ (line c.date
        ++ (line (codes "Content-Type: application/sdp")
            ++ (line (codes "Content-Base: " ++ (url ++ codes "/"))
                ++ (line (codes "Content-Length: " ++ print_int (length sdp))
                    ++ (line (codes "CSeq: " ++ c.c_seq) ++ (empty_line ++ sdp))))))

-- `strcpy(OBuf, m_URLHostPort)` has room for 255 bytes and the zero.
pub handle_describe : Connection → Outcome (List Bytes)
handle_describe c = elim (stream_id c) [
  | none ↦ ok (snprintf response_size (not_found_text c) ∷ [])
  | some id ↦
      if leb 256 (length c.url_host_port)
      then fault
      else (let sdp = snprintf response_size (sdp_text (before_colon c.url_host_port)) in
          let url = snprintf response_size (url_text c id) in
          ok (snprintf response_size (describe_text c sdp url) ∷ []))
]
