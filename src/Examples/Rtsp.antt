-- ===== src/Examples/Rtsp.antt =====
-- A session of src/libs/TcpConnection.cpp and the port search of src/libs/Streamer.cpp.
use payloader.Base.{
  ℕ, ◌==◌, ◌||◌, ◌≡◌, refl, arith, [], ◌∷◌, Bool, true, false, none, some, ok, replicate, Bytes,
}
use payloader.Streamer.{Streamer, init_transport}
use payloader.Streamer.Ports.{Found, init_transport-Found}
use payloader.Rtsp.{Connection, codes}
use payloader.Rtsp.Command.{is_blank}
use payloader.Rtsp.Command.Word.{IsWord}
use payloader.Rtsp.Handlers.{setup_text, transport_text, handle_setup, stream_id}
use payloader.Rtsp.Handlers.Replies.{IsConnection, handle_setup-udp}

abbrev only_6974 : ℕ → Bool
only_6974 p = (p == 6974) || (p == 6975)

abbrev fresh : Streamer
fresh = record {
  rtp_socket = none;
  rtcp_socket = none;
  rtp_client_port = 0;
  rtcp_client_port = 0;
  rtp_server_port = 0;
  rtcp_server_port = 0;
  tcp_transport = false;
}

abbrev connection : Bool → Bytes → Connection
connection tcp host = record {
  session_id = 2;
  client_rtp_port = 5000;
  client_rtcp_port = 5001;
  tcp_transport = tcp;
  connected = false;
  url_pre_suffix = codes "ej";
  url_suffix = codes "1";
  c_seq = codes "3";
  url_host_port = host;
  date = codes "Date: Thu";
}

connection-IsConnection : (tcp : Bool) → IsConnection (connection tcp [])
connection-IsConnection tcp = record { c_seq_fits = omega arith; date_fits = omega arith }

init_transport-Found_example :
    (t : Streamer) × (init_transport only_6974 5000 5001 false fresh ≡ ok t)
    × Found only_6974 6970 fresh t
init_transport-Found_example = init_transport-Found only_6974 5000 5001 fresh

handle_setup-udp_example :
    (t : Streamer) × (handle_setup only_6974 (connection false []) fresh
      ≡ ok (t, setup_text (connection false []) (transport_text (connection false []) t) ∷ []))
    × Found only_6974 6970 fresh t
handle_setup-udp_example =
    handle_setup-udp only_6974 (connection false []) fresh (connection-IsConnection false) refl

abbrev long_host : Bytes
long_host = replicate 256 97

long_stream : stream_id (connection false long_host) ≡ some 0
unfolding stream_id
long_stream = refl

play-IsWord : IsWord (codes "PLAY")
unfolding is_blank
play-IsWord = (refl, (refl, (refl, (refl, tt))))

space-is_blank : is_blank 32 ≡ true
unfolding is_blank
space-is_blank = refl
