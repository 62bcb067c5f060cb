-- ===== src/Examples/Server.antt =====
-- The loop of src/libs/TcpServer.cpp over a few events.
use payloader.Base.{◌≡◌, refl, List, [], ◌∷◌, ◌++◌, true, Outcome, ok, fault, timeout}
use payloader.Base.{read_block, write_block}
use payloader.Rtsp.Command.{read_command, command_byte, is_blank, command_type}
use payloader.Rtsp.Strings.{scan_unsigned, string_at, strstr}
use payloader.Rtsp.ClientPort.{text_ports, client_ports}
use payloader.Rtsp.Url.{
  skip_blanks, find_url, skip_prefix, read_host, find_at, skip_back, back_to_slash, store_parts,
  read_suffix,
}
use payloader.Rtsp.Fields.{read_c_seq, read_value, read_length}
use payloader.Rtsp.Request.{
  handle_rtsp_request, dispatch, parse_rtsp_request, read_request, read_behind_command,
  read_transport, read_line, read_behind_path, read_fields,
}
use payloader.TcpServer.{
  Event, tick, readable, received, failed, Server, Output, start_streaming, new_server, run, step,
}
use payloader.TcpServer.Phases.{Runs, run-Runs}
use payloader.TcpServer.Running.{run-gone}
use payloader.Examples.Request.{env, fresh_streamer, first_session, play_request}

abbrev idle : Server
idle = new_server first_session fresh_streamer

abbrev started : Server
started = record idle { streaming_started = true }

abbrev noise : Event
noise = readable env (received (88 ∷ []))

abbrev session_play : List Event
session_play =
    tick ∷ noise ∷ readable env (received play_request) ∷ tick ∷ readable env failed ∷ tick ∷ []

abbrev server_of : Outcome (Server × List Output) → Server
server_of (ok (s, outs)) = s
server_of fault = idle
server_of timeout = idle

abbrev outputs_of : Outcome (Server × List Output) → List Output
outputs_of (ok (s, outs)) = outs
outputs_of fault = []
outputs_of timeout = []

run-Runs_example : Runs session_play idle (server_of (run session_play idle)) 2
unfolding run step handle_rtsp_request dispatch parse_rtsp_request read_block write_block
    client_ports string_at text_ports strstr read_request read_command command_byte is_blank
    read_behind_command command_type read_transport read_line skip_blanks find_url skip_prefix
    read_host read_suffix find_at skip_back back_to_slash store_parts read_behind_path read_fields
    read_c_seq read_value read_length scan_unsigned
run-Runs_example =
    run-Runs session_play idle (server_of (run session_play idle))
      (outputs_of (run session_play idle)) refl

run-gone_example :
    run ((readable env failed ∷ readable env (received []) ∷ []) ++ tick ∷ []) started
    ≡ ok (started, start_streaming fresh_streamer ∷ [])
run-gone_example =
    run-gone (readable env failed ∷ readable env (received []) ∷ []) started (tt, (tt, tt)) refl
      refl
