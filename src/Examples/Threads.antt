-- ===== src/Examples/Threads.antt =====
-- The threads of src/libs/TcpServer.cpp with one client, and two clients at its listening loop.
use payloader.Base.{
  ℤ, pos, ◌≡◌, refl, List, [], ◌∷◌, ◌++◌, true, false, Option, none, some, if◌then◌else◌, ok,
  Outcome, fault, timeout, read_block, write_block,
}
use payloader.Rtsp.Command.{read_command, command_byte, is_blank, command_type}
use payloader.Rtsp.Strings.{scan_unsigned, string_at, strstr}
use payloader.Rtsp.ClientPort.{text_ports, client_ports}
use payloader.Rtsp.Url.{
  skip_blanks, find_url, skip_prefix, read_host, find_at, skip_back, back_to_slash, store_parts,
  read_suffix,
}
use payloader.Rtsp.Fields.{read_c_seq, read_value, read_length}
use payloader.Rtsp.Request
use payloader.Rtsp.Request.{
  handle_rtsp_request, parse_rtsp_request, read_request, read_behind_command, read_transport,
  read_line, read_behind_path, read_fields,
}
use payloader.TcpServer.{
  Received, received, Event, readable, Server, Output, start_streaming, new_server, step,
}
use payloader.TcpServer.Threads.{
  head, System, Wait, dispatch, Reach, here, next, timer, arrive, select, test, woken, recv,
}
use payloader.TcpServer.Threads.Refines.{Refined, sent_by, Reach-Refined}
use payloader.TcpServer.Threads.Blocked.{IsBlocked, placed, Reach-IsBlocked}
use payloader.TcpServer.Accept
use payloader.TcpServer.Accept.{Acceptor, start_accept}
use payloader.TcpServer.Accept.Prompt.{serving, started, Reach-serving}
use payloader.TcpServer.Accept.Race.{Reach-both}
use payloader.Examples.Request.{env, play_request, first_session, fresh_streamer}

-- A wait that takes the first event that is set, and resets it.
abbrev first_set : Wait
first_set e =
    if e.periodic
    then some (0, record e { periodic = false })
    else (if e.negotiation then some (1, record e { negotiation = false }) else none)

abbrev idle : Server
idle = new_server first_session fresh_streamer

abbrev started_server : Server
started_server = record idle { streaming_started = true }

abbrev noise : Received
noise = received (88 ∷ [])

abbrev before : System
before = placed head false [] started_server []

abbrev behind : System
behind = placed head false [] started_server (start_streaming fresh_streamer ∷ [])

after_noise : Reach first_set before behind
unfolding dispatch step
after_noise =
    next
      (next
        (next
          (next
            (next (next (next (next here timer) (arrive noise)) (select noise [] refl)) (test refl))
            (woken 0 (record { periodic = false; negotiation = true }) _ refl refl refl))
          (test refl))
        (woken 1 (record { periodic = false; negotiation = false }) _ refl refl refl))
      (recv env noise [] started_server [] refl refl refl)

Reach-Refined_example : Refined before behind (sent_by after_noise)
Reach-Refined_example = Reach-Refined after_noise tt

abbrev server_of : Outcome (Server × List Output) → Server
server_of (ok (s, outs)) = s
server_of fault = idle
server_of timeout = idle

abbrev outputs_of : Outcome (Server × List Output) → List Output
outputs_of (ok (s, outs)) = outs
outputs_of fault = []
outputs_of timeout = []

abbrev play : Event
play = readable env (received play_request)

Reach-IsBlocked_example :
    (z : System) × (r : Reach first_set (placed head false (received play_request ∷ []) idle []) z)
    × IsBlocked z
    × (sent_by r ≡ [])
    × (z.server ≡ server_of (step play idle))
    × ((w : System) (later : Reach first_set z w)
        → sent_by later ≡ []
        → w.outputs ≡ [] ++ outputs_of (step play idle))
unfolding step handle_rtsp_request Request.dispatch parse_rtsp_request read_block write_block
    client_ports string_at text_ports strstr read_request read_command command_byte is_blank
    read_behind_command command_type read_transport read_line skip_blanks find_url skip_prefix
    read_host read_suffix find_at skip_back back_to_slash store_parts read_behind_path read_fields
    read_c_seq read_value read_length scan_unsigned
Reach-IsBlocked_example =
    Reach-IsBlocked refl env (received play_request) idle (server_of (step play idle)) []
      (outputs_of (step play idle)) refl refl refl

abbrev first_client : Acceptor
first_client = record {
  client_socket = pos 5;
  creating = false;
  accepted = pos 5 ∷ [];
  threads = some (pos 5) ∷ [];
}

abbrev prompt : Accept.Reach (started (pos 0)) first_client
prompt =
    Accept.next
      (Accept.next (Accept.next Accept.here (Accept.accept (pos 5) refl)) (Accept.create refl))
      (Accept.read [] [] refl)

Reach-serving_example : some (pos 5) ∷ [] ≡ serving (pos 5 ∷ [])
unfolding start_accept
Reach-serving_example =
    Reach-serving (pos 0) (pos 0) (pos 0) prompt refl (((tt, tt), tt), tt) refl tt

Reach-both_example :
    (b : Acceptor) × Accept.Reach (started (pos 0)) b
    × (b.accepted ≡ pos 5 ∷ pos 6 ∷ [])
    × (b.threads ≡ serving (pos 6 ∷ pos 6 ∷ []))
    × ((c : Acceptor)
        → Accept.Reach b c
        → (rest : List (Option ℤ)) × (c.threads ≡ some (pos 6) ∷ some (pos 6) ∷ rest))
unfolding start_accept
Reach-both_example = Reach-both (pos 0) (pos 0) (pos 0) (pos 5) (pos 6) (started (pos 0)) refl
