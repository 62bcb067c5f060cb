-- ===== src/TcpServer.antt =====
-- src/libs/TcpServer.cpp: the loop that serves one client. The events that it waits for and what
-- `recv` gives are its input; a run is a list of them.
pub mod Phases
pub mod Accept
pub mod Running
pub mod Playing
pub mod Threads
use payloader.Base.{
  ℕ, zero, suc, ◌+◌, ◌-◌, ◌^◌, List, [], ◌∷◌, ◌++◌, map, Bool, true, false, ◌||◌, ◌==◌,
  if◌then◌else◌, Bytes, take, length, replicate, Outcome, ok, ◌>>=◌,
}
use payloader.Streamer.{Streamer}
use payloader.Rtsp.Command.{RtspCmdType, options, describe, setup, play, teardown, pause, unknown}
use payloader.Rtsp.Request.{Session, Environment, Served, handle_rtsp_request, buffer_size}

-- `recv` fails with -1, or gives bytes; none of them is the end of the connection.
pub data Received : Type 0 where
  failed : Received
  received : Bytes → Received

-- The timer has set the event of the periodic check, or the client's socket can be read.
pub data Event : Type 0 where
  tick : Event
  readable : Environment → Received → Event

-- The local variables of `thread_function01`, with the objects that they point to.
pub record Server : Type 0 where
  pub session : Session
  pub streamer : Streamer
  pub streaming_started : Bool
  pub stop : Bool

-- What the client and the streamer are given: an answer, or a call of `StartStreaming`.
pub data Output : Type 0 where
  answer : Bytes → Output
  start_streaming : Streamer → Output

-- `RecvBuf`, of 10000 bytes, which are zero before the call.
abbrev pub recv_buf : Received → Bytes
recv_buf failed = replicate buffer_size 0
recv_buf (received bytes) =
    take buffer_size bytes ++ replicate (buffer_size - length (take buffer_size bytes)) 0

-- `res` as an `unsigned`.
abbrev pub res : Received → ℕ
res failed = 2 ^ 32 - 1
res (received bytes) = length (take buffer_size bytes)

-- The first letters of the commands: O, D, S, P and T.
abbrev pub is_command : ℕ → Bool
is_command c = (c == 79) || ((c == 68) || ((c == 83) || ((c == 80) || (c == 84))))

abbrev pub starts_command : Bytes → Bool
starts_command [] = false
starts_command (c ∷ rest) = is_command c

-- What the type of the last command changes.
abbrev pub after_command : RtspCmdType → Server → Server
after_command play s = record s { streaming_started = true }
after_command teardown s = record s { stop = true }
after_command _ s = s

-- A request is handled.
abbrev pub served : Server → Served → Server
served s r =
    after_command r.session.cmd_type (record s { session = r.session; streamer = r.streamer })

-- One round of the loop.
unfoldable pub step : Event → Server → Outcome (Server × List Output)
step tick s = ok (s, if s.streaming_started then start_streaming s.streamer ∷ [] else [])
step (readable env r) s =
    let request = recv_buf r in
    if starts_command request
    then (handle_rtsp_request env request (res r) s.session s.streamer >>= λ h.
        ok (served s h, map answer h.answers))
    else ok (s, [])

-- `while (!Stop)`, over the events that come: behind the end of the loop nothing is done.
unfoldable pub run : List Event → Server → Outcome (Server × List Output)
run [] s = ok (s, [])
run (e ∷ es) s =
    let round = step e s >>= λ t. run es t.0 >>= λ u. ok (u.0, t.1 ++ u.1) in
    if s.stop then ok (s, []) else round

-- Before the loop.
abbrev pub new_server : Session → Streamer → Server
new_server session streamer = record {
  session = session;
  streamer = streamer;
  streaming_started = false;
  stop = false;
}
