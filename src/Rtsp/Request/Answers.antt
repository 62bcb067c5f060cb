-- ===== src/Rtsp/Request/Answers.antt =====
-- What a request that is parsed is answered.
use payloader.Base.{
  ℕ, ◌<◌, ◌≡◌, refl, ap, ◌∙◌, arith, List, [], ◌∷◌, Bool, true, Option, none, some, Bytes, length,
  Outcome, ok,
}
use payloader.Streamer.{Streamer}
use payloader.Rtsp.{Connection}
use payloader.Rtsp.Command.{RtspCmdType, options, describe, setup, play, teardown, pause, unknown}
use payloader.Rtsp.Handlers.{
  option_text, play_text, pause_text, handle_option, handle_play, handle_pause,
}
use payloader.Rtsp.Handlers.Replies.{IsConnection, handle_complete}
use payloader.Rtsp.Url.{param_size}
use payloader.Rtsp.Request.{
  Session, buffer_size, Environment, Served, Handled, parse_rtsp_request, dispatch,
  handle_rtsp_request,
}
use payloader.Rtsp.Request.Fits.{FitsArrays, parse_rtsp_request-FitsArrays}

-- The whole text of the answer to a command that needs no stream and no port.
abbrev pub complete_answer : RtspCmdType → Connection → Option Bytes
complete_answer options c = some (option_text c)
complete_answer play c = some (play_text c)
complete_answer pause c = some (pause_text c)
complete_answer _ c = none

-- A request that has been answered with one text.
pub record Answered (o : Outcome Served) (streamer : Streamer) (type : RtspCmdType) (c : Connection)
    (text : Bytes) : Type 0 where
  pub served : Served
  pub returns : o ≡ ok served
  pub one_answer : served.answers ≡ text ∷ []
  pub same_streamer : served.streamer ≡ streamer
  pub same_type : served.session.cmd_type ≡ type
  pub same_c_seq : served.session.connection.c_seq ≡ c.c_seq

-- What the switch leaves for such a command.
record Dispatched (o : Outcome Handled) (streamer : Streamer) (c : Connection) (text : Bytes)
    : Type 0 where
  handled : Handled
  returns : o ≡ ok handled
  one_answer : handled.answers ≡ text ∷ []
  same_streamer : handled.streamer ≡ streamer
  same_c_seq : handled.connection.c_seq ≡ c.c_seq

some_inj : {a b : Bytes} → some a ≡ some b → a ∷ [] ≡ b ∷ []
some_inj e = cc

dispatch-Dispatched :
    (binds : ℕ → Bool) (type : RtspCmdType) (c : Connection) (streamer : Streamer) (text : Bytes)
    → IsConnection c
    → complete_answer type c ≡ some text
    → Dispatched (dispatch binds type c streamer) streamer c text
unfolding dispatch
dispatch-Dispatched binds options c streamer text k e = record {
  handled = record { connection = c; streamer = streamer; answers = handle_option c };
  returns = refl;
  one_answer = (handle_complete c k).0 ∙ some_inj e;
  same_streamer = refl;
  same_c_seq = refl;
}
dispatch-Dispatched binds play c streamer text k e = record {
  handled = record {
    connection = record c { connected = true };
    streamer = streamer;
    answers = (handle_play c).1;
  };
  returns = refl;
  one_answer = ap (λ (r : Connection × List Bytes). r.1) (handle_complete c k).2 ∙ some_inj e;
  same_streamer = refl;
  same_c_seq = refl;
}
dispatch-Dispatched binds pause c streamer text k e = record {
  handled = record { connection = c; streamer = streamer; answers = handle_pause c };
  returns = refl;
  one_answer = (handle_complete c k).1 ∙ some_inj e;
  same_streamer = refl;
  same_c_seq = refl;
}
dispatch-Dispatched binds describe c streamer text k e = absurd (ground arith)
dispatch-Dispatched binds setup c streamer text k e = absurd (ground arith)
dispatch-Dispatched binds teardown c streamer text k e = absurd (ground arith)
dispatch-Dispatched binds unknown c streamer text k e = absurd (ground arith)

-- A request for OPTIONS, PLAY or PAUSE that is parsed is answered, whatever its bytes are, with one
-- complete text that carries its own number: no string of the session is too long for the
-- response. The streamer is left alone.
pub handle_rtsp_request-Answered :
    (env : Environment) (request : Bytes) (size : ℕ) (s t : Session) (streamer : Streamer)
    (text : Bytes)
    → length env.garbage ≡ buffer_size
    → length env.date < param_size
    → FitsArrays s.connection
    → parse_rtsp_request env.garbage request size s ≡ ok (t, true)
    → complete_answer t.cmd_type (record (t.connection) { date = env.date }) ≡ some text
    → Answered
        (handle_rtsp_request env request size s streamer)
        streamer
        t.cmd_type
        t.connection
        text
unfolding handle_rtsp_request
handle_rtsp_request-Answered env request size s t streamer text room date fits parsed answer =
    let dated : Connection = record (t.connection) { date = env.date } in
    let (path, number) =
      parse_rtsp_request-FitsArrays env.garbage request size s t true room parsed fits in
    let is_connection : IsConnection dated = record {
      c_seq_fits = omega arith;
      date_fits = omega arith;
    } in
    let k = dispatch-Dispatched env.binds t.cmd_type dated streamer text is_connection answer in
    record {
      served = record {
        session = record t { connection = k.handled.connection };
        streamer = k.handled.streamer;
        answers = k.handled.answers;
      };
      returns = rw (handle_rtsp_request, parsed) (rw (k.returns) refl);
      one_answer = k.one_answer;
      same_streamer = k.same_streamer;
      same_type = refl;
      same_c_seq = k.same_c_seq;
    }
