-- ===== src/TcpServer/Phases.antt =====
-- The loop as a machine with three phases, which forgets the session, the streamer and the bytes.
use mathlib.Core.Path.{subst}
use payloader.Base.{
  ℕ, ◌+◌, ◌≡◌, refl, sym, ap, ◌∙◌, arith, List, [], ◌∷◌, ◌++◌, map, Bool, true, false,
  if◌then◌else◌, Bytes, Outcome, ok, ◌>>=◌, bind-eq-ok, Bool-cases, inl, inr,
}
use payloader.Rtsp.Command.{RtspCmdType, options, describe, setup, play, teardown, pause, unknown}
use payloader.Rtsp.Request.{Session, Environment, Served, handle_rtsp_request}
use payloader.TcpServer.{
  Received, Event, tick, readable, Server, Output, answer, start_streaming, recv_buf, res,
  starts_command, after_command, served, step, run,
}

pub data Phase : Type 0 where
  waiting streaming closed : Phase

-- What the machine sees of an event: the check, a command with the type that the connection reports
-- for it, or bytes that are none.
pub data Input : Type 0 where
  check noise : Input
  command : RtspCmdType → Input

unfoldable pub phase_step : Input → Phase → Phase
phase_step i closed = closed
phase_step (command teardown) p = closed
phase_step (command play) p = streaming
phase_step i p = p

-- The machine starts a stream at each check while it is streaming.
abbrev pub phase_starts : Input → Phase → ℕ
phase_starts check streaming = 1
phase_starts i p = 0

abbrev pub phase : Server → Phase
phase s = if s.stop then closed else (if s.streaming_started then streaming else waiting)

-- The input for an event, with the type of the session behind it.
abbrev pub input : Event → Server → Input
input tick t = check
input (readable env r) t = if starts_command (recv_buf r) then command t.session.cmd_type else noise

abbrev pub starts : List Output → ℕ
starts [] = 0
starts (answer a ∷ outs) = starts outs
starts (start_streaming s ∷ outs) = 1 + starts outs

starts-answers : (answers : List Bytes) → starts (map answer answers) ≡ 0
starts-answers [] = refl
starts-answers (a ∷ answers) = starts-answers answers

-- A run of the machine beside the loop, with the number of streams that the machine starts: in each
-- round the machine sees the event with the server that the loop leaves, and its phase goes on as the
-- loop's does.
pub data Runs : List Event → Server → Server → ℕ → Type 0 where
  over : {s : Server} → Runs [] s s 0
  stopped : {es : List Event} {s : Server} → phase s ≡ closed → Runs es s s 0
  round :
      {e : Event} {es : List Event} {s t u : Server} {outs : List Output} {n : ℕ}
      → s.stop ≡ false
      → step e s ≡ ok (t, outs)
      → phase t ≡ phase_step (input e t) (phase s)
      → Runs es t u n
      → Runs (e ∷ es) s u (phase_starts (input e t) (phase s) + n)

starts-append : (outs more : List Output) → starts (outs ++ more) ≡ starts outs + starts more
starts-append [] more = omega arith
starts-append (answer a ∷ outs) more = starts-append outs more
starts-append (start_streaming s ∷ outs) more = omega (arith, starts-append outs more)

after_command-phase :
    (c : RtspCmdType) (s : Server)
    → s.stop ≡ false
    → phase (after_command c s) ≡ phase_step (command c) (phase s)
unfolding phase_step
after_command-phase options s going = ground arith
after_command-phase describe s going = ground arith
after_command-phase setup s going = ground arith
after_command-phase play s going = ground arith
after_command-phase teardown s going = ground arith
after_command-phase pause s going = ground arith
after_command-phase unknown s going = ground arith

after_command-session : (c : RtspCmdType) (s : Server) → (after_command c s).session ≡ s.session
after_command-session options s = refl
after_command-session describe s = refl
after_command-session setup s = refl
after_command-session play s = refl
after_command-session teardown s = refl
after_command-session pause s = refl
after_command-session unknown s = refl

ok_inj : {r q : Server × List Output} → ok r ≡ ok q → r ≡ q
ok_inj e = cc

-- What a round says of the machine.
abbrev Follows : Event → Server → Server × List Output → Type 0
Follows e s (t, outs) =
    (phase t ≡ phase_step (input e t) (phase s))
    × (starts outs ≡ phase_starts (input e t) (phase s))

check-Follows :
    (s : Server)
    → s.stop ≡ false
    → Follows tick s (s, if s.streaming_started then start_streaming s.streamer ∷ [] else [])
unfolding phase_step
check-Follows s going = elim (Bool-cases (s.streaming_started)) [
  | inl started ↦ rw (going, started) (refl, refl)
  | inr idle ↦ rw (going, idle) (refl, refl)
]

noise-Follows :
    (env : Environment) (r : Received) (s : Server)
    → s.stop ≡ false
    → starts_command (recv_buf r) ≡ false
    → Follows (readable env r) s (s, [])
unfolding phase_step
noise-Follows env r s going other = elim (Bool-cases (s.streaming_started)) [
  | inl started ↦ rw (other, going, started) (refl, refl)
  | inr idle ↦ rw (other, going, idle) (refl, refl)
]

phase_starts-command : (c : RtspCmdType) (p : Phase) → phase_starts (command c) p ≡ 0
phase_starts-command c waiting = refl
phase_starts-command c streaming = refl
phase_starts-command c closed = refl

request-Follows :
    (env : Environment) (r : Received) (s : Server) (h : Served)
    → s.stop ≡ false
    → starts_command (recv_buf r) ≡ true
    → Follows (readable env r) s (served s h, map answer h.answers)
request-Follows env r s h going letter =
    let handled : Server = record s { session = h.session; streamer = h.streamer } in
    let session = after_command-session h.session.cmd_type handled in
    let moved = after_command-phase h.session.cmd_type handled going in
    let quiet =
      starts-answers h.answers ∙ sym (phase_starts-command h.session.cmd_type (phase s)) in
    let seen : input (readable env r) (served s h) ≡ command h.session.cmd_type =
      rw (letter) (ap (λ (u : Session). command u.cmd_type) session) in
    (
      moved ∙ ap (λ (i : Input). phase_step i (phase s)) (sym seen),
      quiet ∙ ap (λ (i : Input). phase_starts i (phase s)) (sym seen),
    )

-- Each round of the loop that is not over is a step of the machine, and it starts a stream exactly if
-- the machine does.
step-Follows :
    (e : Event) (s : Server) (r : Server × List Output)
    → s.stop ≡ false
    → step e s ≡ ok r
    → Follows e s r
unfolding step
step-Follows tick s r going h = subst (Follows tick s) (ok_inj h) (check-Follows s going)
step-Follows (readable env c) s r going h = elim (Bool-cases (starts_command (recv_buf c))) [
  | inr other ↦
      let quiet : step (readable env c) s ≡ ok (s, []) = rw (step, other) in
      subst (Follows (readable env c) s) (ok_inj (sym quiet ∙ h))
        (noise-Follows env c s going other)
  | inl letter ↦
      let (handled, e, last) =
        bind-eq-ok (handle_rtsp_request env (recv_buf c) (res c) s.session s.streamer) _
          (rw (step, letter) at h) in
      subst (Follows (readable env c) s) (ok_inj last)
        (request-Follows env c s handled going letter)
]

-- One round of a loop that is not over, and the rest of the run.
abbrev pub rounds : Event → List Event → Server → Outcome (Server × List Output)
rounds e es s = step e s >>= λ t. run es t.0 >>= λ u. ok (u.0, t.1 ++ u.1)

pub run-rounds :
    (e : Event) (es : List Event) (s : Server) → s.stop ≡ false → run (e ∷ es) s ≡ rounds e es s
unfolding run
run-rounds e es s going = ap (λ (b : Bool). if b then ok (s, []) else rounds e es s) going

abbrev RunsTo : List Event → Server → Server × List Output → Type 0
RunsTo es s (t, outs) = Runs es s t (starts outs)

run-RunsTo :
    (es : List Event) (s : Server) (r : Server × List Output) → run es s ≡ ok r → RunsTo es s r
unfolding run
run-RunsTo [] s r h = subst (RunsTo [] s) (ok_inj h) over
run-RunsTo (e ∷ es) s r h = elim (Bool-cases (s.stop)) [
  | inl ended ↦
      let ends : run (e ∷ es) s ≡ ok (s, []) = rw (run, ended) in
      let end : phase s ≡ closed = rw (ended) in
      subst (RunsTo (e ∷ es) s) (ok_inj (sym ends ∙ h)) (stopped end)
  | inr going ↦
      let (t, first, rest) = bind-eq-ok (step e s) _ (sym (run-rounds e es s going) ∙ h) in
      let (u, later, last) = bind-eq-ok (run es t.0) _ rest in
      let (moved, started) = step-Follows e s t going first in
      let count : starts (t.1 ++ u.1) ≡ phase_starts (input e t.0) (phase s) + starts u.1 =
        starts-append t.1 u.1 ∙ rw (started) in
      let runs : Runs (e ∷ es) s u.0 (phase_starts (input e t.0) (phase s) + starts u.1) =
        round going first moved (run-RunsTo es t.0 u later) in
      subst (RunsTo (e ∷ es) s) (ok_inj last)
        (subst (λ (n : ℕ). Runs (e ∷ es) s u.0 n) (sym count) runs)
]

-- The loop refines the machine: beside a run of the loop over any events that returns, the machine runs
-- over what it sees of the same rounds. Behind every round the loop has the phase that the machine's
-- step gives, and the loop starts as many streams as the machine.
pub run-Runs :
    (es : List Event) (s t : Server) (outs : List Output)
    → run es s ≡ ok (t, outs)
    → Runs es s t (starts outs)
run-Runs es s t outs h = run-RunsTo es s (t, outs) h
