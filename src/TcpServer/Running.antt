-- ===== src/TcpServer/Running.antt =====
-- Runs of the loop in which nothing ends it.
use payloader.Base.{
  ◌≡◌, refl, ap, ◌∙◌, List, [], ◌∷◌, ◌++◌, Bool, true, false, if◌then◌else◌, Outcome, ok,
}
use payloader.TcpServer.{
  failed, received, Event, tick, readable, Server, Output, start_streaming, step, run,
}
use payloader.TcpServer.Phases.{run-rounds}

-- The client is gone: `recv` fails or gives nothing.
abbrev pub IsGone : Event → Type 0
IsGone tick = ⊥
IsGone (readable env failed) = Unit
IsGone (readable env (received [])) = Unit
IsGone (readable env (received (c ∷ bytes))) = ⊥

abbrev pub AllGone : List Event → Type 0
AllGone [] = Unit
AllGone (e ∷ es) = IsGone e × AllGone es

step-gone : (e : Event) (s : Server) → IsGone e → step e s ≡ ok (s, [])
unfolding step
step-gone tick s gone = elim gone [ ]
step-gone (readable env failed) s gone = refl
step-gone (readable env (received [])) s gone = refl
step-gone (readable env (received (c ∷ bytes))) s gone = elim gone [ ]

-- A client that is gone never ends the loop: whatever number of reads fail or give nothing, the state
-- is what it was, and a stream that has been started goes on at the next check.
pub run-gone :
    (es : List Event) (s : Server)
    → AllGone es
    → s.stop ≡ false
    → s.streaming_started ≡ true
    → run (es ++ tick ∷ []) s ≡ ok (s, start_streaming s.streamer ∷ [])
unfolding run step
run-gone [] s gone going started =
    let check : Bool → Outcome (Server × List Output) =
      λ b. ok (s, (if b then start_streaming s.streamer ∷ [] else []) ++ []) in
    run-rounds tick [] s going ∙ ap check started
run-gone (e ∷ es) s (gone, all) going started =
    let first = step-gone e s gone in
    let rest = run-gone es s all going started in
    run-rounds e (es ++ tick ∷ []) s going ∙ rw (first) (rw (rest))
