-- ===== src/TcpServer/Threads/Refines.antt =====
-- Every interleaving of the threads is a run of the loop over some events.
use mathlib.Core.List.{append_assoc, append-nil}
use mathlib.Core.Path.{subst}
use payloader.Base.{
  ap, sym, ◌∙◌, ℕ, zero, suc, ◌≡◌, refl, List, [], ◌∷◌, ◌++◌, Bool, true, false, some,
  if◌then◌else◌, ok,
}
use payloader.TcpServer.{
  Received, Event, tick, readable, Server, Output, start_streaming, step, run,
}
use payloader.TcpServer.Threads.Extend.{run-extend}
use payloader.TcpServer.Threads.{
  Place, head, waiting, receiving, closed, System, dispatch, Wait, Step, timer, select, arrive,
  test, woken, recv, Reach, here, next,
}

-- What the client has sent in a step.
unfoldable pub sends : {wait : Wait} {y z : System} → Step wait y z → List Received
sends (arrive r) = r ∷ []
sends timer = []
sends (select r rest p) = []
sends (test p) = []
sends (woken index events z p q h) = []
sends (recv env r rest server outputs p q h) = []

unfoldable pub sent_by : {wait : Wait} {y z : System} → Reach wait y z → List Received
sent_by here = []
sent_by (next r st) = sent_by r ++ sends st

-- What the events give to `recv`.
abbrev pub reads : List Event → List Received
reads [] = []
reads (tick ∷ es) = reads es
reads (readable env r ∷ es) = r ∷ reads es

reads-append : (es fs : List Event) → reads (es ++ fs) ≡ reads es ++ reads fs
reads-append [] fs = refl
reads-append (tick ∷ es) fs = reads-append es fs
reads-append (readable env r ∷ es) fs = ap (λ (t : List Received). r ∷ t) (reads-append es fs)

-- Where the loop stands it has not been ended, or it has.
abbrev pub AtWork : Place → Server → Type 0
AtWork head s = Unit
AtWork waiting s = s.stop ≡ false
AtWork receiving s = s.stop ≡ false
AtWork closed s = s.stop ≡ true

-- A run of the loop that does what the threads have done: over its events the server goes where it
-- went, with the same outputs, and what it read of what has come is what is missing, in order.
pub record Refined (y z : System) (arrived : List Received) : Type 0 where
  pub over : List Event
  pub outs : List Output
  pub runs : run over y.server ≡ ok (z.server, outs)
  pub same_outputs : z.outputs ≡ y.outputs ++ outs
  pub in_order : y.incoming ++ arrived ≡ reads over ++ z.incoming
  pub at_work : AtWork z.place z.server

placed-AtWork : (b : Bool) (s : Server) → s.stop ≡ b → AtWork (if b then closed else waiting) s
placed-AtWork true s e = e
placed-AtWork false s e = e

working :
    (y : System) (place : Place) → y.place ≡ place → AtWork y.place y.server → AtWork place y.server
working y place e k = subst (λ (p : Place). AtWork p y.server) e k

module _ {y : System} where
  -- A step that does nothing for the loop.
  keep :
      (u v : System) (arrived more : List Received)
      → Refined y u arrived
      → v.server ≡ u.server
      → v.outputs ≡ u.outputs
      → v.incoming ≡ u.incoming ++ more
      → AtWork v.place v.server
      → Refined y v (arrived ++ more)
  keep u v arrived more k server outputs incoming work = record {
    over = k.over;
    outs = k.outs;
    runs = k.runs ∙ ap (λ (s : Server). ok (s, k.outs)) (sym server);
    same_outputs = outputs ∙ k.same_outputs;
    in_order =
        sym (append_assoc y.incoming arrived more)
        ∙ (ap (λ (t : List Received). t ++ more) k.in_order
            ∙ (append_assoc (reads k.over) u.incoming more
                ∙ ap (λ (t : List Received). reads k.over ++ t) (sym incoming)));
    at_work = work;
  }

  -- A round of the loop.
  extend :
      (u v : System) (arrived : List Received) (e : Event) (more : List Output)
      → Refined y u arrived
      → u.server.stop ≡ false
      → step e u.server ≡ ok (v.server, more)
      → v.outputs ≡ u.outputs ++ more
      → u.incoming ≡ reads (e ∷ []) ++ v.incoming
      → AtWork v.place v.server
      → Refined y v (arrived ++ [])
  extend u v arrived e more k going round outputs incoming work = record {
    over = k.over ++ e ∷ [];
    outs = k.outs ++ more;
    runs = run-extend k.over e y.server u.server v.server k.outs more k.runs going round;
    same_outputs =
        outputs
        ∙ (ap (λ (o : List Output). o ++ more) k.same_outputs ∙ append_assoc y.outputs k.outs more);
    in_order =
        ap (λ (t : List Received). y.incoming ++ t) (append-nil arrived)
        ∙ (k.in_order
            ∙ (ap (λ (t : List Received). reads k.over ++ t) incoming
                ∙ (sym (append_assoc (reads k.over) (reads (e ∷ [])) v.incoming)
                    ∙ ap (λ (t : List Received). t ++ v.incoming)
                        (sym (reads-append k.over (e ∷ []))))));
    at_work = work;
  }

  quiet :
      (u v : System) (arrived : List Received)
      → Refined y u arrived
      → v.server ≡ u.server
      → v.outputs ≡ u.outputs
      → v.incoming ≡ u.incoming
      → AtWork v.place v.server
      → Refined y v (arrived ++ [])
  quiet u v arrived k server outputs incoming work =
      keep u v arrived [] k server outputs (incoming ∙ sym (append-nil u.incoming)) work

  dispatch-Refined :
      (index : ℕ) (u v : System) (arrived : List Received)
      → Refined y u arrived
      → u.server.stop ≡ false
      → dispatch index u ≡ some v
      → Refined y v (arrived ++ [])
  unfolding dispatch step
  dispatch-Refined zero u v arrived k going h =
      let started : List Output =
        if u.server.streaming_started then start_streaming u.server.streamer ∷ [] else [] in
      let w : System = record u { place = head; outputs = u.outputs ++ started } in
      let same : w ≡ v = cc in
      subst (λ (z : System). Refined y z (arrived ++ [])) same
        (extend u w arrived tick started k going refl refl refl tt)
  dispatch-Refined (suc zero) u v arrived k going h =
      let w : System = record u {
        place = receiving;
        events = record u.events { negotiation = false };
      } in
      let same : w ≡ v = cc in
      subst (λ (z : System). Refined y z (arrived ++ [])) same
        (quiet u w arrived k refl refl refl going)
  dispatch-Refined (suc (suc n)) u v arrived k going h =
      let w : System = record u { place = head } in
      let same : w ≡ v = cc in
      subst (λ (z : System). Refined y z (arrived ++ [])) same
        (quiet u w arrived k refl refl refl tt)

  Step-Refined :
      {wait : Wait} (u v : System) (arrived : List Received) (st : Step wait u v)
      → Refined y u arrived
      → Refined y v (arrived ++ sends st)
  unfolding sends
  Step-Refined u v arrived timer k = quiet u v arrived k refl refl refl k.at_work
  Step-Refined u v arrived (select r rest p) k = quiet u v arrived k refl refl refl k.at_work
  Step-Refined u v arrived (arrive r) k = keep u v arrived (r ∷ []) k refl refl refl k.at_work
  Step-Refined u v arrived (test p) k =
      quiet u v arrived k refl refl refl (placed-AtWork u.server.stop u.server refl)
  Step-Refined u v arrived (woken index events z p q h) k =
      let set : System = record u { events = events } in
      dispatch-Refined index set z arrived
        (record {
          over = k.over;
          outs = k.outs;
          runs = k.runs;
          same_outputs = k.same_outputs;
          in_order = k.in_order;
          at_work = k.at_work;
        })
        (working u waiting p k.at_work) h
  Step-Refined u v arrived (recv env r rest server outputs p q h) k =
      extend u v arrived (readable env r) outputs k (working u receiving p k.at_work) h refl q tt

-- The threads refine the loop: in every interleaving of the timer, the watching thread, the loop and
-- what the client sends, whatever the wait for the events does, from a start at which the loop stands
-- behind its end exactly where the flag says so or at `while`: the server is where a run of the loop over some events leaves it, with the same outputs; what
-- has come is what these events have read and what still waits, in order; and the socket is closed
-- only if the loop has been ended.
pub Reach-Refined :
    {wait : Wait} {y z : System} (r : Reach wait y z)
    → AtWork y.place y.server
    → Refined y z (sent_by r)
unfolding sent_by run
Reach-Refined {wait} {y} here k = record {
  over = [];
  outs = [];
  runs = refl;
  same_outputs = sym (append-nil y.outputs);
  in_order = append-nil y.incoming;
  at_work = k;
}
Reach-Refined (next {u} {v} r st) k = Step-Refined u v (sent_by r) st (Reach-Refined r k)
