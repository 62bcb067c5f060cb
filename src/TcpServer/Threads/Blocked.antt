-- ===== src/TcpServer/Threads/Blocked.antt =====
-- The loop that waits for a client in `recv`.
use mathlib.Core.Path.{subst}
use payloader.Base.{
  ap, ◌∙◌, ◌≡◌, refl, List, [], ◌∷◌, ◌++◌, Bool, true, false, some, if◌then◌else◌, ok,
}
use payloader.Rtsp.Request.{Environment}
use payloader.TcpServer.{Received, readable, Server, Output, step}
use payloader.TcpServer.Threads.{
  Place, head, waiting, receiving, closed, System, dispatch, Wait, Step, timer, select, arrive,
  test, woken, recv, Reach, here, next,
}
use payloader.TcpServer.Threads.Refines.{sends, sent_by}

-- The loop stands at `recv` and nothing has come.
pub record IsBlocked (y : System) : Type 0 where
  pub place : y.place ≡ receiving
  pub nothing : y.incoming ≡ []

-- What a blocked loop leaves as it was.
pub record Same (y z : System) : Type 0 where
  pub blocked : IsBlocked z
  pub server : z.server ≡ y.server
  pub outputs : z.outputs ≡ y.outputs

Step-Same :
    {wait : Wait} (u v : System) (st : Step wait u v) → sends st ≡ [] → IsBlocked u → Same u v
unfolding sends
Step-Same u v timer quiet k = record {
  blocked = record { place = k.place; nothing = k.nothing };
  server = refl;
  outputs = refl;
}
Step-Same u v (select r rest p) quiet k = cc
Step-Same u v (arrive r) quiet k = cc
Step-Same u v (test p) quiet k = cc
Step-Same u v (woken index events z p q h) quiet k = cc
Step-Same u v (recv env r rest server outputs p q h) quiet k = cc

append_nil_split : (a b : List Received) → a ++ b ≡ [] → (a ≡ []) × (b ≡ [])
append_nil_split [] b h = (refl, h)
append_nil_split (x ∷ a) b h = cc

-- While the loop stands at `recv` with nothing to read, and the client sends nothing, no interleaving of
-- the threads takes it on: the server is as it was and nothing is put out, however often the timer sets
-- the event of the periodic check.
pub Reach-blocked :
    {wait : Wait} {y z : System} (r : Reach wait y z) → IsBlocked y → sent_by r ≡ [] → Same y z
unfolding sent_by
Reach-blocked here k quiet = record { blocked = k; server = refl; outputs = refl }
Reach-blocked (next {u} {v} r st) k quiet =
    let (before, now) = append_nil_split (sent_by r) (sends st) quiet in
    let s = Reach-blocked r k before in
    let t = Step-Same u v st now s.blocked in
    record { blocked = t.blocked; server = t.server ∙ s.server; outputs = t.outputs ∙ s.outputs }

-- A documented wait for any of the events, without a time limit: if the second event alone is set, the
-- wait returns its index, 1, and resets it.
abbrev pub WakesSecond : Wait → Type 0
WakesSecond wait =
    wait (record { periodic = false; negotiation = true })
    ≡ some (1, record { periodic = false; negotiation = false })

abbrev pub placed : Place → (negotiation : Bool) → List Received → Server → List Output → System
placed place negotiation incoming server outputs = record {
  events = record { periodic = false; negotiation = negotiation };
  incoming = incoming;
  place = place;
  server = server;
  outputs = outputs;
}

test-going :
    {wait : Wait} (y : System)
    → y.place ≡ head
    → y.server.stop ≡ false
    → (st : Step wait y (record y { place = waiting })) × (sends st ≡ [])
unfolding sends
test-going {wait} y at going =
    subst
      (λ (b : Bool).
        (st : Step wait y (record y { place = if b then closed else waiting })) × (sends st ≡ []))
      going (test at, refl)

quiet-append : (a b : List Received) → a ≡ [] → b ≡ [] → a ++ b ≡ []
quiet-append a b p q = ap (λ (t : List Received). t ++ b) p ∙ q

module _ {wait : Wait} (wakes : WakesSecond wait) where
  -- The loop from its head into `recv`, where the second event alone is set.
  to_recv :
      {start : System} (incoming : List Received) (s : Server) (outs : List Output)
      → s.stop ≡ false
      → (r : Reach wait start (placed head true incoming s outs)) × (sent_by r ≡ [])
      → (r : Reach wait start (placed receiving false incoming s outs)) × (sent_by r ≡ [])
  unfolding dispatch sends sent_by
  to_recv incoming s outs going (r, quiet) =
      let (tested, quiet') =
        test-going {wait = wait} (placed head true incoming s outs) refl going in
      (
        next (next r tested)
            (woken 1 (record { periodic = false; negotiation = false }) _ refl wakes refl),
        quiet-append (sent_by r ++ sends tested) []
            (quiet-append (sent_by r) (sends tested) quiet quiet') refl,
      )

  -- A wait that wakes for the second event, and resets it, does not save the loop: the watching thread
  -- sets the event again before the loop has read. If a request has come that the server answers and
  -- that does not end the loop, the threads have a run, in which the client sends nothing, that leads
  -- behind the answer into a second `recv` with nothing to read; and from there no run in which the
  -- client sends nothing puts out anything more, also not the stream that PLAY has started.
  pub Reach-IsBlocked :
      (env : Environment) (c : Received) (s t : Server) (outs more : List Output)
      → s.stop ≡ false
      → step (readable env c) s ≡ ok (t, more)
      → t.stop ≡ false
      → (z : System) × (r : Reach wait (placed head false (c ∷ []) s outs) z) × IsBlocked z
        × (sent_by r ≡ [])
        × (z.server ≡ t)
        × ((w : System) (later : Reach wait z w) → sent_by later ≡ [] → w.outputs ≡ outs ++ more)
  unfolding sends sent_by
  Reach-IsBlocked env c s t outs more going handled going' =
      let (first, quiet) = to_recv (c ∷ []) s outs going (next here (select c [] refl), refl) in
      let again : Reach wait (placed head false (c ∷ []) s outs)
          (placed receiving true (c ∷ []) s outs) =
        next first (select c [] refl) in
      let read : Reach wait (placed head false (c ∷ []) s outs)
          (placed head true [] t (outs ++ more)) =
        next again (recv env c [] t more refl refl handled) in
      let quiet_read : sent_by read ≡ [] =
        quiet-append (sent_by first ++ []) [] (quiet-append (sent_by first) [] quiet refl) refl in
      let (run, quiet_run) = to_recv [] t (outs ++ more) going' (read, quiet_read) in
      let z = placed receiving false [] t (outs ++ more) in
      let blocked : IsBlocked z = record { place = refl; nothing = refl } in
      (
        z,
        run,
        blocked,
        quiet_run,
        refl,
        λ w later silent. (Reach-blocked later blocked silent).outputs,
      )
