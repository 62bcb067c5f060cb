-- ===== src/Sender/Burst.antt =====
-- A burst of calls as a run of the sending thread beside its caller.
use mathlib.Core.List.{append-nil}
use mathlib.Core.Path.{subst}
use payloader.Base.{
  ap, sym, ◌∙◌, ℕ, zero, suc, ◌*◌, ◌≤◌, ◌≡◌, refl, arith, List, [], ◌∷◌, ◌++◌, map, Bool, true,
  false, length, Bytes, ok, bind-eq-ok, Option-cases, inl, inr,
}
use payloader.Interfaces.{RtpCall, payloads}
use payloader.Sender.{DataPacket, Sender, datagram, receive_rtp_packet}
use payloader.Sender.Threads.{
  Phase, outer, send_loop, notify, World, thread, call, Reach, here, next,
}
use payloader.Sender.Shutdown.{alone, alone-drains}
use payloader.Sender.Fifo.{receive-Received, flow, log, Reach-flow}
use payloader.Sender.Accept.{AllSendable, receive_calls, receive_calls-drains}

-- The thread is at the head of its loop.
abbrev pub at_head : Sender → World
at_head s = record { phase = outer; sender = s }

notify-outer : (b : Bool) → notify b outer ≡ outer
unfolding notify
notify-outer true = refl
notify-outer false = refl

receive_calls-Reach :
    (garbage : Bytes) (cs : List RtpCall) (s t : Sender) (w : World)
    → receive_calls garbage cs s ≡ ok t
    → Reach false w (at_head s)
    → Reach false w (at_head t)
unfolding receive_calls
receive_calls-Reach garbage [] s t w e r = let same : s ≡ t = cc in rw (← same) r
receive_calls-Reach garbage (c ∷ cs) s t w e r =
    let (u, first, rest) = bind-eq-ok (receive_rtp_packet garbage c.in_buff c.buff_size s) _ e in
    receive_calls-Reach garbage cs u.0 t w rest (
      subst (λ (phase : Phase). Reach false w (record { phase = phase; sender = u.0 }))
        (notify-outer u.1) (next r (call garbage c.in_buff c.buff_size u.0 u.1 (λ h. cc) first)))

receive_calls-sending :
    (garbage : Bytes) (cs : List RtpCall) (s t : Sender)
    → s.sending ≡ true
    → receive_calls garbage cs s ≡ ok t
    → t.sending ≡ true
unfolding receive_calls
receive_calls-sending garbage [] s t on e = let same : s ≡ t = cc in rw (← same) on
receive_calls-sending garbage (c ∷ cs) s t on e =
    let (u, first, rest) = bind-eq-ok (receive_rtp_packet garbage c.in_buff c.buff_size s) _ e in
    let r = receive-Received garbage c.in_buff c.buff_size s u.0 u.1 first in
    receive_calls-sending garbage cs u.0 t (r.same_sending ∙ on) rest

alone-Reach :
    (n : ℕ) (phase : Phase) (s : Sender) (w : World)
    → Reach false w (record { phase = phase; sender = s })
    → Reach false w (alone n phase s)
unfolding alone
alone-Reach zero phase s w r = r
alone-Reach (suc n) phase s w r = elim (Option-cases (send_loop phase s)) [
  | inl nothing ↦ rw (alone, nothing) r
  | inr (p, e) ↦ rw (alone, e) (alone-Reach n p.0 p.1 w (next r (thread p.0 p.1 e)))
]

-- A burst of calls at a sender that has sent nothing and has nothing to send: the sender and its thread
-- have a run in which every call is accepted, and after which nothing waits.
pub burst-Reach :
    (garbage : Bytes) (cs : List RtpCall)
    → AllSendable cs
    → length garbage ≡ 1500
    → length cs ≤ 1000
    → (v : World) × (r : Reach false
        (at_head (record { sending = true; send_queue = []; sent = [] }))
        v)
      × (log r ≡ payloads cs)
      × (v.sender.send_queue ≡ [])
burst-Reach garbage cs sendable size few =
    let s : Sender = record { sending = true; send_queue = []; sent = [] } in
    let (t, queues, drains) = receive_calls-drains garbage cs s sendable size refl (omega arith) in
    let v = alone (3 * length t.send_queue) outer t in
    let r : Reach false (at_head s) v =
      alone-Reach (3 * length t.send_queue) outer t (at_head s)
        (receive_calls-Reach garbage cs s t (at_head s) queues here) in
    let on : t.sending ≡ true = receive_calls-sending garbage cs s t refl queues in
    let empty : v.sender.send_queue ≡ [] =
      ap (λ (w : World). w.sender.send_queue) (alone-drains t on) in
    let (flows, _) = Reach-flow r (omega arith) in
    let sent : flow v.sender ≡ payloads cs ++ [] =
      ap (λ (q : List Bytes). q ++ map datagram v.sender.send_queue) drains
      ∙ ap (λ (q : List DataPacket). payloads cs ++ map datagram q) empty in
    (v, r, sym flows ∙ (sent ∙ append-nil (payloads cs)), empty)
