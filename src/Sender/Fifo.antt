-- ===== src/Sender/Fifo.antt =====
-- The queue: what is accepted, and in which order it is sent.
use mathlib.Core.List.{append_assoc, append-nil, map-append}
use mathlib.Core.Path.{subst₂}
use payloader.Base.{
  ltb→lt, ℕ, ◌+◌, ◌≤◌, ◌≡◌, ◌⊎◌, inl, inr, refl, sym, arith, List, [], ◌∷◌, ◌++◌, map, Bool, true,
  false, some, ◌∙◌, length, length-append, take, take-append, drop, Bytes, Outcome, ok, ltb,
  Bool-cases, bind-eq-ok, access-eq-ok, read_block, write_block, if◌then◌else◌, ◌>>=◌, access,
  read_block_inv, write_block_inv,
}
use payloader.Sender.{
  DataPacket, Sender, receive_rtp_packet, push_packet, datagram, send_data, queue_bound,
}
use payloader.Sender.Threads.{
  Phase, outer, acquire, inner, waiting, woken, returned, send_front, send_loop, World, Step,
  thread, call, wake, destroy, Reach, here, next,
}

-- All that has been sent, and then all that waits, in order.
abbrev pub flow : Sender → List Bytes
flow s = s.sent ++ map datagram s.send_queue

-- What a call adds to the flow: the first `buff_size` bytes, if the sender is running and its
-- queue is not full.
pub accepted : Bytes → ℕ → Sender → List Bytes
accepted in_buff buff_size s =
    if s.sending
    then (if ltb (length s.send_queue) queue_bound then take buff_size in_buff ∷ [] else [])
    else []

-- The packet that a call stores: its datagram is the call's bytes.
stored :
    (garbage in_buff filled : Bytes) (bytes : Bytes) (n : ℕ)
    → read_block in_buff 0 n ≡ some bytes
    → write_block garbage 0 bytes ≡ some filled
    → take n filled ≡ take n in_buff
stored garbage in_buff filled bytes n r w =
    let (same, size) = read_block_inv in_buff bytes n r in
    rw (write_block_inv garbage filled bytes w)
      (take-append bytes (drop (length bytes) garbage) n (omega (arith, size)) ∙ same)

flow_push :
    (s : Sender) (p : DataPacket)
    → flow (record s { send_queue = s.send_queue ++ p ∷ [] }) ≡ flow s ++ datagram p ∷ []
flow_push s p =
    rw map-append (sym (append_assoc s.sent (map datagram s.send_queue) (datagram p ∷ [])))

-- A call that returns adds to the flow what it accepts, keeps the queue within its bound, leaves
-- the flag alone and notifies exactly if the sender is running.
pub record Received (in_buff : Bytes) (buff_size : ℕ) (s t : Sender) (notified : Bool)
    : Type 0 where
  pub flows : flow t ≡ flow s ++ accepted in_buff buff_size s
  pub bounded : (length t.send_queue ≤ length s.send_queue) ⊎ (length t.send_queue ≤ 1000)
  pub same_sending : t.sending ≡ s.sending
  pub notifies : notified ≡ s.sending

push-flow :
    (garbage in_buff : Bytes) (n : ℕ) (s t : Sender)
    → push_packet garbage in_buff n s ≡ ok t
    → (flow t ≡ flow s ++ take n in_buff ∷ [])
      × (length t.send_queue ≡ length s.send_queue + 1)
      × (t.sending ≡ s.sending)
unfolding push_packet
push-flow garbage in_buff n s t e =
    let (bytes, read, e1) = bind-eq-ok (access (read_block in_buff 0 n)) _ e in
    let (filled, written, e2) = bind-eq-ok (access (write_block garbage 0 bytes)) _ e1 in
    let kept =
      stored garbage in_buff filled bytes n (access-eq-ok (read_block in_buff 0 n) read)
        (access-eq-ok (write_block garbage 0 bytes) written) in
    let p : DataPacket = record { block = filled; size = n } in
    let made : record s { send_queue = s.send_queue ++ p ∷ [] } ≡ t = cc in
    rw (← made) (flow_push s p ∙ rw kept, omega (arith, length-append s.send_queue (p ∷ [])), refl)

receive_running :
    (garbage in_buff : Bytes) (n : ℕ) (s : Sender)
    → s.sending ≡ true
    → receive_rtp_packet garbage in_buff n s ≡ (
        if ltb (length s.send_queue) 1000
        then (push_packet garbage in_buff n s >>= λ t. ok (t, true))
        else ok (s, true))
unfolding receive_rtp_packet
receive_running garbage in_buff n s on = rw on

receive_stopped :
    (garbage in_buff : Bytes) (n : ℕ) (s : Sender)
    → s.sending ≡ false
    → receive_rtp_packet garbage in_buff n s ≡ ok (s, false)
unfolding receive_rtp_packet
receive_stopped garbage in_buff n s off = rw off

unchanged :
    (in_buff : Bytes) (n : ℕ) (s : Sender) (notified : Bool)
    → accepted in_buff n s ≡ []
    → notified ≡ s.sending
    → Received in_buff n s s notified
unchanged in_buff n s notified nothing same = record {
  flows = rw (nothing, append-nil);
  bounded = inl (omega arith);
  same_sending = refl;
  notifies = same;
}

-- Two ways to write what a call returns.
same_result :
    (in_buff : Bytes) (n : ℕ) (s t u : Sender) (a b : Bool)
    → ◌≡◌ {A = Outcome (Sender × Bool)} (ok (t, a)) (ok (u, b))
    → Received in_buff n s t a
    → Received in_buff n s u b
same_result in_buff n s t u a b e r =
    let left : t ≡ u = cc in
    let right : a ≡ b = cc in
    subst₂ (λ (x : Sender) (y : Bool). Received in_buff n s x y) left right r

pushed :
    (garbage in_buff : Bytes) (n : ℕ) (s t : Sender)
    → s.sending ≡ true
    → ltb (length s.send_queue) 1000 ≡ true
    → push_packet garbage in_buff n s ≡ ok t
    → Received in_buff n s t true
pushed garbage in_buff n s t on space e =
    let (flows, longer, same) = push-flow garbage in_buff n s t e in
    record {
      flows = unfold accepted in rw (on, space) flows;
      bounded = inr (omega (arith, ltb→lt (length s.send_queue) 1000 space, longer));
      same_sending = same;
      notifies = sym on;
    }

-- A call of `receiveRtpPacket` that returns adds exactly the first `buff_size` bytes to the
-- datagrams sent or waiting if the sender is running and fewer than 1000 packets wait, and
-- nothing otherwise; the queue is then no longer than before or within 1000; the flag stays;
-- and it notifies exactly if the sender is running.
pub receive-Received :
    (garbage in_buff : Bytes) (n : ℕ) (s t : Sender) (notified : Bool)
    → receive_rtp_packet garbage in_buff n s ≡ ok (t, notified)
    → Received in_buff n s t notified
unfolding accepted
receive-Received garbage in_buff n s t notified e = elim (Bool-cases s.sending) [
  | inl on ↦ elim (Bool-cases (ltb (length s.send_queue) 1000)) [
    | inl space ↦
        let e' : (push_packet garbage in_buff n s >>= λ u. ok (u, true)) ≡ ok (t, notified) =
          (rw space at (sym (receive_running garbage in_buff n s on))) ∙ e in
        let (u, made, same) = bind-eq-ok (push_packet garbage in_buff n s) _ e' in
        same_result in_buff n s u t true notified same (pushed garbage in_buff n s u on space made)
    | inr full ↦
        same_result in_buff n s s t true notified
          ((rw full at (sym (receive_running garbage in_buff n s on))) ∙ e)
          (unchanged in_buff n s true (rw (on, full)) (sym on))
  ]
  | inr off ↦
      same_result in_buff n s s t false notified (sym (receive_stopped garbage in_buff n s off) ∙ e)
        (unchanged in_buff n s false (rw off) (sym off))
]

-- What a step of the world adds to the flow.
pub label : {spurious : Bool} {w v : World} → Step spurious w v → List Bytes
label (thread phase s e) = []
label {w} (call garbage in_buff n s notified p e) = accepted in_buff n w.sender
label (wake h p) = []
label destroy = []

pub log : {spurious : Bool} {w v : World} → Reach spurious w v → List Bytes
log here = []
log (next r st) = log r ++ label st

-- The thread never changes the flow, and never makes the queue longer.
send_front-flow :
    (q : List DataPacket) (s t : Sender) (phase : Phase)
    → s.send_queue ≡ q
    → send_front q s ≡ some (phase, t)
    → (flow t ≡ flow s) × (length t.send_queue ≤ length s.send_queue)
unfolding send_front send_data
send_front-flow [] s t phase e h = let same : s ≡ t = cc in rw same (refl, omega arith)
send_front-flow (p ∷ q) s t phase e h =
    let after : Sender = record {
      sending = s.sending;
      send_queue = q;
      sent = s.sent ++ datagram p ∷ [];
    } in
    let same : after ≡ t = cc in
    rw (← same, e) (append_assoc s.sent (datagram p ∷ []) (map datagram q), omega arith)

send_loop-flow :
    (at : Phase) (s t : Sender) (phase : Phase)
    → send_loop at s ≡ some (phase, t)
    → (flow t ≡ flow s) × (length t.send_queue ≤ length s.send_queue)
unfolding send_loop
send_loop-flow outer s t phase h = let same : s ≡ t = cc in rw same (refl, omega arith)
send_loop-flow acquire s t phase h = let same : s ≡ t = cc in rw same (refl, omega arith)
send_loop-flow inner s t phase h = send_front-flow s.send_queue s t phase refl h
send_loop-flow waiting s t phase h = cc
send_loop-flow woken s t phase h = let same : s ≡ t = cc in rw same (refl, omega arith)
send_loop-flow returned s t phase h = cc

Step-flow :
    {spurious : Bool} {w v : World} (st : Step spurious w v)
    → (flow v.sender ≡ flow w.sender ++ label st)
      × (length w.sender.send_queue ≤ 1000 → length v.sender.send_queue ≤ 1000)
unfolding label
Step-flow {w} (thread phase s e) =
    let (same, shorter) = send_loop-flow w.phase w.sender s phase e in
    (rw (append-nil (flow w.sender)) same, λ h. omega arith)
Step-flow {w} (call garbage in_buff n s notified p e) =
    let r = receive-Received garbage in_buff n w.sender s notified e in
    (r.flows, λ b. omega (arith, r.bounded))
Step-flow {w} (wake h p) = (sym (append-nil (flow w.sender)), λ b. b)
Step-flow {w} destroy = (sym (append-nil (flow w.sender)), λ b. b)

-- In every interleaving of the sending thread, the callers, the destructor and spurious
-- wake-ups, from a queue of at most 1000 packets: what has been sent and what waits is, in
-- order, what was there and then all that was accepted; and the queue still has at most 1000
-- packets.
pub Reach-flow :
    {spurious : Bool} {w v : World} (r : Reach spurious w v)
    → length w.sender.send_queue ≤ 1000
    → (flow v.sender ≡ flow w.sender ++ log r) × (length v.sender.send_queue ≤ 1000)
unfolding log
Reach-flow {w} here h = (sym (append-nil (flow w.sender)), h)
Reach-flow {w} (next {u} r st) h =
    let (before, room) = Reach-flow r h in
    let (step, keeps) = Step-flow st in
    (step ∙ rw before (append_assoc (flow w.sender) (log r) (label st)), keeps room)
