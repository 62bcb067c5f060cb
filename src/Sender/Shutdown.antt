-- ===== src/Sender/Shutdown.antt =====
-- What the sending thread does in the end: it empties its queue, or it sleeps for ever.
use mathlib.Core.List.{append_assoc, append-nil}
use payloader.Base.{
  ℕ, zero, suc, ◌*◌, ◌≡◌, refl, ap, arith, List, [], ◌∷◌, ◌++◌, map, true, false, none, some,
  length, Bytes, ◌∙◌,
}
use payloader.Sender.{DataPacket, Sender, datagram, send_data}
use payloader.Sender.Fifo.{receive-Received}
use payloader.Sender.Threads.{
  Phase, outer, waiting, send_front, send_loop, notify, World, Step, thread, call, wake, destroy,
  Reach, here, next,
}

-- The thread alone, for a number of its steps; it stays where it is when it cannot take one.
unfoldable pub alone : ℕ → Phase → Sender → World
alone zero phase s = record { phase = phase; sender = s }
alone (suc n) phase s = elim (send_loop phase s) [
  | none ↦ record { phase = phase; sender = s }
  | some (phase', s') ↦ alone n phase' s'
]

abbrev running : List DataPacket → List Bytes → Sender
running q sent = record { sending = true; send_queue = q; sent = sent }

drains :
    (q : List DataPacket) (sent : List Bytes)
    → alone (3 * length q) outer (running q sent)
      ≡ record { phase = outer; sender = running [] (sent ++ map datagram q) }
unfolding alone send_loop send_front send_data
drains [] sent = rw append-nil
drains (p ∷ q) sent =
    let three : 3 * suc (length q) ≡ suc (suc (suc (3 * length q))) = omega arith in
    rw three (
      drains q (sent ++ datagram p ∷ [])
      ∙ rw (append_assoc sent (datagram p ∷ []) (map datagram q)))

-- Left alone at the head of its loop with the flag set, the thread sends every packet that waits,
-- in order, within three steps for each, and is then at the head of the loop with an empty queue.
pub alone-drains :
    (s : Sender)
    → s.sending ≡ true
    → alone (3 * length s.send_queue) outer s ≡ record {
      phase = outer;
      sender = record {
        sending = true;
        send_queue = [];
        sent = s.sent ++ map datagram s.send_queue;
      };
    }
alone-drains s on =
    let e : s ≡ running s.send_queue s.sent = ground arith in
    ap (alone (3 * length s.send_queue) outer) e ∙ drains s.send_queue s.sent

-- The thread sleeps and the destructor has run.
abbrev pub Stuck : World → Type 0
Stuck w = (w.phase ≡ waiting) × (w.sender.sending ≡ false)

asleep_blocked :
    (at : Phase) (s : Sender) (phase : Phase) (t : Sender)
    → at ≡ waiting
    → send_loop at s ≡ some (phase, t)
    → ⊥
unfolding send_loop
asleep_blocked at s phase t e h = let blocked : send_loop at s ≡ none = rw e in cc

Step-Stuck : {w v : World} → Step false w v → Stuck w → Stuck v
unfolding send_loop notify
Step-Stuck {w} (thread phase s e) (asleep, off) =
    absurd (asleep_blocked w.phase w.sender phase s asleep e)
Step-Stuck {w} (call garbage in_buff n s notified p e) (asleep, off) =
    let r = receive-Received garbage in_buff n w.sender s notified e in
    let quiet : notified ≡ false = r.notifies ∙ off in (rw (quiet, asleep), r.same_sending ∙ off)
Step-Stuck (wake h p) k = cc
Step-Stuck destroy (asleep, off) = (asleep, refl)

-- The destructor clears the flag and joins the thread, but notifies nobody. If the thread
-- sleeps with the flag cleared, and no wait ends without a notification, then no later step of
-- the thread, of a caller or of a destructor takes it out of the wait.
pub Reach-Stuck : {w v : World} → Reach false w v → Stuck w → Stuck v
Reach-Stuck here k = k
Reach-Stuck (next r st) k = Step-Stuck st (Reach-Stuck r k)
