-- ===== src/Sender/Accept.antt =====
-- A burst of calls at a running sender with room for them, and the thread that then sends them.
use mathlib.Core.List.{append_assoc, append-nil, map-append}
use payloader.Base.{
  ◌+◌, ◌*◌, ◌≤◌, ◌<◌, ◌≡◌, refl, sym, arith, ap, ◌∙◌, List, [], ◌∷◌, ◌++◌, map, true, length,
  length-append, length-take, take, drop, take-append, Bytes, lt→ltb, read_block_fits,
  write_block-front, Outcome, ok, ◌>>=◌,
}
use payloader.Interfaces.{RtpCall, payloads}
use payloader.Sender.{DataPacket, Sender, receive_rtp_packet, push_packet, datagram}
use payloader.Sender.Threads.{outer}
use payloader.Sender.Shutdown.{alone, alone-drains}

-- A call whose bytes are in its block and fit a data packet, and are not none.
pub record IsSendable (c : RtpCall) : Type 0 where
  pub nonempty : 0 < c.buff_size
  pub fits : c.buff_size ≤ 1500
  pub held : c.buff_size ≤ length c.in_buff

abbrev pub AllSendable : List RtpCall → Type 0
AllSendable [] = Unit
AllSendable (c ∷ cs) = IsSendable c × AllSendable cs

-- `receiveRtpPacket` for each of the calls, one after the other.
unfoldable pub receive_calls : Bytes → List RtpCall → Sender → Outcome Sender
receive_calls garbage [] s = ok s
receive_calls garbage (c ∷ cs) s = do
  (t, notified) ← receive_rtp_packet garbage c.in_buff c.buff_size s
  receive_calls garbage cs t

abbrev stored : Bytes → RtpCall → DataPacket
stored garbage c = record {
  block = take c.buff_size c.in_buff ++ drop (length (take c.buff_size c.in_buff)) garbage;
  size = c.buff_size;
}

length-taken : (c : RtpCall) → IsSendable c → length (take c.buff_size c.in_buff) ≡ c.buff_size
length-taken c k = omega (arith, k.held, length-take c.buff_size c.in_buff)

receive_rtp_packet-stored :
    (garbage : Bytes) (c : RtpCall) (s : Sender)
    → IsSendable c
    → length garbage ≡ 1500
    → s.sending ≡ true
    → length s.send_queue < 1000
    → receive_rtp_packet garbage c.in_buff c.buff_size s
      ≡ ok (record s { send_queue = s.send_queue ++ stored garbage c ∷ [] }, true)
unfolding receive_rtp_packet push_packet
receive_rtp_packet-stored garbage c s k size on space = rw (
  receive_rtp_packet,
  lt→ltb (length s.send_queue) 1000 space,
  on,
  read_block_fits c.in_buff 0 c.buff_size (omega (arith, k.held)),
  write_block-front garbage (take c.buff_size c.in_buff)
      (omega (arith, length-taken c k, k.fits, size)),
)

-- What a burst leaves behind: the queue has grown by the calls' bytes, in order.
record Queued (cs : List RtpCall) (s t : Sender) : Type 0 where
  running : t.sending ≡ true
  same_sent : t.sent ≡ s.sent
  grown : map datagram t.send_queue ≡ map datagram s.send_queue ++ payloads cs

datagram-stored :
    (garbage : Bytes) (c : RtpCall)
    → IsSendable c
    → datagram (stored garbage c) ≡ take c.buff_size c.in_buff
datagram-stored garbage c k =
    take-append (take c.buff_size c.in_buff) (drop (length (take c.buff_size c.in_buff)) garbage)
      c.buff_size (sym (length-taken c k))

receive_calls-Queued :
    (garbage : Bytes) (cs : List RtpCall) (s : Sender)
    → AllSendable cs
    → length garbage ≡ 1500
    → s.sending ≡ true
    → length s.send_queue + length cs ≤ 1000
    → (t : Sender) × (receive_calls garbage cs s ≡ ok t) × Queued cs s t
unfolding receive_calls
receive_calls-Queued garbage [] s k size on space = (
  s,
  refl,
  record { running = on; same_sent = refl; grown = sym (append-nil (map datagram s.send_queue)) },
)
receive_calls-Queued garbage (c ∷ cs) s (one, k) size on space =
    let p = stored garbage c in
    let next : Sender = record s { send_queue = s.send_queue ++ p ∷ [] } in
    let longer : length next.send_queue ≡ length s.send_queue + 1 =
      omega (arith, length-append s.send_queue (p ∷ [])) in
    let (t, returns, q) = receive_calls-Queued garbage cs next k size on (omega (arith, longer)) in
    let first = receive_rtp_packet-stored garbage c s one size on (omega arith) in
    let both : map datagram next.send_queue
        ≡ map datagram s.send_queue ++ take c.buff_size c.in_buff ∷ [] =
      rw (map-append, datagram-stored garbage c one) in
    (
      t,
      rw first returns,
      record {
        running = q.running;
        same_sent = q.same_sent;
        grown =
            q.grown
            ∙ rw both (
                append_assoc (map datagram s.send_queue) (take c.buff_size c.in_buff ∷ [])
                  (payloads cs));
      },
    )

-- A burst of calls, each of 1 to 1500 bytes that stand in its block, at a running sender whose
-- queue has room for all of them: every call returns; and the thread, left alone from the head of
-- its loop, then sends what waited and after it the bytes of every call, in order.
pub receive_calls-drains :
    (garbage : Bytes) (cs : List RtpCall) (s : Sender)
    → AllSendable cs
    → length garbage ≡ 1500
    → s.sending ≡ true
    → length s.send_queue + length cs ≤ 1000
    → (t : Sender) × (receive_calls garbage cs s ≡ ok t)
      × ((alone (3 * length t.send_queue) outer t).sender.sent
          ≡ s.sent ++ (map datagram s.send_queue ++ payloads cs))
receive_calls-drains garbage cs s k size on space =
    let (t, returns, q) = receive_calls-Queued garbage cs s k size on space in
    let drained : (alone (3 * length t.send_queue) outer t).sender.sent
        ≡ t.sent ++ map datagram t.send_queue =
      ap (λ w. w.sender.sent) (alone-drains t q.running) in
    (t, returns, drained ∙ rw (q.same_sent, q.grown))
