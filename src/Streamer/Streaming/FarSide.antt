-- ===== src/Streamer/Streaming/FarSide.antt =====
-- The whole way of a stream: the device, the pipeline of src/libs/Streamer.cpp, the sender and its thread,
-- the network, a receiver and an unpackager.
use payloader.Base.{
  ap, sym, ◌∙◌, ℕ, zero, suc, ◌+◌, ◌^◌, ◌≤◌, ◌<◌, ◌≡◌, arith, ℤ, List, [], ◌∷◌, ◌++◌, map, Bool,
  true, length, Bytes, ok,
}
use mathlib.Core.Path.{subst}
use mathlib.Core.List.{append-nil}
use payloader.Interfaces.{AvPacket, RtpCall, payloads}
use payloader.Sender.Accept.{AllSendable}
use payloader.Sender.{Sender, DataPacket, datagram}
use payloader.Sender.Threads.{Reach}
use payloader.Sender.Threads
use payloader.Sender.Fifo.{flow, log, Reach-flow}
use payloader.Receiver.{Receiver, run}
use payloader.Unpackager.{receive_all}
use payloader.Unpackager.Step.{holding_next}
use payloader.Unpackager.Frame.{Arrive, handed}
use payloader.Pipeline.Transport.{completions, run-Arrive, completions-Transmits}
use payloader.Streamer.Streaming.{World, Line, first_line, routed, start_streaming}
use payloader.Streamer.Streaming.Flat.{of_reply, sent_packets, counted_as}
use payloader.Streamer.Streaming.Frames.{of_reply-AllFrames, AllFrames, IsWorking}
use payloader.Streamer.Streaming.Sendable.{finished, first_line-OnLine, start_streaming-AllSendable}
use payloader.Streamer.Streaming.Delivered.{
  AllFit, PartDelivered, deliveries, rtp_packets, package_packets-PartDelivered,
}

append-AllFrames : (ps qs : List AvPacket) → AllFrames ps → AllFrames qs → AllFrames (ps ++ qs)
append-AllFrames [] qs a b = b
append-AllFrames (p ∷ ps) qs (one, a) b = (one, append-AllFrames ps qs a b)

-- The packets of the stream: those that the encoder makes of the finished frames that it accepts.
abbrev pub stream_packets : (ℕ → ℕ → ℕ → ℕ) → World → List AvPacket
stream_packets av_rescale w = sent_packets w.encoded 0 (finished w.decoded 0 (routed av_rescale w))

-- From an idle sender to one that has nothing more to send: what has been accepted has been sent.
all_sent :
    (s t : Sender) (accepted : List Bytes)
    → s.sent ≡ []
    → s.send_queue ≡ []
    → t.send_queue ≡ []
    → flow t ≡ flow s ++ accepted
    → t.sent ≡ accepted
all_sent s t accepted quiet idle drained flows =
    let start : flow s ≡ [] =
      ap (λ (sent : List Bytes). sent ++ map datagram s.send_queue) quiet
      ∙ ap (λ (q : List DataPacket). map datagram q) idle in
    let end : flow t ≡ t.sent =
      ap (λ (q : List DataPacket). t.sent ++ map datagram q) drained ∙ append-nil t.sent in
    sym end ∙ (flows ∙ ap (λ (ds : List Bytes). ds ++ accepted) start)

module _ (av_rescale : ℕ → ℕ → ℕ → ℕ) (w : World) (works : IsWorking w) where
  sent_packets-AllFrames : (n count : ℕ) → AllFrames (sent_packets w.encoded n count)
  unfolding sent_packets
  sent_packets-AllFrames n zero = tt
  sent_packets-AllFrames n (suc count) =
      append-AllFrames (of_reply (w.encoded n)) (sent_packets w.encoded (n + 1) count)
        (of_reply-AllFrames (w.encoded n) (works.are_frames n))
        (sent_packets-AllFrames (n + 1) count)

  -- The far side of the whole stream.
  stream-PartDelivered :
      (l : Line)
      → ((n : ℕ) → w.header_garbage n < 2 ^ 32)
      → start_streaming av_rescale w ≡ ok l
      → PartDelivered av_rescale w
          (stream_packets av_rescale w)
          (first_line av_rescale w)
          (counted_as 0 0 l)
  stream-PartDelivered l garbage e =
      let (m, returns, _, _, _, flat) = start_streaming-AllSendable av_rescale w works in
      let same : m ≡ l = cc in
      package_packets-PartDelivered av_rescale w (stream_packets av_rescale w)
        (first_line av_rescale w) (counted_as 0 0 l) garbage (sent_packets-AllFrames 0 _)
        (first_line-OnLine av_rescale w works).is_ready
        (flat ∙ ap (λ (t : Line). ok (counted_as 0 0 t)) same)

  -- In an environment that works, the sender is given one RTP packet for each 1099 bytes of a frame or
  -- part of them.
  pub length-calls :
      (l : Line)
      → ((n : ℕ) → w.header_garbage n < 2 ^ 32)
      → start_streaming av_rescale w ≡ ok l
      → length l.calls ≡ rtp_packets (stream_packets av_rescale w)
  length-calls l garbage e =
      let d = stream-PartDelivered l garbage e in ap length d.appended ∙ d.counted

  -- A whole stream, from the device to the sink behind an unpackager on another host: in an environment
  -- that works, let a sender that has sent nothing and has nothing to send run in any interleaving with
  -- its thread, its destructor and spurious wake-ups, in which it accepts exactly the calls that
  -- streaming makes and after which nothing waits; let the network hand each datagram, in order, to a
  -- receiver with a sink, a receive under way and a buffer of 1500 bytes or more; and let the receiver's
  -- calls go to an unpackager between two frames, with a sink and a block in which each frame fits.
  -- Then the unpackager's sink gets one frame for each packet of the frames that the encoder accepts,
  -- all of them, in order and with the packet's bytes, timed from the first frame; and the unpackager
  -- is between two frames again, with a block as long as before.
  pub start_streaming-Delivered :
      {spurious : Bool} {before after : Threads.World} (sending : Reach spurious before after)
      (l : Line) (r : Receiver) (block : Bytes) (first : ℤ)
      → ((n : ℕ) → w.header_garbage n < 2 ^ 32)
      → start_streaming av_rescale w ≡ ok l
      → before.sender.sent ≡ []
      → before.sender.send_queue ≡ []
      → log sending ≡ payloads l.calls
      → after.sender.send_queue ≡ []
      → r.sink ≡ true
      → r.pending ≡ true
      → 1500 ≤ length r.buffer
      → AllFit (length block) (stream_packets av_rescale w)
      → (block' : Bytes) × (first' : ℤ) × (receive_all
            (handed (run (completions after.sender.sent) r).1)
            (holding_next block first)
          ≡ ok (
            holding_next block' first',
            deliveries av_rescale w 0 (stream_packets av_rescale w) first,
          ))
        × (length block' ≡ length block)
  start_streaming-Delivered {spurious} {before} {after} sending l r block first garbage e quiet idle
        accepts drained sink pending room fits =
      let (m, returns, sendable, _, _, _) = start_streaming-AllSendable av_rescale w works in
      let same : m ≡ l = cc in
      let can : AllSendable l.calls = subst (λ (t : Line). AllSendable t.calls) same sendable in
      let sent : after.sender.sent ≡ payloads l.calls =
        all_sent before.sender after.sender (log sending) quiet idle drained
          (Reach-flow sending (omega (arith, ap length idle))).0
        ∙ accepts in
      let arrive : Arrive l.calls (handed (run (completions after.sender.sent) r).1) =
        subst (λ (ds : List Bytes). Arrive l.calls (handed (run (completions ds) r).1)) (sym sent)
          (run-Arrive l.calls (completions (payloads l.calls)) r sink pending room
            (completions-Transmits l.calls can)) in
      let d = stream-PartDelivered l garbage e in
      d.delivers _ block first fits (
        subst (λ (cs : List RtpCall). Arrive cs (handed (run (completions after.sender.sent) r).1))
          d.appended arrive)
