-- ===== src/Pipeline/EndToEnd.antt =====
-- A frame on its whole way: Packager, Sender, the network, Receiver and Unpackager.
use mathlib.Core.Path.{subst}
use payloader.Base.{
  ℕ, ◌*◌, ◌≤◌, ◌<◌, ◌^◌, ◌≡◌, refl, sym, arith, List, [], true, length, Bytes, ℤ, u32, u64, ok,
}
use payloader.Interfaces.{AvPacket, AvMediaType, RtpCall, payloads}
use payloader.Packager.{Packager, rtp_timestamp, receive_packet}
use payloader.Packager.Frame.{IsReady, receive_packet-Packaged}
use payloader.Rtp.Fragmenter.Tiling.{Tiles-length}
use payloader.Sender.{Sender}
use payloader.Sender.Threads.{outer}
use payloader.Sender.Shutdown.{alone}
use payloader.Sender.Accept.{receive_calls, receive_calls-drains}
use payloader.Receiver.{Receiver, run}
use payloader.Unpackager.Frame.{Arrive, handed}
use payloader.Pipeline.{Delivered, receive_packet-Delivered}
use payloader.Pipeline.Transport.{completions, run-Arrive, completions-Transmits, Calls-AllSendable}

-- A sender that runs, has nothing to send and has sent nothing.
abbrev pub idle : Sender
idle = record { sending = true; send_queue = []; sent = [] }

-- What the thread of a sender has sent once it has emptied the queue.
abbrev pub drained : Sender → List Bytes
drained t = (alone (3 * length t.send_queue) outer t).sender.sent

-- The stages of one frame, from the packager to the sink behind the unpackager.
pub record Transported (av_rescale : ℕ → ℕ → ℕ → ℕ) (garbage fuel millis : ℕ) (packet : AvPacket)
    (p : Packager) (memory : Bytes) (r : Receiver) (block : Bytes) (first : ℤ) : Type 0 where
  pub final : Packager
  pub sent : List RtpCall
  pub packages :
      receive_packet av_rescale garbage fuel millis packet AvMediaType.video p ≡ ok (final, sent)
  pub loaded : Sender
  pub queues : receive_calls memory sent idle ≡ ok loaded
  pub delivers :
      Delivered
        (u64 (rtp_timestamp av_rescale millis (u32 packet.dts)))
        packet
        (handed (run (completions (drained loaded)) r).1)
        block
        first

-- A video frame of 1 to 1000 * 1099 bytes, given to a ready packager with a round of fuel for each
-- 1099 bytes: its packets all enter the queue of an idle sender, whose thread sends them; if the
-- network hands each datagram, in order, to a receiver with a sink, a receive under way and a buffer
-- of 1500 bytes or more, and the receiver's calls go to an unpackager between two frames, with a sink
-- and a block large enough, then the unpackager's sink gets exactly one frame, with the same bytes and
-- the same size. No stage fails or loses anything on the way.
pub receive_packet-Transported :
    (av_rescale : ℕ → ℕ → ℕ → ℕ) (garbage fuel millis : ℕ) (packet : AvPacket) (p : Packager)
    (memory : Bytes) (r : Receiver) (block : Bytes) (first : ℤ)
    → garbage < 2 ^ 32
    → IsReady p
    → 0 < packet.size
    → packet.size ≤ length packet.bytes
    → packet.size ≤ 1099 * fuel
    → packet.size ≤ 1099 * 1000
    → packet.size ≤ length block
    → length memory ≡ 1500
    → r.sink ≡ true
    → r.pending ≡ true
    → 1500 ≤ length r.buffer
    → Transported av_rescale garbage fuel millis packet p memory r block first
receive_packet-Transported av_rescale garbage fuel millis packet p memory r block first g ready
      nonzero held enough small room size sink pending buffer =
    let k =
      receive_packet-Packaged av_rescale garbage fuel millis packet p ready nonzero (omega arith)
        held enough in
    let time = u64 (rtp_timestamp av_rescale millis (u32 packet.dts)) in
    let (sendable, count) =
      Calls-AllSendable garbage time p.video_seq_num 0 packet.size packet.bytes k.fragments k.sent
        held k.tiles k.are_calls in
    let few : length k.sent ≤ 1000 =
      omega (arith, count, Tiles-length 0 packet.size k.fragments k.tiles) in
    let (t, queues, drains) =
      receive_calls-drains memory k.sent idle sendable size refl (omega (arith, few)) in
    let arrive : Arrive k.sent (handed (run (completions (payloads k.sent)) r).1) =
      run-Arrive k.sent (completions (payloads k.sent)) r sink pending buffer
        (completions-Transmits k.sent sendable) in
    let arrived : Arrive k.sent (handed (run (completions (drained t)) r).1) =
      subst (λ (ds : List Bytes). Arrive k.sent (handed (run (completions ds) r).1)) (sym drains)
        arrive in
    record {
      final = k.final;
      sent = k.sent;
      packages = k.returns;
      loaded = t;
      queues = queues;
      delivers =
          receive_packet-Delivered av_rescale garbage fuel millis packet p k.final k.sent
            (handed (run (completions (drained t)) r).1) block first g ready nonzero (omega arith)
            held enough room k.returns arrived;
    }
