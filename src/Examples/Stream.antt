-- ===== src/Examples/Stream.antt =====
-- A stream of two frames from the device to the far side.
use payloader.Base.{
  ℕ, ℤ, pos, negsuc, ◌≤◌, ◌≡◌, refl, arith, [], ◌∷◌, false, true, length, length-replicate,
  replicate, Bytes, ok,
}
use payloader.Interfaces.{payloads}
use payloader.InputReader
use payloader.Receiver.{Receiver, run}
use payloader.Unpackager.{receive_all}
use payloader.Unpackager.Step.{holding_next}
use payloader.Unpackager.Frame.{handed}
use payloader.Pipeline.Transport.{completions}
use payloader.Sender.Accept.{AllSendable}
use payloader.Sender.Threads
use payloader.Sender.Threads.{Reach}
use payloader.Sender.Fifo.{log}
use payloader.Packager.{rtp_timestamp}
use payloader.Unpackager.{first_timestamp}
use payloader.Unpackager.Step.{delivery}
use payloader.Streamer.Streaming.Flat.{package_frames, counted_as, sent_packets}
use payloader.Streamer.Streaming.{first_line, routed}
use payloader.Streamer.Streaming.Sendable.{finished}
use payloader.Sender.Burst.{at_head, burst-Reach}
use payloader.Streamer.Streaming.{World, Line, start_streaming}
use payloader.Streamer.Streaming.Sendable.{start_streaming-AllSendable}
use payloader.Streamer.Streaming.FarSide.{length-calls, start_streaming-Delivered}
use payloader.Examples.Stages.{packet, working, world_of, scale, world_of-IsWorking}

abbrev two_reads : World
two_reads =
    world_of
      (record { packet = packet 1; stream_index = 0 }
        ∷ record { packet = packet 2; stream_index = 0 }
        ∷ [])
      working

abbrev streamed :
    (l : Line) × (start_streaming scale two_reads ≡ ok l)
    × AllSendable l.calls
    × (l.encodes ≡ finished two_reads.decoded 0 (routed scale two_reads))
    × (l.live ≡ finished two_reads.decoded 0 (routed scale two_reads))
    × (package_frames scale two_reads 0
          (finished two_reads.decoded 0 (routed scale two_reads))
          (first_line scale two_reads)
        ≡ ok (counted_as 0 0 l))
streamed = start_streaming-AllSendable scale two_reads (world_of-IsWorking _)

abbrev receiver : Receiver
receiver = record { sink = true; pending = true; buffer = replicate 1500 0 }

few : length streamed.0.calls ≤ 1000
unfolding InputReader.init InputReader.start_reading InputReader.read_loop InputReader.media_type
    sent_packets
few = omega (
  arith,
  length-calls scale two_reads (world_of-IsWorking _) streamed.0 (λ n. omega arith) streamed.1,
)

abbrev sending :
    (v : Threads.World) × (r : Reach false
      (at_head (record { sending = true; send_queue = []; sent = [] }))
      v)
    × (log r ≡ payloads streamed.0.calls)
    × (v.sender.send_queue ≡ [])
sending =
    burst-Reach (replicate 1500 0) streamed.0.calls streamed.2 (length-replicate {A = ℕ} 1500 0) few

start_streaming-Delivered_example :
    (block : Bytes) × (first : ℤ) × (receive_all
        (handed (run (completions sending.0.sender.sent) receiver).1)
        (holding_next (9 ∷ 9 ∷ []) (negsuc 0))
      ≡ ok (
        holding_next block first,
        delivery (2 ∷ []) 1 (negsuc 0) 2 ∷ delivery (2 ∷ []) 1 (pos 2) 2 ∷ [],
      ))
    × (length block ≡ 2)
unfolding InputReader.init InputReader.start_reading InputReader.read_loop InputReader.media_type
    sent_packets rtp_timestamp first_timestamp
start_streaming-Delivered_example =
    start_streaming-Delivered scale two_reads (world_of-IsWorking _) sending.1 streamed.0 receiver
      (9 ∷ 9 ∷ []) (negsuc 0) (λ n. omega arith) streamed.1 refl refl sending.2 sending.3 refl refl
      (omega arith) (omega arith, (omega arith, tt))
