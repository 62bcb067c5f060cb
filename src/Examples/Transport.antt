-- ===== src/Examples/Transport.antt =====
-- Short runs of src/libs/Sender.cpp and src/libs/Receiver.cpp.
use payloader.Base.{
  ℕ, replicate, length-replicate, length, ◌*◌, ◌≤◌, ◌≡◌, refl, arith, List, [], ◌∷◌, ◌++◌, true,
  false, ok, read_block, write_block,
}
use payloader.Sender.{DataPacket, Sender, receive_rtp_packet, push_packet}
use payloader.Sender.Threads.{World, waiting, outer, Reach, here, next, destroy}
use payloader.Sender.Fifo.{flow, log, Reach-flow}
use payloader.Sender.Shutdown.{alone, alone-drains, Stuck, Reach-Stuck}
use payloader.Sender.Accept.{AllSendable, receive_calls, receive_calls-drains}
use payloader.Interfaces.{RtpCall, payloads}
use payloader.Receiver.{Receiver, Completion, run}
use payloader.Receiver.Stream.{Fit, run-before_empty}

abbrev idle : Sender
idle = record { sending = true; send_queue = []; sent = [] }

abbrev two : DataPacket
two = record { block = 1 ∷ 2 ∷ 0 ∷ []; size = 2 }

abbrev loaded : Sender
loaded = record { sending = true; send_queue = two ∷ []; sent = [] }

receive_example : receive_rtp_packet (0 ∷ 0 ∷ 0 ∷ []) (1 ∷ 2 ∷ []) 2 idle ≡ ok (loaded, true)
unfolding receive_rtp_packet push_packet read_block write_block
receive_example = refl

abbrev start : World
start = record { phase = outer; sender = loaded }

abbrev asleep : World
asleep = record { phase = waiting; sender = record idle { sending = false } }

stopped : Reach false start (record { phase = outer; sender = record loaded { sending = false } })
stopped = next here destroy

Reach-flow_example :
    (flow (record loaded { sending = false }) ≡ flow loaded ++ log stopped) × (1 ≤ 1000)
Reach-flow_example = Reach-flow stopped (omega arith)

alone-drains_example : alone (3 * 1) outer loaded ≡ record {
  phase = outer;
  sender = record { sending = true; send_queue = []; sent = (1 ∷ 2 ∷ []) ∷ [] };
}
alone-drains_example = alone-drains loaded refl

destroyed : Reach false asleep asleep
destroyed = next here destroy

Reach-Stuck_example : Stuck asleep
Reach-Stuck_example = Reach-Stuck destroyed (refl, refl)

abbrev listening : Receiver
listening = record { sink = true; pending = true; buffer = 0 ∷ 0 ∷ 0 ∷ [] }

abbrev completions : List Completion
completions =
    record { error = false; datagram = 1 ∷ 2 ∷ [] }
    ∷ record { error = false; datagram = [] }
    ∷ record { error = false; datagram = 3 ∷ [] }
    ∷ []

completions-Fit : Fit completions
completions-Fit = (omega arith, (omega arith, (omega arith, tt)))

run-before_empty_example : payloads (run completions listening).1 ≡ (1 ∷ 2 ∷ []) ∷ []
run-before_empty_example = run-before_empty completions listening refl refl completions-Fit

abbrev one_call : List RtpCall
one_call = record { in_buff = 7 ∷ 8 ∷ 9 ∷ []; buff_size = 2 } ∷ []

one_call-AllSendable : AllSendable one_call
one_call-AllSendable =
    (record { nonempty = omega arith; fits = omega arith; held = omega arith }, tt)

receive_calls-drains_example :
    (t : Sender) × (receive_calls (replicate 1500 0) one_call loaded ≡ ok t)
    × ((alone (3 * length t.send_queue) outer t).sender.sent ≡ (1 ∷ 2 ∷ []) ∷ (7 ∷ 8 ∷ []) ∷ [])
receive_calls-drains_example =
    receive_calls-drains (replicate 1500 0) one_call loaded one_call-AllSendable
      (length-replicate {A = ℕ} 1500 0) refl (omega arith)
