-- ===== src/Sender.antt =====
-- src/libs/Sender.cpp: a bounded queue between the pipeline and a thread that sends datagrams.
pub mod Threads
pub mod Fifo
pub mod Shutdown
pub mod Accept
pub mod Burst
use payloader.Base.{
  ℕ, ◌+◌, List, [], ◌∷◌, ◌++◌, Bool, true, false, Option, none, some, ltb, if◌then◌else◌, length,
  take, Bytes, read_block, write_block, Outcome, ok, ◌>>=◌, access,
}

pub record DataPacket : Type 0 where
  pub block : Bytes
  pub size : ℕ

-- `sent` is the sequence of datagrams handed to `sendto` so far.
pub record Sender : Type 0 where
  pub sending : Bool
  pub send_queue : List DataPacket
  pub sent : List Bytes

-- `char data[1500]` of a data packet, and the bound of the queue.
abbrev pub packet_capacity : ℕ
packet_capacity = 1500

abbrev pub queue_bound : ℕ
queue_bound = 1000

-- The constructor does not set `sending_`.
abbrev pub new_sender : Bool → Sender
new_sender garbage = record { sending = garbage; send_queue = []; sent = [] }

abbrev pub init : Sender → Sender
init s = record s { sending = true }

-- `memcpy` into the local data packet, which holds `garbage`, and the push.
unfoldable pub push_packet : (garbage in_buff : Bytes) (buff_size : ℕ) → Sender → Outcome Sender
push_packet garbage in_buff buff_size s = do
  bytes ← access (read_block in_buff 0 buff_size)
  filled ← access (write_block garbage 0 bytes)
  let p : DataPacket = record { block = filled; size = buff_size }
  ok (record s { send_queue = s.send_queue ++ p ∷ [] })

-- The flag of the result says whether `notify_one` was called.
unfoldable pub receive_rtp_packet :
    (garbage in_buff : Bytes) (buff_size : ℕ) → Sender → Outcome (Sender × Bool)
receive_rtp_packet garbage in_buff buff_size s =
    if s.sending
    then (if ltb (length s.send_queue) queue_bound
        then (do t ← push_packet garbage in_buff buff_size s; ok (t, true))
        else ok (s, true))
    else ok (s, false)

-- The bytes that `sendto` takes.
abbrev pub datagram : DataPacket → Bytes
datagram p = take p.size p.block

pub send_data : DataPacket → Sender → Sender
send_data p s = record s { sent = s.sent ++ datagram p ∷ [] }
