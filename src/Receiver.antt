-- ===== src/Receiver.antt =====
-- src/libs/Receiver.cpp: datagrams are read into one buffer and handed to the sink. The socket and
-- the `io_service` of Boost are the sequence of completions that they report.
pub mod Stream
use payloader.Base.{
  ℕ, zero, suc, ◌+◌, List, [], ◌∷◌, ◌++◌, Bool, true, false, ltb, ◌&&◌, if◌then◌else◌, length, take,
  drop, Bytes,
}
use payloader.Interfaces.{RtpCall}

-- `pending` tells whether an asynchronous receive has been started and not completed; `buffer` is
-- the memory of `buffer_`.
pub record Receiver : Type 0 where
  pub sink : Bool
  pub pending : Bool
  pub buffer : Bytes

-- `char* buffer_[LENGTH]` has 8 * 1500 bytes, of which `LENGTH` are offered to the socket.
abbrev pub buffer_length : ℕ
buffer_length = 1500

abbrev pub new_receiver : Bytes → Receiver
new_receiver garbage = record { sink = false; pending = false; buffer = garbage }

abbrev pub set_sink : Bool → Receiver → Receiver
set_sink receiver r = record r { sink = receiver }

-- `init` starts the first receive; `run` comes after it.
abbrev pub init : Receiver → Receiver
init r = record r { pending = true }

-- A completion: whether it reports an error, and the bytes that it has received.
pub record Completion : Type 0 where
  pub error : Bool
  pub datagram : Bytes

-- The socket writes the datagram to the front of the buffer, cut to `LENGTH` bytes.
pub filled : Bytes → Bytes → Bytes
filled buffer datagram =
    let bytes = take buffer_length datagram in bytes ++ drop (length bytes) buffer

-- `handleReceive`: an error is only logged. The next receive is started if there is a sink and the
-- datagram is not empty.
pub handle_receive : Completion → Receiver → Receiver × List RtpCall
unfolding filled
handle_receive c r =
    let bytes_recvd = length (take buffer_length c.datagram) in
    let buffer = filled r.buffer c.datagram in
    if ltb 0 bytes_recvd && r.sink
    then (
      record r { pending = true; buffer = buffer },
      record { in_buff = buffer; buff_size = bytes_recvd } ∷ [],
    )
    else (record r { pending = false; buffer = buffer }, [])

-- `io_service_.run()`: completions are handled as long as a receive is pending.
unfoldable pub run : List Completion → Receiver → Receiver × List RtpCall
run [] r = (r, [])
run (c ∷ cs) r =
    let (s, first) = handle_receive c r in
    let (t, later) = run cs s in if r.pending then (t, first ++ later) else (r, [])
