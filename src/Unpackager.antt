-- ===== src/Unpackager.antt =====
-- src/libs/Unpackager.cpp: RTP packets are put together again to frames.
pub mod Step
pub mod Frame
pub mod Arrivals
use payloader.Base.{
  ℕ, zero, suc, ◌+◌, ◌-◌, List, [], ◌∷◌, ◌++◌, Bool, true, false, Option, none, some, ltb, ◌==◌,
  if◌then◌else◌, ℤ, pos, negsuc, minus_ℤ, quot, Bytes, read_block, write_block, Outcome, ok, fault,
  ◌>>=◌, access, length,
}
use payloader.Interfaces.{AvMediaType, video, Delivery}
use payloader.Rtp.Header.{RtpHeader, get_header_length, get_marker, get_timestamp}
use payloader.Rtp.Header.Image.{read_header}

-- `sink` tells whether `sink_` is set. `block` is what `malloc` gave, `none` for null, and
-- `unpackagedBuffer_` points `offset` bytes into it.
pub record Unpackager : Type 0 where
  pub sink : Bool
  pub upackaged_size : ℕ
  pub block : Option Bytes
  pub offset : ℕ
  pub first_video_timestamp : ℤ

abbrev pub unpackaged_buffer_size : ℕ
unpackaged_buffer_size = 1500000

-- The constructor leaves the first timestamp as the memory has it.
pub new_unpackager : ℤ → Unpackager
new_unpackager garbage = record {
  sink = false;
  upackaged_size = 0;
  block = none;
  offset = 0;
  first_video_timestamp = garbage;
}

-- `malloc` gives a block of `unpackaged_buffer_size` bytes, or null.
pub init : Option Bytes → Unpackager → Unpackager
init malloced u = record u { block = malloced; offset = 0; first_video_timestamp = negsuc 0 }

pub set_sink : Bool → Unpackager → Unpackager
set_sink receiver u = record u { sink = receiver }

-- `free` of a pointer into the middle of a block is undefined.
pub destroy : Unpackager → Outcome Unpackager
destroy u = if u.offset == 0 then ok (record u { block = none }) else fault

-- `if (first_video_timestamp_ == -1) first_video_timestamp_ = timestamp`
unfoldable pub first_timestamp : ℤ → ℕ → ℤ
first_timestamp (negsuc zero) timestamp = pos timestamp
first_timestamp first timestamp = first

-- The branch of a packet with the marker: the frame goes to the sink, in milliseconds since the
-- first one.
pub finish_frame : RtpHeader → Bytes → Unpackager → Outcome (Unpackager × List Delivery)
finish_frame head memory u = if ltb u.offset u.upackaged_size then fault else (do
  let start = u.offset - u.upackaged_size
  bytes ← access (read_block memory start u.upackaged_size)
  let first = first_timestamp u.first_video_timestamp (get_timestamp head)
  let pkt : Delivery = record {
    bytes = bytes;
    size = u.upackaged_size;
    dts = quot (minus_ℤ (get_timestamp head) first) 90;
    type = AvMediaType.video;
  }
  ok (
    record u { offset = start; first_video_timestamp = first; upackaged_size = 0 },
    if u.sink then pkt ∷ [] else [],
  ))

-- The new state and the calls of the sink. `in_buff` is the block that the pointer leads into.
pub receive_rtp_packet : Bytes → ℕ → Unpackager → Outcome (Unpackager × List Delivery)
receive_rtp_packet in_buff buff_size u = do
  head ← access (read_header in_buff)
  let in_buff_offset = get_header_length head
  let l = buff_size - in_buff_offset
  payload ←
      if ltb buff_size in_buff_offset then fault else access (read_block in_buff in_buff_offset l)
  block ← access u.block
  written ← access (write_block block u.offset payload)
  let grown = record u {
    block = some written;
    upackaged_size = u.upackaged_size + l;
    offset = u.offset + l;
  }
  if get_marker head == 0 then ok (grown, []) else finish_frame head written grown

-- The packets of a stream, one after the other, and all that reaches the sink.
pub receive_all : List (Bytes × ℕ) → Unpackager → Outcome (Unpackager × List Delivery)
receive_all [] u = ok (u, [])
receive_all ((in_buff, buff_size) ∷ rest) u = do
  (v, first) ← receive_rtp_packet in_buff buff_size u
  (w, later) ← receive_all rest v
  ok (w, first ++ later)
