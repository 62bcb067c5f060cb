-- ===== src/Packager.antt =====
-- src/libs/Packager.cpp: an encoded frame is sent as a sequence of RTP packets.
pub mod Round
pub mod Frame
use payloader.Base.{
  ℕ, zero, suc, ◌+◌, ◌++◌, List, [], ◌∷◌, Bool, true, false, Option, none, some, ◌==◌,
  if◌then◌else◌, u16, u32, u64, Bytes, read_block, write_block, Outcome, ok, timeout, ◌>>=◌, access,
}
use payloader.Interfaces.{AvMediaType, video, AvPacket, RtpCall, sign_extend32}
use payloader.Rtp.Header.{
  RtpHeader, new_header, set_marker, set_seq_number, set_timestamp, set_ssrc, set_payload_type,
  get_header_length,
}
use payloader.Rtp.Header.Image.{image}
use payloader.Rtp.Fragmenter.{RtpFragmenter, new_fragmenter, get_packet}

-- `sink` tells whether `sink_` is set, `video_seq_num` is the pattern of an `int`, and a buffer is
-- `none` before `init` has allocated it.
pub record Packager : Type 0 where
  pub sink : Bool
  pub video_seq_num : ℕ
  pub out_buff : Option Bytes
  pub rtp_buffer : Option Bytes

abbrev pub packaged_buffer_size : ℕ
packaged_buffer_size = 2000

-- The constructor sets the sink alone: the sequence number is what the memory has.
unfoldable pub new_packager : ℕ → Packager
new_packager garbage = record {
  sink = false;
  video_seq_num = garbage;
  out_buff = none;
  rtp_buffer = none;
}

-- `malloc` gives two blocks of `packaged_buffer_size` bytes, or null.
unfoldable pub init : (rtp_block out_block : Option Bytes) → Packager → Packager
init rtp_block out_block p = record p {
  video_seq_num = 0;
  rtp_buffer = rtp_block;
  out_buff = out_block;
}

unfoldable pub set_sink : Bool → Packager → Packager
set_sink receiver p = record p { sink = receiver }

-- The header of one packet; `garbage` is what the memory of the local object holds.
pub rtp_header : (garbage : ℕ) (last : Bool) (seq timestamp : ℕ) → RtpHeader
rtp_header garbage last seq timestamp = set_payload_type 96 (
    set_ssrc 55543 (
      set_timestamp timestamp
        (set_seq_number seq (set_marker (if last then 1 else 0) (new_header garbage)))))

-- What the loop carries from round to round, and the calls of the sink so far.
pub record Loop : Type 0 where
  pub frag : RtpFragmenter
  pub last_frame : Bool
  pub packager : Packager
  pub calls : List RtpCall

module _ (garbage : ℕ) where
  -- The body of the `do ... while` loop.
  pub round : ℕ → Loop → Outcome Loop
  round timestamp s = do
    out_block ← access s.packager.out_buff
    out ← get_packet s.frag out_block 0 s.last_frame
    let seq = s.packager.video_seq_num
    let header = rtp_header garbage out.last_packet seq timestamp
    rtp_block ← access s.packager.rtp_buffer
    head ← access (read_block (image header) 0 (get_header_length header))
    block1 ← access (write_block rtp_block 0 head)
    payload ← access (read_block out.buffer 0 out.len)
    block2 ← access (write_block block1 (get_header_length header) payload)
    let call : RtpCall = record { in_buff = block2; buff_size = out.len + get_header_length header }
    ok (record {
      frag = out.fragmenter;
      last_frame = out.last_packet;
      packager = record s.packager {
        video_seq_num = u32 (seq + 1);
        out_buff = some out.buffer;
        rtp_buffer = some block2;
      };
      calls = if s.packager.sink then s.calls ++ call ∷ [] else s.calls;
    })

  -- `do { ... } while (!lastFrame)`, with at most `fuel` rounds.
  pub rounds : ℕ → ℕ → Loop → Outcome Loop
  rounds zero timestamp s = timeout
  rounds (suc fuel) timestamp s =
      round timestamp s >>= λ t. elim t.last_frame [ true ↦ ok t | false ↦ rounds fuel timestamp t ]

-- `av_rescale` of FFmpeg and the clock are not part of the sources: the rescaling is a function on
-- `int64_t` patterns, and the clock is the time in milliseconds that it shows.
module _ (av_rescale : ℕ → ℕ → ℕ → ℕ) where
  unfoldable pub rtp_timestamp : (millis dts : ℕ) → ℕ
  rtp_timestamp millis dts =
      if dts == 0 then av_rescale millis 90000 1000 else av_rescale (sign_extend32 dts) 90000 1000

  -- The new state and the calls of the sink. Only video packets are sent.
  pub receive_packet :
      (garbage fuel millis : ℕ)
      → AvPacket
      → AvMediaType
      → Packager
      → Outcome (Packager × List RtpCall)
  receive_packet garbage fuel millis packet AvMediaType.video p = do
    frag ← new_fragmenter packet.bytes (u32 packet.size)
    s ←
        rounds garbage fuel (u64 (rtp_timestamp millis (u32 packet.dts)))
          (record { frag = frag; last_frame = false; packager = p; calls = [] })
    ok (s.packager, s.calls)
  receive_packet garbage fuel millis packet _ p = ok (p, [])
