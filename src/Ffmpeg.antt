-- ===== src/Ffmpeg.antt =====
-- What the stages of src/libs read of FFmpeg's answers. FFmpeg is not part of the sources: each answer is an
-- argument, and a demuxer is the packets that `av_read_frame` gives before it reports an error or the end.
use payloader.Base.{
  ℕ, ℤ, pos, negsuc, List, Bool, true, false, ◌==◌, if◌then◌else◌, Option, none, some,
}
use payloader.Interfaces.{AvPacket, AvMediaType}

abbrev pub is_negative : ℤ → Bool
is_negative (pos n) = false
is_negative (negsuc n) = true

abbrev pub is_zero : ℤ → Bool
is_zero (pos n) = n == 0
is_zero (negsuc n) = false

-- A packet that `av_read_frame` has read, with the stream that it belongs to.
pub record Read : Type 0 where
  pub packet : AvPacket
  pub stream_index : ℕ

-- Whether a stream index is the one that is held in an `int`.
abbrev pub is_index : ℤ → ℕ → Bool
is_index (pos i) n = n == i
is_index (negsuc _) n = false

-- A call of `PacketReceiver::receivePacket` by a reader.
pub record Routed : Type 0 where
  pub packet : AvPacket
  pub type : AvMediaType

-- The answers to the calls that find, allocate and open a codec and allocate its frame: whether each
-- of them succeeds.
pub record CodecAnswers : Type 0 where
  pub found : Bool
  pub allocated : Bool
  pub opened : Bool
  pub frame_allocated : Bool

-- The answer to one `avcodec_send_packet` or `avcodec_send_frame`: whether it is accepted, and what
-- the calls of the matching `receive` function give before one of them reports `EAGAIN`, the end or
-- an error.
pub record Reply {ℓ} (A : Type ℓ) : Type ℓ where
  pub accepted : Bool
  pub items : List A

-- The answer to one `avcodec_decode_video2`: what is found in `frameFinished` behind the call, and
-- the frame.
pub record Decoded {ℓ} (A : Type ℓ) : Type ℓ where
  pub frame_finished : Bool
  pub frame : A

-- The members of the `AVCodecContext` of the audio that the code writes, and whether it is open.
pub record AudioContext : Type 0 where
  pub sample_rate : ℕ
  pub channels : ℕ
  pub opened : Bool

-- The settings that are written for every audio codec.
abbrev pub audio_context : (opened : Bool) → AudioContext
audio_context opened = record { sample_rate = 48000; channels = 2; opened = opened }

-- The test of a pointer against `NULL`.
abbrev pub is_set_pointer {ℓ} : {A : Type ℓ} → Option A → Bool
is_set_pointer none = false
is_set_pointer (some a) = true

-- `return true` of an `int` function, or its `return -1`.
abbrev pub result : Bool → ℤ
result b = if b then pos 1 else negsuc 0
