-- ===== src/Encoder.antt =====
-- src/libs/Encoder.cpp: frames are encoded to packets.
pub mod Packets
use payloader.Base.{
  ℕ, ℤ, pos, negsuc, List, [], ◌∷◌, map, Bool, true, false, ◌&&◌, Option, none, some, if◌then◌else◌,
  Outcome, ok, fault, ◌>>=◌, ◌+◌,
}
use payloader.Interfaces.{AvMediaType, unknown, video, audio, other, AvFrame, AvPacket}
use payloader.Codecs.{VideoCodecInfo, AudioCodecInfo}
use payloader.Ffmpeg.{
  CodecAnswers, Reply, Routed, AudioContext, audio_context, is_set_pointer, result,
}

-- The members of the `AVCodecContext` of the video that the code writes, and whether it is open: the
-- denominators of the time base and of the frame rate stand for the fractions, whose other parts
-- are 1.
pub record VideoContext : Type 0 where
  pub bit_rate : ℕ
  pub width : ℕ
  pub height : ℕ
  pub time_base : ℕ × ℕ
  pub framerate : ℕ × ℕ
  pub gop_size : ℕ
  pub max_b_frames : ℕ
  pub opened : Bool

-- A pointer is the flag that it is set, or what it points to.
pub record Encoder : Type 0 where
  pub sink : Bool
  pub v_encoder : Bool
  pub v_encoder_context : Option VideoContext
  pub a_encoder : Bool
  pub a_encoder_context : Option AudioContext

abbrev pub new_encoder : Encoder
new_encoder = record {
  sink = false;
  v_encoder = false;
  v_encoder_context = none;
  a_encoder = false;
  a_encoder_context = none;
}

abbrev pub set_sink : Bool → Encoder → Encoder
set_sink receiver e = record e { sink = receiver }

abbrev pub video_context : VideoCodecInfo → (opened : Bool) → VideoContext
video_context info opened = record {
  bit_rate = info.bit_rate;
  width = info.width;
  height = info.height;
  time_base = (1, 25);
  framerate = (25, 1);
  gop_size = 10;
  max_b_frames = 1;
  opened = opened;
}

-- The video part of `init` and whether it goes on. No frame is allocated here.
unfoldable pub init_video : VideoCodecInfo → CodecAnswers → Encoder → Encoder × Bool
init_video info a e =
    if a.found
    then (if a.allocated
        then (
          record e { v_encoder = true; v_encoder_context = some (video_context info a.opened) },
          a.opened,
        )
        else (record e { v_encoder = true; v_encoder_context = none }, false))
    else (record e { v_encoder = false }, false)

-- The audio part.
unfoldable pub init_audio : CodecAnswers → Encoder → Encoder × Bool
init_audio a e =
    if a.found
    then (if a.allocated
        then (
          record e { a_encoder = true; a_encoder_context = some (audio_context a.opened) },
          a.opened,
        )
        else (record e { a_encoder = true; a_encoder_context = none }, false))
    else (record e { a_encoder = false }, false)

-- `init`: the audio part is left out where the video part fails.
unfoldable pub init : AudioCodecInfo → VideoCodecInfo → (a v : CodecAnswers) → Encoder → Encoder × ℤ
init audio_info video_info a v e =
    let first = if video_info.enabled then init_video video_info v e else (e, true) in
    let second = if audio_info.enabled then init_audio a first.0 else (first.0, true) in
    if first.1 then (second.0, result second.1) else (first.0, negsuc 0)

-- `while (ret >= 0)`: each packet that the codec gives is handed to the sink, where there is one.
unfoldable pub packet_loop : (sink : Bool) → AvMediaType → List AvPacket → List Routed
packet_loop sink type [] = []
packet_loop sink type (p ∷ ps) =
    let rest = packet_loop sink type ps in
    if sink then record { packet = p; type = type } ∷ rest else rest

-- One medium of `receiveFrame`: the context is handed on unseen, and so is a packet that could not be
-- allocated. FFmpeg does not allow either to be null.
unfoldable pub encode_frame :
    (context packet_allocated sink : Bool) → AvMediaType → Reply AvPacket → Outcome (List Routed)
encode_frame context packet_allocated sink type reply =
    if context
    then (if reply.accepted
        then (if packet_allocated then ok (packet_loop sink type reply.items) else fault)
        else ok [])
    else fault

-- The number of `AVPacket`s that are allocated and not freed, behind an `av_packet_alloc`.
abbrev pub allocate : (packet_allocated : Bool) → ℕ → ℕ
allocate packet_allocated live = if packet_allocated then 1 + live else live

-- `receiveFrame` with the number of packets that are alive: none is freed.
unfoldable pub receive_frame :
    (packet_allocated : Bool)
    → Reply AvPacket
    → AvMediaType
    → Encoder
    → (live : ℕ) → Outcome (List Routed × ℕ)
receive_frame packet_allocated reply AvMediaType.video e live = do
  calls ←
      encode_frame (is_set_pointer e.v_encoder_context) packet_allocated e.sink AvMediaType.video
        reply
  ok (calls, allocate packet_allocated live)
receive_frame packet_allocated reply AvMediaType.audio e live = do
  calls ←
      encode_frame (is_set_pointer e.a_encoder_context) packet_allocated e.sink AvMediaType.audio
        reply
  ok (calls, allocate packet_allocated live)
receive_frame packet_allocated reply _ e live = ok ([], live)
