-- ===== src/Decoder.antt =====
-- src/libs/Decoder.cpp: packets of the codec that a reader names are decoded to frames.
pub mod Ready
use payloader.Base.{
  ℕ, ℤ, pos, negsuc, List, [], ◌∷◌, Bool, true, false, ◌&&◌, Option, none, some, if◌then◌else◌,
  Outcome, ok, fault, ◌>>=◌,
}
use payloader.Interfaces.{AvMediaType, unknown, video, audio, other, AvFrame, FrameCall}
use payloader.Codecs.{AvCodecId, is_set, VideoCodecInfo, mjpeg}
use payloader.Ffmpeg.{CodecAnswers, Reply, Decoded, is_set_pointer}

-- The members of an `AVCodecContext` that the code writes, and whether it has been opened.
pub record CodecContext : Type 0 where
  pub pix_fmt : ℕ
  pub width : ℕ
  pub height : ℕ
  pub opened : Bool

-- A pointer is the flag that it is set, or what it points to.
pub record Decoder : Type 0 where
  pub sink : Bool
  pub v_decoder : Bool
  pub v_decoder_context : Option CodecContext
  pub v_frame : Bool
  pub a_decoder : Bool
  pub a_decoder_context : Option CodecContext
  pub a_frame : Bool

abbrev pub new_decoder : Decoder
new_decoder = record {
  sink = false;
  v_decoder = false;
  v_decoder_context = none;
  v_frame = false;
  a_decoder = false;
  a_decoder_context = none;
  a_frame = false;
}

abbrev pub set_sink : Bool → Decoder → Decoder
set_sink receiver d = record d { sink = receiver }

-- `mjpegInfo`, whose pixel format and frame rate nothing sets.
abbrev pub mjpeg_info : VideoCodecInfo → VideoCodecInfo
mjpeg_info garbage = record garbage {
  enabled = true;
  codec = AvCodecId.mjpeg;
  width = 640;
  height = 480;
  bit_rate = 4800;
}

-- The settings that are written before the codec is opened. `avcodec_alloc_context3` gives a context
-- that is not open.
abbrev pub wired : (garbage : VideoCodecInfo) → CodecContext
wired garbage = record {
  pix_fmt = (mjpeg_info garbage).pix_fmt;
  width = (mjpeg_info garbage).width;
  height = (mjpeg_info garbage).height;
  opened = false;
}

-- Where a call fails, -1 is returned and what has been set stays.
unfoldable pub init_video : (garbage : VideoCodecInfo) → CodecAnswers → Decoder → Decoder × ℤ
init_video garbage a d =
    if a.found
    then (if a.allocated
        then (if a.opened
            then (
              let open_context = record (wired garbage) { opened = true } in
                  record d {
                    v_decoder = true;
                    v_decoder_context = some open_context;
                    v_frame = a.frame_allocated;
                  },
              if a.frame_allocated then pos 1 else negsuc 0,
            )
            else (
              record d { v_decoder = true; v_decoder_context = some (wired garbage) },
              negsuc 0,
            ))
        else (record d { v_decoder = true; v_decoder_context = none }, negsuc 0))
    else (record d { v_decoder = false }, negsuc 0)

-- `init(AVCodecContext*)`: without a codec there is nothing to set, and that counts as success.
unfoldable pub init : (garbage : VideoCodecInfo) → AvCodecId → CodecAnswers → Decoder → Decoder × ℤ
init garbage codec_id a d = if is_set codec_id then init_video garbage a d else (d, pos 1)

-- `while (ret >= 0)` over the audio frames: the sink is called without a test.
unfoldable pub audio_loop : (sink : Bool) → List AvFrame → Outcome (List FrameCall)
audio_loop sink [] = ok []
audio_loop sink (f ∷ fs) = do
  rest ← audio_loop sink fs
  if sink then ok (record { frame = f; type = AvMediaType.audio } ∷ rest) else fault

-- The calls of the sink for one packet. FFmpeg does not allow a null context or a null frame.
unfoldable pub receive_packet :
    Decoded AvFrame → Reply AvFrame → AvMediaType → Decoder → Outcome (List FrameCall)
receive_packet decoded reply AvMediaType.video d =
    if is_set_pointer d.v_decoder_context && d.v_frame
    then ok (
        if decoded.frame_finished && d.sink
        then record { frame = decoded.frame; type = AvMediaType.video } ∷ []
        else [])
    else fault
receive_packet decoded reply AvMediaType.audio d =
    if d.a_decoder && is_set_pointer d.a_decoder_context
    then (if reply.accepted
        then (if d.a_frame then audio_loop d.sink reply.items else fault)
        else ok [])
    else ok []
receive_packet decoded reply _ d = ok []
