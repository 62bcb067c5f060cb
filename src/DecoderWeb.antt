-- ===== src/DecoderWeb.antt =====
-- src/libs/DecoderWeb.cpp: packets are decoded to frames with the codecs that the settings name.
pub mod Ready
use payloader.Base.{
  ℕ, ℤ, pos, negsuc, List, [], ◌∷◌, Bool, true, false, ◌&&◌, Option, none, some, if◌then◌else◌,
  Outcome, ok, fault, ◌>>=◌,
}
use payloader.Interfaces.{AvMediaType, unknown, video, audio, other, AvFrame, FrameCall}
use payloader.Codecs.{VideoCodecInfo, AudioCodecInfo}
use payloader.Ffmpeg.{
  CodecAnswers, Reply, Decoded, AudioContext, audio_context, is_set_pointer, result,
}

-- The members of the `AVCodecContext` of the video that the code writes, and whether it is open.
pub record VideoContext : Type 0 where
  pub pix_fmt : ℕ
  pub size : Option (ℕ × ℕ)
  pub opened : Bool

-- A pointer is the flag that it is set, or what it points to.
pub record DecoderWeb : Type 0 where
  pub sink : Bool
  pub v_decoder : Bool
  pub v_decoder_context : Option VideoContext
  pub v_frame : Bool
  pub a_decoder : Bool
  pub a_decoder_context : Option AudioContext
  pub a_frame : Bool

abbrev pub new_decoder_web : DecoderWeb
new_decoder_web = record {
  sink = false;
  v_decoder = false;
  v_decoder_context = none;
  v_frame = false;
  a_decoder = false;
  a_decoder_context = none;
  a_frame = false;
}

abbrev pub set_sink : Bool → DecoderWeb → DecoderWeb
set_sink receiver d = record d { sink = receiver }

-- The video part of `init` and whether it goes on: the size is written behind the opening.
unfoldable pub init_video : VideoCodecInfo → CodecAnswers → DecoderWeb → DecoderWeb × Bool
init_video info a d =
    if a.found
    then (if a.allocated
        then (if a.opened
            then (
              record d {
                v_decoder = true;
                v_decoder_context = some (record {
                  pix_fmt = info.pix_fmt;
                  size = some (info.width, info.height);
                  opened = true;
                });
                v_frame = a.frame_allocated;
              },
              a.frame_allocated,
            )
            else (
              record d {
                v_decoder = true;
                v_decoder_context =
                    some (record { pix_fmt = info.pix_fmt; size = none; opened = false });
              },
              false,
            ))
        else (record d { v_decoder = true; v_decoder_context = none }, false))
    else (record d { v_decoder = false }, false)

-- The audio part.
unfoldable pub init_audio : CodecAnswers → DecoderWeb → DecoderWeb × Bool
init_audio a d =
    if a.found
    then (if a.allocated
        then (if a.opened
            then (
              record d {
                a_decoder = true;
                a_decoder_context = some (audio_context true);
                a_frame = a.frame_allocated;
              },
              a.frame_allocated,
            )
            else (
              record d { a_decoder = true; a_decoder_context = some (audio_context false) },
              false,
            ))
        else (record d { a_decoder = true; a_decoder_context = none }, false))
    else (record d { a_decoder = false }, false)

-- `init`: the audio part is left out where the video part fails.
unfoldable pub init :
    AudioCodecInfo → VideoCodecInfo → (a v : CodecAnswers) → DecoderWeb → DecoderWeb × ℤ
init audio_info video_info a v d =
    let first = if video_info.enabled then init_video video_info v d else (d, true) in
    let second = if audio_info.enabled then init_audio a first.0 else (first.0, true) in
    if first.1 then (second.0, result second.1) else (first.0, negsuc 0)

-- `while (ret >= 0)` over the audio frames: the sink is called without a test.
unfoldable pub audio_loop : (sink : Bool) → List AvFrame → Outcome (List FrameCall)
audio_loop sink [] = ok []
audio_loop sink (f ∷ fs) = do
  rest ← audio_loop sink fs
  if sink then ok (record { frame = f; type = AvMediaType.audio } ∷ rest) else fault

-- The calls of the sink for one packet. FFmpeg does not allow a null context or a null frame.
unfoldable pub receive_packet :
    Decoded AvFrame → Reply AvFrame → AvMediaType → DecoderWeb → Outcome (List FrameCall)
receive_packet decoded reply AvMediaType.video d =
    if is_set_pointer d.v_decoder_context && d.v_frame
    then ok (
        if decoded.frame_finished && d.sink
        then record { frame = decoded.frame; type = AvMediaType.video } ∷ []
        else [])
    else fault
receive_packet decoded reply AvMediaType.audio d =
    if d.a_decoder && is_set_pointer d.a_decoder_context
    then (if reply.accepted
        then (if d.a_frame then audio_loop d.sink reply.items else fault)
        else ok [])
    else ok []
receive_packet decoded reply _ d = ok []
