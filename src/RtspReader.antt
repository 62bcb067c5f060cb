-- ===== src/RtspReader.antt =====
-- src/libs/RtspReader.cpp: packets are read from an RTSP stream; the sink is told the codec first.
pub mod Probe
pub mod Reading
use payloader.Base.{
  ℕ, ℤ, pos, List, [], ◌∷◌, map, Bool, true, false, if◌then◌else◌, Outcome, ok, fault, ◌>>=◌,
}
use payloader.Codecs.{AvCodecId}
use payloader.Ffmpeg.{is_negative, is_zero, Read, Routed}
use payloader.InputReader.{read_loop}

-- The pointer to the codec context is the codec's identifier.
pub record RtspReader : Type 0 where
  pub sink : Bool
  pub av_context : Bool
  pub codec_id : AvCodecId
  pub reading : Bool
  pub video_stream_index : ℤ
  pub audio_stream_index : ℤ

abbrev pub new_rtsp_reader :
    (garbage_codec : AvCodecId) (garbage_video garbage_audio : ℤ) → RtspReader
new_rtsp_reader garbage_codec garbage_video garbage_audio = record {
  sink = false;
  av_context = false;
  codec_id = garbage_codec;
  reading = false;
  video_stream_index = garbage_video;
  audio_stream_index = garbage_audio;
}

abbrev pub set_sink : Bool → RtspReader → RtspReader
set_sink receiver r = record r { sink = receiver }

-- What FFmpeg answers for a source; `codec_id` is that of the best video stream.
pub record RtspSource : Type 0 where
  pub open_result : ℤ
  pub best_audio : ℤ
  pub best_video : ℤ
  pub codec_id : AvCodecId
  pub reads : List Read

-- A call of the sink.
pub data SinkCall : Type 0 where
  init_codec : AvCodecId → SinkCall
  receive : Routed → SinkCall

-- The sink is used before the test whether there is one.
unfoldable pub start_reading : List Read → RtspReader → Outcome (RtspReader × List SinkCall)
start_reading reads r =
    if r.sink
    then ok (
      record r { reading = false },
      init_codec r.codec_id
          ∷ map receive (read_loop r.sink r.video_stream_index r.audio_stream_index reads),
    )
    else fault

-- The loop over the streams only prints. A source without a video stream is not read, and the
-- returned value is that of `false`.
unfoldable pub init : RtspSource → RtspReader → Outcome (RtspReader × ℤ × List SinkCall)
init s r =
    if is_zero s.open_result
    then (let found = record r {
      av_context = true;
      audio_stream_index = s.best_audio;
      video_stream_index = s.best_video;
    } in
        if is_negative s.best_video
        then ok (found, pos 0, [])
        else (start_reading s.reads (record found { codec_id = s.codec_id }) >>= λ out.
            ok (out.0, pos 1, out.1)))
    else ok (record r { av_context = false }, s.open_result, [])
