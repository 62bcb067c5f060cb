-- ===== src/InputReader.antt =====
-- src/libs/InputReader.cpp: packets are read from a file or a device and handed to the sink.
pub mod Routing
use payloader.Base.{ℕ, ℤ, pos, List, [], ◌∷◌, Bool, true, false, if◌then◌else◌}
use payloader.Interfaces.{AvPacket, AvMediaType, unknown, video, audio}
use payloader.Ffmpeg.{is_negative, is_zero, Read, is_index, Routed}

-- `sink` and `av_context` tell whether the pointer is set.
pub record InputReader : Type 0 where
  pub sink : Bool
  pub av_context : Bool
  pub reading : Bool
  pub video_stream_index : ℤ
  pub audio_stream_index : ℤ

-- The constructor leaves the indices as the memory has them.
abbrev pub new_input_reader : (garbage_video garbage_audio : ℤ) → InputReader
new_input_reader garbage_video garbage_audio = record {
  sink = false;
  av_context = false;
  reading = false;
  video_stream_index = garbage_video;
  audio_stream_index = garbage_audio;
}

abbrev pub set_sink : Bool → InputReader → InputReader
set_sink receiver r = record r { sink = receiver }

-- What FFmpeg answers for a source.
pub record Source : Type 0 where
  pub open_result : ℤ
  pub info_result : ℤ
  pub best_audio : ℤ
  pub best_video : ℤ
  pub reads : List Read

-- The type that the body of the loop gives to a packet.
unfoldable pub media_type : (video_index audio_index : ℤ) → ℕ → AvMediaType
media_type video_index audio_index stream_index =
    if is_index video_index stream_index
    then video
    else (if is_index audio_index stream_index then audio else unknown)

-- `while (av_read_frame(...) >= 0)`: the calls of the sink.
unfoldable pub read_loop : (sink : Bool) (video_index audio_index : ℤ) → List Read → List Routed
read_loop sink video_index audio_index [] = []
read_loop sink video_index audio_index (x ∷ xs) =
    let call : Routed = record {
      packet = x.packet;
      type = media_type video_index audio_index x.stream_index;
    } in
    let rest = read_loop sink video_index audio_index xs in if sink then call ∷ rest else rest

unfoldable pub start_reading : List Read → InputReader → InputReader × List Routed
start_reading reads r =
    (record r { reading = false }, read_loop r.sink r.video_stream_index r.audio_stream_index reads)

-- The new state, the returned value and the calls of the sink. `avformat_open_input` frees the
-- context and sets the pointer to null when it fails.
unfoldable pub init : Source → InputReader → InputReader × ℤ × List Routed
init s r =
    if is_zero s.open_result
    then (if is_negative s.info_result
        then (record r { av_context = true }, s.info_result, [])
        else (let opened = record r {
          av_context = true;
          audio_stream_index = s.best_audio;
          video_stream_index = s.best_video;
        } in
            let (t, calls) = start_reading s.reads opened in (t, pos 1, calls)))
    else (record r { av_context = false }, s.open_result, [])
