-- ===== src/OutputWriter.antt =====
-- src/libs/OutputWriter.cpp: packets are written to a file with FFmpeg, and frames with OpenCV.
pub mod Frames
use payloader.Base.{
  ℕ, ℤ, pos, negsuc, List, [], ◌∷◌, ◌++◌, Bool, true, false, ◌&&◌, Option, none, some,
  if◌then◌else◌, Outcome, ok, fault, ◌>>=◌, ◌+◌, ◌==◌, ltb, length, take, Bytes,
}
use payloader.Interfaces.{AvMediaType, unknown, video, audio, other, AvFrame, AvPacket}
use payloader.Codecs.{AvCodecId, mpeg4, AudioCodecInfo, VideoCodecInfo}
use payloader.Ffmpeg.{is_negative, is_set_pointer}

-- The members of an `AVStream` that the code writes.
pub record Stream : Type 0 where
  pub id : ℕ
  pub time_base : ℕ × ℕ
  pub codec_type : AvMediaType
  pub codec_id : AvCodecId
  pub width : ℕ
  pub height : ℕ

-- The members of the `AVFormatContext`: whether the pointers `oformat` and `pb` are set.
pub record FormatContext : Type 0 where
  pub filename : Bytes
  pub oformat : Bool
  pub pb : Bool
  pub streams : List Stream

-- `one` is set by `init` alone; `output` is the size of the file that OpenCV has opened.
pub record OutputWriter : Type 0 where
  pub av_context : Option FormatContext
  pub output_url : Bytes
  pub sink : Bool
  pub one : ℕ
  pub output : Option (ℕ × ℕ)

abbrev pub new_output_writer : (url : Bytes) (garbage_sink : Bool) (garbage_one : ℕ) → OutputWriter
new_output_writer url garbage_sink garbage_one = record {
  av_context = none;
  output_url = url;
  sink = garbage_sink;
  one = garbage_one;
  output = none;
}

abbrev pub set_sink : Bool → OutputWriter → OutputWriter
set_sink receiver o = record o { sink = receiver }

-- FFmpeg's answers in `init`.
pub record FileAnswers : Type 0 where
  pub allocated : Bool
  pub guessed : Bool
  pub io : ℤ
  pub found : Bool
  pub stream_allocated : Bool
  pub header : ℤ

-- `sizeof(av_context_->filename)`
abbrev pub filename_size : ℕ
filename_size = 1024

abbrev pub video_stream : (width height : ℕ) → Stream
video_stream width height = record {
  id = 0;
  time_base = (1, 25);
  codec_type = AvMediaType.video;
  codec_id = AvCodecId.mpeg4;
  width = width;
  height = height;
}

abbrev pub context : Bytes → (oformat pb : Bool) → List Stream → FormatContext
context url oformat pb streams = record {
  filename = take filename_size url;
  oformat = oformat;
  pb = pb;
  streams = streams;
}

-- `init(AVCodecContext*)` for the size in the codec's context. A new stream is used without a test.
unfoldable pub init : (width height : ℕ) → FileAnswers → OutputWriter → Outcome (OutputWriter × ℤ)
init width height a o =
    let state = λ (oformat pb : Bool) (streams : List Stream). record o {
      av_context = some (context o.output_url oformat pb streams);
    } in
    let opened = state true true [] in
    let with_stream = state true true (video_stream width height ∷ []) in
    if a.allocated
    then (if a.guessed
        then (if is_negative a.io
            then ok (state true false [], negsuc 0)
            else (if a.found
                then (if a.stream_allocated
                    then ok (
                        if is_negative a.header
                        then (with_stream, negsuc 0)
                        else (record with_stream { one = 0 }, pos 0))
                    else fault)
                else ok (opened, negsuc 0)))
        else ok (state false false [], negsuc 0))
    else ok (record o { av_context = none }, negsuc 0)

-- `init(AudioCodecInfo, VideoCodecInfo)` does nothing and reports success.
abbrev pub init_settings : AudioCodecInfo → VideoCodecInfo → OutputWriter → OutputWriter × ℤ
init_settings audio_info video_info o = (o, pos 0)

-- A call of `av_interleaved_write_frame`.
pub record WrittenPacket : Type 0 where
  pub packet : AvPacket
  pub stream_index : ℕ

-- `av_context_->streams[k]` is read.
abbrev pub read_stream : (k : ℕ) → OutputWriter → Outcome Bool
read_stream k o = elim (o.av_context) [
  | none ↦ fault
  | some c ↦ if ltb k (length c.streams) then ok true else fault
]

-- The arguments of the log lines are read only where debugging is on.
abbrev pub log_streams : (debug : Bool) → OutputWriter → Outcome Bool
log_streams debug o = if debug then (read_stream 0 o >>= λ first. read_stream 1 o) else ok true

abbrev pub index_of : AvMediaType → (old : ℕ) → ℕ
index_of AvMediaType.video old = 0
index_of AvMediaType.audio old = 1
index_of _ old = old

-- `receivePacket`: FFmpeg does not allow a null context.
unfoldable pub receive_packet :
    (debug : Bool)
    → AvPacket
    → (stream_index : ℕ) → AvMediaType
    → OutputWriter
    → Outcome WrittenPacket
receive_packet debug packet stream_index type o =
    let written : WrittenPacket = record {
      packet = packet;
      stream_index = index_of type stream_index;
    } in
    log_streams debug o >>= λ logged. (if is_set_pointer o.av_context then ok written else fault)

-- The calls of `cv::VideoWriter`.
pub data WriterCall : Type 0 where
  open_file : (width height : ℕ) → WriterCall
  write_image : (height width : ℕ) → Bytes → WriterCall

-- The file is opened once.
abbrev pub open_output : AvFrame → OutputWriter → OutputWriter × List WriterCall
open_output frame o =
    if o.one == 0
    then (
      record o { one = o.one + 1; output = some (frame.width, frame.height) },
      open_file frame.width frame.height ∷ [],
    )
    else (o, [])

-- What a run of `receiveFrame` leaves.
pub record Shown : Type 0 where
  pub writer : OutputWriter
  pub calls : List WriterCall
  pub live : ℕ

-- A video frame that is converted and written: `convert` stands for `sws_scale`, and `live` counts the
-- frames, the buffers and the contexts of the conversion that are allocated; none is freed.
abbrev pub write_frame : (convert : AvFrame → Bytes) → AvFrame → OutputWriter → (live : ℕ) → Shown
write_frame convert frame o live =
    let (opened, calls) = open_output frame o in
    record {
      writer = opened;
      calls = calls ++ (write_image frame.height frame.width (convert frame) ∷ []);
      live = live + 3;
    }

-- `receiveFrame`: `allocated` tells whether an allocation succeeds where so many blocks are allocated. The
-- frame, the buffer and the context are used without a test.
unfoldable pub receive_frame :
    (convert : AvFrame → Bytes) (allocated : ℕ → Bool)
    → AvFrame
    → AvMediaType
    → OutputWriter
    → (live : ℕ) → Outcome Shown
receive_frame convert allocated frame AvMediaType.video o live =
    if allocated live && (allocated (live + 1) && allocated (live + 2))
    then ok (write_frame convert frame o live)
    else fault
receive_frame convert allocated frame _ o live = ok (record { writer = o; calls = []; live = live })
