-- ===== src/DiskReader.antt =====
-- src/libs/RtspReader_fromDisk.cpp: packets are read from a file and handed to an RTP sender, with
-- an output context of FFmpeg's RTSP muxer.
pub mod Opening
pub mod Port
use payloader.Base.{
  ℕ, ℤ, pos, negsuc, List, [], ◌∷◌, ◌++◌, map, Bool, true, false, not, ◌&&◌, ◌||◌, if◌then◌else◌,
  Outcome, ok, fault, ◌>>=◌,
}
use payloader.Ffmpeg.{is_negative, is_zero, Read, Routed}
use payloader.InputReader.{read_loop}

-- A stream of the output: its tag, and whether the flag of a global header has been set.
pub record OutStream : Type 0 where
  pub codec_tag : ℕ
  pub global_header : Bool

pub record DiskReader : Type 0 where
  pub sink : Bool
  pub ifmt_ctx : Bool
  pub ofmt_ctx : Bool
  pub out_streams : List OutStream
  pub reading : Bool
  pub video_stream_index : ℤ
  pub audio_stream_index : ℤ
  pub ret : ℤ

-- The answers for one stream: whether the output's stream is allocated, and the result of the copy
-- of the codec's settings.
pub record StreamAnswers : Type 0 where
  pub allocated : Bool
  pub copied : ℤ

-- The answers of FFmpeg for a file. `oformat` and the flags are those of the output format.
pub record DiskSource : Type 0 where
  pub open_result : ℤ
  pub info_result : ℤ
  pub best_audio : ℤ
  pub best_video : ℤ
  pub output_allocated : Bool
  pub alloc_result : ℤ
  pub oformat : Bool
  pub no_file : Bool
  pub wants_global_header : Bool
  pub streams : List StreamAnswers
  pub avio_result : ℤ
  pub encoder_found : Bool
  pub reads : List Read

-- The body of the loop over the streams. A stream that is not allocated is reported, and then used.
pub copy_stream : DiskSource → StreamAnswers → DiskReader → Outcome DiskReader
copy_stream s x r =
    if x.allocated && s.oformat
    then (let out : OutStream = record { codec_tag = 0; global_header = s.wants_global_header } in
        ok (record r { out_streams = r.out_streams ++ out ∷ []; ret = x.copied }))
    else fault

pub copy_streams : DiskSource → List StreamAnswers → DiskReader → Outcome DiskReader
copy_streams s [] r = ok r
copy_streams s (x ∷ xs) r = copy_stream s x r >>= copy_streams s xs

-- `if (!(ofmt->flags & AVFMT_NOFILE)) ret = avio_open(...)`; an error is only logged.
pub open_output : DiskSource → DiskReader → Outcome DiskReader
open_output s r =
    if s.oformat then ok (if s.no_file then r else record r { ret = s.avio_result }) else fault

-- The part of `init` behind the input.
pub init_output : DiskSource → DiskReader → Outcome (DiskReader × ℤ)
init_output s r =
    if s.output_allocated
    then (do
      copied ← copy_streams s s.streams (record r { ofmt_ctx = true; ret = s.alloc_result })
      opened ← open_output s copied
      ok (opened, if s.encoder_found then pos 1 else negsuc 0))
    else ok (record r { ofmt_ctx = false; ret = s.alloc_result }, negsuc 0)

pub init : DiskSource → DiskReader → Outcome (DiskReader × ℤ)
init s r =
    if is_zero s.open_result
    then (if is_negative s.info_result
        then ok (record r { ifmt_ctx = true }, s.info_result)
        else init_output s (record r {
          ifmt_ctx = true;
          audio_stream_index = s.best_audio;
          video_stream_index = s.best_video;
        }))
    else ok (record r { ifmt_ctx = false }, s.open_result)

-- The constructor calls `init` and ignores its value; some members are as the memory has them.
pub new_disk_reader : DiskSource → (garbage : DiskReader) → Outcome DiskReader
new_disk_reader s garbage =
    init s (record garbage { sink = false; ifmt_ctx = false; reading = false }) >>= λ out. ok out.0

abbrev pub set_sink : Bool → DiskReader → DiskReader
set_sink receiver r = record r { sink = receiver }

-- A call of the sink: `init()` or `sendPacket`.
pub data SenderCall : Type 0 where
  init_sender : SenderCall
  send_packet : Routed → SenderCall

pub start_reading : List Read → DiskReader → Outcome (DiskReader × List SenderCall)
start_reading reads r =
    if r.sink
    then ok (
      record r { reading = false },
      init_sender
          ∷ map send_packet (read_loop r.sink r.video_stream_index r.audio_stream_index reads),
    )
    else fault
