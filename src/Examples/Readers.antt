-- ===== src/Examples/Readers.antt =====
-- Readers of src/libs/InputReader.cpp, RtspReader.cpp and RtspReader_fromDisk.cpp at small sources.
use payloader.Base.{ℕ, pos, negsuc, ◌≡◌, ◌≢◌, refl, arith, List, [], ◌∷◌, true, false}
use payloader.Interfaces.{AvPacket}
use payloader.Codecs.{AvCodecId}
use payloader.Ffmpeg.{Read}
use payloader.InputReader
use payloader.InputReader.{InputReader, Source, new_input_reader, set_sink}
use payloader.InputReader.Routing.{is_video, is_audio, packets_of, packets_typed, init-packets}
use payloader.RtspReader.{RtspSource, new_rtsp_reader}
use payloader.RtspReader.Reading.{Streamed, init-Streamed}
use payloader.DiskReader
use payloader.DiskReader.{DiskReader, DiskSource, StreamAnswers}

abbrev packet : ℕ → AvPacket
packet n = record { bytes = n ∷ []; size = 1; dts = n }

abbrev reads : List Read
reads =
    record { packet = packet 1; stream_index = 0 }
    ∷ record { packet = packet 2; stream_index = 1 }
    ∷ record { packet = packet 3; stream_index = 0 }
    ∷ []

abbrev source : Source
source = record {
  open_result = pos 0;
  info_result = pos 0;
  best_audio = pos 1;
  best_video = pos 0;
  reads = reads;
}

abbrev reader : InputReader
reader = set_sink true (new_input_reader (negsuc 4) (negsuc 4))

abbrev video_stream : ℕ
video_stream = 0

zero_one : video_stream ≢ 1
zero_one e = omega arith

init-packets_example :
    ((InputReader.init source reader).1 ≡ pos 1)
    × ((InputReader.init source reader).0.reading ≡ false)
    × (packets_typed is_video (InputReader.init source reader).2 ≡ packets_of 0 reads)
    × (packets_typed is_audio (InputReader.init source reader).2 ≡ packets_of 1 reads)
init-packets_example = init-packets source reader 0 1 0 refl refl refl refl refl zero_one

abbrev stream : RtspSource
stream = record {
  open_result = pos 0;
  best_audio = pos 1;
  best_video = pos 0;
  codec_id = AvCodecId.mjpeg;
  reads = reads;
}

init-Streamed_example :
    Streamed stream (record (new_rtsp_reader AvCodecId.unset (pos 7) (pos 8)) { sink = true }) 0 1
init-Streamed_example =
    init-Streamed stream (record (new_rtsp_reader AvCodecId.unset (pos 7) (pos 8)) { sink = true })
      0 1 refl refl refl refl zero_one

abbrev file : DiskSource
file = record {
  open_result = pos 0;
  info_result = pos 0;
  best_audio = negsuc 0;
  best_video = pos 0;
  output_allocated = true;
  alloc_result = pos 0;
  oformat = true;
  no_file = false;
  wants_global_header = true;
  streams = record { allocated = true; copied = pos 0 } ∷ [];
  avio_result = negsuc 1;
  encoder_found = true;
  reads = reads;
}

abbrev disk_reader : DiskReader
disk_reader = record {
  sink = false;
  ifmt_ctx = false;
  ofmt_ctx = false;
  out_streams = [];
  reading = false;
  video_stream_index = pos 9;
  audio_stream_index = pos 9;
  ret = pos 9;
}
