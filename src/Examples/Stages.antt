-- ===== src/Examples/Stages.antt =====
-- The codecs of src/libs/DecoderWeb.cpp and Encoder.cpp, the writer of src/libs/OutputWriter.cpp and the
-- pipeline of src/libs/Streamer.cpp in small environments.
use payloader.Base.{
  ℕ, ℤ, pos, ◌+◌, ◌≡◌, refl, arith, List, [], ◌∷◌, map, true, false, some, length, replicate, Bytes,
  Outcome, ok, fault,
}
use payloader.Interfaces.{AvPacket, AvMediaType, AvFrame}
use payloader.Codecs.{AvCodecId, VideoCodecInfo, AudioCodecInfo}
use payloader.Ffmpeg.{CodecAnswers, Read, Reply}
use payloader.InputReader
use payloader.InputReader.{Source}
use payloader.DecoderWeb
use payloader.DecoderWeb.{DecoderWeb, new_decoder_web}
use payloader.DecoderWeb.Ready.{audio_call, receive_packet-opened}
use payloader.Encoder
use payloader.Encoder.{Encoder, new_encoder}
use payloader.Encoder.Packets.{video_call, encode_all, accepted_packets, encode_all-live}
use payloader.OutputWriter
use payloader.OutputWriter.{OutputWriter, FileAnswers, new_output_writer, open_file}
use payloader.Sender.Accept.{AllSendable}
use payloader.Streamer.Streaming.Frames.{IsWorking}
use payloader.Streamer.Streaming.Flat.{package_frames, counted_as}
use payloader.Streamer.Streaming.{first_line, World, Line, start_streaming}
use payloader.Streamer.Streaming.Sendable.{start_streaming-AllSendable, start_streaming-no_encoder}

abbrev pub frame : AvFrame
frame = record { width = 4; height = 2; samples = 1 ∷ 2 ∷ [] }

abbrev pub video_info : VideoCodecInfo
video_info = record {
  enabled = true;
  codec = AvCodecId.mjpeg;
  width = 4;
  height = 2;
  bit_rate = 100;
  frame_rate = 25;
  pix_fmt = 0;
}

abbrev pub audio_info : AudioCodecInfo
audio_info = record {
  enabled = true;
  codec = AvCodecId.other 1;
  bit_rate = 100;
  sample_rate = 48000;
}

abbrev pub working : CodecAnswers
working = record { found = true; allocated = true; opened = true; frame_allocated = true }

abbrev pub two_frames : Reply AvFrame
two_frames = record { accepted = true; items = frame ∷ frame ∷ [] }

abbrev decoder : DecoderWeb
decoder = DecoderWeb.set_sink true new_decoder_web

abbrev opened : DecoderWeb
opened = (DecoderWeb.init audio_info video_info working working decoder).0

receive_packet-opened_example :
    (DecoderWeb.receive_packet
        (record { frame_finished = true; frame = frame })
        two_frames
        AvMediaType.video
        opened
      ≡ ok (record { frame = frame; type = AvMediaType.video } ∷ []))
    × (DecoderWeb.receive_packet
          (record { frame_finished = true; frame = frame })
          two_frames
          AvMediaType.audio
          opened
        ≡ ok (map audio_call (frame ∷ frame ∷ [])))
unfolding DecoderWeb.init DecoderWeb.init_video DecoderWeb.init_audio
receive_packet-opened_example =
    receive_packet-opened audio_info video_info working working decoder opened
      (record { frame_finished = true; frame = frame }) two_frames refl refl refl refl

abbrev pub packet : ℕ → AvPacket
packet n = record { bytes = n ∷ []; size = 1; dts = n }

abbrev encoder : Encoder
encoder = Encoder.set_sink true (Encoder.init audio_info video_info working working new_encoder).0

abbrev replies : List (Reply AvPacket)
replies =
    record { accepted = true; items = packet 1 ∷ packet 2 ∷ [] }
    ∷ record { accepted = false; items = packet 3 ∷ [] }
    ∷ []

encode_all-live_example :
    encode_all (λ n. true) replies encoder 0
    ≡ ok (map video_call (accepted_packets replies), length replies + 0)
unfolding Encoder.init Encoder.init_video Encoder.init_audio
encode_all-live_example = encode_all-live (λ n. true) replies encoder 0 (refl, (refl, tt)) refl refl

abbrev file : FileAnswers
file = record {
  allocated = true;
  guessed = true;
  io = pos 0;
  found = true;
  stream_allocated = true;
  header = pos 0;
}

abbrev writer : OutputWriter
writer = new_output_writer (1 ∷ []) false 7

abbrev writer_of : Outcome (OutputWriter × ℤ) → OutputWriter
writer_of (ok (o, n)) = o
writer_of _ = writer

abbrev opened_writer : OutputWriter
opened_writer = writer_of (OutputWriter.init 4 2 file writer)

abbrev samples : AvFrame → Bytes
samples f = f.samples

-- A device that gives the packets `reads`.
abbrev pub world_of : List Read → CodecAnswers → World
world_of reads encoder_answers = record {
  source = record {
    open_result = pos 0;
    info_result = pos 0;
    best_audio = pos 1;
    best_video = pos 0;
    reads = reads;
  };
  decoder_answers = working;
  encoder_answers = encoder_answers;
  decoded = λ n. record { frame_finished = true; frame = frame };
  audio_decoded = λ n. two_frames;
  encoded = λ n. record { accepted = true; items = packet 2 ∷ [] };
  packet_allocated = λ n. true;
  millis = λ n. n;
  header_garbage = λ n. 0;
  rtp_block = some (replicate 2000 0);
  out_block = some (replicate 2000 0);
  video_garbage = video_info;
  audio_garbage = audio_info;
  index_garbage = pos 9;
  packager_garbage = 5;
}

abbrev world : CodecAnswers → World
world = world_of (record { packet = packet 1; stream_index = 0 } ∷ [])

abbrev pub scale : ℕ → ℕ → ℕ → ℕ
scale a b c = a

pub world_of-IsWorking : (reads : List Read) → IsWorking (world_of reads working)
world_of-IsWorking reads = record {
  decoder_opens = (refl, refl, refl, refl);
  encoder_opens = (refl, refl, refl, refl);
  allocated = λ n. refl;
  are_frames = λ n. ((omega arith, omega arith, omega arith), tt);
  rtp = replicate 2000 0;
  has_rtp = refl;
  rtp_size = refl;
  out = replicate 2000 0;
  has_out = refl;
  out_size = refl;
}

start_streaming-AllSendable_example :
    (l : Line) × (start_streaming scale (world working) ≡ ok l)
    × AllSendable l.calls
    × (l.encodes ≡ 1)
    × (l.live ≡ 1)
    × (package_frames scale (world working) 0 1 (first_line scale (world working))
        ≡ ok (counted_as 0 0 l))
unfolding InputReader.init InputReader.start_reading InputReader.read_loop InputReader.media_type
start_streaming-AllSendable_example =
    start_streaming-AllSendable scale (world working) (world_of-IsWorking _)

abbrev missing : CodecAnswers
missing = record { found = false; allocated = false; opened = false; frame_allocated = false }

start_streaming-no_encoder_example : start_streaming scale (world missing) ≡ fault
unfolding InputReader.init InputReader.start_reading InputReader.read_loop InputReader.media_type
start_streaming-no_encoder_example =
    start_streaming-no_encoder scale (world missing) (packet 1) [] (refl, refl, refl, refl) refl
      refl refl
