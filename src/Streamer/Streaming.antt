-- ===== src/Streamer/Streaming.antt =====
-- The constructor and `StartStreaming` of src/libs/Streamer.cpp: a reader, a decoder, an encoder and a
-- packager are set up and connected, and the packets of the device run through them.
pub mod Delivered
pub mod FarSide
pub mod Flat
pub mod Frames
pub mod Sendable
use payloader.Base.{
  ℕ, ℤ, ◌+◌, List, [], ◌∷◌, ◌++◌, Bool, true, false, Option, none, some, Bytes, Outcome, ok, ◌>>=◌,
  swap16,
}
use payloader.Interfaces.{AvPacket, AvMediaType, AvFrame, FrameCall, RtpCall}
use payloader.Codecs.{
  AvCodecId, mpeg4, mjpeg, rawvideo, mlhe, VideoCodecInfo, AudioCodecInfo, new_audio_codec_info,
}
use payloader.Ffmpeg.{CodecAnswers, Reply, Decoded, Routed}
use payloader.InputReader
use payloader.InputReader.{InputReader, Source, new_input_reader}
use payloader.DecoderWeb
use payloader.DecoderWeb.{DecoderWeb, new_decoder_web}
use payloader.Encoder
use payloader.Encoder.{Encoder, new_encoder}
use payloader.Packager
use payloader.Packager.{Packager, new_packager}
use payloader.Streamer.{Streamer}

-- The settings of a codec. The constructor sets a pixel format for the raw video alone.
abbrev pub mp4_info : VideoCodecInfo → VideoCodecInfo
mp4_info garbage = record garbage {
  enabled = true;
  codec = AvCodecId.mpeg4;
  width = 704;
  height = 396;
  bit_rate = 48000;
}

abbrev pub mjpeg_info : VideoCodecInfo → VideoCodecInfo
mjpeg_info garbage = record garbage {
  enabled = true;
  codec = AvCodecId.mjpeg;
  width = 640;
  height = 480;
  bit_rate = 4800;
}

-- `AV_PIX_FMT_YUV420P` is 0.
abbrev pub rv32_info : VideoCodecInfo → VideoCodecInfo
rv32_info garbage = record garbage {
  enabled = true;
  codec = AvCodecId.rawvideo;
  width = 704;
  height = 396;
  bit_rate = 4800;
  pix_fmt = 0;
}

abbrev pub lhe_info : VideoCodecInfo → VideoCodecInfo
lhe_info garbage = record garbage {
  enabled = true;
  codec = AvCodecId.mlhe;
  width = 1680;
  height = 1050;
  bit_rate = 48000;
}

-- `RecvAddr`; `AF_INET` is 2.
pub record SockAddr : Type 0 where
  pub sin_family : ℕ
  pub sin_port : ℕ
  pub sin_addr : ℕ

-- Where the datagrams go: `peer` is the address that `getpeername` leaves for the descriptor
-- `m_Client`, which nothing sets.
abbrev pub recv_addr : (peer : ℕ) → Streamer → SockAddr
recv_addr peer s = record { sin_family = 2; sin_port = swap16 s.rtp_client_port; sin_addr = peer }

-- What FFmpeg, the allocator and the clock answer: the numbers count the calls so far, and the
-- garbage is what the memory holds.
pub record World : Type 0 where
  pub source : Source
  pub decoder_answers : CodecAnswers
  pub encoder_answers : CodecAnswers
  pub decoded : ℕ → Decoded AvFrame
  pub audio_decoded : ℕ → Reply AvFrame
  pub encoded : ℕ → Reply AvPacket
  pub packet_allocated : ℕ → Bool
  pub millis : ℕ → ℕ
  pub header_garbage : ℕ → ℕ
  pub rtp_block : Option Bytes
  pub out_block : Option Bytes
  pub video_garbage : VideoCodecInfo
  pub audio_garbage : AudioCodecInfo
  pub index_garbage : ℤ
  pub packager_garbage : ℕ

-- The stages behind the decoder, the calls of `Sender::receiveRtpPacket` so far, the number of
-- `AVPacket`s that are alive, and the numbers of calls.
pub record Line : Type 0 where
  pub encoder : Encoder
  pub packager : Packager
  pub calls : List RtpCall
  pub live : ℕ
  pub encodes : ℕ
  pub packages : ℕ

module _ (av_rescale : ℕ → ℕ → ℕ → ℕ) (w : World) where
  -- The encoder's calls of the packager: one round of fuel for each byte is enough.
  unfoldable pub package_packets : List Routed → Line → Outcome Line
  package_packets [] l = ok l
  package_packets (c ∷ cs) l =
      Packager.receive_packet av_rescale (w.header_garbage l.packages) c.packet.size
        (w.millis l.packages) c.packet c.type l.packager
      >>= λ r.
          package_packets cs
            (record l { packager = r.0; calls = l.calls ++ r.1; packages = l.packages + 1 })

  -- The decoder's calls of the encoder.
  unfoldable pub encode_frames : List FrameCall → Line → Outcome Line
  encode_frames [] l = ok l
  encode_frames (f ∷ fs) l =
      Encoder.receive_frame (w.packet_allocated l.encodes) (w.encoded l.encodes) f.type l.encoder
        l.live
      >>= λ r. package_packets r.0 (record l { live = r.1; encodes = l.encodes + 1 }) >>= λ m.
          encode_frames fs m

  -- The reader's calls of the decoder, from the `n`-th on.
  unfoldable pub decode_packets : DecoderWeb → (n : ℕ) → List Routed → Line → Outcome Line
  decode_packets decoder n [] l = ok l
  decode_packets decoder n (c ∷ cs) l =
      (DecoderWeb.receive_packet (w.decoded n) (w.audio_decoded n) c.type decoder >>= λ frames.
      encode_frames frames l)
      >>= λ m. decode_packets decoder (n + 1) cs m

  -- The stages as they are set up. The results of `init` are not tested.
  abbrev pub encoder_stage : Encoder
  encoder_stage =
      Encoder.set_sink true
        (Encoder.init (new_audio_codec_info w.audio_garbage) (mp4_info w.video_garbage)
          w.encoder_answers w.encoder_answers new_encoder).0

  abbrev pub decoder_stage : DecoderWeb
  decoder_stage =
      DecoderWeb.set_sink true
        (DecoderWeb.init (new_audio_codec_info w.audio_garbage) (mjpeg_info w.video_garbage)
          w.decoder_answers w.decoder_answers new_decoder_web).0

  abbrev pub packager_stage : Packager
  packager_stage =
      Packager.set_sink true
        (Packager.init w.rtp_block w.out_block (new_packager w.packager_garbage))

  abbrev pub reader_stage : InputReader
  reader_stage = InputReader.set_sink true (new_input_reader w.index_garbage w.index_garbage)

  -- The calls that the reader makes in `init`, which reads until the device ends.
  abbrev pub routed : List Routed
  routed = (InputReader.init w.source reader_stage).2

  -- The stages before the first packet.
  abbrev pub first_line : Line
  first_line = record {
    encoder = encoder_stage;
    packager = packager_stage;
    calls = [];
    live = 0;
    encodes = 0;
    packages = 0;
  }

  -- `StartStreaming`, with the stages as it leaves them.
  unfoldable pub start_streaming : Outcome Line
  start_streaming = decode_packets decoder_stage 0 routed first_line
