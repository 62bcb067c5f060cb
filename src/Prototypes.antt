-- ===== src/Prototypes.antt =====
-- The main functions of src/prototype4_rec_rtsp.cpp, in which a reader, a decoder and a writer are
-- connected, and of src/prototype4_send_rtsp.cpp, which starts the server.
pub mod Shows
use payloader.Base.{
  ℕ, ℤ, ◌+◌, List, [], ◌∷◌, ◌++◌, Bool, true, Option, none, some, Bytes, Outcome, ok, ◌>>=◌, ◌==◌,
  if◌then◌else◌,
}
use payloader.Interfaces.{AvFrame, FrameCall}
use payloader.Codecs.{AvCodecId, mpeg4, VideoCodecInfo, AudioCodecInfo, new_audio_codec_info}
use payloader.Ffmpeg.{CodecAnswers, Reply, Decoded}
use payloader.RtspReader
use payloader.RtspReader.{RtspReader, RtspSource, SinkCall, init_codec, receive, new_rtsp_reader}
use payloader.Decoder
use payloader.Decoder.{Decoder, new_decoder}
use payloader.OutputWriter
use payloader.OutputWriter.{OutputWriter, Shown, new_output_writer, init_settings}
use payloader.TcpServer.Accept.{Acceptor, start_accept}

-- What FFmpeg answers, and what the memory holds. The numbers count the packets, and for `allocated` the
-- blocks that the writer has allocated.
pub record World : Type 0 where
  pub source : RtspSource
  pub decoder_answers : CodecAnswers
  pub decoded : ℕ → Decoded AvFrame
  pub audio_decoded : ℕ → Reply AvFrame
  pub convert : AvFrame → Bytes
  pub allocated : ℕ → Bool
  pub codec_garbage : AvCodecId
  pub index_garbage : ℤ
  pub mjpeg_garbage : VideoCodecInfo
  pub video_garbage : VideoCodecInfo
  pub audio_garbage : AudioCodecInfo
  pub sink_garbage : Bool
  pub one_garbage : ℕ

module _ (w : World) where
  -- The settings for the writer.
  abbrev pub mp4_info : VideoCodecInfo
  mp4_info = record w.video_garbage {
    enabled = true;
    codec = AvCodecId.mpeg4;
    width = 704;
    height = 396;
    bit_rate = 48000;
  }

  -- `output_file` is the text `NULL`.
  abbrev pub writer_stage : OutputWriter
  writer_stage =
      (init_settings (new_audio_codec_info w.audio_garbage) mp4_info
        (new_output_writer (78 ∷ 85 ∷ 76 ∷ 76 ∷ []) w.sink_garbage w.one_garbage)).0

  abbrev pub decoder_stage : Decoder
  decoder_stage = Decoder.set_sink true new_decoder

  abbrev pub reader_stage : RtspReader
  reader_stage =
      RtspReader.set_sink true (new_rtsp_reader w.codec_garbage w.index_garbage w.index_garbage)

  -- The decoder's calls of the writer.
  unfoldable pub show_frames : List FrameCall → Shown → Outcome Shown
  show_frames [] s = ok s
  show_frames (f ∷ fs) s =
      OutputWriter.receive_frame w.convert w.allocated f.frame f.type s.writer s.live >>= λ shown.
      show_frames fs (record shown { calls = s.calls ++ shown.calls })

  -- The reader's calls of the decoder, of which the first packet is the `n`-th. The result of `init` is
  -- not tested.
  unfoldable pub decode_calls : Decoder → (n : ℕ) → List SinkCall → Shown → Outcome Shown
  decode_calls decoder n [] s = ok s
  decode_calls decoder n (init_codec codec_id ∷ cs) s =
      decode_calls (Decoder.init w.mjpeg_garbage codec_id w.decoder_answers decoder).0 n cs s
  decode_calls decoder n (receive c ∷ cs) s =
      Decoder.receive_packet (w.decoded n) (w.audio_decoded n) c.type decoder >>= λ frames.
      show_frames frames s >>= λ t. decode_calls decoder (n + 1) cs t

  -- `main` of prototype4_rec_rtsp, `none` where it prints its usage and exits.
  unfoldable pub rec_main : (argc : ℕ) → Outcome (Option Shown)
  rec_main argc =
      if argc == 2
      then (RtspReader.init w.source reader_stage >>= λ r.
          decode_calls decoder_stage 0 r.2 (record { writer = writer_stage; calls = []; live = 0 })
          >>= λ s. ok (some s))
      else ok none

-- `main` of prototype4_send_rtsp: the server in its loop, or `none` behind the usage or where `bind` or
-- `listen` fails.
unfoldable pub send_main : (argc : ℕ) (garbage bound listening : ℤ) → Option Acceptor
send_main argc garbage bound listening =
    if argc == 1 then start_accept garbage bound listening else none
