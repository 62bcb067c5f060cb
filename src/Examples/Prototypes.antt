-- ===== src/Examples/Prototypes.antt =====
-- A run of src/prototype4_rec_rtsp.cpp.
use payloader.Base.{pos, ◌*◌, ◌≡◌, refl, [], ◌∷◌, true, ok, some}
use payloader.Codecs.{AvCodecId}
use payloader.InputReader
use payloader.OutputWriter.{Shown, write_image}
use payloader.Prototypes.{World, rec_main}
use payloader.Prototypes.Shows.{rec_main-shows}
use payloader.Examples.Stages.{frame, video_info, audio_info, two_frames, packet, working}

abbrev world : World
world = record {
  source = record {
    open_result = pos 0;
    best_audio = pos 1;
    best_video = pos 0;
    codec_id = AvCodecId.mjpeg;
    reads =
        record { packet = packet 1; stream_index = 0 }
        ∷ record { packet = packet 2; stream_index = 1 }
        ∷ record { packet = packet 3; stream_index = 0 }
        ∷ [];
  };
  decoder_answers = working;
  decoded = λ n. record { frame_finished = true; frame = frame };
  audio_decoded = λ n. two_frames;
  convert = λ f. f.samples;
  allocated = λ n. true;
  codec_garbage = AvCodecId.unset;
  index_garbage = pos 9;
  mjpeg_garbage = video_info;
  video_garbage = video_info;
  audio_garbage = audio_info;
  sink_garbage = true;
  one_garbage = 7;
}

rec_main-shows_example :
    (s : Shown) × (rec_main world 2 ≡ ok (some s))
    × (s.calls ≡ write_image 2 4 (1 ∷ 2 ∷ []) ∷ write_image 2 4 (1 ∷ 2 ∷ []) ∷ [])
    × (s.live ≡ 3 * 2)
unfolding InputReader.read_loop InputReader.media_type
rec_main-shows_example =
    rec_main-shows world 0 refl refl refl (refl, refl, refl, refl) (λ n small. refl)
