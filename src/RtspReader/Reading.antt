-- ===== src/RtspReader/Reading.antt =====
-- What the sink of the reader is told.
use payloader.Base.{ℕ, pos, ◌≡◌, ◌≢◌, refl, List, ◌∷◌, map, true, false, ok, fault}
use payloader.Ffmpeg.{Routed}
use payloader.InputReader.{read_loop}
use payloader.InputReader.Routing.{is_video, is_audio, packets_of, packets_typed, read_loop-packets}
use payloader.RtspReader.{RtspReader, RtspSource, init_codec, receive, start_reading, init}

-- What a reader with a sink returns and calls.
pub record Streamed (s : RtspSource) (r : RtspReader) (v a : ℕ) : Type 0 where
  pub final : RtspReader
  pub routed : List Routed
  pub returns : init s r ≡ ok (final, pos 1, init_codec s.codec_id ∷ map receive routed)
  pub ended : final.reading ≡ false
  pub video_packets : packets_typed is_video routed ≡ packets_of v s.reads
  pub audio_packets : packets_typed is_audio routed ≡ packets_of a s.reads

-- A reader with a sink, at a source that opens and has two different streams for video and audio:
-- `init` reports success, the sink is told the codec of the video stream once and before any packet,
-- and then gets the packets of each stream under its type, all of them and in their order.
pub init-Streamed :
    (s : RtspSource) (r : RtspReader) (v a : ℕ)
    → r.sink ≡ true
    → s.open_result ≡ pos 0
    → s.best_video ≡ pos v
    → s.best_audio ≡ pos a
    → v ≢ a
    → Streamed s r v a
unfolding init start_reading
init-Streamed s r v a on opened video_at audio_at different =
    let both = read_loop-packets v a s.reads different in
    record {
      final = record r {
        sink = true;
        av_context = true;
        audio_stream_index = pos a;
        video_stream_index = pos v;
        codec_id = s.codec_id;
        reading = false;
      };
      routed = read_loop true (pos v) (pos a) s.reads;
      returns = rw (opened, video_at, on, audio_at);
      ended = refl;
      video_packets = both.0;
      audio_packets = both.1;
    }

-- A reader without a sink reads through a null pointer as soon as its source has a video stream.
pub init-fault :
    (s : RtspSource) (r : RtspReader) (v : ℕ)
    → r.sink ≡ false
    → s.open_result ≡ pos 0
    → s.best_video ≡ pos v
    → init s r ≡ fault
unfolding init start_reading
init-fault s r v off opened video_at = rw (opened, video_at, off)

-- What a reader with a sink calls, whatever the other streams of its source.
pub init-reads :
    (s : RtspSource) (r : RtspReader) (v : ℕ)
    → r.sink ≡ true
    → s.open_result ≡ pos 0
    → s.best_video ≡ pos v
    → (t : RtspReader) × (init s r
        ≡ ok (
          t,
          pos 1,
          init_codec s.codec_id ∷ map receive (read_loop true (pos v) s.best_audio s.reads),
        ))
unfolding init start_reading
init-reads s r v on opened video_at = (
  record {
    sink = true;
    av_context = true;
    audio_stream_index = s.best_audio;
    video_stream_index = pos v;
    codec_id = s.codec_id;
    reading = false;
  },
  rw (opened, video_at, on),
)
