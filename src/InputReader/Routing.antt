-- ===== src/InputReader/Routing.antt =====
-- Each stream of a source reaches the sink under its own type.
use payloader.Base.{
  ℕ, pos, negsuc, ◌≡◌, ◌≢◌, ◌⊎◌, inl, inr, refl, arith, List, [], ◌∷◌, Bool, true, false,
  if◌then◌else◌, ◌==◌,
}
use payloader.Interfaces.{AvPacket, AvMediaType, video, audio}
use payloader.Ffmpeg.{Read, Routed}
use payloader.InputReader.{InputReader, Source, media_type, read_loop, start_reading, init}

abbrev pub is_video : AvMediaType → Bool
is_video video = true
is_video _ = false

abbrev pub is_audio : AvMediaType → Bool
is_audio audio = true
is_audio _ = false

-- The packets of one stream of the source, in their order.
abbrev pub packets_of : ℕ → List Read → List AvPacket
packets_of i [] = []
packets_of i (x ∷ xs) = if x.stream_index == i then x.packet ∷ packets_of i xs else packets_of i xs

-- The packets that are handed on under a type that passes a test.
abbrev pub packets_typed : (AvMediaType → Bool) → List Routed → List AvPacket
packets_typed test [] = []
packets_typed test (c ∷ cs) =
    if test c.type then c.packet ∷ packets_typed test cs else packets_typed test cs

pub read_loop-packets :
    (v a : ℕ) (reads : List Read)
    → v ≢ a
    → (packets_typed is_video (read_loop true (pos v) (pos a) reads) ≡ packets_of v reads)
      × (packets_typed is_audio (read_loop true (pos v) (pos a) reads) ≡ packets_of a reads)
unfolding read_loop media_type
read_loop-packets v a [] different = (refl, refl)
read_loop-packets v a (x ∷ xs) different = ground (arith, read_loop-packets v a xs)

-- A reader with a sink whose source opens, has its stream information and has two different streams
-- for video and audio: `init` reports success, the reading has ended, and the sink has been given
-- the packets of each of the two streams under its type, all of them and in their order.
pub init-packets :
    (s : Source) (r : InputReader) (v a n : ℕ)
    → r.sink ≡ true
    → s.open_result ≡ pos 0
    → s.info_result ≡ pos n
    → s.best_video ≡ pos v
    → s.best_audio ≡ pos a
    → v ≢ a
    → ((init s r).1 ≡ pos 1)
      × ((init s r).0.reading ≡ false)
      × (packets_typed is_video (init s r).2 ≡ packets_of v s.reads)
      × (packets_typed is_audio (init s r).2 ≡ packets_of a s.reads)
unfolding init start_reading
init-packets s r v a n on opened found video_at audio_at different =
    let both = read_loop-packets v a s.reads different in
    (
      rw (opened, found),
      rw (opened, found),
      rw (opened, found, on, video_at, audio_at) both.0,
      rw (opened, found, on, video_at, audio_at) both.1,
    )

-- A source that does not open, or whose stream information is not found: `init` returns FFmpeg's
-- error, the sink is not called, and the indices of the streams stay as they were.
pub init_errors :
    (s : Source) (r : InputReader) (e : ℕ)
    → (s.open_result ≡ negsuc e) ⊎ ((s.open_result ≡ pos 0) × (s.info_result ≡ negsuc e))
    → ((init s r).1 ≡ negsuc e)
      × ((init s r).2 ≡ [])
      × ((init s r).0.video_stream_index ≡ r.video_stream_index)
      × ((init s r).0.audio_stream_index ≡ r.audio_stream_index)
unfolding init
init_errors s r e (inl failed) = rw failed (refl, refl, refl, refl)
init_errors s r e (inr (opened, failed)) = rw (opened, failed) (refl, refl, refl, refl)
