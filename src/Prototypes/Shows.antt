-- ===== src/Prototypes/Shows.antt =====
-- What prototype4_rec_rtsp shows.
use mathlib.Core.List.{append_assoc, append-nil}
use payloader.Base.{
  ap, sym, ◌∙◌, ℕ, ◌+◌, ◌*◌, ◌<◌, ◌≤◌, ◌≡◌, refl, arith, pos, List, [], ◌∷◌, ◌++◌, map, true, false,
  some, length, ◌==◌, if◌then◌else◌, Outcome, ok, ◌>>=◌, Bool-cases, inl, inr,
}
use payloader.Interfaces.{AvMediaType, AvFrame}
use payloader.Codecs.{is_set}
use payloader.Ffmpeg.{Routed, Decoded, is_set_pointer}
use payloader.InputReader.{read_loop}
use payloader.RtspReader.{receive}
use payloader.RtspReader.Reading.{init-reads}
use payloader.Decoder
use payloader.Decoder.{Decoder}
use payloader.OutputWriter.{Shown, WriterCall, write_frame, open_file}
use payloader.OutputWriter.Frames.{write_all, write_all_opened, receive_frame-allocated, image}
use payloader.Streamer.Streaming.Frames.{Opens}
use payloader.Prototypes.{
  World, show_frames, decode_calls, decoder_stage, reader_stage, writer_stage, rec_main,
}

-- The decoder is open for video alone, and has a sink.
record IsOpen (d : Decoder) : Type 0 where
  context : is_set_pointer d.v_decoder_context ≡ true
  frame : d.v_frame ≡ true
  sink : d.sink ≡ true
  no_audio : d.a_decoder ≡ false

-- The frames that a packet gives: one, if the packet is video and its frame is finished.
abbrev pub frame_of : AvMediaType → Decoded AvFrame → List AvFrame
frame_of AvMediaType.video d = if d.frame_finished then d.frame ∷ [] else []
frame_of _ d = []

-- The frames of the packets, of which the first is the `n`-th.
abbrev pub frames_of : (ℕ → Decoded AvFrame) → (n : ℕ) → List Routed → List AvFrame
frames_of decoded n [] = []
frames_of decoded n (c ∷ cs) = frame_of c.type (decoded n) ++ frames_of decoded (n + 1) cs

module _ (w : World) where
  -- The writer behind the frames.
  abbrev after : List AvFrame → Shown → Shown
  after fs s =
      let o = write_all w.convert fs s.writer s.live in
      record { writer = o.writer; calls = s.calls ++ o.calls; live = o.live }

  after-nil : (s : Shown) → after [] s ≡ s
  unfolding write_all
  after-nil s = ap (λ (cs : List WriterCall). record s { calls = cs }) (append-nil s.calls)

  -- The writer behind one frame.
  abbrev after_one : AvFrame → Shown → Shown
  after_one f s =
      let first = write_frame w.convert f s.writer s.live in
      record first { calls = s.calls ++ first.calls }

  after-cons :
      (f : AvFrame) (fs : List AvFrame) (s : Shown) → after (f ∷ fs) s ≡ after fs (after_one f s)
  unfolding write_all
  after-cons f fs s =
      let first = write_frame w.convert f s.writer s.live in
      let rest = write_all w.convert fs first.writer first.live in
      ap (λ (cs : List WriterCall). record { writer = rest.writer; calls = cs; live = rest.live })
        (sym (append_assoc s.calls first.calls rest.calls))

  show_frames-one :
      (f : AvFrame) (s : Shown) (bound : ℕ)
      → ((n : ℕ) → n < bound → w.allocated n ≡ true)
      → s.live + 3 ≤ bound
      → show_frames w (record { frame = f; type = AvMediaType.video } ∷ []) s ≡ ok (after_one f s)
  unfolding show_frames
  show_frames-one f s bound can room =
      let shown =
        receive_frame-allocated w.convert w.allocated f s.writer s.live (can s.live (omega arith))
          (can (s.live + 1) (omega arith)) (can (s.live + 2) (omega arith)) in
      rw (show_frames, shown) refl

  -- One packet, where the packets behind it are known.
  packet-after :
      (d : Decoder) (n : ℕ) (type : AvMediaType) (fs : List AvFrame) (s : Shown)
      (next : Shown → Outcome Shown) (bound : ℕ)
      → IsOpen d
      → ((n : ℕ) → n < bound → w.allocated n ≡ true)
      → s.live + 3 * length (frame_of type (w.decoded n) ++ fs) ≤ bound
      → ((t : Shown) → t.live + 3 * length fs ≤ bound → next t ≡ ok (after fs t))
      → (Decoder.receive_packet (w.decoded n) (w.audio_decoded n) type d >>= λ frames.
          show_frames w frames s >>= λ t. next t)
        ≡ ok (after (frame_of type (w.decoded n) ++ fs) s)
  unfolding show_frames Decoder.receive_packet
  packet-after d n AvMediaType.video fs s next bound k can room rest =
      elim (Bool-cases (w.decoded n).frame_finished) [
        | inl done ↦
            let f = (w.decoded n).frame in
            let more : s.live + 3 * length (f ∷ fs) ≤ bound = (rw (done) at room) in
            let one = show_frames-one f s bound can (omega arith) in
            rw (k.context, k.frame, k.sink, done)
              (rw (one) (
                rest (after_one f s) (omega arith)
                ∙ ap (λ (t : Shown). ok t) (sym (after-cons f fs s))))
        | inr waiting ↦ rw (k.context, k.frame, waiting) (rest s (rw (waiting) at room))
      ]
  packet-after d n AvMediaType.audio fs s next bound k can room rest = rw (k.no_audio) (rest s room)
  packet-after d n AvMediaType.unknown fs s next bound k can room rest = rest s room
  packet-after d n AvMediaType.other fs s next bound k can room rest = rest s room

  decode_calls-after :
      (d : Decoder) (n : ℕ) (cs : List Routed) (s : Shown) (bound : ℕ)
      → IsOpen d
      → ((n : ℕ) → n < bound → w.allocated n ≡ true)
      → s.live + 3 * length (frames_of w.decoded n cs) ≤ bound
      → decode_calls w d n (map receive cs) s ≡ ok (after (frames_of w.decoded n cs) s)
  unfolding decode_calls
  decode_calls-after d n [] s bound k can room = ap (λ (t : Shown). ok t) (sym (after-nil s))
  decode_calls-after d n (c ∷ cs) s bound k can room =
      packet-after d n c.type (frames_of w.decoded (n + 1) cs) s
        (λ t. decode_calls w d (n + 1) (map receive cs) t) bound k can room
        (λ t more. decode_calls-after d (n + 1) cs t bound k can more)

  init-IsOpen :
      is_set w.source.codec_id ≡ true
      → Opens w.decoder_answers
      → IsOpen
          (Decoder.init w.mjpeg_garbage w.source.codec_id w.decoder_answers (decoder_stage w)).0
  unfolding Decoder.init Decoder.init_video
  init-IsOpen set (found, allocated, opened, frame) = record {
    context = rw (set, found, allocated, opened) refl;
    frame = rw (set, found, allocated, opened) frame;
    sink = rw (set, found, allocated, opened) refl;
    no_audio = rw (set, found, allocated, opened) refl;
  }

  -- The frames of the video stream `v`.
  abbrev pub source_frames : ℕ → List AvFrame
  source_frames v =
      frames_of w.decoded 0 (read_loop true (pos v) w.source.best_audio w.source.reads)

  rec_main-after :
      (v : ℕ)
      → w.source.open_result ≡ pos 0
      → w.source.best_video ≡ pos v
      → is_set w.source.codec_id ≡ true
      → Opens w.decoder_answers
      → ((n : ℕ) → n < 3 * length (source_frames v) → w.allocated n ≡ true)
      → rec_main w 2
        ≡ ok (
            some
              (after (source_frames v) (record { writer = writer_stage w; calls = []; live = 0 })))
  unfolding rec_main decode_calls
  rec_main-after v opens best set decoder can =
      let start : Shown = record { writer = writer_stage w; calls = []; live = 0 } in
      let shown =
        decode_calls-after
          (Decoder.init w.mjpeg_garbage w.source.codec_id w.decoder_answers (decoder_stage w)).0 0
          (read_loop true (pos v) w.source.best_audio w.source.reads) start
          (3 * length (source_frames v)) (init-IsOpen set decoder) can (omega arith) in
      let (r, reads) = init-reads w.source (reader_stage w) v refl opens best in
      rw (reads) (rw (shown) refl)

  -- What the writer is asked to do: whether a file is opened first depends on what the memory held.
  abbrev pub shows : ℕ → List AvFrame → List WriterCall
  shows one [] = []
  shows one (f ∷ fs) =
      (if one == 0 then open_file f.width f.height ∷ [] else []) ++ map (image w.convert) (f ∷ fs)

  write_all-shows :
      (fs : List AvFrame)
      → ((write_all w.convert fs (writer_stage w) 0).calls ≡ shows w.one_garbage fs)
        × ((write_all w.convert fs (writer_stage w) 0).live ≡ 3 * length fs)
  unfolding write_all
  write_all-shows [] = (refl, refl)
  write_all-shows (f ∷ fs) = elim (Bool-cases (w.one_garbage == 0)) [
    | inl fresh ↦
        let opened = record (writer_stage w) {
          one = w.one_garbage + 1;
          output = some (f.width, f.height);
        } in
        let (calls, live) = write_all_opened w.convert fs opened 3 (ground arith) in
        rw (fresh) (
          ap (λ (cs : List WriterCall). open_file f.width f.height ∷ image w.convert f ∷ cs) calls,
          omega (arith, live),
        )
    | inr used ↦
        let (calls, live) = write_all_opened w.convert fs (writer_stage w) 3 used in
        rw (used) (ap (λ (cs : List WriterCall). image w.convert f ∷ cs) calls, omega (arith, live))
  ]

  -- prototype4_rec_rtsp with its one argument, at a source that opens and has a video stream whose codec
  -- is set and opens, and where the writer's first allocations succeed, three for each finished frame:
  -- it returns; every finished frame of the stream's packets is written, in order, and
  -- leaves three blocks of memory. The file is opened before the first frame if the memory of the writer
  -- happened to hold 0 where its member `one` stands, and is never opened otherwise, since the `init` that
  -- is called does nothing.
  pub rec_main-shows :
      (v : ℕ)
      → w.source.open_result ≡ pos 0
      → w.source.best_video ≡ pos v
      → is_set w.source.codec_id ≡ true
      → Opens w.decoder_answers
      → ((n : ℕ) → n < 3 * length (source_frames v) → w.allocated n ≡ true)
      → (s : Shown) × (rec_main w 2 ≡ ok (some s))
        × (s.calls ≡ shows w.one_garbage (source_frames v))
        × (s.live ≡ 3 * length (source_frames v))
  rec_main-shows v opens best set decoder can =
      let (calls, live) = write_all-shows (source_frames v) in
      (
        after (source_frames v) (record { writer = writer_stage w; calls = []; live = 0 }),
        rec_main-after v opens best set decoder can,
        calls,
        live,
      )
