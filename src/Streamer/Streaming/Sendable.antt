-- ===== src/Streamer/Streaming/Sendable.antt =====
-- With codecs that open the whole pipeline runs, and the sender is given packets that it can send.
use payloader.Base.{
  ap, sym, ◌∙◌, ℕ, ◌+◌, ◌≡◌, refl, arith, List, [], ◌∷◌, Bool, true, false, if◌then◌else◌, ok,
  fault, ◌>>=◌, Bool-cases, inl, inr,
}
use payloader.Interfaces.{AvPacket, AvMediaType, AvFrame}
use payloader.Ffmpeg.{Decoded, Routed, is_set_pointer}
use payloader.DecoderWeb
use payloader.DecoderWeb.{DecoderWeb}
use payloader.Encoder
use payloader.Encoder.{Encoder}
use payloader.Encoder.Packets.{video_call}
use payloader.Packager
use payloader.Packager.{Packager}
use payloader.Sender.Accept.{AllSendable}
use payloader.Streamer.Streaming.Flat.{
  sent_packets, counted_as, package_packets-counted_as, package_frames, package_frames-add,
}
use payloader.Streamer.Streaming.Frames.{Opens, IsWorking, OnLine, Leaves, encode_frames-Leaves}
use payloader.Streamer.Streaming.{
  World, Line, package_packets, encode_frames, decode_packets, encoder_stage, decoder_stage,
  first_line, routed, start_streaming,
}

-- A decoder that is open for video alone, with a sink.
pub record IsOpen (d : DecoderWeb) : Type 0 where
  pub context : is_set_pointer d.v_decoder_context ≡ true
  pub frame : d.v_frame ≡ true
  pub sink : d.sink ≡ true
  pub no_audio : d.a_decoder ≡ false

abbrev pub finished_by : AvMediaType → Bool → ℕ
finished_by AvMediaType.video done = if done then 1 else 0
finished_by _ done = 0

-- The number of video packets whose frame is finished, where the first is the `n`-th packet.
abbrev pub finished : (ℕ → Decoded AvFrame) → (n : ℕ) → List Routed → ℕ
finished decoded n [] = 0
finished decoded n (c ∷ cs) =
    finished_by c.type (decoded n).frame_finished + finished decoded (n + 1) cs

decoder_stage-IsOpen :
    (av_rescale : ℕ → ℕ → ℕ → ℕ) (w : World)
    → Opens w.decoder_answers
    → IsOpen (decoder_stage av_rescale w)
unfolding DecoderWeb.init DecoderWeb.init_video
decoder_stage-IsOpen av_rescale w (found, allocated, opened, frame) = record {
  context = rw (found, allocated, opened) (rw (frame) refl);
  frame = rw (found, allocated, opened) (rw (frame) refl);
  sink = refl;
  no_audio = rw (found, allocated, opened) (rw (frame) refl);
}

module _ (av_rescale : ℕ → ℕ → ℕ → ℕ) (w : World) (works : IsWorking w) where
  -- A packet that gives no frame.
  quiet : (l : Line) → OnLine l → Leaves av_rescale w (encode_frames av_rescale w [] l) l 0
  unfolding encode_frames package_packets sent_packets
  quiet l on = record {
    line = l;
    returns = refl;
    on_line = on;
    alive = omega arith;
    counted = omega arith;
    flat = refl;
  }

  decode_packet-Leaves :
      (d : DecoderWeb) (n : ℕ) (type : AvMediaType) (l : Line)
      → IsOpen d
      → OnLine l
      → Leaves av_rescale w
          (DecoderWeb.receive_packet (w.decoded n) (w.audio_decoded n) type d >>= λ frames.
            encode_frames av_rescale w frames l)
          l
          (finished_by type (w.decoded n).frame_finished)
  unfolding DecoderWeb.receive_packet
  decode_packet-Leaves d n AvMediaType.video l k on =
      elim (Bool-cases ((w.decoded n).frame_finished)) [
        | inl done ↦
            rw (k.context, k.frame, k.sink, done)
              (encode_frames-Leaves av_rescale w works (w.decoded n).frame l on)
        | inr waiting ↦ rw (k.context, k.frame, waiting) (quiet l on)
      ]
  decode_packet-Leaves d n AvMediaType.audio l k on = rw (k.no_audio) (quiet l on)
  decode_packet-Leaves d n AvMediaType.unknown l k on = quiet l on
  decode_packet-Leaves d n AvMediaType.other l k on = quiet l on

  decode_packets-Leaves :
      (d : DecoderWeb) (n : ℕ) (cs : List Routed) (l : Line)
      → IsOpen d
      → OnLine l
      → Leaves av_rescale w (decode_packets av_rescale w d n cs l) l (finished w.decoded n cs)
  unfolding decode_packets package_packets sent_packets
  decode_packets-Leaves d n [] l k on = record {
    line = l;
    returns = refl;
    on_line = on;
    alive = omega arith;
    counted = omega arith;
    flat = refl;
  }
  decode_packets-Leaves d n (c ∷ cs) l k on =
      let first = decode_packet-Leaves d n c.type l k on in
      let a = finished_by c.type (w.decoded n).frame_finished in
      let b = finished w.decoded (n + 1) cs in
      let rest = decode_packets-Leaves d (n + 1) cs first.line k first.on_line in
      record {
        line = rest.line;
        returns = rw (first.returns) (rest.returns);
        on_line = rest.on_line;
        alive = omega (arith, first.alive, rest.alive);
        counted = omega (arith, first.counted, rest.counted);
        flat =
            package_frames-add av_rescale w l.encodes a b l (counted_as l.live l.encodes first.line)
              first.flat
            ∙ (ap
                  (λ (m : ℕ).
                    package_frames av_rescale w m b (counted_as l.live l.encodes first.line))
                  (sym first.counted)
                ∙ package_packets-counted_as av_rescale w _ first.line _ l.live l.encodes
                    rest.flat);
      }

  pub first_line-OnLine : OnLine (first_line av_rescale w)
  unfolding Encoder.init Encoder.init_video Packager.init Packager.set_sink Packager.new_packager
  first_line-OnLine =
      let (found, allocated, opened, frame) = works.encoder_opens in
      record {
        is_ready = record {
          has_sink = refl;
          out_block = works.out;
          has_out = works.has_out;
          out_size = works.out_size;
          rtp_block = works.rtp;
          has_rtp = works.has_rtp;
          rtp_size = works.rtp_size;
        };
        are_sendable = tt;
        context = rw (found, allocated, opened) refl;
        sink = refl;
      }

  -- Streaming in an environment that works returns, whatever the device gives. Each finished frame of
  -- its video packets has been encoded, and has left one `AVPacket` alive. The sender has been given
  -- what the packager makes of the packets of the accepted frames, all of them and in their order,
  -- and it can send every one of these RTP packets: they have 1 to 1500 bytes.
  pub start_streaming-AllSendable :
      (l : Line) × (start_streaming av_rescale w ≡ ok l)
      × AllSendable l.calls
      × (l.encodes ≡ finished w.decoded 0 (routed av_rescale w))
      × (l.live ≡ finished w.decoded 0 (routed av_rescale w))
      × (package_frames av_rescale w 0
            (finished w.decoded 0 (routed av_rescale w))
            (first_line av_rescale w)
          ≡ ok (counted_as 0 0 l))
  unfolding start_streaming
  start_streaming-AllSendable =
      let k =
        decode_packets-Leaves (decoder_stage av_rescale w) 0 (routed av_rescale w)
          (first_line av_rescale w) (decoder_stage-IsOpen av_rescale w works.decoder_opens)
          first_line-OnLine in
      (
        k.line,
        k.returns,
        k.on_line.are_sendable,
        omega (arith, k.counted),
        omega (arith, k.alive),
        k.flat,
      )

decode_packets-no_context :
    (av_rescale : ℕ → ℕ → ℕ → ℕ) (w : World) (d : DecoderWeb) (p : AvPacket) (cs : List Routed)
    (n : ℕ) (l : Line)
    → IsOpen d
    → is_set_pointer l.encoder.v_encoder_context ≡ false
    → (w.decoded n).frame_finished ≡ true
    → decode_packets av_rescale w d n (video_call p ∷ cs) l ≡ fault
unfolding decode_packets encode_frames DecoderWeb.receive_packet Encoder.receive_frame
    Encoder.encode_frame
decode_packets-no_context av_rescale w d p cs n l k context done =
    rw (k.context, k.frame, k.sink, done) (rw (context) refl)

-- The results of the codecs' `init` are not tested: if the decoder opens and the encoder is not found,
-- the first packet of the device ends the program if it is video and its frame is finished.
pub start_streaming-no_encoder :
    (av_rescale : ℕ → ℕ → ℕ → ℕ) (w : World) (p : AvPacket) (cs : List Routed)
    → Opens w.decoder_answers
    → w.encoder_answers.found ≡ false
    → routed av_rescale w ≡ video_call p ∷ cs
    → (w.decoded 0).frame_finished ≡ true
    → start_streaming av_rescale w ≡ fault
unfolding start_streaming Encoder.init Encoder.init_video
start_streaming-no_encoder av_rescale w p cs opens missing first done =
    let unset : is_set_pointer (encoder_stage av_rescale w).v_encoder_context ≡ false =
      rw (missing) refl in
    rw (start_streaming, first)
      (decode_packets-no_context av_rescale w (decoder_stage av_rescale w) p cs 0 _
        (decoder_stage-IsOpen av_rescale w opens) unset done)
