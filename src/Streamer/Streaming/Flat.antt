-- ===== src/Streamer/Streaming/Flat.antt =====
-- The packets that reach the packager, as one list.
use mathlib.Core.List.{append_assoc, map-append}
use payloader.Base.{
  ℕ, zero, suc, ◌+◌, ◌≡◌, sym, ap, ◌∙◌, arith, List, [], ◌∷◌, ◌++◌, map, if◌then◌else◌, Outcome, ok,
  bind-eq-ok,
}
use payloader.Interfaces.{AvPacket}
use payloader.Ffmpeg.{Reply, Routed}
use payloader.Packager
use payloader.Encoder.Packets.{video_call}
use payloader.Streamer.Streaming.{World, Line, package_packets}

-- The packets of an answer of the encoder, if the frame is accepted.
abbrev pub of_reply : Reply AvPacket → List AvPacket
of_reply r = if r.accepted then r.items else []

-- The packets for `count` frames, of which the first is the `n`-th that is encoded.
unfoldable pub sent_packets : (ℕ → Reply AvPacket) → (n count : ℕ) → List AvPacket
sent_packets encoded n zero = []
sent_packets encoded n (suc count) = of_reply (encoded n) ++ sent_packets encoded (n + 1) count

-- A line whose counters of frames and live packets are others.
abbrev pub counted_as : (live encodes : ℕ) → Line → Line
counted_as live encodes l = record l { live = live; encodes = encodes }

ok_inj : {l m : Line} → ok l ≡ ok m → l ≡ m
ok_inj e = cc

module _ (av_rescale : ℕ → ℕ → ℕ → ℕ) (w : World) where
  -- The packager does not see those counters.
  pub package_packets-counted_as :
      (cs : List Routed) (l m : Line) (live encodes : ℕ)
      → package_packets av_rescale w cs l ≡ ok m
      → package_packets av_rescale w cs (counted_as live encodes l) ≡ ok (counted_as live encodes m)
  unfolding package_packets
  package_packets-counted_as [] l m live encodes h =
      ap (λ (t : Line). ok (counted_as live encodes t)) (ok_inj h)
  package_packets-counted_as (c ∷ cs) l m live encodes h =
      let (r, first, rest) =
        bind-eq-ok
          (Packager.receive_packet av_rescale (w.header_garbage l.packages) c.packet.size
            (w.millis l.packages) c.packet c.type l.packager)
          _ h in
      rw (first) (package_packets-counted_as cs _ m live encodes rest)

  -- Two runs of the packager are one.
  pub package_packets-append :
      (cs ds : List Routed) (l m : Line)
      → package_packets av_rescale w cs l ≡ ok m
      → package_packets av_rescale w (cs ++ ds) l ≡ package_packets av_rescale w ds m
  unfolding package_packets
  package_packets-append [] ds l m h =
      ap (λ (t : Line). package_packets av_rescale w ds t) (ok_inj h)
  package_packets-append (c ∷ cs) ds l m h =
      let (r, first, rest) =
        bind-eq-ok
          (Packager.receive_packet av_rescale (w.header_garbage l.packages) c.packet.size
            (w.millis l.packages) c.packet c.type l.packager)
          _ h in
      rw (first) (package_packets-append cs ds _ m rest)

  -- What the packager makes of the packets for `count` frames.
  abbrev pub package_frames : (n count : ℕ) → Line → Outcome Line
  package_frames n count l =
      package_packets av_rescale w (map video_call (sent_packets w.encoded n count)) l

  sent_packets-add :
      (n a b : ℕ)
      → sent_packets w.encoded n (a + b)
        ≡ sent_packets w.encoded n a ++ sent_packets w.encoded (n + a) b
  unfolding sent_packets
  sent_packets-add n zero b =
      let count : 0 + b ≡ b = omega arith in
      let place : n + 0 ≡ n = omega arith in rw (count, place)
  sent_packets-add n (suc a) b =
      let count : suc a + b ≡ suc (a + b) = omega arith in
      let place : n + 1 + a ≡ n + suc a = omega arith in
      let later = sent_packets-add (n + 1) a b in
      rw (count) (
        ap (λ (t : List AvPacket). of_reply (w.encoded n) ++ t) later
        ∙ (rw (place) (
            sym (
              append_assoc (of_reply (w.encoded n)) (sent_packets w.encoded (n + 1) a)
                (sent_packets w.encoded (n + suc a) b)))))

  -- The packets of more frames behind those of the first.
  pub package_frames-add :
      (n a b : ℕ) (l m : Line)
      → package_frames n a l ≡ ok m
      → package_frames n (a + b) l ≡ package_frames (n + a) b m
  package_frames-add n a b l m h =
      let whole : map video_call (sent_packets w.encoded n (a + b))
          ≡ map video_call (sent_packets w.encoded n a)
            ++ map video_call (sent_packets w.encoded (n + a) b) =
        ap (map video_call) (sent_packets-add n a b)
        ∙ map-append video_call (sent_packets w.encoded n a) (sent_packets w.encoded (n + a) b) in
      ap (λ (cs : List Routed). package_packets av_rescale w cs l) whole
      ∙ package_packets-append (map video_call (sent_packets w.encoded n a))
          (map video_call (sent_packets w.encoded (n + a) b)) l m h
