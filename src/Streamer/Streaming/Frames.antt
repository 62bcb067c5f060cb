-- ===== src/Streamer/Streaming/Frames.antt =====
-- One decoded frame on its way to the sender: what an environment that works is, and what the encoder
-- and the packager leave in it.
use mathlib.Core.List.{append-nil}
use payloader.Base.{
  ap, ◌∙◌, ℕ, ◌+◌, ◌^◌, ◌≤◌, ◌<◌, ◌≡◌, refl, arith, List, [], ◌∷◌, ◌++◌, map, true, some,
  if◌then◌else◌, length, Bytes, Outcome, ok, Bool-cases, inl, inr,
}
use payloader.Interfaces.{AvPacket, AvMediaType, AvFrame, RtpCall}
use payloader.Ffmpeg.{Reply, CodecAnswers, Routed, is_set_pointer}
use payloader.Encoder
use payloader.Encoder.{Encoder}
use payloader.Encoder.Packets.{video_call, receive_frame-context}
use payloader.Packager.Frame.{IsReady, receive_packet-Packaged}
use payloader.Pipeline.Transport.{Calls-AllSendable}
use payloader.Sender.Accept.{AllSendable}
use payloader.Streamer.Streaming.Flat.{
  of_reply, sent_packets, counted_as, package_packets-counted_as, package_frames,
}
use payloader.Streamer.Streaming.{World, Line, package_packets, encode_frames}

-- Packets that the packager can package: not empty, and with a size of the block's.
abbrev pub AllFrames : List AvPacket → Type 0
AllFrames [] = Unit
AllFrames (p ∷ ps) = ((0 < p.size) × (p.size < 2 ^ 31) × (p.size ≤ length p.bytes)) × AllFrames ps

-- A codec that opens, with its frame.
abbrev pub Opens : CodecAnswers → Type 0
Opens a = (a.found ≡ true) × (a.allocated ≡ true) × (a.opened ≡ true) × (a.frame_allocated ≡ true)

-- The environment works: both codecs open, memory is given, and the encoder's packets are frames.
pub record IsWorking (w : World) : Type 0 where
  pub decoder_opens : Opens w.decoder_answers
  pub encoder_opens : Opens w.encoder_answers
  pub allocated : (n : ℕ) → w.packet_allocated n ≡ true
  pub are_frames : (n : ℕ) → AllFrames (w.encoded n).items
  pub rtp : Bytes
  pub has_rtp : w.rtp_block ≡ some rtp
  pub rtp_size : length rtp ≡ 2000
  pub out : Bytes
  pub has_out : w.out_block ≡ some out
  pub out_size : length out ≡ 2000

-- The stages can go on, and what has been given to the sender can be sent.
pub record OnLine (l : Line) : Type 0 where
  pub is_ready : IsReady l.packager
  pub are_sendable : AllSendable l.calls
  pub context : is_set_pointer l.encoder.v_encoder_context ≡ true
  pub sink : l.encoder.sink ≡ true

append-AllSendable :
    (cs ds : List RtpCall) → AllSendable cs → AllSendable ds → AllSendable (cs ++ ds)
append-AllSendable [] ds p q = q
append-AllSendable (c ∷ cs) ds (one, p) q = (one, append-AllSendable cs ds p q)

-- What the packager leaves.
record Packages (o : Outcome Line) (l : Line) : Type 0 where
  line : Line
  returns : o ≡ ok line
  on_line : OnLine line
  same_live : line.live ≡ l.live
  same_encodes : line.encodes ≡ l.encodes

-- What a part of the pipeline leaves: `more` frames have been encoded, each of which has left a packet
-- alive, and the sender has been given what the packager makes of their packets, one after the other.
pub record Leaves (av_rescale : ℕ → ℕ → ℕ → ℕ) (w : World) (o : Outcome Line) (l : Line) (more : ℕ)
    : Type 0 where
  pub line : Line
  pub returns : o ≡ ok line
  pub on_line : OnLine line
  pub alive : line.live ≡ l.live + more
  pub counted : line.encodes ≡ l.encodes + more
  pub flat : package_frames av_rescale w l.encodes more l ≡ ok (counted_as l.live l.encodes line)

pub of_reply-AllFrames : (r : Reply AvPacket) → AllFrames r.items → AllFrames (of_reply r)
of_reply-AllFrames r frames = elim (Bool-cases (r.accepted)) [
  | inl accepted ↦ rw (accepted) frames
  | inr refused ↦ rw (refused) tt
]

of_reply-map :
    (r : Reply AvPacket)
    → (if r.accepted then map video_call r.items else []) ≡ map video_call (of_reply r)
of_reply-map r = elim (Bool-cases (r.accepted)) [
  | inl accepted ↦ rw (accepted)
  | inr refused ↦ rw (refused)
]

module _ (av_rescale : ℕ → ℕ → ℕ → ℕ) (w : World) (works : IsWorking w) where
  package_packets-Packages :
      (ps : List AvPacket) (l : Line)
      → AllFrames ps
      → OnLine l
      → Packages (package_packets av_rescale w (map video_call ps) l) l
  unfolding package_packets
  package_packets-Packages [] l frames on = record {
    line = l;
    returns = refl;
    on_line = on;
    same_live = refl;
    same_encodes = refl;
  }
  package_packets-Packages (p ∷ ps) l ((nonzero, small, held), frames) on =
      let k =
        receive_packet-Packaged av_rescale (w.header_garbage l.packages) p.size
          (w.millis l.packages) p l.packager on.is_ready nonzero small held (omega arith) in
      let (sendable, _) =
        Calls-AllSendable (w.header_garbage l.packages) _ l.packager.video_seq_num 0 p.size p.bytes
          k.fragments k.sent held k.tiles k.are_calls in
      let next : Line = record l {
        packager = k.final;
        calls = l.calls ++ k.sent;
        packages = l.packages + 1;
      } in
      let on_next : OnLine next = record {
        is_ready = k.is_ready;
        are_sendable = append-AllSendable l.calls k.sent on.are_sendable sendable;
        context = on.context;
        sink = on.sink;
      } in
      let rest = package_packets-Packages ps next frames on_next in
      record {
        line = rest.line;
        returns = rw (k.returns) (rest.returns);
        on_line = rest.on_line;
        same_live = rest.same_live;
        same_encodes = rest.same_encodes;
      }

  -- One frame behind the decoder.
  pub encode_frames-Leaves :
      (f : AvFrame) (l : Line)
      → OnLine l
      → Leaves av_rescale w
          (encode_frames av_rescale w (record { frame = f; type = AvMediaType.video } ∷ []) l)
          l
          1
  unfolding encode_frames sent_packets
  encode_frames-Leaves f l on =
      let reply = w.encoded l.encodes in
      let encoded : Encoder.receive_frame (w.packet_allocated l.encodes) reply AvMediaType.video
            l.encoder l.live
          ≡ ok ((if reply.accepted then map video_call reply.items else []), 1 + l.live) =
        rw (works.allocated l.encodes)
          (receive_frame-context reply l.encoder l.live on.context on.sink) in
      let next : Line = record l { live = 1 + l.live; encodes = l.encodes + 1 } in
      let on_next : OnLine next = record {
        is_ready = on.is_ready;
        are_sendable = on.are_sendable;
        context = on.context;
        sink = on.sink;
      } in
      let frames : AllFrames (of_reply reply) =
        of_reply-AllFrames reply (works.are_frames l.encodes) in
      let k = package_packets-Packages (of_reply reply) next frames on_next in
      let calls = encoded ∙ ap (λ (cs : List Routed). ok (cs, 1 + l.live)) (of_reply-map reply) in
      let same_packets : sent_packets w.encoded l.encodes 1 ≡ of_reply reply =
        append-nil (of_reply reply) in
      record {
        line = k.line;
        returns = rw (calls) (rw (k.returns) refl);
        on_line = k.on_line;
        alive = omega (arith, k.same_live);
        counted = omega (arith, k.same_encodes);
        flat =
            ap (λ (ps : List AvPacket). package_packets av_rescale w (map video_call ps) l)
              same_packets
            ∙ package_packets-counted_as av_rescale w (map video_call (of_reply reply)) next k.line
                l.live l.encodes k.returns;
      }
