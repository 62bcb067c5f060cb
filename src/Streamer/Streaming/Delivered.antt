-- ===== src/Streamer/Streaming/Delivered.antt =====
-- The frames of the stream at a far side: the packager's packets of many frames, one after the other, at
-- an unpackager.
use mathlib.Core.List.{append_assoc, append-nil}
use payloader.Base.{
  ap, sym, ◌∙◌, ℕ, ◌+◌, ◌^◌, ◌%◌, ◌/◌, ◌≤◌, ◌<◌, ◌≡◌, refl, arith, ℤ, List, [], ◌∷◌, ◌++◌, map,
  length, length-append, take, Bytes, ok, u32, u64,
}
use payloader.Interfaces.{AvPacket, RtpCall, Delivery}
use payloader.Encoder.Packets.{video_call}
use payloader.Packager.{rtp_timestamp}
use payloader.Packager.Frame.{IsReady, receive_packet-Packaged}
use payloader.Pipeline.Transport.{Calls-AllSendable}
use payloader.Rtp.Fragmenter.Tiling.{Tiles-length}
use payloader.Pipeline.{receive_packet-Delivered}
use payloader.Unpackager.{first_timestamp, receive_all}
use payloader.Unpackager.Arrivals.{Arrivals, Arrive-append, receive_all-append, receive_all-nothing}
use payloader.Unpackager.Step.{holding_next, delivery}
use payloader.Unpackager.Frame.{Arrive}
use payloader.Streamer.Streaming.{World, Line, package_packets}
use payloader.Streamer.Streaming.Frames.{AllFrames}

-- Packets that fit a block of `room` bytes.
abbrev pub AllFit : ℕ → List AvPacket → Type 0
AllFit room [] = Unit
AllFit room (p ∷ ps) = (p.size ≤ room) × AllFit room ps

-- The RTP packets for a list of frames: one for each 1099 bytes of a frame or part of them.
abbrev pub rtp_packets : List AvPacket → ℕ
rtp_packets [] = 0
rtp_packets (p ∷ ps) = (p.size + 1098) / 1099 + rtp_packets ps

module _ (av_rescale : ℕ → ℕ → ℕ → ℕ) (w : World) where
  -- The RTP timestamp of the packager's `n`-th packet.
  abbrev pub timestamp_of : ℕ → AvPacket → ℕ
  timestamp_of n p = u64 (rtp_timestamp av_rescale (w.millis n) (u32 p.dts)) % 2 ^ 32

  -- What a far side makes of the packets, of which the first is the packager's `n`-th: one frame for
  -- each, with the packet's bytes, timed from the first frame.
  abbrev pub deliveries : ℕ → List AvPacket → ℤ → List Delivery
  deliveries n [] first = []
  deliveries n (p ∷ ps) first =
      delivery (take p.size p.bytes) p.size first (timestamp_of n p)
      ∷ deliveries (n + 1) ps (first_timestamp first (timestamp_of n p))

  -- The far side of a part of the stream: the calls of the sender that the part adds, and what an
  -- unpackager makes of them if they all arrive.
  pub record PartDelivered (ps : List AvPacket) (l m : Line) : Type 0 where
    pub sent : List RtpCall
    pub appended : m.calls ≡ l.calls ++ sent
    pub counted : length sent ≡ rtp_packets ps
    pub delivers :
        (arrivals : Arrivals) (block : Bytes) (first : ℤ)
        → AllFit (length block) ps
        → Arrive sent arrivals
        → (block' : Bytes) × (first' : ℤ) × (receive_all arrivals (holding_next block first)
            ≡ ok (holding_next block' first', deliveries l.packages ps first))
          × (length block' ≡ length block)

  nothing_arrives : (arrivals : Arrivals) → Arrive [] arrivals → arrivals ≡ []
  nothing_arrives [] arrive = refl
  nothing_arrives (a ∷ arrivals) arrive = absurd arrive

  pub package_packets-PartDelivered :
      (ps : List AvPacket) (l m : Line)
      → ((n : ℕ) → w.header_garbage n < 2 ^ 32)
      → AllFrames ps
      → IsReady l.packager
      → package_packets av_rescale w (map video_call ps) l ≡ ok m
      → PartDelivered ps l m
  unfolding package_packets
  package_packets-PartDelivered [] l m garbage frames ready e =
      let same : l ≡ m = cc in
      record {
        sent = [];
        appended = rw (← same) (sym (append-nil l.calls));
        counted = refl;
        delivers = λ arrivals block first fits arrive. (
          block,
          first,
          ap (λ (t : Arrivals). receive_all t (holding_next block first))
                (nothing_arrives arrivals arrive)
              ∙ receive_all-nothing _,
          refl,
        );
      }
  package_packets-PartDelivered (p ∷ ps) l m garbage ((nonzero, small, held), frames) ready e =
      let k =
        receive_packet-Packaged av_rescale (w.header_garbage l.packages) p.size
          (w.millis l.packages) p l.packager ready nonzero small held (omega arith) in
      let (_, count) =
        Calls-AllSendable (w.header_garbage l.packages) _ l.packager.video_seq_num 0 p.size p.bytes
          k.fragments k.sent held k.tiles k.are_calls in
      let next : Line = record l {
        packager = k.final;
        calls = l.calls ++ k.sent;
        packages = l.packages + 1;
      } in
      let e' : package_packets av_rescale w (map video_call ps) next ≡ ok m = rw (k.returns) at e in
      let rest = package_packets-PartDelivered ps next m garbage frames k.is_ready e' in
      record {
        sent = k.sent ++ rest.sent;
        appended = rest.appended ∙ append_assoc l.calls k.sent rest.sent;
        counted = omega (
          arith,
          length-append k.sent rest.sent,
          count,
          Tiles-length 0 p.size k.fragments k.tiles,
          rest.counted,
        );
        delivers = λ arrivals block first fits arrive.
            let (front, behind, same, arrive1, arrive2) =
              Arrive-append k.sent rest.sent arrivals arrive in
            let d =
              receive_packet-Delivered av_rescale (w.header_garbage l.packages) p.size
                (w.millis l.packages) p l.packager k.final k.sent front block first
                (garbage l.packages) ready nonzero small held (omega arith) fits.0 k.returns
                arrive1 in
            let (block', first', returns, long) =
              rest.delivers behind d.block' (first_timestamp first (timestamp_of l.packages p))
                (rw (d.same_length) fits.1) arrive2 in
            (
              block',
              first',
              ap (λ (t : Arrivals). receive_all t (holding_next block first)) same
                  ∙ receive_all-append front behind _ _ _ _ _ d.returns returns,
              long ∙ d.same_length,
            );
      }
