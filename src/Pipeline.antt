-- ===== src/Pipeline.antt =====
-- src/prototype4_send.cpp and src/prototype4_rec.cpp: the packager's packets reach an unpackager on
-- another host, through Sender and Receiver. The transport is the list of blocks that arrive.
pub mod Timing
pub mod Transport
pub mod EndToEnd
use payloader.Base.{
  ℕ, ◌+◌, ◌*◌, ◌≤◌, ◌<◌, ◌^◌, ◌%◌, ◌≡◌, refl, sym, arith, ◌∷◌, List, [], ℤ, length, take, Bytes,
  Outcome, ok, ◌∙◌, ap, u32, u64,
}
use payloader.Interfaces.{RtpCall, AvPacket, AvMediaType, video}
use payloader.Rtp.Fragmenter.{Fragment}
use payloader.Rtp.Fragmenter.Tiling.{Tiles}
use payloader.Packager.{Packager, rtp_timestamp, receive_packet}
use payloader.Packager.Frame.{IsReady, Calls, Packaged, receive_packet-Packaged}
use payloader.Unpackager.{Unpackager, first_timestamp, receive_all}
use payloader.Unpackager.Step.{holding, holding_next, delivery}
use payloader.Unpackager.Frame.{Arrive, Complete, frame-Complete}

-- What the unpackager makes of the packets of one frame: it is between two frames again, with a
-- block as long as before, and exactly one frame has reached its sink, the bytes of `packet`.
pub record Delivered (timestamp : ℕ) (packet : AvPacket) (arrivals : List (Bytes × ℕ))
    (block : Bytes) (first : ℤ) : Type 0 where
  pub block' : Bytes
  pub returns :
      receive_all arrivals (holding_next block first)
      ≡ ok (
        holding_next block' (first_timestamp first (timestamp % 2 ^ 32)),
        delivery (take packet.size packet.bytes) packet.size first (timestamp % 2 ^ 32) ∷ [],
      )
  pub same_length : length block' ≡ length block

-- From the calls to the delivery.
deliver :
    (garbage timestamp seq : ℕ) (packet : AvPacket) (fs : List Fragment) (sent : List RtpCall)
    (arrivals : List (Bytes × ℕ)) (block : Bytes) (first : ℤ)
    → garbage < 2 ^ 32
    → 0 < packet.size
    → packet.size ≤ length packet.bytes
    → packet.size ≤ length block
    → Tiles 0 packet.size fs
    → Calls garbage timestamp seq packet.bytes fs sent
    → Arrive sent arrivals
    → Delivered timestamp packet arrivals block first
deliver garbage timestamp seq packet [] sent arrivals block first g pos held room tiles calls
      arrive =
    absurd (omega arith)
deliver garbage timestamp seq packet (f ∷ fs) sent arrivals block first g pos held room tiles calls
      arrive =
    let c =
      frame-Complete garbage timestamp packet.size packet.bytes first g held fs f sent arrivals seq
        0 block tiles calls arrive refl room in
    record { block' = c.block'; returns = c.returns; same_length = c.same_length }

-- A video frame of 1 byte up to the size of the unpackager's block (and below 2^31) that a
-- ready packager with fuel for it packages, and whose packets all arrive in order, reaches the
-- sink behind the unpackager as one frame with the same bytes and the same size; the
-- unpackager is then between two frames, with a block as long as before. The unpackager has a
-- sink and stands between two frames at the start.
pub receive_packet-Delivered :
    (av_rescale : ℕ → ℕ → ℕ → ℕ) (garbage fuel millis : ℕ) (packet : AvPacket) (p p' : Packager)
    (sent : List RtpCall) (arrivals : List (Bytes × ℕ)) (block : Bytes) (first : ℤ)
    → garbage < 2 ^ 32
    → IsReady p
    → 0 < packet.size
    → packet.size < 2 ^ 31
    → packet.size ≤ length packet.bytes
    → packet.size ≤ 1099 * fuel
    → packet.size ≤ length block
    → receive_packet av_rescale garbage fuel millis packet AvMediaType.video p ≡ ok (p', sent)
    → Arrive sent arrivals
    → Delivered (u64 (rtp_timestamp av_rescale millis (u32 packet.dts))) packet arrivals block first
receive_packet-Delivered av_rescale garbage fuel millis packet p p' sent arrivals block first g r
      pos small held enough room e arrive =
    let k =
      receive_packet-Packaged av_rescale garbage fuel millis packet p r pos small held enough in
    let same : k.sent ≡ sent = same_sent (sym k.returns ∙ e) in
    deliver garbage _ p.video_seq_num packet k.fragments sent arrivals block first g pos held room
      k.tiles (rw same at k.are_calls) arrive
  where
    same_sent : {a b : Packager × List RtpCall} → ok a ≡ ok b → a.1 ≡ b.1
    same_sent h = cc
