-- ===== src/Packager/Frame.antt =====
-- A whole frame: the loop over the fragments, and `receivePacket`.
use mathlib.Core.List.{append_assoc}
use payloader.Base.{
  ℕ, zero, suc, ◌+◌, ◌*◌, ◌≤◌, ◌<◌, ◌^◌, ◌%◌, ◌≡◌, refl, arith, ◌∷◌, ◌++◌, List, [], true, false,
  u32, u64, some, length, Bytes, ok, timeout, ◌>>=◌, ◌∙◌, ap,
}
use payloader.Interfaces.{RtpCall, AvPacket, AvMediaType}
use payloader.Rtp.Fragmenter.{Fragment, RtpFragmenter, new_fragmenter}
use payloader.Rtp.Fragmenter.Tiling.{Tiles, new_fragmenter-Tiles, Tiles-length}
use payloader.Rtp.Fragmenter.Packet.{is_last, payload_of}
use payloader.Packager.Round.{IsCall, loop_at, queued, round-Rounded, round-Idle}
use payloader.Packager.{Packager, rtp_header, Loop, rounds, rtp_timestamp, receive_packet}

-- `init` has been called with memory enough, and a sink is set.
pub record IsReady (p : Packager) : Type 0 where
  pub has_sink : p.sink ≡ true
  pub out_block : Bytes
  pub has_out : p.out_buff ≡ some out_block
  pub out_size : length out_block ≡ 2000
  pub rtp_block : Bytes
  pub has_rtp : p.rtp_buffer ≡ some rtp_block
  pub rtp_size : length rtp_block ≡ 2000

-- One call for each fragment, in order: consecutive sequence numbers, one timestamp, the marker on
-- the last one alone, and the fragment's bytes of the frame.
abbrev pub Calls : (garbage timestamp seq : ℕ) → Bytes → List Fragment → List RtpCall → Type 0
Calls garbage timestamp seq bytes [] [] = Unit
Calls garbage timestamp seq bytes (f ∷ fs) (c ∷ cs) =
    IsCall (rtp_header garbage (is_last fs) seq timestamp) (payload_of bytes f) c
    × Calls garbage timestamp (u32 (seq + 1)) bytes fs cs
Calls garbage timestamp seq bytes _ _ = ⊥

-- What the loop returns from a queue that is not empty.
record Sent (garbage timestamp fuel seq : ℕ) (frag : RtpFragmenter) (fs : List Fragment)
    (calls : List RtpCall) (s : Loop) : Type 0 where
  final : Loop
  sent : List RtpCall
  returns : rounds garbage fuel timestamp s ≡ ok final
  are_calls : Calls garbage timestamp seq frag.total_data fs sent
  appended : final.calls ≡ calls ++ sent
  is_ready : IsReady final.packager
  counted : final.packager.video_seq_num ≡ (seq + length fs) % 2 ^ 32

module _ (garbage timestamp end : ℕ) (frag : RtpFragmenter)
    (enough : end ≤ length frag.total_data) where
  rounds-Sent :
      (fuel pos seq : ℕ) (f : Fragment) (fs : List Fragment) (out_block rtp_block : Bytes)
      (calls : List RtpCall)
      → length (f ∷ fs) ≤ fuel
      → Tiles pos end (f ∷ fs)
      → length out_block ≡ 2000
      → length rtp_block ≡ 2000
      → Sent garbage timestamp fuel seq frag
          (f ∷ fs)
          calls
          (loop_at (queued frag (f ∷ fs)) false seq out_block rtp_block calls)
  unfolding rounds
  rounds-Sent zero pos seq f fs out_block rtp_block calls enough_fuel tiles out_size rtp_size =
      absurd (omega arith)
  rounds-Sent (suc fuel) pos seq f [] out_block rtp_block calls enough_fuel (one, done) out_size
        rtp_size =
      let r =
        round-Rounded garbage timestamp frag f [] seq out_block rtp_block calls
          (omega (arith, one.starts, one.inside)) one.fits out_size rtp_size in
      record {
        final =
            loop_at (queued frag []) true (u32 (seq + 1)) r.out_block r.rtp_block
              (calls ++ r.call ∷ []);
        sent = r.call ∷ [];
        returns = rw r.returns;
        are_calls = (r.is_call, tt);
        appended = refl;
        is_ready = record {
          has_sink = refl;
          out_block = r.out_block;
          has_out = refl;
          out_size = r.out_size;
          rtp_block = r.rtp_block;
          has_rtp = refl;
          rtp_size = r.rtp_size;
        };
        counted = omega arith;
      }
  rounds-Sent (suc fuel) pos seq f (g ∷ fs) out_block rtp_block calls enough_fuel (one, tiles)
        out_size rtp_size =
      let r =
        round-Rounded garbage timestamp frag f (g ∷ fs) seq out_block rtp_block calls
          (omega (arith, one.starts, one.inside)) one.fits out_size rtp_size in
      let later =
        rounds-Sent fuel (pos + f.size) (u32 (seq + 1)) g fs r.out_block r.rtp_block
          (calls ++ r.call ∷ []) (omega arith) tiles r.out_size r.rtp_size in
      record {
        final = later.final;
        sent = r.call ∷ later.sent;
        returns = rw r.returns later.returns;
        are_calls = (r.is_call, later.are_calls);
        appended = later.appended ∙ append_assoc calls (r.call ∷ []) later.sent;
        is_ready = later.is_ready;
        counted = omega (arith, later.counted);
      }

  -- A queue that is empty from the start: no fuel is enough.
  rounds-timeout :
      (fuel seq : ℕ) (out_block rtp_block : Bytes) (calls : List RtpCall)
      → length rtp_block ≡ 2000
      → rounds garbage fuel timestamp (loop_at (queued frag []) false seq out_block rtp_block calls)
        ≡ timeout
  unfolding rounds
  rounds-timeout zero seq out_block rtp_block calls size = refl
  rounds-timeout (suc fuel) seq out_block rtp_block calls size =
      let i = round-Idle garbage timestamp frag seq out_block rtp_block calls size in
      rw i.returns (rounds-timeout fuel i.seq i.out_block i.rtp_block i.calls i.rtp_size)

-- What `receivePacket` returns for a frame: the new state and the calls of the sink.
pub record Packaged (av_rescale : ℕ → ℕ → ℕ → ℕ) (garbage fuel millis : ℕ) (packet : AvPacket)
    (p : Packager) : Type 0 where
  pub fragments : List Fragment
  pub tiles : Tiles 0 packet.size fragments
  pub final : Packager
  pub sent : List RtpCall
  pub returns :
      receive_packet av_rescale garbage fuel millis packet AvMediaType.video p ≡ ok (final, sent)
  pub are_calls :
      Calls garbage
        (u64 (rtp_timestamp av_rescale millis (u32 packet.dts)))
        p.video_seq_num
        packet.bytes
        fragments
        sent
  pub is_ready : IsReady final
  pub counted : final.video_seq_num ≡ (p.video_seq_num + length fragments) % 2 ^ 32

ready_eq :
    (p : Packager) (r : IsReady p)
    → p ≡ record {
      sink = true;
      video_seq_num = p.video_seq_num;
      out_buff = some r.out_block;
      rtp_buffer = some r.rtp_block;
    }
ready_eq p r = ground (arith, r.has_sink, r.has_out, r.has_rtp)

abbrev start : RtpFragmenter → Packager → Loop
start frag p = record { frag = frag; last_frame = false; packager = p; calls = [] }

start_ready :
    (frag : RtpFragmenter) (p : Packager) (r : IsReady p)
    → start frag p ≡ loop_at frag false p.video_seq_num r.out_block r.rtp_block []
start_ready frag p r = ap (start frag) (ready_eq p r)

receive_packet-rounds :
    (av_rescale : ℕ → ℕ → ℕ → ℕ) (garbage fuel millis : ℕ) (packet : AvPacket) (p : Packager)
    (r : IsReady p) (fs : List Fragment)
    → packet.size < 2 ^ 31
    → new_fragmenter packet.bytes packet.size
      ≡ ok (record { total_data = packet.bytes; total_lenth = packet.size; fragment_queue = fs })
    → receive_packet av_rescale garbage fuel millis packet AvMediaType.video p ≡ (
        rounds garbage fuel (u64 (rtp_timestamp av_rescale millis (u32 packet.dts))) (
          loop_at
            (record { total_data = packet.bytes; total_lenth = packet.size; fragment_queue = fs })
            false
            p.video_seq_num
            r.out_block
            r.rtp_block
            [])
        >>= λ s. ok (s.packager, s.calls))
unfolding receive_packet
receive_packet-rounds av_rescale garbage fuel millis packet p r fs small made =
    let e : u32 packet.size ≡ packet.size = omega arith in rw (e, made, start_ready _ p r)

send_all :
    (av_rescale : ℕ → ℕ → ℕ → ℕ) (garbage fuel millis : ℕ) (packet : AvPacket) (p : Packager)
    (r : IsReady p) (fs : List Fragment)
    → packet.size < 2 ^ 31
    → 0 < packet.size
    → packet.size ≤ length packet.bytes
    → new_fragmenter packet.bytes packet.size
      ≡ ok (record { total_data = packet.bytes; total_lenth = packet.size; fragment_queue = fs })
    → Tiles 0 packet.size fs
    → length fs ≤ fuel
    → Packaged av_rescale garbage fuel millis packet p
send_all av_rescale garbage fuel millis packet p r [] small pos held made tiles enough =
    absurd (omega arith)
send_all av_rescale garbage fuel millis packet p r (f ∷ fs) small pos held made tiles enough =
    let frag : RtpFragmenter = record {
      total_data = packet.bytes;
      total_lenth = packet.size;
      fragment_queue = f ∷ fs;
    } in
    let s =
      rounds-Sent garbage (u64 (rtp_timestamp av_rescale millis (u32 packet.dts))) packet.size frag
        held fuel 0 p.video_seq_num f fs r.out_block r.rtp_block [] enough tiles r.out_size
        r.rtp_size in
    record {
      fragments = f ∷ fs;
      tiles = tiles;
      final = s.final.packager;
      sent = s.sent;
      returns =
          receive_packet-rounds av_rescale garbage fuel millis packet p r (f ∷ fs) small made
          ∙ rw (s.returns, s.appended);
      are_calls = s.are_calls;
      is_ready = s.is_ready;
      counted = s.counted;
    }

-- A ready packager (both blocks allocated, a sink set) sends a video frame of 1 to 2^31 - 1
-- bytes completely, given at least one round of fuel for each 1099 bytes: the loop ends, the
-- fragments cut the frame, and each of them makes one call of the sink, with consecutive
-- sequence numbers, one timestamp and the marker on the last. The packager is ready for the
-- next frame and its sequence number has advanced by the number of packets.
pub receive_packet-Packaged :
    (av_rescale : ℕ → ℕ → ℕ → ℕ) (garbage fuel millis : ℕ) (packet : AvPacket) (p : Packager)
    → IsReady p
    → 0 < packet.size
    → packet.size < 2 ^ 31
    → packet.size ≤ length packet.bytes
    → packet.size ≤ 1099 * fuel
    → Packaged av_rescale garbage fuel millis packet p
receive_packet-Packaged av_rescale garbage fuel millis packet p r pos small held enough =
    let (fs, made, tiles) = new_fragmenter-Tiles packet.bytes packet.size (omega arith) in
    send_all av_rescale garbage fuel millis packet p r fs small pos held made tiles
      (omega (arith, Tiles-length 0 packet.size fs tiles))

eq_nil : (n : ℕ) (fs : List Fragment) → n ≡ 0 → Tiles 0 n fs → fs ≡ []
eq_nil n [] e t = refl
eq_nil n (f ∷ fs) e (one, t) = absurd (omega (arith, one.nonempty, one.inside))

-- For a video frame of no bytes the loop of a ready packager does not end: it runs out of
-- fuel, whatever fuel it is given.
pub receive_packet-empty :
    (av_rescale : ℕ → ℕ → ℕ → ℕ) (garbage fuel millis : ℕ) (packet : AvPacket) (p : Packager)
    → IsReady p
    → packet.size ≡ 0
    → receive_packet av_rescale garbage fuel millis packet AvMediaType.video p ≡ timeout
receive_packet-empty av_rescale garbage fuel millis packet p r empty =
    let (fs, made, tiles) = new_fragmenter-Tiles packet.bytes packet.size (omega arith) in
    let none_left = eq_nil packet.size fs empty tiles in
    let frag : RtpFragmenter = record {
      total_data = packet.bytes;
      total_lenth = packet.size;
      fragment_queue = [];
    } in
    receive_packet-rounds av_rescale garbage fuel millis packet p r [] (omega arith)
      (rw none_left at made)
    ∙ rw (
        rounds-timeout garbage _ 0 frag (omega arith) fuel p.video_seq_num r.out_block r.rtp_block
          [] r.rtp_size)
