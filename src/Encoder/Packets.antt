-- ===== src/Encoder/Packets.antt =====
-- What an encoder that has been opened gives for the frames that follow, and what it leaves behind.
use payloader.Base.{
  ℕ, zero, suc, Bool, pos, ◌≡◌, refl, arith, List, [], ◌∷◌, ◌++◌, map, true, some, if◌then◌else◌,
  Outcome, ok, ◌>>=◌, ◌+◌, length,
}
use payloader.Interfaces.{AvMediaType, AvPacket}
use payloader.Codecs.{VideoCodecInfo, AudioCodecInfo}
use payloader.Ffmpeg.{CodecAnswers, Reply, Routed, is_set_pointer, audio_context}
use payloader.Encoder.{
  Encoder, video_context, init_video, init_audio, init, packet_loop, encode_frame, receive_frame,
}

abbrev pub video_call : AvPacket → Routed
video_call p = record { packet = p; type = AvMediaType.video }

packet_loop-sink :
    (type : AvMediaType) (ps : List AvPacket)
    → packet_loop true type ps ≡ map (λ p. record { packet = p; type = type }) ps
unfolding packet_loop
packet_loop-sink type [] = refl
packet_loop-sink type (p ∷ ps) = rw (packet_loop-sink type ps)

-- If `init` reports success, each codec that is enabled has its context open with the settings given
-- to it, each that is not is left as it was, and the sink is kept.
pub init-opened :
    (audio_info : AudioCodecInfo) (video_info : VideoCodecInfo) (a v : CodecAnswers) (e t : Encoder)
    → init audio_info video_info a v e ≡ (t, pos 1)
    → (t.sink ≡ e.sink)
      × (t.v_encoder_context ≡ (
          if video_info.enabled then some (video_context video_info true) else e.v_encoder_context))
      × (t.a_encoder_context
          ≡ (if audio_info.enabled then some (audio_context true) else e.a_encoder_context))
unfolding init init_video init_audio
init-opened audio_info video_info a v e t h = ground arith

-- An encoder that has been opened for video with a sink never meets a null pointer if its packet can
-- be allocated: all packets that the codec gives for an accepted frame reach the sink in order, and
-- a frame that is refused gives none.
pub receive_frame-opened :
    (audio_info : AudioCodecInfo) (video_info : VideoCodecInfo) (a v : CodecAnswers) (e t : Encoder)
    (reply : Reply AvPacket) (live : ℕ)
    → video_info.enabled ≡ true
    → e.sink ≡ true
    → init audio_info video_info a v e ≡ (t, pos 1)
    → receive_frame true reply AvMediaType.video t live
      ≡ ok ((if reply.accepted then map video_call reply.items else []), 1 + live)
unfolding receive_frame encode_frame
receive_frame-opened audio_info video_info a v e t reply live ev es h =
    let (sink, context, _) = init-opened audio_info video_info a v e t h in
    let all = packet_loop-sink AvMediaType.video reply.items in ground arith

-- A run over the codec's answers to a sequence of frames. `allocated` tells whether `av_packet_alloc`
-- succeeds where so many packets are allocated.
unfoldable pub encode_all :
    (allocated : ℕ → Bool) → List (Reply AvPacket) → Encoder → ℕ → Outcome (List Routed × ℕ)
encode_all allocated [] e live = ok ([], live)
encode_all allocated (r ∷ rs) e live = do
  first ← receive_frame (allocated live) r AvMediaType.video e live
  rest ← encode_all allocated rs e first.1
  ok (first.0 ++ rest.0, rest.1)

-- The first `count` packets behind those that are allocated can be allocated too.
abbrev pub AllAllocate : (allocated : ℕ → Bool) → (live count : ℕ) → Type 0
AllAllocate allocated live zero = Unit
AllAllocate allocated live (suc count) =
    (allocated live ≡ true) × AllAllocate allocated (1 + live) count

-- The packets of the accepted frames.
unfoldable pub accepted_packets : List (Reply AvPacket) → List AvPacket
accepted_packets [] = []
accepted_packets (r ∷ rs) =
    let rest = accepted_packets rs in if r.accepted then r.items ++ rest else rest

map-append :
    (ps qs : List AvPacket) → map video_call (ps ++ qs) ≡ map video_call ps ++ map video_call qs
map-append [] qs = refl
map-append (p ∷ ps) qs = rw (map-append ps qs)

pub receive_frame-context :
    (reply : Reply AvPacket) (e : Encoder) (live : ℕ)
    → is_set_pointer e.v_encoder_context ≡ true
    → e.sink ≡ true
    → receive_frame true reply AvMediaType.video e live
      ≡ ok ((if reply.accepted then map video_call reply.items else []), 1 + live)
unfolding receive_frame encode_frame
receive_frame-context reply e live context sink =
    let all = packet_loop-sink AvMediaType.video reply.items in ground arith

-- With an open context and a sink, and if an `AVPacket` can be allocated for each frame, a run over any
-- number of frames ends: the packets of the accepted frames reach the sink in order, and each frame,
-- accepted or not, leaves one more `AVPacket` allocated.
pub encode_all-live :
    (allocated : ℕ → Bool) (rs : List (Reply AvPacket)) (e : Encoder) (live : ℕ)
    → AllAllocate allocated live (length rs)
    → is_set_pointer e.v_encoder_context ≡ true
    → e.sink ≡ true
    → encode_all allocated rs e live ≡ ok (map video_call (accepted_packets rs), length rs + live)
unfolding encode_all accepted_packets
encode_all-live allocated [] e live room context sink =
    let none_left : 0 + live ≡ live = omega arith in rw none_left
encode_all-live allocated (r ∷ rs) e live (one, room) context sink =
    let first = receive_frame-context r e live context sink in
    let rest = encode_all-live allocated rs e (1 + live) room context sink in
    let joined = map-append r.items (accepted_packets rs) in
    let count : length rs + (1 + live) ≡ length (r ∷ rs) + live = omega arith in ground arith
