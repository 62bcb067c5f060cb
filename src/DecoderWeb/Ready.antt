-- ===== src/DecoderWeb/Ready.antt =====
-- What a decoder that has been opened does with the packets that follow.
use payloader.Base.{
  pos, ◌≡◌, refl, arith, List, [], ◌∷◌, map, true, false, some, if◌then◌else◌, ok, fault,
}
use payloader.Interfaces.{AvMediaType, AvFrame, FrameCall}
use payloader.Codecs.{VideoCodecInfo, AudioCodecInfo}
use payloader.Ffmpeg.{CodecAnswers, Reply, Decoded, AudioContext, audio_context}
use payloader.DecoderWeb.{
  DecoderWeb, VideoContext, init_video, init_audio, init, audio_loop, receive_packet,
}

abbrev pub audio_call : AvFrame → FrameCall
audio_call f = record { frame = f; type = AvMediaType.audio }

audio_loop-sink : (fs : List AvFrame) → audio_loop true fs ≡ ok (map audio_call fs)
unfolding audio_loop
audio_loop-sink [] = refl
audio_loop-sink (f ∷ fs) = rw (audio_loop-sink fs)

-- Without a sink the first frame ends the program, and so does the first of those behind it.
audio_loop-no_sink : (fs : List AvFrame) (f : AvFrame) → audio_loop false (f ∷ fs) ≡ fault
unfolding audio_loop
audio_loop-no_sink [] f = refl
audio_loop-no_sink (g ∷ gs) f = rw (audio_loop-no_sink gs g)

-- If `init` reports success, each codec that is enabled has its context open with the settings given
-- to it and its frame, each that is not is left as it was, and the sink is kept.
pub init-opened :
    (audio_info : AudioCodecInfo) (video_info : VideoCodecInfo) (a v : CodecAnswers)
    (d t : DecoderWeb)
    → init audio_info video_info a v d ≡ (t, pos 1)
    → (t.sink ≡ d.sink)
      × (t.v_decoder_context ≡ (
          if video_info.enabled
          then some (record {
            pix_fmt = video_info.pix_fmt;
            size = some (video_info.width, video_info.height);
            opened = true;
          })
          else d.v_decoder_context))
      × (t.v_frame ≡ (if video_info.enabled then true else d.v_frame))
      × (t.a_decoder_context
          ≡ (if audio_info.enabled then some (audio_context true) else d.a_decoder_context))
      × (t.a_frame ≡ (if audio_info.enabled then true else d.a_frame))
      × (t.a_decoder ≡ (if audio_info.enabled then true else d.a_decoder))
unfolding init init_video init_audio
init-opened audio_info video_info a v d t e = ground arith

-- A decoder that has been opened for both media with a sink never meets a null pointer: a video packet
-- gives its frame to the sink exactly if the frame is finished, and an audio packet that is
-- accepted gives all its frames in order.
pub receive_packet-opened :
    (audio_info : AudioCodecInfo) (video_info : VideoCodecInfo) (a v : CodecAnswers)
    (d t : DecoderWeb) (decoded : Decoded AvFrame) (reply : Reply AvFrame)
    → audio_info.enabled ≡ true
    → video_info.enabled ≡ true
    → d.sink ≡ true
    → init audio_info video_info a v d ≡ (t, pos 1)
    → (receive_packet decoded reply AvMediaType.video t
        ≡ ok (
            if decoded.frame_finished
            then record { frame = decoded.frame; type = AvMediaType.video } ∷ []
            else []))
      × (receive_packet decoded reply AvMediaType.audio t
          ≡ ok (if reply.accepted then map audio_call reply.items else []))
unfolding receive_packet
receive_packet-opened audio_info video_info a v d t decoded reply ea ev es e =
    let (sink, v_context, v_frame, a_context, a_frame, a_decoder) =
      init-opened audio_info video_info a v d t e in
    let all = audio_loop-sink reply.items in (ground arith, ground arith)

-- Without a sink a video packet is decoded all the same, but an audio packet that gives a frame calls
-- a method of a null pointer.
pub receive_packet-no_sink :
    (decoded : Decoded AvFrame) (f : AvFrame) (fs : List AvFrame) (c : AudioContext)
    (x : VideoContext) (d : DecoderWeb)
    → d.sink ≡ false
    → d.v_decoder_context ≡ some x
    → d.v_frame ≡ true
    → d.a_decoder ≡ true
    → d.a_decoder_context ≡ some c
    → (receive_packet decoded (record { accepted = true; items = f ∷ fs }) AvMediaType.video d
        ≡ ok [])
      × (receive_packet decoded (record { accepted = true; items = f ∷ fs }) AvMediaType.audio d
          ≡ fault)
unfolding receive_packet
receive_packet-no_sink decoded f fs c x d es ev ef ea ec =
    let none_called = audio_loop-no_sink fs f in (ground arith, ground arith)
