-- ===== src/Decoder/Ready.antt =====
-- What the result of `init` promises for the packets that follow.
use payloader.Base.{pos, ◌≡◌, refl, arith, [], ◌∷◌, Bool, true, ◌&&◌, if◌then◌else◌, ok, fault}
use payloader.Interfaces.{AvMediaType, AvFrame}
use payloader.Codecs.{AvCodecId, is_set, VideoCodecInfo}
use payloader.Ffmpeg.{CodecAnswers, Reply, Decoded}
use payloader.Decoder.{Decoder, new_decoder, set_sink, init_video, init, receive_packet}

-- If `init` reports success for a codec that is set, every later video packet is decoded without a
-- null pointer, and its frame reaches the sink exactly if it is finished and a sink is set.
pub receive_packet-init :
    (garbage : VideoCodecInfo) (codec_id : AvCodecId) (a : CodecAnswers) (d t : Decoder)
    (decoded : Decoded AvFrame) (reply : Reply AvFrame)
    → is_set codec_id ≡ true
    → init garbage codec_id a d ≡ (t, pos 1)
    → receive_packet decoded reply AvMediaType.video t
      ≡ ok (
          if decoded.frame_finished && d.sink
          then record { frame = decoded.frame; type = AvMediaType.video } ∷ []
          else [])
unfolding init init_video receive_packet
receive_packet-init garbage codec_id a d t decoded reply set e = ground arith

-- Without a codec `init` reports success as well, but a video packet then meets a null pointer.
pub receive_packet-unset :
    (garbage : VideoCodecInfo) (a : CodecAnswers) (receiver : Bool) (decoded : Decoded AvFrame)
    (reply : Reply AvFrame)
    → ((init garbage AvCodecId.unset a (set_sink receiver new_decoder)).1 ≡ pos 1)
      × (receive_packet decoded reply AvMediaType.video
            (init garbage AvCodecId.unset a (set_sink receiver new_decoder)).0
          ≡ fault)
unfolding init receive_packet
receive_packet-unset garbage a receiver decoded reply = (refl, refl)
