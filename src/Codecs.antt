-- ===== src/Codecs.antt =====
-- src/libs/Codecs.h: the settings of a codec.
use payloader.Base.{ℕ, Bool, true, false}

-- The `AVCodecID` values that the sources name; `other` stands for all the rest.
pub data AvCodecId : Type 0 where
  unset mpeg4 mjpeg rawvideo mlhe : AvCodecId
  other : ℕ → AvCodecId

-- `AV_CODEC_ID_NONE` is zero.
abbrev pub is_set : AvCodecId → Bool
is_set AvCodecId.unset = false
is_set _ = true

-- A pixel format is FFmpeg's number for it.
pub record VideoCodecInfo : Type 0 where
  pub enabled : Bool
  pub codec : AvCodecId
  pub width : ℕ
  pub height : ℕ
  pub bit_rate : ℕ
  pub frame_rate : ℕ
  pub pix_fmt : ℕ

pub record AudioCodecInfo : Type 0 where
  pub enabled : Bool
  pub codec : AvCodecId
  pub bit_rate : ℕ
  pub sample_rate : ℕ

-- The constructors set `enabled` alone.
abbrev pub new_video_codec_info : VideoCodecInfo → VideoCodecInfo
new_video_codec_info garbage = record garbage { enabled = false }

abbrev pub new_audio_codec_info : AudioCodecInfo → AudioCodecInfo
new_audio_codec_info garbage = record garbage { enabled = false }
