-- ===== src/Interfaces.antt =====
-- src/libs/Interfaces.h: the values that one stage of the pipeline hands to the next.
use payloader.Base.{ℕ, ℤ, Bytes, ◌+◌, ◌-◌, ◌^◌, ltb, if◌then◌else◌, List, [], ◌∷◌, take}

-- The `AVMediaType` values that the sources name; `other` stands for all the rest.
pub data AvMediaType : Type 0 where
  unknown video audio other : AvMediaType

-- The fields of an `AVPacket` that the stages read: `dts` is the pattern of an `int64_t`.
pub record AvPacket : Type 0 where
  pub bytes : Bytes
  pub size : ℕ
  pub dts : ℕ

-- A call of `RtpReceiver::receiveRtpPacket`: the whole block that the pointer leads into, and the size.
pub record RtpCall : Type 0 where
  pub in_buff : Bytes
  pub buff_size : ℕ

-- A call of `PacketReceiver::receivePacket` by the unpackager.
pub record Delivery : Type 0 where
  pub bytes : Bytes
  pub size : ℕ
  pub dts : ℤ
  pub type : AvMediaType

-- An `int` widened to `int64_t`, on patterns.
abbrev pub sign_extend32 : ℕ → ℕ
sign_extend32 n = if ltb n (2 ^ 31) then n else n + (2 ^ 64 - 2 ^ 32)

-- The bytes that each call hands over.
abbrev pub payloads : List RtpCall → List Bytes
payloads [] = []
payloads (c ∷ cs) = take c.buff_size c.in_buff ∷ payloads cs

-- The fields of an `AVFrame` that the stages read, and its samples.
pub record AvFrame : Type 0 where
  pub width : ℕ
  pub height : ℕ
  pub samples : Bytes

-- A call of `FrameReceiver::receiveFrame`.
pub record FrameCall : Type 0 where
  pub frame : AvFrame
  pub type : AvMediaType
