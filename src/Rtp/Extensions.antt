-- ===== src/Rtp/Extensions.antt =====
-- src/libs/rtp/RtpHeaders.h: AbsSendTimeExtension, RtpRtxHeader, FirHeader and RedHeader.
pub mod Laws
use payloader.Base.{ℕ, ◌+◌, ◌-◌, swap16, swap32, low_bits, shr, mask_bits, u8, u16, u32}
use payloader.Rtp.Header.{RtpHeader}

pub record AbsSendTimeExtension : Type 0 where
  pub ext_info : ℕ
  pub abs_data : ℕ

pub get_id : AbsSendTimeExtension → ℕ
get_id x = u8 (shr x.ext_info 4)

pub get_ext_length : AbsSendTimeExtension → ℕ
get_ext_length x = u8 (low_bits 4 x.ext_info)

pub get_abs_send_time : AbsSendTimeExtension → ℕ
get_abs_send_time x = shr (swap32 x.abs_data) 8

pub set_abs_send_time : ℕ → AbsSendTimeExtension → AbsSendTimeExtension
set_abs_send_time t x = record x { abs_data = low_bits 24 (shr (swap32 (u32 t)) 8) }

pub record RtpRtxHeader : Type 0 where
  pub rtp_header : RtpHeader
  pub osn : ℕ

pub get_osn : RtpRtxHeader → ℕ
get_osn x = swap16 x.osn

pub set_os : ℕ → RtpRtxHeader → RtpRtxHeader
set_os v x = record x { osn = swap16 (u16 v) }

-- The 24 bits `ts_length` hold a 14-bit timestamp offset and a 10-bit block length in network order.
pub record RedHeader : Type 0 where
  pub payloadtype : ℕ
  pub follow : ℕ
  pub ts_length : ℕ

-- `(ntohl(tsLength) & 0xfffc0000) >> 18`
pub get_ts : RedHeader → ℕ
get_ts x = shr (mask_bits 18 14 (swap32 x.ts_length)) 18

-- `ntohl(tsLength) & 0x3ff00`
pub get_length : RedHeader → ℕ
get_length x = mask_bits 8 10 (swap32 x.ts_length)
