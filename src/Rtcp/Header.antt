-- ===== src/Rtcp/Header.antt =====
-- src/libs/rtp/RtpHeaders.h, class RtcpHeader: the fixed part and the packet types. The union
-- `report` is its memory, six 32-bit words of a little-endian host, so that the members that share
-- a word share it here.
use payloader.Base.{ℕ, Bool, ◌||◌, ◌==◌, swap16, swap32, low_bits, u8, u16, u32}

pub record RtcpHeader : Type 0 where
  pub blockcount : ℕ
  pub padding : ℕ
  pub version : ℕ
  pub packettype : ℕ
  pub length : ℕ
  pub ssrc : ℕ
  pub word0 : ℕ
  pub word1 : ℕ
  pub word2 : ℕ
  pub word3 : ℕ
  pub word4 : ℕ
  pub word5 : ℕ

abbrev pub rtcp_sender_pt : ℕ
rtcp_sender_pt = 200

abbrev pub rtcp_receiver_pt : ℕ
rtcp_receiver_pt = 201

abbrev pub rtcp_sdes_pt : ℕ
rtcp_sdes_pt = 202

abbrev pub rtcp_bye : ℕ
rtcp_bye = 203

abbrev pub rtcp_app : ℕ
rtcp_app = 204

abbrev pub rtcp_rtp_feedback_pt : ℕ
rtcp_rtp_feedback_pt = 205

abbrev pub rtcp_ps_feedback_pt : ℕ
rtcp_ps_feedback_pt = 206

-- The constructor leaves the words of `report` as the memory has them.
abbrev pub new_rtcp_header : (w0 w1 w2 w3 w4 w5 : ℕ) → RtcpHeader
new_rtcp_header w0 w1 w2 w3 w4 w5 = record {
  blockcount = 0;
  padding = 0;
  version = 2;
  packettype = 0;
  length = 0;
  ssrc = 0;
  word0 = w0;
  word1 = w1;
  word2 = w2;
  word3 = w3;
  word4 = w4;
  word5 = w5;
}

unfoldable pub is_feedback : RtcpHeader → Bool
is_feedback h =
    h.packettype == rtcp_receiver_pt
    || h.packettype == rtcp_ps_feedback_pt
    || h.packettype == rtcp_rtp_feedback_pt

unfoldable pub is_rtcp : RtcpHeader → Bool
unfolding is_feedback
is_rtcp h = h.packettype == rtcp_sender_pt || h.packettype == rtcp_app || is_feedback h

abbrev pub get_packet_type : RtcpHeader → ℕ
get_packet_type h = u8 h.packettype

abbrev pub set_packet_type : ℕ → RtcpHeader → RtcpHeader
set_packet_type v h = record h { packettype = low_bits 8 (u8 v) }

abbrev pub get_block_count : RtcpHeader → ℕ
get_block_count h = u8 h.blockcount

abbrev pub set_block_count : ℕ → RtcpHeader → RtcpHeader
set_block_count v h = record h { blockcount = low_bits 5 (u8 v) }

unfoldable pub get_length : RtcpHeader → ℕ
get_length h = swap16 h.length

unfoldable pub set_length : ℕ → RtcpHeader → RtcpHeader
set_length v h = record h { length = swap16 (u16 v) }

unfoldable pub get_ssrc : RtcpHeader → ℕ
get_ssrc h = swap32 h.ssrc

unfoldable pub set_ssrc : ℕ → RtcpHeader → RtcpHeader
set_ssrc v h = record h { ssrc = swap32 (u32 v) }
