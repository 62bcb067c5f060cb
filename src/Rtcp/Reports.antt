-- ===== src/Rtcp/Reports.antt =====
-- src/libs/rtp/RtpHeaders.h, class RtcpHeader: the accessors of the members of `report`.
--   receiverReport  ssrcsource | fractionlost 8, lost 24 | seqnumcycles 16, highestseqnum 16
--                   | jitter | lastsr | delaysincelast
--   senderReport    ntptimestamp (two words) | rtprts | packetsent | octetssent
--   nackPacket      ssrcsource | pid 16, blp 16
--   rembPacket      ssrcsource | uniqueid | numssrc 8, brLength 24 | ssrcfeedb
--   pli             ssrcsource | fci
use payloader.Base.{
  ℕ, ◌+◌, ◌-◌, ◌*◌, ◌/◌, ◌%◌, ◌^◌, swap16, swap32, low_bits, shr, u8, u16, u32, u64, ltb,
  if◌then◌else◌,
}
use payloader.Rtcp.Header.{RtcpHeader}

-- A word whose low 8 bits, or high 24 bits, or one of the halves, are given anew.
abbrev with_low8 : ℕ → ℕ → ℕ
with_low8 w v = w / 2 ^ 8 * 2 ^ 8 + v

abbrev pub with_high24 : ℕ → ℕ → ℕ
with_high24 w v = w % 2 ^ 8 + v * 2 ^ 8

abbrev with_low16 : ℕ → ℕ → ℕ
with_low16 w v = w / 2 ^ 16 * 2 ^ 16 + v

abbrev with_high16 : ℕ → ℕ → ℕ
with_high16 w v = w % 2 ^ 16 + v * 2 ^ 16

-- A signed bit-field of 24 bits, converted to `uint32_t`.
abbrev sign_extend24 : ℕ → ℕ
sign_extend24 n = if ltb n (2 ^ 23) then n else n + (2 ^ 32 - 2 ^ 24)

unfoldable pub get_source_ssrc : RtcpHeader → ℕ
get_source_ssrc h = swap32 h.word0

unfoldable pub set_source_ssrc : ℕ → RtcpHeader → RtcpHeader
set_source_ssrc v h = record h { word0 = swap32 (u32 v) }

unfoldable pub get_fraction_lost : RtcpHeader → ℕ
get_fraction_lost h = u8 (low_bits 8 h.word1)

unfoldable pub set_fraction_lost : ℕ → RtcpHeader → RtcpHeader
set_fraction_lost v h = record h { word1 = with_low8 h.word1 (u8 v) }

unfoldable pub get_lost_packets : RtcpHeader → ℕ
get_lost_packets h = shr (swap32 (sign_extend24 (shr h.word1 8))) 8

unfoldable pub set_lost_packets : ℕ → RtcpHeader → RtcpHeader
set_lost_packets v h = record h {
  word1 = with_high24 h.word1 (low_bits 24 (shr (swap32 (u32 v)) 8));
}

unfoldable pub get_seqnum_cycles : RtcpHeader → ℕ
get_seqnum_cycles h = swap16 (low_bits 16 h.word2)

unfoldable pub set_seqnum_cycles : ℕ → RtcpHeader → RtcpHeader
set_seqnum_cycles v h = record h { word2 = with_low16 h.word2 (swap16 (u16 v)) }

unfoldable pub get_highest_seqnum : RtcpHeader → ℕ
get_highest_seqnum h = swap16 (shr h.word2 16)

unfoldable pub set_highest_seqnum : ℕ → RtcpHeader → RtcpHeader
set_highest_seqnum v h = record h { word2 = with_high16 h.word2 (swap16 (u16 v)) }

unfoldable pub get_jitter : RtcpHeader → ℕ
get_jitter h = swap32 h.word3

unfoldable pub set_jitter : ℕ → RtcpHeader → RtcpHeader
set_jitter v h = record h { word3 = swap32 (u32 v) }

unfoldable pub get_last_sr : RtcpHeader → ℕ
get_last_sr h = swap32 h.word4

unfoldable pub set_last_sr : ℕ → RtcpHeader → RtcpHeader
set_last_sr v h = record h { word4 = swap32 (u32 v) }

unfoldable pub get_delay_since_last_sr : RtcpHeader → ℕ
get_delay_since_last_sr h = swap32 h.word5

unfoldable pub set_delay_since_last_sr : ℕ → RtcpHeader → RtcpHeader
set_delay_since_last_sr v h = record h { word5 = swap32 (u32 v) }

unfoldable pub get_packets_sent : RtcpHeader → ℕ
get_packets_sent h = swap32 h.word3

unfoldable pub set_packets_sent : ℕ → RtcpHeader → RtcpHeader
set_packets_sent v h = record h { word3 = swap32 (u32 v) }

unfoldable pub get_octets_sent : RtcpHeader → ℕ
get_octets_sent h = swap32 h.word4

-- `report.senderReport.ntptimestamp`, a 64-bit load.
abbrev ntptimestamp : RtcpHeader → ℕ
ntptimestamp h = h.word0 + h.word1 * 2 ^ 32

unfoldable pub get_ntp_timestamp : RtcpHeader → ℕ
get_ntp_timestamp h =
    u64 (u64 (swap32 (u32 (ntptimestamp h)) * 2 ^ 32) + swap32 (u32 (shr (ntptimestamp h) 32)))

unfoldable pub get_nack_pid : RtcpHeader → ℕ
get_nack_pid h = swap16 (low_bits 16 h.word1)

unfoldable pub set_nack_pid : ℕ → RtcpHeader → RtcpHeader
set_nack_pid v h = record h { word1 = with_low16 h.word1 (swap16 (u16 v)) }

unfoldable pub get_nack_blp : RtcpHeader → ℕ
get_nack_blp h = u16 (shr h.word1 16)

unfoldable pub set_nack_blp : ℕ → RtcpHeader → RtcpHeader
set_nack_blp v h = record h { word1 = with_high16 h.word1 (u16 v) }

unfoldable pub get_remb_num_ssrc : RtcpHeader → ℕ
get_remb_num_ssrc h = u8 (low_bits 8 h.word2)

unfoldable pub set_remb_num_ssrc : ℕ → RtcpHeader → RtcpHeader
set_remb_num_ssrc v h = record h { word2 = with_low8 h.word2 (u8 v) }

unfoldable pub get_remb_feed_ssrc : RtcpHeader → ℕ
get_remb_feed_ssrc h = swap32 h.word3

unfoldable pub set_remb_feed_ssrc : ℕ → RtcpHeader → RtcpHeader
set_remb_feed_ssrc v h = record h { word3 = swap32 (u32 v) }

unfoldable pub get_fci : RtcpHeader → ℕ
get_fci h = swap32 h.word1

unfoldable pub set_fci : ℕ → RtcpHeader → RtcpHeader
set_fci v h = record h { word1 = swap32 (u32 v) }
