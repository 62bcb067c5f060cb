-- ===== src/Rtcp/Views.antt =====
-- The accessors of an RTCP packet against one another and against the bytes on the wire.
use mathlib.Core.Logic.{◌↔◌}
use payloader.Base.{ℕ, ◌+◌, ◌*◌, ◌%◌, ◌^◌, ◌<◌, ◌≡◌, ◌⊎◌, arith, true, swap16, swap32}
use payloader.Rtcp.Header.{RtcpHeader, is_feedback, is_rtcp}
use payloader.Rtcp.Reports.{
  get_source_ssrc, set_source_ssrc, get_fraction_lost, set_fraction_lost, get_lost_packets,
  set_lost_packets, get_seqnum_cycles, set_seqnum_cycles, get_highest_seqnum, set_highest_seqnum,
  get_jitter, set_jitter, get_last_sr, set_last_sr, get_delay_since_last_sr,
  set_delay_since_last_sr, get_ntp_timestamp, get_nack_pid, set_nack_pid, get_nack_blp,
  set_nack_blp,
}

-- Every word of the packet fits 32 bits.
pub record IsRtcp (h : RtcpHeader) : Type 0 where
  pub fits0 : h.word0 < 2 ^ 32
  pub fits1 : h.word1 < 2 ^ 32
  pub fits2 : h.word2 < 2 ^ 32
  pub fits3 : h.word3 < 2 ^ 32
  pub fits4 : h.word4 < 2 ^ 32
  pub fits5 : h.word5 < 2 ^ 32

-- A packet counts as RTCP exactly if its type is 200, 201, 204, 205 or 206. So a source
-- description (202) and a goodbye (203) do not count.
pub is_rtcp_iff :
    (h : RtcpHeader)
    → (is_rtcp h ≡ true) ↔ (
        (h.packettype ≡ 200)
        ⊎ ((h.packettype ≡ 201)
            ⊎ ((h.packettype ≡ 204) ⊎ ((h.packettype ≡ 205) ⊎ (h.packettype ≡ 206)))))
unfolding is_rtcp is_feedback
is_rtcp_iff h = ground arith

-- In a header whose words fit 32 bits, setting the fraction and the number of lost packets of
-- a receiver report leaves both there, modulo 2^8 and 2^24, and the order of the two setters
-- does not matter.
pub loss-set :
    (h : RtcpHeader) (fraction lost : ℕ)
    → IsRtcp h
    → (get_fraction_lost (set_lost_packets lost (set_fraction_lost fraction h)) ≡ fraction % 256)
      × (get_lost_packets (set_lost_packets lost (set_fraction_lost fraction h)) ≡ lost % 2 ^ 24)
      × (set_lost_packets lost (set_fraction_lost fraction h)
          ≡ set_fraction_lost fraction (set_lost_packets lost h))
unfolding get_fraction_lost set_fraction_lost get_lost_packets set_lost_packets swap32
loss-set h fraction lost f = ground arith

-- In a header whose words fit 32 bits, setting the two halves of the extended sequence number
-- leaves both there modulo 2^16, and so does setting the two halves of a negative
-- acknowledgement, whose `blp` is kept in host order.
pub seqnum-set :
    (h : RtcpHeader) (cycles highest pid blp : ℕ)
    → IsRtcp h
    → (get_seqnum_cycles (set_highest_seqnum highest (set_seqnum_cycles cycles h))
        ≡ cycles % 2 ^ 16)
      × (get_highest_seqnum (set_highest_seqnum highest (set_seqnum_cycles cycles h))
          ≡ highest % 2 ^ 16)
      × (get_nack_pid (set_nack_blp blp (set_nack_pid pid h)) ≡ pid % 2 ^ 16)
      × (get_nack_blp (set_nack_blp blp (set_nack_pid pid h)) ≡ blp % 2 ^ 16)
unfolding get_seqnum_cycles set_seqnum_cycles get_highest_seqnum set_highest_seqnum get_nack_pid
    set_nack_pid get_nack_blp set_nack_blp swap16
seqnum-set h cycles highest pid blp f = (omega arith, omega arith, omega arith, omega arith)

-- The source, the jitter, the last sender report and the delay of a receiver report, set one
-- after the other, come back modulo 2^32, each by its own getter.
pub report-set :
    (h : RtcpHeader) (source jitter sr delay : ℕ)
    → let r =
        set_delay_since_last_sr delay
          (set_last_sr sr (set_jitter jitter (set_source_ssrc source h))) in
      (get_source_ssrc r ≡ source % 2 ^ 32)
      × (get_jitter r ≡ jitter % 2 ^ 32)
      × (get_last_sr r ≡ sr % 2 ^ 32)
      × (get_delay_since_last_sr r ≡ delay % 2 ^ 32)
unfolding get_source_ssrc set_source_ssrc get_jitter set_jitter get_last_sr set_last_sr
    get_delay_since_last_sr set_delay_since_last_sr swap32
report-set h source jitter sr delay = (omega arith, omega arith, omega arith, omega arith)

-- The sender report's timestamp is the big-endian number of the eight bytes b0 ... b7 that
-- stand in the first two words of the report.
pub get_ntp_timestamp-big_endian :
    (h : RtcpHeader) (b0 b1 b2 b3 b4 b5 b6 b7 : ℕ)
    → (b0 < 256) × (b1 < 256) × (b2 < 256) × (b3 < 256)
    → (b4 < 256) × (b5 < 256) × (b6 < 256) × (b7 < 256)
    → h.word0 ≡ b0 + b1 * 2 ^ 8 + b2 * 2 ^ 16 + b3 * 2 ^ 24
    → h.word1 ≡ b4 + b5 * 2 ^ 8 + b6 * 2 ^ 16 + b7 * 2 ^ 24
    → get_ntp_timestamp h
      ≡ b0 * 2 ^ 56
        + b1 * 2 ^ 48
        + b2 * 2 ^ 40
        + b3 * 2 ^ 32
        + (b4 * 2 ^ 24 + b5 * 2 ^ 16 + b6 * 2 ^ 8 + b7)
unfolding get_ntp_timestamp swap32
get_ntp_timestamp-big_endian h b0 b1 b2 b3 b4 b5 b6 b7 p q e0 e1 = omega arith
