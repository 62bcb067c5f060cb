-- ===== src/Examples/Rtcp.antt =====
-- Concrete RTCP packets of src/libs/rtp.
use payloader.Base.{ℕ, ◌+◌, ◌*◌, ◌-◌, ◌^◌, ◌≤◌, ◌≡◌, arith, ok, fault, ◌>>=◌}
use payloader.Rtcp.Header.{RtcpHeader}
use payloader.Rtcp.Views.{IsRtcp}
use payloader.Rtcp.Remb.{set_remb_bit_rate, get_remb_bit_rate}
use payloader.Rtcp.Remb.RoundTrip.{get-set_remb_bit_rate, get_remb_bit_rate_faults}

abbrev packet : RtcpHeader
packet = record {
  blockcount = 1;
  padding = 0;
  version = 2;
  packettype = 201;
  length = 7;
  ssrc = 0;
  word0 = 1 + 2 * 2 ^ 8;
  word1 = 3;
  word2 = 0;
  word3 = 0;
  word4 = 0;
  word5 = 0;
}

packet-IsRtcp : IsRtcp packet
packet-IsRtcp = record {
  fits0 = omega arith;
  fits1 = omega arith;
  fits2 = omega arith;
  fits3 = omega arith;
  fits4 = omega arith;
  fits5 = omega arith;
}

get-set_remb_bit_rate_example :
    (q : ℕ) × ((set_remb_bit_rate 1000001 packet >>= get_remb_bit_rate) ≡ ok q)
    × (q ≤ 1000001)
    × ((1000001 - q) * 0x3ffff ≤ 2 * 1000001)
get-set_remb_bit_rate_example = get-set_remb_bit_rate 1000001 packet (omega arith)

get_remb_bit_rate_faults_example :
    (set_remb_bit_rate 1000000000000000 packet >>= get_remb_bit_rate) ≡ fault
get_remb_bit_rate_faults_example =
    get_remb_bit_rate_faults 1000000000000000 packet (omega arith) (omega arith)
