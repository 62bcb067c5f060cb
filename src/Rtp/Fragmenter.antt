-- ===== src/Rtp/Fragmenter.antt =====
-- src/libs/rtp/RtpFragmenter.cpp: a frame is cut into fragments that fit a packet.
pub mod Tiling
pub mod Packet
use payloader.Base.{
  ℕ, zero, suc, ◌+◌, ◌-◌, ◌∷◌, ◌++◌, List, [], Bool, true, false, ltb, ◌==◌, if◌then◌else◌, u32,
  Bytes, read_block, write_block, Outcome, ok, timeout, ◌>>=◌, access, ◌^◌, ◌%◌,
}

pub record Fragment : Type 0 where
  pub position : ℕ
  pub size : ℕ
  pub first : Bool

pub record RtpFragmenter : Type 0 where
  pub total_data : Bytes
  pub total_lenth : ℕ
  pub fragment_queue : List Fragment

abbrev pub max_size : ℕ
max_size = 1100

-- The macro `VP8`.
abbrev pub vp8 : Bool
vp8 = false

pub new_fragment : (remaining current_pos : ℕ) → Fragment
new_fragment remaining current_pos = record {
  position = current_pos;
  size = if ltb (max_size - 1) remaining then max_size - 1 else remaining;
  first = current_pos == 0;
}

-- The loop `while (remaining > 0)` on fuel, from the queue filled so far.
pub calculate_packets : (fuel remaining current_pos : ℕ) → List Fragment → Outcome (List Fragment)
calculate_packets zero remaining current_pos queue = if remaining == 0 then ok queue else timeout
calculate_packets (suc fuel) remaining current_pos queue = elim (ltb 0 remaining) [
  | true ↦
      let f = new_fragment remaining current_pos in
      calculate_packets fuel (u32 (remaining + 2 ^ 32 - f.size)) (u32 (current_pos + f.size))
        (queue ++ f ∷ [])
  | false ↦ ok queue
]

-- The constructor. Each round takes at least one byte, so `length` rounds are enough.
pub new_fragmenter : Bytes → ℕ → Outcome RtpFragmenter
new_fragmenter bytes len = do
  queue ← calculate_packets len len 0 []
  ok (record { total_data = bytes; total_lenth = len; fragment_queue = queue })

-- What `memcpy` takes from the frame, behind the payload descriptor if there is one.
pub fragment_bytes : Bytes → Fragment → Outcome Bytes
fragment_bytes total_data f = do
  payload ← access (read_block total_data f.position f.size)
  ok (if vp8 then (if f.first then 0x10 else 0) ∷ payload else payload)

-- The buffer after the write, and the returned length.
pub write_fragment : Bytes → Fragment → Bytes → Outcome (Bytes × ℕ)
unfolding fragment_bytes
write_fragment total_data f buffer = do
  bytes ← fragment_bytes total_data f
  written ← access (write_block buffer 0 bytes)
  ok (written, if vp8 then f.size + 1 else f.size)

pub record PacketOut : Type 0 where
  pub fragmenter : RtpFragmenter
  pub buffer : Bytes
  pub len : ℕ
  pub last_packet : Bool

-- With an empty queue `getPacket` writes none of its results.
pub get_packet_from : RtpFragmenter → List Fragment → Bytes → ℕ → Bool → Outcome PacketOut
get_packet_from frag [] buffer len last =
    ok (record { fragmenter = frag; buffer = buffer; len = len; last_packet = last })
get_packet_from frag (f ∷ rest) buffer len last = do
  (written, size) ← write_fragment frag.total_data f buffer
  ok (record {
    fragmenter = record frag { fragment_queue = rest };
    buffer = written;
    len = size;
    last_packet = elim rest [ [] ↦ true | _ ∷ _ ↦ last ];
  })

abbrev pub get_packet : RtpFragmenter → Bytes → ℕ → Bool → Outcome PacketOut
get_packet frag = get_packet_from frag frag.fragment_queue
