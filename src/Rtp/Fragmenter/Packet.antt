-- ===== src/Rtp/Fragmenter/Packet.antt =====
-- What `getPacket` hands out.
use payloader.Base.{
  ℕ, ◌+◌, ◌≤◌, ◌≡◌, refl, arith, ◌∷◌, ◌++◌, List, [], Bool, true, false, length, take, drop,
  length-take, length-drop, Bytes, ok, write_block-front, read_block_fits,
}
use payloader.Rtp.Fragmenter.{
  Fragment, RtpFragmenter, get_packet_from, write_fragment, fragment_bytes,
}

-- The last fragment of a queue is the one that nothing follows.
abbrev pub is_last : List Fragment → Bool
is_last [] = true
is_last (_ ∷ _) = false

abbrev pub payload_of : Bytes → Fragment → Bytes
payload_of bytes f = take f.size (drop f.position bytes)

pub length-payload_of :
    (bytes : Bytes) (f : Fragment)
    → f.position + f.size ≤ length bytes
    → length (payload_of bytes f) ≡ f.size
length-payload_of bytes f h =
    omega (arith, length-take f.size (drop f.position bytes), length-drop f.position bytes)

write_fragment-payload :
    (bytes : Bytes) (f : Fragment) (buffer : Bytes)
    → f.position + f.size ≤ length bytes
    → f.size ≤ length buffer
    → write_fragment bytes f buffer ≡ ok (payload_of bytes f ++ drop f.size buffer, f.size)
unfolding write_fragment fragment_bytes
write_fragment-payload bytes f buffer inside fits =
    let size = length-payload_of bytes f inside in
    rw (
      read_block_fits bytes f.position f.size inside,
      write_block-front buffer (payload_of bytes f) (rw size fits),
      size,
    )

last_packet-is_last :
    (rest : List Fragment) → elim rest [ [] ↦ true | _ ∷ _ ↦ false ] ≡ is_last rest
last_packet-is_last [] = refl
last_packet-is_last (_ ∷ _) = refl

-- On a queue that is not empty, with the fragment inside the frame and a buffer that is large
-- enough, the fragment's bytes stand at the front of the buffer, the length is the fragment's,
-- it leaves the queue, and the flag is raised exactly for the last fragment.
pub get_packet-payload :
    (frag : RtpFragmenter) (f : Fragment) (rest : List Fragment) (buffer : Bytes) (len : ℕ)
    → f.position + f.size ≤ length frag.total_data
    → f.size ≤ length buffer
    → get_packet_from frag (f ∷ rest) buffer len false
      ≡ ok (record {
        fragmenter = record frag { fragment_queue = rest };
        buffer = payload_of frag.total_data f ++ drop f.size buffer;
        len = f.size;
        last_packet = is_last rest;
      })
unfolding get_packet_from
get_packet-payload frag f [] buffer len inside fits =
    rw (write_fragment-payload frag.total_data f buffer inside fits)
get_packet-payload frag f (g ∷ rest) buffer len inside fits =
    rw (write_fragment-payload frag.total_data f buffer inside fits)

-- On an empty queue nothing is written.
pub get_packet-empty :
    (frag : RtpFragmenter) (buffer : Bytes) (len : ℕ) (last : Bool)
    → get_packet_from frag [] buffer len last
      ≡ ok (record { fragmenter = frag; buffer = buffer; len = len; last_packet = last })
unfolding get_packet_from
get_packet-empty frag buffer len last = refl
