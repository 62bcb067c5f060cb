-- ===== src/Packager/Round.antt =====
-- One round of the packager's loop.
use payloader.Base.{
  ℕ, ◌+◌, ◌≤◌, ◌<◌, ◌^◌, ◌≡◌, refl, arith, ◌∷◌, ◌++◌, List, [], Bool, true, false, u32, some,
  length, take, drop, length-append, length-take, length-drop, Bytes, ok, write_block-front,
  write_block-after, read_block-part, read_block_fits, read_block, write_block, ◌%◌, swap16, swap32,
  if◌then◌else◌,
}
use payloader.Interfaces.{RtpCall}
use payloader.Rtp.Header.{
  RtpHeader, IsHeader, get_header_length, get_timestamp, set_seq_number, set_timestamp, set_ssrc,
}
use payloader.Rtp.Header.Image.{image}
use payloader.Rtp.Header.Wire.{length-image}
use payloader.Rtp.Header.Accessors.{
  new_header-IsHeader, set_marker-IsHeader, set_payload_type-IsHeader, set_seq_number-IsHeader,
  set_timestamp-IsHeader, set_ssrc-IsHeader,
}
use payloader.Rtp.Fragmenter.{Fragment, RtpFragmenter}
use payloader.Rtp.Fragmenter.Packet.{
  is_last, payload_of, length-payload_of, get_packet-payload, get_packet-empty,
}
use payloader.Packager.{rtp_header, Loop, round}

module _ (garbage : ℕ) (last : Bool) (seq timestamp : ℕ) where
  pub get_header_length-rtp_header : get_header_length (rtp_header garbage last seq timestamp) ≡ 12
  unfolding rtp_header get_header_length set_seq_number set_timestamp set_ssrc swap16
  get_header_length-rtp_header = refl

  pub rtp_header-IsHeader : garbage < 2 ^ 32 → IsHeader (rtp_header garbage last seq timestamp)
  unfolding rtp_header
  rtp_header-IsHeader h = set_payload_type-IsHeader 96 (
      set_ssrc-IsHeader 55543 (
        set_timestamp-IsHeader timestamp
          (set_seq_number-IsHeader seq (set_marker-IsHeader _ (new_header-IsHeader garbage h)))))

  -- The marker is the flag, the timestamp is cut to 32 bits, and there is nothing but the fixed part.
  pub rtp_header_fields :
      ((rtp_header garbage last seq timestamp).marker ≡ (if last then 1 else 0))
      × ((rtp_header garbage last seq timestamp).cc ≡ 0)
      × ((rtp_header garbage last seq timestamp).hasextension ≡ 0)
      × (get_timestamp (rtp_header garbage last seq timestamp) ≡ timestamp % 2 ^ 32)
  unfolding rtp_header set_seq_number set_timestamp set_ssrc get_timestamp swap32
  rtp_header_fields = (ground arith, refl, refl, omega arith)

-- The call hands over the fixed header `h` and then the payload, at the front of a block of
-- `packaged_buffer_size` bytes.
pub record IsCall (h : RtpHeader) (payload : Bytes) (c : RtpCall) : Type 0 where
  pub rest : Bytes
  pub holds : c.in_buff ≡ take 12 (image h) ++ (payload ++ rest)
  pub sized : c.buff_size ≡ 12 + length payload
  pub room : length c.in_buff ≡ 2000

-- The loop's state once `init` has allocated both blocks and a sink is set.
abbrev pub loop_at :
    RtpFragmenter → (last : Bool) (seq : ℕ) (out_block rtp_block : Bytes) → List RtpCall → Loop
loop_at frag last seq out_block rtp_block calls = record {
  frag = frag;
  last_frame = last;
  packager = record {
    sink = true;
    video_seq_num = seq;
    out_buff = some out_block;
    rtp_buffer = some rtp_block;
  };
  calls = calls;
}

abbrev pub queued : RtpFragmenter → List Fragment → RtpFragmenter
queued frag queue = record frag { fragment_queue = queue }

-- What a round makes of the fragment `f` in front of `queue`.
pub record Rounded (garbage timestamp : ℕ) (frag : RtpFragmenter) (f : Fragment)
    (queue : List Fragment) (seq : ℕ) (calls : List RtpCall) (s : Loop) : Type 0 where
  pub out_block : Bytes
  pub rtp_block : Bytes
  pub call : RtpCall
  pub returns :
      round garbage timestamp s
      ≡ ok (
          loop_at
            (queued frag queue)
            (is_last queue)
            (u32 (seq + 1))
            out_block
            rtp_block
            (calls ++ call ∷ []))
  pub is_call :
      IsCall (rtp_header garbage (is_last queue) seq timestamp) (payload_of frag.total_data f) call
  pub out_size : length out_block ≡ 2000
  pub rtp_size : length rtp_block ≡ 2000

module _ (garbage timestamp : ℕ) (frag : RtpFragmenter) (f : Fragment) (queue : List Fragment)
    (seq : ℕ) (out_block rtp_block : Bytes) (calls : List RtpCall)
    (inside : f.position + f.size ≤ length frag.total_data) (small : f.size ≤ 1099)
    (out_size : length out_block ≡ 2000) (rtp_size : length rtp_block ≡ 2000) where
  abbrev header : RtpHeader
  header = rtp_header garbage (is_last queue) seq timestamp

  abbrev payload : Bytes
  payload = payload_of frag.total_data f

  abbrev head : Bytes
  head = take 12 (image header)

  -- The block of the packet, behind its payload.
  abbrev behind : Bytes
  behind = drop (length payload) (drop (length head) rtp_block)

  abbrev sent : RtpCall
  sent = record { in_buff = head ++ (payload ++ behind); buff_size = f.size + 12 }

  payload_size : length payload ≡ f.size
  payload_size = length-payload_of frag.total_data f inside

  head_size : length head ≡ 12
  head_size = omega (arith, length-take 12 (image header), length-image header)

  head_read : read_block (image header) 0 12 ≡ some head
  head_read = read_block_fits (image header) 0 12 (omega (arith, length-image header))

  block1 : write_block rtp_block 0 head ≡ some (head ++ drop (length head) rtp_block)
  block1 = write_block-front rtp_block head (omega (arith, head_size))

  block2 :
      write_block (head ++ drop (length head) rtp_block) 12 payload
      ≡ some (head ++ (payload ++ behind))
  block2 =
      write_block-after head (drop (length head) rtp_block) payload 12 (omega (arith, head_size))
        (omega (arith, head_size, payload_size, length-drop (length head) rtp_block))

  payload_read : read_block (payload ++ drop f.size out_block) 0 f.size ≡ some payload
  payload_read =
      read_block-part [] payload (drop f.size out_block) 0 f.size refl (omega (arith, payload_size))

  block_size : length (head ++ (payload ++ behind)) ≡ 2000
  block_size = omega (
    arith,
    head_size,
    payload_size,
    length-append head (payload ++ behind),
    length-append payload behind,
    length-drop (length payload) (drop (length head) rtp_block),
    length-drop (length head) rtp_block,
  )

  returns_after :
      round garbage timestamp
        (loop_at (queued frag (f ∷ queue)) false seq out_block rtp_block calls)
      ≡ ok (
          loop_at
            (queued frag queue)
            (is_last queue)
            (u32 (seq + 1))
            (payload ++ drop f.size out_block)
            (head ++ (payload ++ behind))
            (calls ++ sent ∷ []))
  unfolding round
  returns_after = rw (
    get_packet-payload (queued frag (f ∷ queue)) f queue out_block 0 inside (omega arith),
    get_header_length-rtp_header garbage (is_last queue) seq timestamp,
    head_read,
    block1,
    payload_read,
    block2,
  )

  pub round-Rounded :
      Rounded garbage timestamp frag f queue seq calls
        (loop_at (queued frag (f ∷ queue)) false seq out_block rtp_block calls)
  round-Rounded = record {
    out_block = payload ++ drop f.size out_block;
    rtp_block = head ++ (payload ++ behind);
    call = sent;
    returns = returns_after;
    is_call = record {
      rest = behind;
      holds = refl;
      sized = omega (arith, payload_size);
      room = block_size;
    };
    out_size = omega (
      arith,
      payload_size,
      length-append payload (drop f.size out_block),
      length-drop f.size out_block,
    );
    rtp_size = block_size;
  }

-- With an empty queue a round sends the 12 bytes of the header, and the flag stays down.
pub record Idle (garbage timestamp : ℕ) (frag : RtpFragmenter) (s : Loop) : Type 0 where
  pub seq : ℕ
  pub rtp_block : Bytes
  pub calls : List RtpCall
  pub out_block : Bytes
  pub returns :
      round garbage timestamp s ≡ ok (loop_at (queued frag []) false seq out_block rtp_block calls)
  pub rtp_size : length rtp_block ≡ 2000

pub round-Idle :
    (garbage timestamp : ℕ) (frag : RtpFragmenter) (seq : ℕ) (out_block rtp_block : Bytes)
    (calls : List RtpCall)
    → length rtp_block ≡ 2000
    → Idle garbage timestamp frag (loop_at (queued frag []) false seq out_block rtp_block calls)
round-Idle garbage timestamp frag seq out_block rtp_block calls size =
    let h = rtp_header garbage false seq timestamp in
    let front = take 12 (image h) in
    let twelve : length front ≡ 12 = omega (arith, length-take 12 (image h), length-image h) in
    let rest = drop (length front) rtp_block in
    let block = front ++ ([] ++ drop 0 rest) in
    record {
      seq = u32 (seq + 1);
      rtp_block = block;
      calls = calls ++ record { in_buff = block; buff_size = 12 } ∷ [];
      out_block = out_block;
      returns =
          unfold round in
          rw (
            get_packet-empty (queued frag []) out_block 0 false,
            get_header_length-rtp_header garbage false seq timestamp,
            read_block_fits (image h) 0 12 (omega (arith, length-image h)),
            write_block-front rtp_block front (omega (arith, twelve)),
            read_block_fits out_block 0 0 (omega arith),
            write_block-after front rest [] 12 (omega (arith, twelve)) (omega arith),
          );
      rtp_size =
          omega (arith, twelve, length-append front rest, length-drop (length front) rtp_block);
    }
