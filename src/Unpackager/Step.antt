-- ===== src/Unpackager/Step.antt =====
-- One packet at the unpackager.
use mathlib.Core.List.{append_assoc}
use payloader.Base.{
  ℕ, ◌+◌, ◌-◌, ◌≤◌, ◌≡◌, refl, sym, arith, ◌∷◌, ◌++◌, [], true, false, ℤ, minus_ℤ, quot, some,
  length, take, drop, length-append, length-take, length-drop, take-append-drop, take-append,
  take-add, Bytes, ok, ◌∙◌, ap, write_block_fits, read_block_fits, read_block-part, if◌then◌else◌,
  ◌==◌, ltb,
}
use payloader.Interfaces.{RtpCall, Delivery, AvMediaType}
use payloader.Rtp.Header.{RtpHeader, IsHeader, get_header_length, get_marker, get_timestamp}
use payloader.Rtp.Header.Image.{image, read_header}
use payloader.Rtp.Header.Wire.{length-image}
use payloader.Rtp.Header.Front.{Front, image-Front}
use payloader.Packager.Round.{IsCall}
use payloader.Unpackager.{Unpackager, finish_frame, first_timestamp, receive_rtp_packet}

-- The block in which a call of the packager arrives: the transport carries the first
-- `buff_size` bytes unchanged, into a receive buffer that is longer than a header.
pub record Carries (c : RtpCall) (in_buff : Bytes) (buff_size : ℕ) : Type 0 where
  pub same_size : buff_size ≡ c.buff_size
  pub same_bytes : take buff_size in_buff ≡ take c.buff_size c.in_buff
  pub held : buff_size ≤ length in_buff
  pub room : 20 ≤ length in_buff

-- An arrived packet is the 12 bytes of the header, the payload, and what the buffer held before.
arrived :
    (h : RtpHeader) (payload : Bytes) (c : RtpCall) (in_buff : Bytes) (buff_size : ℕ)
    → IsCall h payload c
    → Carries c in_buff buff_size
    → in_buff ≡ take 12 (image h) ++ (payload ++ drop buff_size in_buff)
arrived h payload c in_buff buff_size is_call carries =
    let head = take 12 (image h) in
    let twelve : length head ≡ 12 = omega (arith, length-take 12 (image h), length-image h) in
    let front : take c.buff_size c.in_buff ≡ head ++ payload =
      rw (is_call.holds, ← append_assoc head payload is_call.rest)
        (take-append (head ++ payload) is_call.rest c.buff_size
          (omega (arith, is_call.sized, twelve, length-append head payload))) in
    sym (take-append-drop buff_size in_buff)
    ∙ rw (carries.same_bytes, front) (append_assoc head payload (drop buff_size in_buff))

-- The unpackager in the middle of a frame, with the first `at` bytes of it in the block.
abbrev pub holding : ℕ → Bytes → ℤ → Unpackager
holding at block first = record {
  sink = true;
  upackaged_size = at;
  block = some block;
  offset = at;
  first_video_timestamp = first;
}

-- The unpackager between two frames.
abbrev pub holding_next : Bytes → ℤ → Unpackager
holding_next = holding 0

-- What reaches the sink with the timestamp `timestamp`, counted from the first one.
abbrev pub delivery : Bytes → ℕ → ℤ → (timestamp : ℕ) → Delivery
delivery bytes n first timestamp = record {
  bytes = bytes;
  size = n;
  dts = quot (minus_ℤ timestamp (first_timestamp first timestamp)) 90;
  type = AvMediaType.video;
}

pub grown : ℕ → Bytes → Bytes → Bytes
grown at block payload = take at block ++ (payload ++ drop (at + length payload) block)

pub length-grown :
    (at : ℕ) (block payload : Bytes)
    → at + length payload ≤ length block
    → length (grown at block payload) ≡ length block
unfolding grown
length-grown at block payload h = omega (
  arith,
  length-append (take at block) (payload ++ drop (at + length payload) block),
  length-append payload (drop (at + length payload) block),
  length-take at block,
  length-drop (at + length payload) block,
)

-- A block that holds the first bytes of a frame holds more of them after a write.
pub take-grown :
    (at n : ℕ) (block bytes : Bytes)
    → take at block ≡ take at bytes
    → at + n ≤ length block
    → at + n ≤ length bytes
    → take (at + n) (grown at block (take n (drop at bytes))) ≡ take (at + n) bytes
unfolding grown
take-grown at n block bytes same room enough =
    let part = take n (drop at bytes) in
    let size : length part ≡ n =
      omega (arith, length-take n (drop at bytes), length-drop at bytes) in
    let front : length (take at block) ≡ at = omega (arith, length-take at block) in
    rw (← append_assoc (take at block) part (drop (at + length part) block)) (
      take-append (take at block ++ part) (drop (at + length part) block) (at + n)
        (omega (arith, length-append (take at block) part, size, front))
      ∙ rw same (take-add at n (at + n) bytes refl))

-- A packet with a header of 12 bytes: its payload is written behind the part of the frame that is
-- there, and the marker decides the rest.
receive_lem :
    (front payload behind block : Bytes) (n at : ℕ) (first : ℤ) (head : RtpHeader)
    → length front ≡ 12
    → n ≡ 12 + length payload
    → read_header (front ++ (payload ++ behind)) ≡ some head
    → get_header_length head ≡ 12
    → at + length payload ≤ length block
    → receive_rtp_packet (front ++ (payload ++ behind)) n (holding at block first) ≡ (
        if get_marker head == 0
        then ok (holding (at + length payload) (grown at block payload) first, [])
        else finish_frame head
            (grown at block payload)
            (holding (at + length payload) (grown at block payload) first))
unfolding receive_rtp_packet grown
receive_lem front payload behind block n at first head twelve size reads short space =
    let rest : n - 12 ≡ length payload = omega arith in
    let long : ltb n 12 ≡ false = ground arith in
    rw (
      reads,
      short,
      long,
      rest,
      read_block-part front payload behind 12 (length payload) (omega (arith, twelve)) refl,
      write_block_fits block at payload space,
    )

-- The last packet of a frame: the whole frame reaches the sink.
pub finish_lem :
    (head : RtpHeader) (block : Bytes) (n : ℕ) (first : ℤ)
    → n ≤ length block
    → finish_frame head block (holding n block first)
      ≡ ok (
        holding_next block (first_timestamp first (get_timestamp head)),
        delivery (take n block) n first (get_timestamp head) ∷ [],
      )
unfolding finish_frame
finish_lem head block n first space =
    let same : ltb n n ≡ false = ground arith in
    let start : n - n ≡ 0 = omega arith in rw (same, start, read_block_fits block 0 n (omega arith))

pub record Packet (h : RtpHeader) (payload : Bytes) (c : RtpCall) (in_buff : Bytes) (buff_size : ℕ)
    : Type 0 where
  pub is_call : IsCall h payload c
  pub carries : Carries c in_buff buff_size
  pub fits : IsHeader h
  pub no_sources : h.cc ≡ 0
  pub no_extension : h.hasextension ≡ 0

module _ (h : RtpHeader) (payload : Bytes) (c : RtpCall) (in_buff : Bytes) (buff_size at : ℕ)
    (block : Bytes) (first : ℤ) (p : Packet h payload c in_buff buff_size)
    (space : at + length payload ≤ length block) where
  found : Front h (take 12 (image h) ++ (payload ++ drop buff_size in_buff))
  found = image-Front h (payload ++ drop buff_size in_buff) p.fits p.no_sources p.no_extension (
      omega (
        arith,
        p.carries.same_size,
        p.is_call.sized,
        p.carries.room,
        length-append payload (drop buff_size in_buff),
        length-drop buff_size in_buff,
      ))

  received : receive_rtp_packet in_buff buff_size (holding at block first) ≡ (
      if get_marker found.head == 0
      then ok (holding (at + length payload) (grown at block payload) first, [])
      else finish_frame found.head
          (grown at block payload)
          (holding (at + length payload) (grown at block payload) first))
  received =
      ap (λ (b : Bytes). receive_rtp_packet b buff_size (holding at block first))
        (arrived h payload c in_buff buff_size p.is_call p.carries)
      ∙ receive_lem (take 12 (image h)) payload (drop buff_size in_buff) block buff_size at first
          found.head (omega (arith, length-take 12 (image h), length-image h))
          (p.carries.same_size ∙ p.is_call.sized) found.reads found.short space

  -- Without the marker the part of the frame grows by the payload, and nothing reaches the sink.
  pub receive_middle :
      h.marker ≡ 0
      → receive_rtp_packet in_buff buff_size (holding at block first)
        ≡ ok (holding (at + length payload) (grown at block payload) first, [])
  receive_middle m =
      let e : get_marker found.head ≡ 0 = rw (found.same_marker, m) in received ∙ rw e

  -- With it the frame reaches the sink.
  pub receive_last :
      h.marker ≡ 1
      → receive_rtp_packet in_buff buff_size (holding at block first)
        ≡ ok (
          holding_next (grown at block payload) (first_timestamp first (get_timestamp h)),
          delivery
                (take (at + length payload) (grown at block payload))
                (at + length payload)
                first
                (get_timestamp h)
              ∷ [],
        )
  receive_last m =
      let e : get_marker found.head ≡ 1 = rw (found.same_marker, m) in
      let long = length-grown at block payload space in
      received
      ∙ rw (
        e,
        finish_lem found.head (grown at block payload) (at + length payload) first
            (omega (arith, long)),
        found.same_timestamp,
      )
