-- ===== src/Unpackager/Frame.antt =====
-- The packets of one frame, as the packager sends them, at the unpackager.
use payloader.Base.{
  ℕ, ◌+◌, ◌≤◌, ◌<◌, ◌^◌, ◌%◌, ◌≡◌, refl, ap, arith, ◌++◌, length-append, length-take, ◌∷◌, List, [],
  true, false, ℤ, length, take, Bytes, ok, ◌∙◌, u32,
}
use payloader.Interfaces.{RtpCall}
use payloader.Rtp.Header.{RtpHeader}
use payloader.Rtp.Header.Image.{image}
use payloader.Rtp.Header.Wire.{length-image}
use payloader.Rtp.Fragmenter.{Fragment}
use payloader.Rtp.Fragmenter.Tiling.{Tiles}
use payloader.Rtp.Fragmenter.Packet.{is_last, payload_of, length-payload_of}
use payloader.Packager.{rtp_header}
use payloader.Packager.Round.{IsCall, rtp_header_fields, rtp_header-IsHeader}
use payloader.Packager.Frame.{Calls}
use payloader.Unpackager.{first_timestamp, receive_all, receive_rtp_packet}
use payloader.Unpackager.Step.{
  Carries, Packet, holding, holding_next, delivery, grown, length-grown, take-grown, receive_middle,
  receive_last,
}

-- Every call arrives, in order, and nothing else does.
abbrev pub Arrive : List RtpCall → List (Bytes × ℕ) → Type 0
Arrive [] [] = Unit
Arrive (c ∷ cs) ((in_buff, buff_size) ∷ rest) = Carries c in_buff buff_size × Arrive cs rest
Arrive _ _ = ⊥

-- A call arrives as it was made if the blocks themselves are handed on.
pub call-Carries :
    (h : RtpHeader) (payload : Bytes) (c : RtpCall)
    → IsCall h payload c
    → Carries c c.in_buff c.buff_size
call-Carries h payload c k = record {
  same_size = refl;
  same_bytes = refl;
  held = omega (
    arith,
    k.sized,
    ap length k.holds,
    length-append (take 12 (image h)) (payload ++ k.rest),
    length-append payload k.rest,
    length-take 12 (image h),
    length-image h,
  );
  room = omega (arith, k.room);
}

unfoldable pub handed : List RtpCall → List (Bytes × ℕ)
handed [] = []
handed (c ∷ cs) = (c.in_buff, c.buff_size) ∷ handed cs

pub Calls-Arrive :
    (garbage timestamp seq : ℕ) (bytes : Bytes) (fs : List Fragment) (cs : List RtpCall)
    → Calls garbage timestamp seq bytes fs cs
    → Arrive cs (handed cs)
unfolding handed
Calls-Arrive garbage timestamp seq bytes [] [] k = tt
Calls-Arrive garbage timestamp seq bytes (f ∷ fs) (c ∷ cs) (one, k) = (
  call-Carries (rtp_header garbage (is_last fs) seq timestamp) (payload_of bytes f) c one,
  Calls-Arrive garbage timestamp (u32 (seq + 1)) bytes fs cs k,
)
Calls-Arrive garbage timestamp seq bytes [] (c ∷ cs) k = absurd k
Calls-Arrive garbage timestamp seq bytes (f ∷ fs) [] k = absurd k

take-payload :
    (at : ℕ) (block bytes : Bytes) (f : Fragment)
    → f.position ≡ at
    → take at block ≡ take at bytes
    → at + f.size ≤ length block
    → at + f.size ≤ length bytes
    → take (at + f.size) (grown at block (payload_of bytes f)) ≡ take (at + f.size) bytes
take-payload at block bytes f starts same room enough =
    rw starts (take-grown at f.size block bytes same room enough)

module _ (garbage timestamp end : ℕ) (bytes : Bytes) (first : ℤ) (fits : garbage < 2 ^ 32)
    (enough : end ≤ length bytes) where
  -- The frame is complete behind the packets `arrivals`.
  pub record Complete (at : ℕ) (block : Bytes) (arrivals : List (Bytes × ℕ)) : Type 0 where
    pub block' : Bytes
    pub returns :
        receive_all arrivals (holding at block first)
        ≡ ok (
          holding_next block' (first_timestamp first (timestamp % 2 ^ 32)),
          delivery (take end bytes) end first (timestamp % 2 ^ 32) ∷ [],
        )
    pub same_length : length block' ≡ length block

  packet :
      (seq : ℕ) (fs : List Fragment) (f : Fragment) (c : RtpCall) (in_buff : Bytes) (n : ℕ)
      → IsCall (rtp_header garbage (is_last fs) seq timestamp) (payload_of bytes f) c
      → Carries c in_buff n
      → Packet (rtp_header garbage (is_last fs) seq timestamp) (payload_of bytes f) c in_buff n
  packet seq fs f c in_buff n is_call carries =
      let fields = rtp_header_fields garbage (is_last fs) seq timestamp in
      record {
        is_call = is_call;
        carries = carries;
        fits = rtp_header-IsHeader garbage (is_last fs) seq timestamp fits;
        no_sources = fields.1;
        no_extension = fields.2;
      }

  pub frame-Complete :
      (fs : List Fragment) (f : Fragment) (cs : List RtpCall) (arrivals : List (Bytes × ℕ))
      (seq at : ℕ) (block : Bytes)
      → Tiles at end (f ∷ fs)
      → Calls garbage timestamp seq bytes (f ∷ fs) cs
      → Arrive cs arrivals
      → take at block ≡ take at bytes
      → end ≤ length block
      → Complete at block arrivals
  unfolding receive_all
  frame-Complete fs f [] arrivals seq at block tiles calls arrive same space = absurd calls
  frame-Complete fs f (c ∷ cs) [] seq at block tiles calls arrive same space = absurd arrive
  frame-Complete [] f (c ∷ []) ((b, n) ∷ []) seq at block (one, done) (is_call, _) (carries, _) same
        space =
      let payload = payload_of bytes f in
      let size = length-payload_of bytes f (omega (arith, one.starts, one.inside)) in
      let h = rtp_header garbage true seq timestamp in
      let fields = rtp_header_fields garbage true seq timestamp in
      let last =
        receive_last h payload c b n at block first (packet seq [] f c b n is_call carries)
          (omega (arith, size, one.inside)) fields.0 in
      let stop : at + length payload ≡ end = omega (arith, size) in
      let whole : take end (grown at block payload) ≡ take end bytes =
        rw (← stop, size)
          (take-payload at block bytes f one.starts same (omega arith) (omega arith)) in
      record {
        block' = grown at block payload;
        returns = rw last (rw (stop, whole, fields.3));
        same_length = length-grown at block payload (omega (arith, stop));
      }
  frame-Complete [] f (c ∷ []) (a ∷ a' ∷ arrivals) seq at block tiles calls arrive same space =
      absurd arrive.1
  frame-Complete [] f (c ∷ d ∷ cs) (a ∷ arrivals) seq at block tiles calls arrive same space =
      absurd calls.1
  frame-Complete (g ∷ fs) f (c ∷ cs) ((b, n) ∷ arrivals) seq at block (one, tiles) (is_call, calls)
        (carries, arrive) same space =
      let payload = payload_of bytes f in
      let size = length-payload_of bytes f (omega (arith, one.starts, one.inside)) in
      let fields = rtp_header_fields garbage false seq timestamp in
      let middle : receive_rtp_packet b n (holding at block first)
          ≡ ok (holding (at + f.size) (grown at block payload) first, []) =
        receive_middle (rtp_header garbage false seq timestamp) payload c b n at block first
          (packet seq (g ∷ fs) f c b n is_call carries) (omega (arith, size, one.inside)) fields.0
        ∙ rw size in
      let long = length-grown at block payload (omega (arith, size, one.inside)) in
      let rest =
        frame-Complete fs g cs arrivals (u32 (seq + 1)) (at + f.size) (grown at block payload) tiles
          calls arrive
          (take-payload at block bytes f one.starts same (omega (arith, one.inside))
            (omega (arith, one.inside)))
          (omega (arith, long)) in
      record {
        block' = rest.block';
        returns = rw (middle, rest.returns);
        same_length = rest.same_length ∙ long;
      }
