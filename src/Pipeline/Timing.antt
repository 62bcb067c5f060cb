-- ===== src/Pipeline/Timing.antt =====
-- The decoding time of a frame on both sides, in milliseconds.
use payloader.Base.{
  ℕ, ℤ, ap, ◌∙◌, [], ◌∷◌, length, ok, if◌then◌else◌, ◌==◌, Bool, Bool-cases, inl, inr, take, ◌+◌,
  ◌-◌, ◌*◌, ◌%◌, ◌≤◌, ◌<◌, ◌^◌, ◌≡◌, arith, pos, negsuc, u32, u64, Bytes, false,
}
use payloader.Interfaces.{Delivery, sign_extend32}
use payloader.Packager.{rtp_timestamp}
use payloader.Rtp.Header.{RtpHeader, get_timestamp}
use payloader.Unpackager.{finish_frame, first_timestamp}
use payloader.Unpackager.Step.{holding, holding_next, delivery, finish_lem}

-- What FFmpeg documents of `av_rescale(a, b, c)`, for arguments that are not negative and a result that
-- an `int64_t` has room for: the integer that is nearest to a * b / c.
abbrev pub Rescales : (ℕ → ℕ → ℕ → ℕ) → Type 0
Rescales av_rescale =
    (a b c : ℕ)
    → 0 < c
    → a < 2 ^ 63
    → b < 2 ^ 63
    → c < 2 ^ 63
    → a * b < c * 2 ^ 62
    → (2 * (a * b) ≤ 2 * (av_rescale a b c * c) + c)
      × (2 * (av_rescale a b c * c) ≤ 2 * (a * b) + c)

rescaled :
    (av_rescale : ℕ → ℕ → ℕ → ℕ) (a : ℕ)
    → Rescales av_rescale
    → a < 2 ^ 48
    → av_rescale a 90000 1000 ≡ a * 90
rescaled av_rescale a near small =
    let (low, high) =
      near a 90000 1000 (omega arith) (omega arith) (omega arith) (omega arith) (omega arith) in
    omega arith

-- If `av_rescale` rounds to the nearest integer, the timestamp of a frame is 90 times its time in
-- milliseconds, if that is 1 to 2^31 - 1, and 90 times the clock's, below 2^48, if the frame has the
-- time 0.
pub rtp_timestamp-mul :
    (av_rescale : ℕ → ℕ → ℕ → ℕ) (millis dts : ℕ)
    → Rescales av_rescale
    → dts < 2 ^ 31
    → millis < 2 ^ 48
    → u64 (rtp_timestamp av_rescale millis (u32 dts)) ≡ (if dts == 0 then millis else dts) * 90
unfolding rtp_timestamp
rtp_timestamp-mul av_rescale millis dts near high clock =
    let whole : u32 dts ≡ dts = omega arith in
    let extended : sign_extend32 dts ≡ dts = ground arith in
    let scaled = rescaled av_rescale dts near (omega arith) in
    let clocked = rescaled av_rescale millis near clock in
    elim (Bool-cases (dts == 0)) [
      | inl none_set ↦ rw (whole, none_set, clocked) (omega arith)
      | inr set ↦ rw (whole, set, extended, scaled) (omega arith)
    ]

delivery-dts :
    (start dts n m : ℕ) (bytes other : Bytes)
    → start ≤ dts
    → dts * 90 < 2 ^ 32
    → ((delivery bytes n (negsuc 0) (start * 90 % 2 ^ 32)).dts ≡ pos 0)
      × ((delivery other m
            (first_timestamp (negsuc 0) (start * 90 % 2 ^ 32))
            (dts * 90 % 2 ^ 32)).dts
          ≡ pos (dts - start))
unfolding first_timestamp
delivery-dts start dts n m bytes other order fits = (ground arith, ground arith)

-- The timestamp that the packager sets for a frame, in the bits that the header has for it.
abbrev pub sent_timestamp : (ℕ → ℕ → ℕ → ℕ) → (millis dts : ℕ) → ℕ
sent_timestamp av_rescale millis dts = u64 (rtp_timestamp av_rescale millis (u32 dts)) % 2 ^ 32

sent_timestamp-mul :
    (av_rescale : ℕ → ℕ → ℕ → ℕ) (millis dts : ℕ)
    → Rescales av_rescale
    → 0 < dts
    → dts < 2 ^ 31
    → millis < 2 ^ 48
    → sent_timestamp av_rescale millis dts ≡ dts * 90 % 2 ^ 32
sent_timestamp-mul av_rescale millis dts near low high clock =
    let set : (dts == 0) ≡ false = ground arith in
    ap (λ (t : ℕ). t % 2 ^ 32) (rtp_timestamp-mul av_rescale millis dts near high clock)
    ∙ ap (λ (b : Bool). (if b then millis else dts) * 90 % 2 ^ 32) set

-- Two frames that the unpackager finishes: the first one starts its clock, and both reach the sink.
pub record TwoFrames (head other : RtpHeader) (block rest : Bytes) (n m : ℕ) (x y : ℤ)
    : Type 0 where
  pub first : ℤ
  pub one : Delivery
  pub two : Delivery
  pub finishes :
      finish_frame head block (holding n block (negsuc 0)) ≡ ok (holding_next block first, one ∷ [])
  pub goes_on :
      finish_frame other rest (holding m rest first) ≡ ok (holding_next rest first, two ∷ [])
  pub at_start : one.dts ≡ x
  pub later : two.dts ≡ y

module _ (head other : RtpHeader) (block rest : Bytes) (n m : ℕ) (n_fits : n ≤ length block)
    (m_fits : m ≤ length rest) where
  finished :
      (x y : ℤ)
      → ((delivery (take n block) n (negsuc 0) (get_timestamp head)).dts ≡ x)
      → ((delivery
            (take m rest)
            m
            (first_timestamp (negsuc 0) (get_timestamp head))
            (get_timestamp other)).dts
          ≡ y)
      → TwoFrames head other block rest n m x y
  unfolding first_timestamp
  finished x y at_start later = record {
    first = first_timestamp (negsuc 0) (get_timestamp head);
    one = delivery (take n block) n (negsuc 0) (get_timestamp head);
    two =
        delivery (take m rest) m (first_timestamp (negsuc 0) (get_timestamp head))
          (get_timestamp other);
    finishes = finish_lem head block n (negsuc 0) n_fits;
    goes_on = finish_lem other rest m (first_timestamp (negsuc 0) (get_timestamp head)) m_fits;
    at_start = at_start;
    later = later;
  }

  -- The two frames have the timestamps of the times `start` and `dts`.
  finished_at :
      (start dts : ℕ) (y : ℤ)
      → get_timestamp head ≡ start * 90 % 2 ^ 32
      → get_timestamp other ≡ dts * 90 % 2 ^ 32
      → ((delivery (take n block) n (negsuc 0) (start * 90 % 2 ^ 32)).dts ≡ pos 0)
      → ((delivery
            (take m rest)
            m
            (first_timestamp (negsuc 0) (start * 90 % 2 ^ 32))
            (dts * 90 % 2 ^ 32)).dts
          ≡ y)
      → TwoFrames head other block rest n m (pos 0) y
  finished_at start dts y e f at_start later =
      finished (pos 0) y (ap (λ (t : ℕ). (delivery (take n block) n (negsuc 0) t).dts) e ∙ at_start)
        (ap
            (λ (t : ℕ).
              (delivery (take m rest) m (first_timestamp (negsuc 0) t) (get_timestamp other)).dts)
            e
          ∙ (ap
                (λ (t : ℕ).
                  (delivery (take m rest) m (first_timestamp (negsuc 0) (start * 90 % 2 ^ 32))
                    t).dts)
                f
              ∙ later))

module _ (av_rescale : ℕ → ℕ → ℕ → ℕ) (early late start dts : ℕ) (head other : RtpHeader)
    (block rest : Bytes) (n m : ℕ) (near : Rescales av_rescale) (early_fits : early < 2 ^ 48)
    (late_fits : late < 2 ^ 48) (set : 0 < start) (small : dts < 2 ^ 31)
    (first_sent : get_timestamp head ≡ sent_timestamp av_rescale early start)
    (second_sent : get_timestamp other ≡ sent_timestamp av_rescale late dts)
    (n_fits : n ≤ length block) (m_fits : m ≤ length rest) where
  -- Two frames with the times `start` and `dts` in milliseconds, in this order, the first one above 0 and
  -- the timestamps at 90 kHz without a wrap, are finished one after the other by an unpackager that has
  -- finished none, and their last packets carry the timestamps that the packager sets with an
  -- `av_rescale` that rounds to the nearest integer, at clocks below 2^48: both frames reach the sink,
  -- the first at 0 and the second at `dts - start` milliseconds.
  pub finish_frame-dts :
      start ≤ dts
      → dts * 90 < 2 ^ 32
      → TwoFrames head other block rest n m (pos 0) (pos (dts - start))
  finish_frame-dts order fits =
      let (zero_first, wanted) =
        delivery-dts start dts n m (take n block) (take m rest) order fits in
      finished_at head other block rest n m n_fits m_fits start dts (pos (dts - start))
        (first_sent ∙ sent_timestamp-mul av_rescale early start near set (omega arith) early_fits)
        (second_sent ∙ sent_timestamp-mul av_rescale late dts near (omega arith) small late_fits)
        zero_first wanted
