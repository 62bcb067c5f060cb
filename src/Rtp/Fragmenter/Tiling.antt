-- ===== src/Rtp/Fragmenter/Tiling.antt =====
-- The queue that the constructor makes, against the frame that it is made from.
use mathlib.Core.List.{append-nil, append_assoc}
use payloader.Base.{
  length, ℕ, zero, suc, ◌+◌, ◌*◌, ◌-◌, ◌≤◌, ◌<◌, ◌^◌, ◌≡◌, ◌⊎◌, arith, ◌∷◌, ◌++◌, List, [], ◌==◌,
  u32, Bytes, ok, ◌∙◌, ap,
}
use payloader.Rtp.Fragmenter.{Fragment, new_fragment, calculate_packets, new_fragmenter}

-- One fragment at `pos` of a frame that ends at `end`: it starts there, is marked first exactly at
-- the frame's start, has 1 to 1099 bytes and is full unless it is the frame's last.
pub record IsFragment (pos end : ℕ) (f : Fragment) : Type 0 where
  pub starts : f.position ≡ pos
  pub marked : f.first ≡ (pos == 0)
  pub nonempty : 0 < f.size
  pub fits : f.size ≤ 1099
  pub inside : pos + f.size ≤ end
  pub full : (f.size ≡ 1099) ⊎ (pos + f.size ≡ end)

-- The fragments lie end to end from `pos` to `end`.
abbrev pub Tiles : ℕ → ℕ → List Fragment → Type 0
Tiles pos end [] = pos ≡ end
Tiles pos end (f ∷ fs) = IsFragment pos end f × Tiles (pos + f.size) end fs

new_fragment-IsFragment :
    (remaining pos end : ℕ)
    → 0 < remaining
    → pos + remaining ≡ end
    → IsFragment pos end (new_fragment remaining pos)
unfolding new_fragment
new_fragment-IsFragment remaining pos end h e = ground arith

-- One round of the loop, whose subtraction and addition do not wrap.
calculate_packets-suc :
    (fuel r pos end : ℕ) (queue : List Fragment)
    → pos + suc r ≡ end
    → end < 2 ^ 32
    → let f = new_fragment (suc r) pos in
      calculate_packets (suc fuel) (suc r) pos queue
      ≡ calculate_packets fuel (suc r - f.size) (pos + f.size) (queue ++ f ∷ [])
calculate_packets-suc fuel r pos end queue e b =
    let f = new_fragment (suc r) pos in
    let one = new_fragment-IsFragment (suc r) pos end (omega arith) e in
    let left : u32 (suc r + 2 ^ 32 - f.size) ≡ suc r - f.size = omega (arith, one.inside) in
    let next : u32 (pos + f.size) ≡ pos + f.size = omega (arith, one.inside) in
    unfold calculate_packets in ground arith

calculate_packets-Tiles :
    (fuel remaining pos end : ℕ) (queue : List Fragment)
    → remaining ≤ fuel
    → pos + remaining ≡ end
    → end < 2 ^ 32
    → (fs : List Fragment) × (calculate_packets fuel remaining pos queue ≡ ok (queue ++ fs))
      × Tiles pos end fs
unfolding calculate_packets
calculate_packets-Tiles zero remaining pos end queue h e b =
    ([], ground (arith, append-nil queue), omega arith)
calculate_packets-Tiles (suc fuel) zero pos end queue h e b = ([], rw append-nil, omega arith)
calculate_packets-Tiles (suc fuel) (suc r) pos end queue h e b =
    let f = new_fragment (suc r) pos in
    let one = new_fragment-IsFragment (suc r) pos end (omega arith) e in
    let (fs, returns, tiles) =
      calculate_packets-Tiles fuel (suc r - f.size) (pos + f.size) end (queue ++ f ∷ [])
        (omega (arith, one.nonempty)) (omega (arith, one.inside)) b in
    (
      f ∷ fs,
      calculate_packets-suc fuel r pos end queue e b
          ∙ returns
          ∙ ap ok (append_assoc queue (f ∷ []) fs),
      (one, tiles),
    )

-- For a frame of `len` bytes, below 2^32, the constructor ends, and its queue cuts the frame into
-- pieces of 1 to 1099 bytes that lie end to end, all but the last one full.
pub new_fragmenter-Tiles :
    (bytes : Bytes) (len : ℕ)
    → len < 2 ^ 32
    → (fs : List Fragment) × (new_fragmenter bytes len
        ≡ ok (record { total_data = bytes; total_lenth = len; fragment_queue = fs }))
      × Tiles 0 len fs
unfolding new_fragmenter
new_fragmenter-Tiles bytes len b =
    let (fs, returns, tiles) =
      calculate_packets-Tiles len len 0 len [] (omega arith) (omega arith) b in
    (fs, rw returns, tiles)

-- So a frame of n bytes is cut into n / 1099 pieces, rounded up.
pub Tiles-length :
    (pos end : ℕ) (fs : List Fragment)
    → Tiles pos end fs
    → (end ≤ pos + 1099 * length fs) × (pos + 1099 * length fs ≤ end + 1098)
Tiles-length pos end [] t = omega arith
Tiles-length pos end (f ∷ []) (one, t) = omega (arith, one.fits, one.nonempty, one.inside, one.full)
Tiles-length pos end (f ∷ g ∷ fs) (one, (two, t)) =
    omega
      (arith, one.full, two.nonempty, two.inside, Tiles-length (pos + f.size) end (g ∷ fs) (two, t))
