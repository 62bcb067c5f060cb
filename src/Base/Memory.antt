-- ===== src/Base/Memory.antt =====
-- Blocks of memory as lists of bytes. `none` is an access out of the block, which C++ leaves
-- undefined; bytes that nothing has written yet are values that the caller chooses.
use Prim.Native.Nat.{ℕ, ◌+◌, ◌≤◌}
use mathlib.Core.Path.{◌≡◌, refl, sym, ◌∙◌}
use mathlib.Core.Option.{Option, none, some}
use mathlib.Core.List.{List, ◌++◌}
use native.Mathlib.Omega.{arith}
use payloader.Base.Tests.{leb, if◌then◌else◌, le→leb}
use payloader.Base.Lists.{
  length, take, drop, length-append, length-take, take-append, drop-append, drop-drop,
}

abbrev pub Bytes : Type 0
Bytes = List ℕ

-- `n` bytes from offset `from` of a block: what a `memcpy` of them reads.
unfoldable pub read_block : Bytes → ℕ → ℕ → Option Bytes
read_block block from n =
    if leb (from + n) (length block) then some (take n (drop from block)) else none

-- `memcpy` of `bytes` to offset `at` of a block.
unfoldable pub write_block : Bytes → ℕ → Bytes → Option Bytes
write_block block at bytes =
    if leb (at + length bytes) (length block)
    then some (take at block ++ (bytes ++ drop (at + length bytes) block))
    else none

pub read_block_fits :
    (block : Bytes) (from n : ℕ)
    → from + n ≤ length block
    → read_block block from n ≡ some (take n (drop from block))
unfolding read_block
read_block_fits block from n h = rw (le→leb _ _ h)

pub write_block_fits :
    (block : Bytes) (at : ℕ) (bytes : Bytes)
    → at + length bytes ≤ length block
    → write_block block at bytes ≡ some (take at block ++ (bytes ++ drop (at + length bytes) block))
unfolding write_block
write_block_fits block at bytes h = rw (le→leb _ _ h)

drop_behind :
    (front block : Bytes) (at n : ℕ)
    → at ≡ length front
    → drop (at + n) (front ++ block) ≡ drop n block
drop_behind front block at n e =
    sym (drop-drop n at (at + n) (front ++ block) refl) ∙ rw (drop-append front block at e)

-- A write at the start of a block, or behind a part that is known, and the read of a known part.
pub write_block-front :
    (block bytes : Bytes)
    → length bytes ≤ length block
    → write_block block 0 bytes ≡ some (bytes ++ drop (length bytes) block)
write_block-front block bytes h =
    write_block_fits block 0 bytes (omega arith)
    ∙ let e : 0 + length bytes ≡ length bytes = omega arith in rw e

pub write_block-after :
    (front block bytes : Bytes) (at : ℕ)
    → at ≡ length front
    → length bytes ≤ length block
    → write_block (front ++ block) at bytes ≡ some (front ++ (bytes ++ drop (length bytes) block))
write_block-after front block bytes at e h =
    write_block_fits (front ++ block) at bytes (omega (arith, length-append front block))
    ∙ rw (take-append front block at e, drop_behind front block at (length bytes) e)

pub read_block-part :
    (front part back : Bytes) (at n : ℕ)
    → at ≡ length front
    → n ≡ length part
    → read_block (front ++ (part ++ back)) at n ≡ some part
read_block-part front part back at n e l =
    read_block_fits _ at n
      (omega (arith, length-append front (part ++ back), length-append part back))
    ∙ rw (drop-append front (part ++ back) at e, take-append part back n l)

-- What an access that succeeds has read or written.
pub read_block_inv :
    (block bytes : Bytes) (n : ℕ)
    → read_block block 0 n ≡ some bytes
    → (bytes ≡ take n block) × (length bytes ≡ n)
unfolding read_block
read_block_inv block bytes n e = ground (arith, length-take n block)

pub write_block_inv :
    (block written bytes : Bytes)
    → write_block block 0 bytes ≡ some written
    → written ≡ bytes ++ drop (length bytes) block
unfolding write_block
write_block_inv block written bytes e =
    let z : 0 + length bytes ≡ length bytes = omega arith in ground (arith, z)

-- A write that succeeds is inside the block.
pub write_block_le :
    (block written bytes : Bytes) (at : ℕ)
    → write_block block at bytes ≡ some written
    → at + length bytes ≤ length block
unfolding write_block
write_block_le block written bytes at e = ground arith
