-- ===== src/Base/Words.antt =====
-- Unsigned C integers as native numbers, and the byte-order functions of a little-endian host.
-- A cast keeps the low bits, `>>` divides, `&` with a mask of consecutive ones keeps a digit range.
use Prim.Native.Nat.{ℕ, zero, suc, max, ◌+◌, ◌*◌, ◌/◌, ◌%◌, ◌^◌, ◌<◌}
use mathlib.Core.Path.{◌≡◌}
use native.Mathlib.Omega.{arith}

abbrev pub u8 : ℕ → ℕ
u8 n = n % 2 ^ 8

abbrev pub u16 : ℕ → ℕ
u16 n = n % 2 ^ 16

abbrev pub u32 : ℕ → ℕ
u32 n = n % 2 ^ 32

abbrev pub u64 : ℕ → ℕ
u64 n = n % 2 ^ 64

-- A bit-field of `k` bits keeps the low `k` bits of what is assigned to it.
abbrev pub low_bits : ℕ → ℕ → ℕ
low_bits k n = n % 2 ^ k

abbrev pub shr : ℕ → ℕ → ℕ
shr n k = n / 2 ^ k

-- `n & m`, where the ones of `m` are the `width` bits from bit `lo` on.
abbrev pub mask_bits : ℕ → ℕ → ℕ → ℕ
mask_bits lo width n = n / 2 ^ lo % 2 ^ width * 2 ^ lo

-- The bitwise `|` of the lowest bits.
abbrev pub bit_or : (bits : ℕ) → ℕ → ℕ → ℕ
bit_or zero m n = 0
bit_or (suc bits) m n = max (m % 2) (n % 2) + 2 * bit_or bits (m / 2) (n / 2)

-- `htons` and `ntohs`: the two bytes change places.
unfoldable pub swap16 : ℕ → ℕ
swap16 n = n % 256 * 256 + n / 256 % 256

-- `htonl` and `ntohl`: the four bytes are reversed.
unfoldable pub swap32 : ℕ → ℕ
swap32 n = n % 256 * 2 ^ 24 + n / 2 ^ 8 % 256 * 2 ^ 16 + n / 2 ^ 16 % 256 * 2 ^ 8 + n / 2 ^ 24 % 256

pub swap16-swap16 : (n : ℕ) → swap16 (swap16 n) ≡ n % 2 ^ 16
unfolding swap16
swap16-swap16 n = omega arith

pub swap32-swap32 : (n : ℕ) → swap32 (swap32 n) ≡ n % 2 ^ 32
unfolding swap32
swap32-swap32 n = omega arith

pub swap16-lt : (n : ℕ) → swap16 n < 2 ^ 16
unfolding swap16
swap16-lt n = omega arith

pub swap32-lt : (n : ℕ) → swap32 n < 2 ^ 32
unfolding swap32
swap32-lt n = omega arith
