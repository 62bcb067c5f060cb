-- ===== src/Rtcp/Remb/Rate.antt =====
-- The exponent that the loop finds, and the bit rate that is read back.
use native.Mathlib.Nat.{pow-suc, pow-le-pow_right}
use native.Mathlib.Numerals.{add-one}
use payloader.Base.{
  ℕ, zero, suc, ◌+◌, ◌*◌, ◌^◌, ◌≤◌, ◌<◌, ◌≡◌, ◌⊎◌, inl, inr, refl, arith, leb, Bool-cases, leb→le,
  u64,
}
use payloader.Rtcp.Remb.{remb_exponent}

-- The exponent fits the rate: the mantissa has 18 bits, and it has at least 17 unless the
-- exponent is 0.
abbrev pub Fits : ℕ → ℕ → Type 0
Fits bit_rate exp =
    (exp ≤ 46) × (bit_rate < 0x3ffff * 2 ^ exp) × ((exp ≡ 0) ⊎ (0x3ffff * 2 ^ exp ≤ 2 * bit_rate))

lt_46 :
    (exp bit_rate : ℕ)
    → exp ≤ 46
    → bit_rate < 0x3ffff * 2 ^ 46
    → 0x3ffff * 2 ^ exp ≤ bit_rate
    → exp < 46
lt_46 exp bit_rate le b h =
    let c : (exp < 46) ⊎ (exp ≡ 46) = omega arith in
    elim c [ inl p ↦ p | inr e ↦ absurd (omega (arith, rw e at h)) ]

two_pow_add-one : (exp : ℕ) → 2 ^ (exp + 1) ≡ 2 * 2 ^ exp
two_pow_add-one exp = rw add-one (omega (arith, pow-suc 2 exp))

pub two_pow_bound : (exp k : ℕ) → exp ≤ k → 2 ^ exp ≤ 2 ^ k
two_pow_bound exp k h = pow-le-pow_right {n = 2} (omega arith) h

doubled :
    (exp max : ℕ) → exp < 46 → max ≡ 0x3ffff * 2 ^ exp → u64 (max * 2) ≡ 0x3ffff * 2 ^ (exp + 1)
doubled exp max h m = omega (arith, two_pow_add-one exp, two_pow_bound exp 45 (omega arith))

remb_exponent-Fits :
    (rounds bit_rate max exp : ℕ)
    → exp + rounds ≡ 64
    → exp ≤ 46
    → max ≡ 0x3ffff * 2 ^ exp
    → bit_rate < 0x3ffff * 2 ^ 46
    → (exp ≡ 0) ⊎ (0x3ffff * 2 ^ exp ≤ 2 * bit_rate)
    → Fits bit_rate (remb_exponent rounds bit_rate max exp)
unfolding remb_exponent
remb_exponent-Fits zero bit_rate max exp e le m b tight = absurd (omega arith)
remb_exponent-Fits (suc rounds) bit_rate max exp e le m b tight =
    elim (Bool-cases (leb max bit_rate)) [
      | inl more ↦
          let small : exp < 46 =
            lt_46 exp bit_rate le b (omega (arith, leb→le max bit_rate more)) in
          rw (more, remb_exponent)
            (remb_exponent-Fits rounds bit_rate _ (exp + 1) (omega arith) (omega arith)
              (doubled exp max small m) b
              (inr (omega (arith, two_pow_add-one exp, leb→le max bit_rate more))))
      | inr stop ↦ rw (stop, remb_exponent) (le, ground arith, tight)
    ]

-- The exponent that the setter computes, from `max = 0x3FFFF` and `exp = 0` on.
abbrev pub exponent : ℕ → ℕ
exponent bit_rate = remb_exponent 64 bit_rate 0x3ffff 0

pub exponent-Fits : (bit_rate : ℕ) → bit_rate < 0x3ffff * 2 ^ 46 → Fits bit_rate (exponent bit_rate)
exponent-Fits bit_rate b =
    remb_exponent-Fits 64 bit_rate 0x3ffff 0 (omega arith) (omega arith) (omega arith) b (inl refl)
