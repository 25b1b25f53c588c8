-- ===== src/Prelude/Bits.antt =====
-- Masks of the native numbers as remainders and quotients.
use Prim.Native.Nat.{
  ℕ, zero, suc, ◌+◌, ◌*◌, ◌/◌, ◌%◌, ◌≤◌, ◌<◌, min, bit_and, digits, bit_and-bitwise,
}
use mathlib.Core.Path.{◌≡◌, refl, sym, ap, ap₂, ◌∙◌}
use mathlib.Core.Bool.{Bool, true, ◌&&◌}
use native.Mathlib.Omega.{arith}
use native.Mathlib.Nat.{
  mod-lt, mod-eq_of_lt, mul-add-mod_self_right, div-add-mod', div-div-eq-div-mul, div-one, mul_comm,
}

-- The test holds for all numbers below `most`.
unfoldable pub all_below : ℕ → (ℕ → Bool) → Bool
all_below zero test = true
all_below (suc most) test = all_below most test && test most

pub all_below_sound :
    (most : ℕ) (test : ℕ → Bool) (n : ℕ) → n < most → all_below most test ≡ true → test n ≡ true
unfolding all_below
all_below_sound zero test n small all = absurd (omega arith)
all_below_sound (suc most) test n small all = ground (arith, all_below_sound most test n)

-- What `bit_and` stands for, on so much fuel.
abbrev masked : (fuel a mask : ℕ) → ℕ
masked fuel a mask = digits (λ rest. zero) min fuel a mask

masked_nothing : (fuel mask : ℕ) → masked fuel 0 mask ≡ 0
masked_nothing zero mask = refl
masked_nothing (suc fuel) mask = refl

-- Fuel beyond the first argument changes nothing.
masked_more :
    (enough more a mask : ℕ)
    → a ≤ enough
    → enough ≤ more
    → masked more a mask ≡ masked enough a mask
masked_more enough more zero mask h k = masked_nothing more mask ∙ sym (masked_nothing enough mask)
masked_more zero more (suc a) mask h k = absurd (omega arith)
masked_more (suc enough) zero (suc a) mask h k = absurd (omega arith)
masked_more (suc enough) (suc more) (suc a) mask h k =
    let half = masked_more enough more (suc a / 2) (mask / 2) (omega arith) (omega arith) in
    omega arith

masked_none : (fuel a : ℕ) → masked fuel a 0 ≡ 0
masked_none zero a = refl
masked_none (suc fuel) zero = refl
masked_none (suc fuel) (suc a) = let half = masked_none fuel (suc a / 2) in omega arith

bit_and-zero : (a : ℕ) → bit_and a 0 ≡ 0
bit_and-zero a = bit_and-bitwise a 0 ∙ masked_none a a

-- The lowest binary digit, and the others.
bit_and_step :
    (a mask : ℕ) → bit_and a mask ≡ bit_and (a / 2) (mask / 2) * 2 + min (a % 2) (mask % 2)
bit_and_step zero mask =
    let whole = bit_and-bitwise 0 mask in let half = bit_and-bitwise 0 (mask / 2) in omega arith
bit_and_step (suc a) mask =
    let h = suc a / 2 in
    let whole : bit_and (suc a) mask ≡ masked a h (mask / 2) * 2 + min (suc a % 2) (mask % 2) =
      bit_and-bitwise (suc a) mask in
    let half : masked a h (mask / 2) ≡ bit_and h (mask / 2) =
      masked_more h a h (mask / 2) (omega arith) (omega arith)
      ∙ sym (bit_and-bitwise h (mask / 2)) in
    whole ∙ ap (λ t. t * 2 + min (suc a % 2) (mask % 2)) half

-- `2 ^ k - 1`, without subtraction.
abbrev pub ones : ℕ → ℕ
ones zero = 0
ones (suc k) = ones k * 2 + 1

-- `2 ^ k`, by doubling.
abbrev pub two_pow : ℕ → ℕ
two_pow zero = 1
two_pow (suc k) = two_pow k * 2

half_odd : (n : ℕ) → (n * 2 + 1) / 2 ≡ n
half_odd n = omega arith

odd : (n : ℕ) → (n * 2 + 1) % 2 ≡ 1
odd n = omega arith

mod_double : (a p : ℕ) → a / 2 % p * 2 + min (a % 2) 1 ≡ a % (p * 2)
mod_double a zero = omega arith
mod_double a (suc p) =
    let low = a / 2 % suc p * 2 + a % 2 in
    let small : low < suc p * 2 = omega (arith, mod-lt (a / 2) {m = suc p} (omega arith)) in
    let whole : a / 2 / suc p * (suc p * 2) + low ≡ a =
      omega (arith, div-add-mod' (a / 2) (suc p)) in
    let start : a / 2 % suc p * 2 + min (a % 2) 1 ≡ low = omega arith in
    start
    ∙ sym (mod-eq_of_lt small)
    ∙ sym (mul-add-mod_self_right (a / 2 / suc p) (suc p * 2) low)
    ∙ ap (λ t. t % (suc p * 2)) whole

-- A mask of `k` ones is a remainder.
pub bit_and-ones : (k a : ℕ) → bit_and a (ones k) ≡ a % two_pow k
bit_and-ones zero a = omega (arith, bit_and-zero a)
bit_and-ones (suc k) a =
    bit_and_step a (ones k * 2 + 1)
    ∙ rw (half_odd (ones k), odd (ones k), bit_and-ones k (a / 2)) (mod_double a (two_pow k))

half_even : (m p : ℕ) → m * (p * 2) / 2 ≡ m * p
half_even m p = omega arith

even : (m p : ℕ) → m * (p * 2) % 2 ≡ 0
even m p = omega arith

halves : (a p : ℕ) → a / 2 / p ≡ a / (p * 2)
halves a p = div-div-eq-div-mul a 2 p ∙ ap (λ t. a / t) (mul_comm 2 p)

-- A mask of zeros below is a mask of the quotient.
pub bit_and-shifted :
    (k a m : ℕ) → bit_and a (m * two_pow k) ≡ bit_and (a / two_pow k) m * two_pow k
bit_and-shifted zero a m = ap₂ bit_and (sym (div-one a)) whole ∙ sym whole
  where
    whole : {n : ℕ} → n * 1 ≡ n
    whole = omega arith
bit_and-shifted (suc k) a m =
    bit_and_step a (m * (two_pow k * 2))
    ∙ rw (half_even m (two_pow k), even m (two_pow k), bit_and-shifted k (a / 2) m)
        (rw (halves a (two_pow k)) (omega arith))
