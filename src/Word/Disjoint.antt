-- ===== src/Word/Disjoint.antt =====
-- The native `|` on fields that do not overlap, in any order: the immediates that src/simulator.cpp
-- puts together.
use Prim.Native.Nat.{max, bit_or-bitwise}
use native.Mathlib.Nat.{pow-suc, one-le-pow}
use ece375_project.Base.{
  ℕ, zero, suc, ◌+◌, ◌*◌, ◌/◌, ◌%◌, ◌^◌, ◌≤◌, ◌<◌, bit_or, ◌≡◌, refl, sym, ap, ◌∙◌, arith,
}
use ece375_project.Word.Bits.{or-lowest, pow-double, bit_or_fields, pow-add}

or-none : (fuel a : ℕ) → a ≤ fuel → bit_or a 0 ≡ a
or-none zero zero h = refl
or-none zero (suc a) h = absurd (omega arith)
or-none (suc fuel) zero h = refl
or-none (suc fuel) (suc a) h =
    omega (arith, or-none fuel (suc a / 2) (omega arith), or-lowest (suc a) 0)

max_comm : (a b : ℕ) → a < 2 → b < 2 → max a b ≡ max b a
max_comm a b h k = ground arith

pub or_comm : (fuel a b : ℕ) → a ≤ fuel → bit_or a b ≡ bit_or b a
or_comm fuel zero b h = bit_or-bitwise 0 b ∙ sym (or-none b b (omega arith))
or_comm zero (suc a) b h = absurd (omega arith)
or_comm (suc fuel) (suc a) b h = omega (
  arith,
  or-lowest (suc a) b,
  or-lowest b (suc a),
  max_comm (suc a % 2) (b % 2) (omega arith) (omega arith),
  or_comm fuel (suc a / 2) (b / 2) (omega arith),
)

-- `|` works on the parts above and below bit `k` on their own.
or_split :
    (k p q r s : ℕ)
    → r < 2 ^ k
    → s < 2 ^ k
    → bit_or (p * 2 ^ k + r) (q * 2 ^ k + s) ≡ bit_or p q * 2 ^ k + bit_or r s
or_split zero p q r s h h' = ground arith
or_split (suc k) p q r s h h' = ground (
  arith,
  or_split k p q (r / 2) (s / 2),
  or-lowest (p * 2 ^ suc k + r) (q * 2 ^ suc k + s),
  or-lowest r s,
  pow-double p k,
  pow-double q k,
  pow-double (bit_or p q) k,
  pow-suc 2 k,
)

-- A field of `mid` between the bits below `k` and those from `k + j` on.
pub bit_or_between :
    (k j high mid low : ℕ)
    → low < 2 ^ k
    → mid < 2 ^ j
    → bit_or (high * 2 ^ (k + j) + low) (mid * 2 ^ k) ≡ high * 2 ^ (k + j) + mid * 2 ^ k + low
bit_or_between k j high mid low h h' =
    let cut : high * 2 ^ (k + j) ≡ high * 2 ^ j * 2 ^ k = grind (arith, pow-add k j) in
    let above : bit_or (high * 2 ^ j) mid ≡ mid + high * 2 ^ j =
      or_comm (high * 2 ^ j) (high * 2 ^ j) mid (omega arith) ∙ bit_or_fields j high mid h' in
    let one = one-le-pow k 2 (omega arith) in
    let split = or_split k (high * 2 ^ j) mid low 0 h (omega arith) in
    let spread : (mid + high * 2 ^ j) * 2 ^ k ≡ mid * 2 ^ k + high * 2 ^ j * 2 ^ k = grind arith in
    let padded : mid * 2 ^ k ≡ mid * 2 ^ k + 0 = omega arith in
    rw cut (
      ap (bit_or (high * 2 ^ j * 2 ^ k + low)) padded
      ∙ split
      ∙ omega (arith, ap (λ (t : ℕ). t * 2 ^ k) above, spread, or-none low low (omega arith)))
