-- ===== src/Word/Sext.antt =====
-- Sign extension: `sext64` and `sext32` of src/Utilities.cpp as arithmetic.
use native.Mathlib.Nat.{one-le-pow, pow-le-pow_right, mul-add-mod_self_left, mod-eq_of_lt}
use ece375_project.Base.{
  ℕ, zero, suc, ◌∙◌, ◌+◌, ◌-◌, ◌*◌, ◌/◌, ◌%◌, ◌^◌, ◌≤◌, ◌<◌, bit_and, bit_or, ◌≡◌, refl, ap, subst,
  arith, ltb, ◌==◌, if◌then◌else◌, inl, inr, Bool-cases, ltb→lt, ltb→le,
}
use ece375_project.Base.Int.{pos, negsuc}
use ece375_project.Word.{signed, sext64, sext32}
use ece375_project.Word.Bits.{bit_and_bit, bit_or_fields, pow-add}

high_mask_less_one : (a b : ℕ) → suc a * suc b - 1 ≡ a * b + a + b
high_mask_less_one a b = omega arith

high_mask_product : (a b : ℕ) → (a * b + a + b) * suc a ≡ (suc a * suc b) * a + b * suc a
high_mask_product a b = omega arith

high_mask_mod : (p q : ℕ) → 0 < p → 0 < q → (p * q - 1) * p % (p * q) ≡ (q - 1) * p
high_mask_mod zero q hp hq = absurd (omega arith)
high_mask_mod (suc a) zero hp hq = absurd (omega arith)
high_mask_mod (suc a) (suc b) hp hq =
    rw (high_mask_less_one a b, high_mask_product a b, mul-add-mod_self_left)
      (mod-eq_of_lt (omega arith) ∙ ap (λ (t : ℕ). t * suc a) (omega arith))

-- The mask `~0 << m` of a word of `m + r` bits.
high_mask : (m r : ℕ) → (2 ^ (m + r) - 1) * 2 ^ m % 2 ^ (m + r) ≡ (2 ^ r - 1) * 2 ^ m
high_mask m r =
    rw (pow-add m r)
      (high_mask_mod (2 ^ m) (2 ^ r) (one-le-pow m 2 (omega arith)) (one-le-pow r 2 (omega arith)))

quotient_zero : (x q : ℕ) → x < q → x / q ≡ 0
quotient_zero x q h = grind arith

quotient_one : (x q : ℕ) → q ≤ x → x < 2 * q → x / q ≡ 1
quotient_one x q h k = grind arith

sign_test : (x q : ℕ) → 0 < q → x < 2 * q → (x / q % 2 * q == 0) ≡ ltb x q
sign_test x q hq h = elim (Bool-cases (ltb x q)) [
  | inl below ↦ rw (below, quotient_zero x q (ltb→lt x q below)) (ground arith)
  | inr above ↦ rw (above, quotient_one x q (ltb→le x q above) h) (ground arith)
]

-- The sign bit of a field of `k + 1` bits.
sign_bit : (imm k : ℕ) → imm < 2 ^ (k + 1) → (bit_and imm (2 ^ k) == 0) ≡ ltb imm (2 ^ k)
sign_bit imm k h =
    rw (bit_and_bit k imm)
      (sign_test imm (2 ^ k) (one-le-pow k 2 (omega arith)) (omega (arith, pow-add k 1)))

-- The same mask, cut to `w` bits, as a number.
mask_form : (w m : ℕ) → m ≤ w → (2 ^ w - 1) * 2 ^ m % 2 ^ w ≡ (2 ^ (w - m) - 1) * 2 ^ m
mask_form w m h =
    subst (λ (n : ℕ). (2 ^ n - 1) * 2 ^ m % 2 ^ n ≡ (2 ^ (w - m) - 1) * 2 ^ m) (omega arith)
      (high_mask m (w - m))

pow_split : (w m : ℕ) → m ≤ w → 2 ^ w ≡ 2 ^ (w - m) * 2 ^ m
pow_split w m h = subst (λ (n : ℕ). 2 ^ n ≡ 2 ^ (w - m) * 2 ^ m) (omega arith) (pow-add (w - m) m)

sub_one-mul : (a b : ℕ) → (a - 1) * b ≡ a * b - b
sub_one-mul zero b = omega arith
sub_one-mul (suc a) b = ap {B = ℕ} (λ (t : ℕ). t * b) (sub_one a) ∙ omega arith
  where
    sub_one : (n : ℕ) → suc n - 1 ≡ n
    sub_one n = omega arith

mask_value : (w m : ℕ) → m ≤ w → (2 ^ (w - m) - 1) * 2 ^ m ≡ 2 ^ w - 2 ^ m
mask_value w m h = omega (arith, pow_split w m h, sub_one-mul (2 ^ (w - m)) (2 ^ m))

-- What `imm | (~0 << m)` is when `imm` fits `m` bits.
or_mask :
    (w m imm : ℕ)
    → m ≤ w
    → imm < 2 ^ m
    → bit_or imm ((2 ^ w - 1) * 2 ^ m % 2 ^ w) ≡ imm + (2 ^ w - 2 ^ m)
or_mask w m imm h fits =
    rw (mask_form w m h, bit_or_fields m (2 ^ (w - m) - 1) imm fits, mask_value w m h) refl

-- `sext64` of a field of `k + 1` bits whose sign bit is bit `k`.
pub sext64_lem :
    (imm k : ℕ)
    → k < 63
    → imm < 2 ^ (k + 1)
    → sext64 imm k ≡ (if ltb imm (2 ^ k) then imm else imm + (2 ^ 64 - 2 ^ (k + 1)))
unfolding sext64
sext64_lem imm k hk h = rw (sign_bit imm k h, or_mask 64 (k + 1) imm (omega arith) h) refl

pub sext32_lem :
    (imm k : ℕ)
    → k < 31
    → imm < 2 ^ (k + 1)
    → sext32 imm k ≡ (if ltb imm (2 ^ k) then imm else imm + (2 ^ 32 - 2 ^ (k + 1)))
unfolding sext32
sext32_lem imm k hk h = rw (sign_bit imm k h, or_mask 32 (k + 1) imm (omega arith) h) refl

add-sub_cancel_one : (k : ℕ) → k + 1 - 1 ≡ k
add-sub_cancel_one k = omega arith

pow-add-one : (k : ℕ) → 2 ^ (k + 1) ≡ 2 * 2 ^ k
pow-add-one k = omega (arith, pow-add k 1)

-- Bit 62 is the highest sign bit that `sext64` is called with room for.
two-pow-le : (k : ℕ) → k < 63 → 2 ^ k ≤ 2 ^ 62
two-pow-le k h = pow-le-pow_right (omega arith) {j = 62} (omega arith)

signed_extended :
    (imm q : ℕ)
    → q ≤ 2 ^ 62
    → imm < 2 * q
    → let x = (if ltb imm q then imm else imm + (2 ^ 64 - 2 * q)) in
      (signed 64 x ≡ (if ltb imm q then pos imm else negsuc (2 * q - imm - 1))) × (x < 2 ^ 64)
signed_extended imm q hq h = ground arith

-- For `k` below 63 and a field `imm` that fits `k + 1` bits, sign extension from bit `k` to 64 bits
-- keeps the integer that the field stands for, and gives a 64-bit word.
pub sext64-signed :
    (imm k : ℕ)
    → k < 63
    → imm < 2 ^ (k + 1)
    → (signed 64 (sext64 imm k) ≡ signed (k + 1) imm) × (sext64 imm k < 2 ^ 64)
sext64-signed imm k hk h =
    rw (sext64_lem imm k hk h, add-sub_cancel_one k, pow-add-one k)
      (signed_extended imm (2 ^ k) (two-pow-le k hk) (omega (arith, pow-add k 1)))
