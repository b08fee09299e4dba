-- ===== src/Word/Bits.antt =====
-- The native `&` and `|` as arithmetic: one equation for the lowest digit, then masks, single
-- bits and disjoint fields at every width.
use Prim.Native.Nat.{min, max, digits, bitwise, bit_and-bitwise, bit_or-bitwise}
use native.Mathlib.Nat.{add-zero, pow-suc, pow-succ', one-le-pow, div-div-eq-div-mul}
use ece375_project.Base.{
  ℕ, zero, suc, ◌+◌, ◌-◌, ◌*◌, ◌/◌, ◌%◌, ◌^◌, ◌≤◌, ◌<◌, bit_and, bit_or, ◌≡◌, refl, ap, ◌∙◌, arith,
}

-- What the native operations stand for recurs on a count of digits. A count beyond the first
-- number changes nothing, which leaves a law for the lowest digit and the rest.
module _ (z : ℕ → ℕ) (f : ℕ → ℕ → ℕ) where
  digits-more : (n a b : ℕ) → a ≤ n → digits z f (suc n) a b ≡ digits z f n a b
  digits-more zero zero b h = refl
  digits-more (suc n) zero b h = refl
  digits-more zero (suc a) b h = absurd (omega arith)
  digits-more (suc n) (suc a) b h =
      let rest = digits-more n (suc a / 2) (b / 2) (omega arith) in
      ap (λ (t : ℕ). t * 2 + f (suc a % 2) (b % 2)) rest

  same_count : (n m a b : ℕ) → n ≡ m → digits z f n a b ≡ digits z f m a b
  same_count n m a b e = ap (λ (t : ℕ). digits z f t a b) e

  digits-spare : (k n a b : ℕ) → a ≤ n → digits z f (k + n) a b ≡ digits z f n a b
  digits-spare zero n a b h = same_count (0 + n) n a b (omega arith)
  digits-spare (suc k) n a b h =
      same_count (suc k + n) (suc (k + n)) a b (omega arith)
      ∙ digits-more (k + n) a b (omega arith)
      ∙ digits-spare k n a b h

  bitwise-lowest :
      (a b : ℕ)
      → bitwise z f (suc a) b ≡ f (suc a % 2) (b % 2) + 2 * bitwise z f (suc a / 2) (b / 2)
  bitwise-lowest a b =
      let half = suc a / 2 in
      let cut : digits z f a half (b / 2) ≡ digits z f half half (b / 2) =
        same_count a (a - half + half) half (b / 2) (omega arith)
        ∙ digits-spare (a - half) half half (b / 2) (omega arith) in
      omega (arith, cut)

pub or-lowest : (a b : ℕ) → bit_or a b ≡ max (a % 2) (b % 2) + 2 * bit_or (a / 2) (b / 2)
or-lowest zero b = simp bit_or-bitwise (omega arith)
or-lowest (suc n) b = simp bit_or-bitwise (bitwise-lowest (λ y. y) max n b)

and-lowest : (a b : ℕ) → bit_and a b ≡ min (a % 2) (b % 2) + 2 * bit_and (a / 2) (b / 2)
and-lowest zero b = simp bit_and-bitwise (omega arith)
and-lowest (suc n) b = simp bit_and-bitwise (bitwise-lowest (λ y. 0) min n b)

-- A number has no digit left after as many halvings as it counts.
and-none : (fuel a : ℕ) → a ≤ fuel → bit_and a 0 ≡ 0
and-none zero zero h = refl
and-none zero (suc a) h = absurd (omega arith)
and-none (suc fuel) zero h = refl
and-none (suc fuel) (suc a) h =
    omega (arith, and-none fuel (suc a / 2) (omega arith), and-lowest (suc a) 0)

pub pow-double : (q k : ℕ) → 2 * (q * 2 ^ k) ≡ q * 2 ^ suc k
pow-double q k = let step = ap (λ (n : ℕ). q * n) (pow-suc 2 k) in omega (arith, step)

pow-suc-add : (a b : ℕ) → 2 ^ (a + suc b) ≡ 2 ^ suc (a + b)
pow-suc-add a b = ap (λ (t : ℕ). 2 ^ t) (omega arith)

pub pow-add : (a b : ℕ) → 2 ^ (a + b) ≡ 2 ^ a * 2 ^ b
pow-add a zero = rw add-zero (omega arith)
pow-add a (suc b) =
    omega (arith, pow-suc 2 (a + b), pow-add a b, pow-double (2 ^ a) b, pow-suc-add a b)

-- `r | (q << k)` is a sum when `r` fits `k` bits.
pub bit_or_fields : (k q r : ℕ) → r < 2 ^ k → bit_or r (q * 2 ^ k) ≡ r + q * 2 ^ k
bit_or_fields zero q r fits = ground (arith, bit_or-bitwise 0 q)
bit_or_fields (suc k) q r fits =
    let rest = bit_or_fields k q (r / 2) in
    ground (arith, rest, pow-double q k, or-lowest r (q * 2 ^ suc k))

-- A mask of `k` ones leaves the low part of a number that is cut at bit `k`.
mask_low : (k high low : ℕ) → low < 2 ^ k → bit_and (low + high * 2 ^ k) (2 ^ k - 1) ≡ low
mask_low zero high low fits = ground (arith, and-none (low + high * 2 ^ 0) (low + high * 2 ^ 0))
mask_low (suc k) high low fits =
    let rest = mask_low k high (low / 2) in
    let digit = and-lowest (low + high * 2 ^ suc k) (2 ^ suc k - 1) in
    ground (arith, rest, digit, pow-double high k, pow-suc 2 k)

pub bit_and_mask : (k a : ℕ) → bit_and a (2 ^ k - 1) ≡ a % 2 ^ k
bit_and_mask k a =
    let cut = mask_low k (a / 2 ^ k) (a % 2 ^ k) in ground (arith, cut, one-le-pow k 2)

bit_and-one : (a : ℕ) → bit_and a 1 ≡ a % 2
bit_and-one a = omega (arith, and-lowest a 1, and-none (a / 2) (a / 2) (omega arith))

half-pow-suc : (k : ℕ) → 2 ^ suc k / 2 ≡ 2 ^ k
half-pow-suc k = omega (arith, pow-suc 2 k)

shift_twice : (a k : ℕ) → a / 2 ^ suc k % 2 * 2 ^ suc k ≡ a / 2 / 2 ^ k % 2 * 2 ^ suc k
shift_twice a k = ap (λ (t : ℕ). t % 2 * 2 ^ suc k) (rw (div-div-eq-div-mul, pow-succ' 2 k) refl)

-- A mask of one bit selects that bit.
pub bit_and_bit : (k a : ℕ) → bit_and a (2 ^ k) ≡ a / 2 ^ k % 2 * 2 ^ k
bit_and_bit zero a = omega (arith, bit_and-one a)
bit_and_bit (suc k) a = omega (
  arith,
  and-lowest a (2 ^ suc k),
  pow-suc 2 k,
  ap (bit_and (a / 2)) (half-pow-suc k),
  bit_and_bit k (a / 2),
  shift_twice a k,
  pow-double (a / 2 / 2 ^ k % 2) k,
)
