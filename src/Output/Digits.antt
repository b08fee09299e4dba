-- ===== src/Output/Digits.antt =====
-- Printed numbers of src/Utilities.cpp and src/MemoryStore.cpp read back.
use native.Mathlib.Nat.{pow-suc, mod-lt, zero-mul, div-add-mod', mul-le-mul_left, div-lt_iff_lt-mul}
use ece375_project.Base.{
  Bool-cases, inl, inr, ltb→lt, ltb→le, All, All-append, ◌==◌, ℕ, zero, suc, ◌+◌, ◌-◌, ◌*◌, ◌/◌,
  ◌%◌, ◌^◌, ◌≤◌, ◌<◌, ◌≡◌, refl, ap, ◌∙◌, arith, [], ◌∷◌, ◌++◌, ltb, false, if◌then◌else◌,
}
use ece375_project.Output.{Text, digit, digits, dec, hex, signed_dec}

-- The number that a digit stands for.
abbrev pub digit_value : ℕ → ℕ
digit_value c = if ltb c b'a' then c - b'0' else c + 10 - b'a'

-- The number that digits stand for, after those that gave `n`.
unfoldable pub number : ℕ → ℕ → Text → ℕ
number base n [] = n
number base n (c ∷ t) = number base (n * base + digit_value c) t

number-append : (base n : ℕ) (s t : Text) → number base n (s ++ t) ≡ number base (number base n s) t
unfolding number
number-append base n [] t = refl
number-append base n (c ∷ s) t = number-append base (n * base + digit_value c) s t

digit-lt : (d : ℕ) → d < 36 → (b'0' ≤ digit d) × (digit d ≤ b'z')
digit-lt d h = ground arith

digit_value-digit : (d : ℕ) → d < 36 → digit_value (digit d) ≡ d
digit_value-digit d h = ground arith

number-digits :
    (base fuel n : ℕ) → 2 ≤ base → base ≤ 36 → n < 2 ^ fuel → number base 0 (digits base fuel n) ≡ n
unfolding digits number
number-digits base zero n h k fits = omega arith
number-digits base (suc fuel) n h k fits =
    let wide : 2 ^ suc fuel ≤ 2 ^ fuel * base =
      omega (arith, pow-suc 2 fuel, mul-le-mul_left (2 ^ fuel) h) in
    let shorter : n / base < 2 ^ fuel = (div-lt_iff_lt-mul (omega arith)).1 (omega (arith, wide)) in
    let ih = number-digits base fuel (n / base) h k shorter in
    let low : n % base < base = mod-lt n (omega arith) in
    let last = digit_value-digit (n % base) (omega (arith, low)) in
    let longer : number base 0 (digits base fuel (n / base) ++ digit (n % base) ∷ []) ≡ n =
      number-append base 0 (digits base fuel (n / base)) (digit (n % base) ∷ [])
      ∙ ap (λ t. t * base + digit_value (digit (n % base))) ih
      ∙ ap (λ t. n / base * base + t) last
      ∙ div-add-mod' n base in
    elim (Bool-cases (ltb n base)) [
      | inl e ↦
          rw e (omega (arith, zero-mul base, digit_value-digit n (omega (arith, ltb→lt n base e))))
      | inr e ↦ rw e longer
    ]

-- A `uint64_t` printed in hexadecimal reads back as itself.
pub number-hex : (n : ℕ) → n < 2 ^ 64 → number 16 0 (hex n) ≡ n
unfolding hex
number-hex n fits = number-digits 16 64 n (omega arith) (omega arith) fits

pub number-dec : (n : ℕ) → n < 2 ^ 64 → number 10 0 (dec n) ≡ n
unfolding dec
number-dec n fits = number-digits 10 64 n (omega arith) (omega arith) fits

-- Reads a decimal number that may have a sign, modulo 2^64.
unfoldable pub signed_number : Text → ℕ
unfolding number
signed_number [] = 0
signed_number (c ∷ t) = if c == b'-' then 2 ^ 64 - number 10 0 t else number 10 0 (c ∷ t)

-- A digit is no sign and no space.
abbrev pub IsFigure : ℕ → Type 0
IsFigure c = (b'0' ≤ c) × (c ≤ b'z')

abbrev pub IsNumeral : Text → Type 0
IsNumeral = All IsFigure

digits-IsNumeral : (base fuel n : ℕ) → 2 ≤ base → base ≤ 36 → IsNumeral (digits base fuel n)
unfolding digits
digits-IsNumeral base zero n h k = tt
digits-IsNumeral base (suc fuel) n h k =
    let low : n % base < base = mod-lt n (omega arith) in
    elim (Bool-cases (ltb n base)) [
      | inl e ↦ rw e (digit-lt n (omega (arith, ltb→lt n base e)), tt)
      | inr e ↦ rw e (
          All-append IsFigure (digits base fuel (n / base)) _
            (digits-IsNumeral base fuel (n / base) h k)
            (digit-lt (n % base) (omega (arith, low)), tt))
    ]

pub dec-IsNumeral : (n : ℕ) → IsNumeral (dec n)
unfolding dec
dec-IsNumeral n = digits-IsNumeral 10 64 n (omega arith) (omega arith)

signed_number-IsNumeral : (t : Text) → IsNumeral t → signed_number t ≡ number 10 0 t
unfolding signed_number
signed_number-IsNumeral [] h = unfold number in refl
signed_number-IsNumeral (c ∷ t) h = let plain : (c == b'-') ≡ false = ground arith in rw plain refl

-- A 64-bit number printed as an `int64_t` reads back as itself, a negative one by its sign.
pub signed_number-signed_dec : (v : ℕ) → v < 2 ^ 64 → signed_number (signed_dec v) ≡ v
unfolding signed_dec signed_number
signed_number-signed_dec v fits = elim (Bool-cases (ltb v (2 ^ 63))) [
  | inl e ↦ rw e (signed_number-IsNumeral (dec v) (dec-IsNumeral v) ∙ number-dec v fits)
  | inr e ↦ rw e (
      omega
        (arith, ltb→le v (2 ^ 63) e, number-dec (2 ^ 64 - v) (omega (arith, ltb→le v (2 ^ 63) e))))
]

pub hex-IsNumeral : (n : ℕ) → IsNumeral (hex n)
unfolding hex
hex-IsNumeral n = digits-IsNumeral 16 64 n (omega arith) (omega arith)
