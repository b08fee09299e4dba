-- ===== src/Memory/Read.antt =====
-- The reading loop of `getOrSetValue`, byte by byte.
use native.Mathlib.Nat.{le_trans, pow-le-pow_right, mod-eq_of_lt, mod-lt, mod-one, one-le-pow}
use ece375_project.Base.{
  ℕ, zero, suc, ◌+◌, ◌*◌, ◌/◌, ◌%◌, ◌^◌, ◌≤◌, ◌<◌, bit_or, ◌≡◌, refl, ap, subst, ◌∙◌, arith, none,
  some, List, All, All-get_elem?, Option-cases, get_elem?, inl, inr,
}
use ece375_project.Word.{u64, shl64}
use ece375_project.Word.Bits.{bit_or_fields}
use ece375_project.Memory.Write.{byte_of, index_eq}
use ece375_project.Memory.{Outcome, finished, out_of_range, get_bytes}

byte_field :
    (k value : ℕ)
    → value / 2 ^ k % 2 ^ 8 * 2 ^ k < 2 ^ 64
    → bit_or (value % 2 ^ k) (shl64 (value / 2 ^ k % 2 ^ 8) k)
      ≡ value % 2 ^ k + value / 2 ^ k % 2 ^ 8 * 2 ^ k
byte_field k value h = rw (mod-eq_of_lt h) (
    bit_or_fields k (value / 2 ^ k % 2 ^ 8) (value % 2 ^ k)
      (mod-lt value (one-le-pow k 2 (omega arith))))

-- Bytes `0` to `i` of a value, read back one by one.
byte_step :
    (value i : ℕ)
    → i < 8
    → bit_or (value % 2 ^ (i * 8)) (shl64 (byte_of value i) (i * 8)) ≡ value % 2 ^ ((i + 1) * 8)
byte_step value zero h = omega (arith, byte_field 0 value (omega arith))
byte_step value (suc zero) h = omega (arith, byte_field 8 value (omega arith))
byte_step value (suc (suc zero)) h = omega (arith, byte_field 16 value (omega arith))
byte_step value (suc (suc (suc zero))) h = omega (arith, byte_field 24 value (omega arith))
byte_step value (suc (suc (suc (suc zero)))) h = omega (arith, byte_field 32 value (omega arith))
byte_step value (suc (suc (suc (suc (suc zero))))) h =
    omega (arith, byte_field 40 value (omega arith))
byte_step value (suc (suc (suc (suc (suc (suc zero)))))) h =
    omega (arith, byte_field 48 value (omega arith))
byte_step value (suc (suc (suc (suc (suc (suc (suc zero))))))) h =
    omega (arith, byte_field 56 value (omega arith))
byte_step value (suc (suc (suc (suc (suc (suc (suc (suc i)))))))) h = absurd (omega arith)

-- `arr` holds `size` bytes of `value` from index `rel`.
abbrev pub Holds : List ℕ → ℕ → ℕ → ℕ → Type 0
Holds arr rel size value = (i : ℕ) → i < size → get_elem? arr (rel + i) ≡ some (byte_of value i)

get_bytes-some :
    (arr : List ℕ) (rel left i acc b : ℕ)
    → get_elem? arr (u64 (rel + i)) ≡ some b
    → get_bytes arr rel (suc left) i acc
      ≡ get_bytes arr rel left (i + 1) (bit_or acc (shl64 b (i * 8)))
unfolding get_bytes
get_bytes-some arr rel left i acc b e = rw (e, get_bytes) refl

get_bytes-none :
    (arr : List ℕ) (rel left i acc : ℕ)
    → get_elem? arr (u64 (rel + i)) ≡ none
    → get_bytes arr rel (suc left) i acc ≡ out_of_range acc
unfolding get_bytes
get_bytes-none arr rel left i acc e = rw (e, get_bytes) refl

-- A read of the bytes of a value assembles the value.
get_bytes-Holds :
    (arr : List ℕ) (rel value size left i : ℕ)
    → Holds arr rel size value
    → i + left ≡ size
    → size ≤ 8
    → rel + size ≤ 2 ^ 64
    → get_bytes arr rel left i (value % 2 ^ (i * 8)) ≡ finished (value % 2 ^ (size * 8))
get_bytes-Holds arr rel value size zero i hold e s k =
    unfold get_bytes in ap {B = Outcome ℕ} (λ (n : ℕ). finished (value % 2 ^ (n * 8))) (omega arith)
get_bytes-Holds arr rel value size (suc left) i hold e s k =
    get_bytes-some arr rel left i _ (byte_of value i)
      (rw (index_eq rel i (rel + size) (omega arith) k) (hold i (omega arith)))
    ∙ rw (byte_step value i (omega arith))
        (get_bytes-Holds arr rel value size left (i + 1) hold (omega arith) s k)

pub get_bytes_whole :
    (arr : List ℕ) (rel value size : ℕ)
    → Holds arr rel size value
    → size ≤ 8
    → rel + size ≤ 2 ^ 64
    → get_bytes arr rel size 0 0 ≡ finished (value % 2 ^ (size * 8))
get_bytes_whole arr rel value size hold s k =
    subst (λ (acc : ℕ). get_bytes arr rel size 0 acc ≡ finished (value % 2 ^ (size * 8)))
      (mod-one value) (get_bytes-Holds arr rel value size size 0 hold (omega arith) s k)

-- What a read leaves in its reference argument, whether or not it leaves by the exception.
abbrev pub read : Outcome ℕ → ℕ
read (finished v) = v
read (out_of_range v) = v

grown : (acc i size : ℕ) → acc < 2 ^ (i * 8) → i ≤ size → acc < 2 ^ (size * 8)
grown acc i size a h = le_trans a (pow-le-pow_right (omega arith) {j = size * 8} (omega arith))

above :
    (k acc b : ℕ)
    → acc < 2 ^ k
    → b * 2 ^ k < 2 ^ 64
    → acc + b * 2 ^ k < 2 ^ (k + 8)
    → bit_or acc (shl64 b k) < 2 ^ (k + 8)
above k acc b a fits h = rw (mod-eq_of_lt fits, bit_or_fields k b acc a) h

-- One more byte `b` above `i` bytes.
byte_above :
    (i acc b : ℕ)
    → i < 8
    → acc < 2 ^ (i * 8)
    → b < 2 ^ 8
    → bit_or acc (shl64 b (i * 8)) < 2 ^ ((i + 1) * 8)
byte_above zero acc b h a k = above 0 acc b a (omega arith) (omega arith)
byte_above (suc zero) acc b h a k = above 8 acc b a (omega arith) (omega arith)
byte_above (suc (suc zero)) acc b h a k = above 16 acc b a (omega arith) (omega arith)
byte_above (suc (suc (suc zero))) acc b h a k = above 24 acc b a (omega arith) (omega arith)
byte_above (suc (suc (suc (suc zero)))) acc b h a k = above 32 acc b a (omega arith) (omega arith)
byte_above (suc (suc (suc (suc (suc zero))))) acc b h a k =
    above 40 acc b a (omega arith) (omega arith)
byte_above (suc (suc (suc (suc (suc (suc zero)))))) acc b h a k =
    above 48 acc b a (omega arith) (omega arith)
byte_above (suc (suc (suc (suc (suc (suc (suc zero))))))) acc b h a k =
    above 56 acc b a (omega arith) (omega arith)
byte_above (suc (suc (suc (suc (suc (suc (suc (suc i)))))))) acc b h a k = absurd (omega arith)

-- A read of any bytes fits the bits that they take.
pub get_bytes-lt :
    (arr : List ℕ) (rel left i size acc : ℕ)
    → All (λ b. b < 2 ^ 8) arr
    → i + left ≡ size
    → size ≤ 8
    → acc < 2 ^ (i * 8)
    → read (get_bytes arr rel left i acc) < 2 ^ (size * 8)
get_bytes-lt arr rel zero i size acc h e s a = unfold get_bytes in grown acc i size a (omega arith)
get_bytes-lt arr rel (suc left) i size acc h e s a =
    elim (Option-cases (get_elem? arr (u64 (rel + i)))) [
      | inl none_there ↦
          rw (get_bytes-none arr rel left i acc none_there) (grown acc i size a (omega arith))
      | inr (b, there) ↦ rw (get_bytes-some arr rel left i acc b there) (
          get_bytes-lt arr rel left (i + 1) size _ h (omega arith) s
            (byte_above i acc b (omega arith) a (All-get_elem? (λ x. x < 2 ^ 8) arr _ h there)))
    ]
