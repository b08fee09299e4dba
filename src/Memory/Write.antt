-- ===== src/Memory/Write.antt =====
-- The writing loop of `getOrSetValue`, byte by byte.
use native.Mathlib.Decide.{dec_lt}
use native.Mathlib.Nat.{le_refl, add-zero, mod-eq_of_lt}
use ece375_project.Base.{
  ℕ, zero, suc, ◌+◌, ◌*◌, ◌/◌, ◌%◌, ◌^◌, ◌≤◌, ◌<◌, ◌≡◌, refl, subst, ◌∙◌, arith, some, List, length,
  get_elem?, set, length-set, get_elem?-set_self, get_elem?-set_ne, All, All-set, Bool-cases, ◌≢◌,
  inl, inr, ltb, if◌then◌else◌, lt→ltb, le→ltb, ◌⊎◌,
}
use ece375_project.Word.{u64}
use ece375_project.Word.Bits.{bit_and_mask}
use ece375_project.Memory.{Outcome, finished, out_of_range, set_bytes}

-- Byte `i` of a little-endian value.
abbrev pub byte_of : ℕ → ℕ → ℕ
byte_of value i = value / 2 ^ (i * 8) % 2 ^ 8

-- `out` is `arr` with the bytes from `lo` up to `hi` replaced by those of `value` from byte `i`.
pub record IsWritten (value lo hi i : ℕ) (arr out : List ℕ) : Type 0 where
  pub same_length : length out ≡ length arr
  pub inside :
      (j b : ℕ) → j + i ≡ lo + b → lo ≤ j → j < hi → get_elem? out j ≡ some (byte_of value b)
  pub outside : (j : ℕ) → (j < lo) ⊎ (hi ≤ j) → get_elem? out j ≡ get_elem? arr j

pub index_eq : (rel i n : ℕ) → rel + i < n → n ≤ 2 ^ 64 → u64 (rel + i) ≡ rel + i
index_eq rel i n h k = mod-eq_of_lt (omega arith)

-- One round of a write, at any index.
set_bytes_round :
    (value rel left i : ℕ) (arr : List ℕ)
    → set_bytes value rel (suc left) i arr ≡ (
        if ltb (u64 (rel + i)) (length arr)
        then set_bytes value rel left (i + 1) (set arr (u64 (rel + i)) (byte_of value i))
        else out_of_range arr)
unfolding set_bytes
set_bytes_round value rel left i arr = rw (bit_and_mask 8 (value / 2 ^ (i * 8))) refl

set_bytes-suc :
    (value rel left i : ℕ) (arr : List ℕ)
    → rel + i < length arr
    → length arr ≤ 2 ^ 64
    → set_bytes value rel (suc left) i arr
      ≡ set_bytes value rel left (i + 1) (set arr (rel + i) (byte_of value i))
unfolding set_bytes
set_bytes-suc value rel left i arr h k =
    rw
      (
        index_eq rel i (length arr) h k,
        lt→ltb (rel + i) (length arr) h,
        bit_and_mask 8 (value / 2 ^ (i * 8)),
      )
      refl

set_bytes-full :
    (value rel left i : ℕ) (arr : List ℕ)
    → length arr ≤ rel + i
    → rel + i < 2 ^ 64
    → set_bytes value rel (suc left) i arr ≡ out_of_range arr
unfolding set_bytes
set_bytes-full value rel left i arr h k =
    rw (index_eq rel i (2 ^ 64) k (le_refl _), le→ltb (rel + i) (length arr) h) refl

IsWritten-set :
    (value rel i hi : ℕ) (arr out : List ℕ)
    → rel + i < hi
    → hi ≤ length arr
    → IsWritten value (rel + (i + 1)) hi (i + 1) (set arr (rel + i) (byte_of value i)) out
    → IsWritten value (rel + i) hi i arr out
IsWritten-set value rel i hi arr out h k w = record {
  same_length = w.same_length ∙ length-set arr (rel + i) (byte_of value i);
  inside = λ j b e p q. inside j b e p q (dec_lt (rel + i) j);
  outside = λ j p.
      w.outside j (omega arith) ∙ get_elem?-set_ne arr (rel + i) j (byte_of value i) (omega arith);
}
  where
    inside :
        (j b : ℕ)
        → j + i ≡ rel + i + b
        → rel + i ≤ j
        → j < hi
        → Dec (rel + i < j)
        → get_elem? out j ≡ some (byte_of value b)
    inside j b e p q (yes above) = w.inside j b (omega arith) (omega arith) q
    inside j b e p q (no here) =
        let at : rel + i ≡ j = omega arith in
        let byte : i ≡ b = omega arith in
        w.outside j (omega arith)
        ∙ subst (λ n. get_elem? (set arr (rel + i) (byte_of value i)) n ≡ some (byte_of value b)) at
            (subst
              (λ n.
                get_elem? (set arr (rel + i) (byte_of value i)) (rel + i) ≡ some (byte_of value n))
              byte (get_elem?-set_self arr (rel + i) (byte_of value i) (omega arith)))

-- A write that fits finishes and writes exactly its bytes.
pub set_bytes-fits :
    (value rel left i hi : ℕ) (arr : List ℕ)
    → rel + i + left ≡ hi
    → hi ≤ length arr
    → length arr ≤ 2 ^ 64
    → (out : List ℕ) × (set_bytes value rel left i arr ≡ finished out)
      × IsWritten value (rel + i) hi i arr out
set_bytes-fits value rel zero i hi arr e h k = (
  arr,
  unfold set_bytes in refl,
  record { same_length = refl; inside = λ j b e' p q. absurd (omega arith); outside = λ j p. refl },
)
set_bytes-fits value rel (suc left) i hi arr e h k =
    let stored = set arr (rel + i) (byte_of value i) in
    let same : length stored ≡ length arr = length-set arr (rel + i) (byte_of value i) in
    let (out, runs, w) =
      set_bytes-fits value rel left (i + 1) hi stored (omega arith) (omega arith) (omega arith) in
    (
      out,
      set_bytes-suc value rel left i arr (omega arith) k ∙ runs,
      IsWritten-set value rel i hi arr out (omega arith) h w,
    )

-- A write that runs past the end of the array leaves by the exception, with the bytes below the
-- end written.
pub set_bytes-faults :
    (value rel left i n : ℕ) (arr : List ℕ)
    → length arr ≡ n
    → rel + i ≤ n
    → n < rel + i + left
    → n < 2 ^ 64
    → (out : List ℕ) × (set_bytes value rel left i arr ≡ out_of_range out)
      × IsWritten value (rel + i) n i arr out
set_bytes-faults value rel zero i n arr e p h k = absurd (omega arith)
set_bytes-faults value rel (suc left) i n arr e p h k = elim (dec_lt (rel + i) n) [
  | yes room ↦
      let stored = set arr (rel + i) (byte_of value i) in
      let same : length stored ≡ length arr = length-set arr (rel + i) (byte_of value i) in
      let (out, runs, w) =
        set_bytes-faults value rel left (i + 1) n stored (same ∙ e) (omega arith) (omega arith) k in
      (
        out,
        set_bytes-suc value rel left i arr (omega arith) (omega arith) ∙ runs,
        IsWritten-set value rel i n arr out room (omega arith) w,
      )
  | no full ↦ (
    arr,
    set_bytes-full value rel left i arr (omega arith) (omega arith),
    record {
      same_length = refl;
      inside = λ j b e' p' q. absurd (omega arith);
      outside = λ j p'. refl;
    },
  )
]

-- The array that a write leaves, whether or not it leaves by the exception.
abbrev pub written : Outcome (List ℕ) → List ℕ
written (finished out) = out
written (out_of_range out) = out

-- A write changes no byte but those at the indices of its rounds, on every branch.
pub set_bytes-elsewhere :
    (value rel left i : ℕ) (arr : List ℕ) (j : ℕ)
    → ((k : ℕ) → k < left → u64 (rel + (i + k)) ≢ j)
    → get_elem? (written (set_bytes value rel left i arr)) j ≡ get_elem? arr j
set_bytes-elsewhere value rel zero i arr j h = unfold set_bytes in refl
set_bytes-elsewhere value rel (suc left) i arr j h =
    elim (Bool-cases (ltb (u64 (rel + i)) (length arr))) [
      | inl room ↦
          rw (set_bytes_round value rel left i arr, room)
            (set_bytes-elsewhere value rel left (i + 1) (set arr (u64 (rel + i)) (byte_of value i))
                j
                (λ k below.
                  subst (λ (n : ℕ). u64 (rel + n) ≢ j) (omega arith) (h (suc k) (omega arith)))
              ∙ get_elem?-set_ne arr (u64 (rel + i)) j (byte_of value i)
                  (subst (λ (n : ℕ). u64 (rel + n) ≢ j) (add-zero i) (h 0 (omega arith))))
      | inr full ↦ rw (set_bytes_round value rel left i arr, full) refl
    ]

-- A write keeps the length of the array, and stores bytes.
pub set_bytes-All :
    (value rel left i : ℕ) (arr : List ℕ)
    → (length (written (set_bytes value rel left i arr)) ≡ length arr)
      × (All (λ b. b < 2 ^ 8) arr → All (λ b. b < 2 ^ 8) (written (set_bytes value rel left i arr)))
set_bytes-All value rel zero i arr = unfold set_bytes in (refl, λ h. h)
set_bytes-All value rel (suc left) i arr = elim (Bool-cases (ltb (u64 (rel + i)) (length arr))) [
  | inl room ↦
      rw (set_bytes_round value rel left i arr, room)
        (let stored = set arr (u64 (rel + i)) (byte_of value i) in
          let ih = set_bytes-All value rel left (i + 1) stored in
          (
            ih.0 ∙ length-set arr (u64 (rel + i)) (byte_of value i),
            λ h.
                ih.1
                  (All-set (λ b. b < 2 ^ 8) arr (u64 (rel + i)) (byte_of value i) h (omega arith)),
          ))
  | inr full ↦ rw (set_bytes_round value rel left i arr, full) (refl, λ h. h)
]
