-- ===== src/Memory/Image/Prepared.antt =====
-- What `prepareMemory` of src/MemoryStore.cpp leaves in memory.
use native.Mathlib.Nat.{mod-lt}
use ece375_project.Word.{u64}
use ece375_project.Base.{
  ◌≢◌, ℕ, suc, ◌+◌, ◌^◌, ◌≤◌, ◌<◌, ◌≡◌, refl, ◌∙◌, ap, arith, Bool, true, false, some, List, [],
  ◌∷◌, ◌++◌, length, All, lt→ltb, le→ltb, ◌-◌,
}
use ece375_project.Base.Int.{pos}
use ece375_project.Platform.{Platform}
use ece375_project.Memory.{MemoryStore, word_size, relative_addr, set_mem_value, get_mem_value}
use ece375_project.Memory.Frame.{get-set, set_mem_value_elsewhere}
use ece375_project.Memory.Image.{Token, number, good, prepare_loop, prepare_memory}

-- An image as its pairs of an address and a word.
abbrev pub flat : List (ℕ × ℕ) → List Token
flat [] = []
flat ((address, value) ∷ pairs) = number address ∷ number value ∷ flat pairs

-- Nothing more is read from here on: the file ends, or goes on with a text that is no number.
abbrev pub stops : List Token → Bool
stops [] = true
stops (number n ∷ tokens) = false
stops (Token.other ∷ tokens) = true

-- A pair that fits the variables it is read into.
abbrev pub IsPair : ℕ × ℕ → Type 0
IsPair (address, value) = (address < 2 ^ 32) × (value < 2 ^ 32)

-- The words of an image, written in their order.
unfoldable pub written_image : Platform → List (ℕ × ℕ) → MemoryStore → MemoryStore
written_image platform [] m = m
written_image platform ((address, value) ∷ pairs) m =
    written_image platform pairs (set_mem_value platform address value word_size m).store

-- A word at the address lies in the array.
abbrev pub HoldsWord : MemoryStore → ℕ → Type 0
HoldsWord m address = relative_addr m address + word_size ≤ length m.mem_arr

-- A store with the shape of another: the same addresses are in range.
record IsShaped (m s : MemoryStore) : Type 0 where
  same_length : length s.mem_arr ≡ length m.mem_arr
  same_start : s.start_addr ≡ m.start_addr

module _ (platform : Platform) where
  set-IsShaped :
      (m : MemoryStore) (address value : ℕ)
      → IsShaped m (set_mem_value platform address value word_size m).store
  set-IsShaped m address value =
      let beyond : (k : ℕ) → k < word_size → u64 (relative_addr m address + k) ≢ 2 ^ 64 = λ k h e.
        omega (arith, mod-lt (relative_addr m address + k) {m = 2 ^ 64} (omega arith), e) in
      let kept = set_mem_value_elsewhere platform m address value word_size (2 ^ 64) beyond in
      record { same_length = kept.1; same_start = kept.2 }

  HoldsWord-shaped :
      (m s : MemoryStore) (address : ℕ) → IsShaped m s → HoldsWord m address → HoldsWord s address
  HoldsWord-shaped m s address e h = rw (e.same_length, e.same_start) h

  all_hold :
      (m s : MemoryStore) (pairs : List (ℕ × ℕ))
      → IsShaped m s
      → All (λ p. HoldsWord m p.0) pairs
      → All (λ p. HoldsWord s p.0) pairs
  all_hold m s [] e h = tt
  all_hold m s (p ∷ pairs) e h = (HoldsWord-shaped m s p.0 e h.0, all_hold m s pairs e h.1)

  -- A round that reads a pair.
  round :
      (fuel address value : ℕ) (tokens : List Token) (m : MemoryStore)
      → IsPair (address, value)
      → HoldsWord m address
      → length m.mem_arr < 2 ^ 64
      → prepare_loop platform (suc fuel) (good (number address ∷ number value ∷ tokens)) m
        ≡ prepare_loop platform fuel
            (good tokens)
            (set_mem_value platform address value word_size m).store
  unfolding prepare_loop
  round fuel address value tokens m pair fits sized =
      let stored = get-set platform m address value word_size 0 refl fits sized in
      rw (lt→ltb address (2 ^ 32) pair.0, lt→ltb value (2 ^ 32) pair.1, stored.0) refl

  last_round :
      (fuel : ℕ) (rest : List Token) (m : MemoryStore)
      → stops rest ≡ true
      → HoldsWord m 0
      → length m.mem_arr < 2 ^ 64
      → prepare_loop platform (suc (suc fuel)) (good rest) m
        ≡ some (pos 0, (set_mem_value platform 0 0 word_size m).store)
  unfolding prepare_loop
  last_round fuel [] m ends fits sized =
      let stored = get-set platform m 0 0 word_size 0 refl fits sized in rw stored.0 refl
  last_round fuel (number n ∷ rest) m ends fits sized = absurd (cc)
  last_round fuel (Token.other ∷ rest) m ends fits sized =
      let stored = get-set platform m 0 0 word_size 0 refl fits sized in rw stored.0 refl

  -- The rounds that read the pairs.
  loop_pairs :
      (pairs : List (ℕ × ℕ)) (rest : List Token) (fuel : ℕ) (m : MemoryStore)
      → All (λ p. HoldsWord m p.0) pairs
      → All IsPair pairs
      → length m.mem_arr < 2 ^ 64
      → prepare_loop platform (length pairs + fuel) (good (flat pairs ++ rest)) m
        ≡ prepare_loop platform fuel (good rest) (written_image platform pairs m)
  unfolding written_image
  loop_pairs [] rest fuel m h each sized =
      let none_left : 0 + fuel ≡ fuel = omega arith in
      ap (λ (n : ℕ). prepare_loop platform n (good rest) m) none_left
  loop_pairs (p ∷ pairs) rest fuel m h each sized =
      let next = (set_mem_value platform p.0 p.1 word_size m).store in
      let shaped = set-IsShaped m p.0 p.1 in
      let later : suc (length pairs) + fuel ≡ suc (length pairs + fuel) = omega arith in
      ap
        (λ (n : ℕ). prepare_loop platform n (good (number p.0 ∷ number p.1 ∷ flat pairs ++ rest)) m)
        later
      ∙ round (length pairs + fuel) p.0 p.1 (flat pairs ++ rest) m each.0 h.0 sized
      ∙ loop_pairs pairs rest fuel next (all_hold m next pairs shaped h.1) each.1
          (omega (arith, shaped.same_length))

  -- A round that reads an address and a number that does not fit.
  overflow_round :
      (fuel address n : ℕ) (tokens : List Token) (m : MemoryStore)
      → address < 2 ^ 32
      → 2 ^ 32 ≤ n
      → HoldsWord m address
      → length m.mem_arr < 2 ^ 64
      → prepare_loop platform (suc (suc fuel)) (good (number address ∷ number n ∷ tokens)) m
        ≡ some (pos 0, (set_mem_value platform address (2 ^ 32 - 1) word_size m).store)
  unfolding prepare_loop
  overflow_round fuel address n tokens m small wide fits sized =
      let stored = get-set platform m address (2 ^ 32 - 1) word_size 0 refl fits sized in
      rw (lt→ltb address (2 ^ 32) small, le→ltb n (2 ^ 32) wide, stored.0) refl

  written_image-IsShaped :
      (pairs : List (ℕ × ℕ)) (m : MemoryStore) → IsShaped m (written_image platform pairs m)
  unfolding written_image
  written_image-IsShaped [] m = record { same_length = refl; same_start = refl }
  written_image-IsShaped (p ∷ pairs) m =
      let first = set-IsShaped m p.0 p.1 in
      let rest = written_image-IsShaped pairs (set_mem_value platform p.0 p.1 word_size m).store in
      record {
        same_length = rest.same_length ∙ first.same_length;
        same_start = rest.same_start ∙ first.same_start;
      }

-- The fuel of `prepareMemory`, as the rounds of the pairs and more.
fuel-flat :
    (pairs : List (ℕ × ℕ)) (rest : List Token)
    → length (flat pairs ++ rest) + 2 ≡ length pairs + (length pairs + length rest + 2)
fuel-flat [] rest = omega arith
fuel-flat (p ∷ pairs) rest = omega (arith, fuel-flat pairs rest)

prepare_memory-pairs :
    (platform : Platform) (pairs : List (ℕ × ℕ)) (rest : List Token) (m : MemoryStore)
    → All (λ p. HoldsWord m p.0) pairs
    → All IsPair pairs
    → length m.mem_arr < 2 ^ 64
    → prepare_memory platform (some (flat pairs ++ rest)) m
      ≡ prepare_loop platform
          (suc (suc (length pairs + length rest)))
          (good rest)
          (written_image platform pairs m)
unfolding prepare_memory
prepare_memory-pairs platform pairs rest m h each sized =
    let enough : length (flat pairs ++ rest) + 2
        ≡ length pairs + suc (suc (length pairs + length rest)) =
      fuel-flat pairs rest ∙ omega arith in
    ap (λ (n : ℕ). prepare_loop platform n (good (flat pairs ++ rest)) m) enough
    ∙ loop_pairs platform pairs rest (suc (suc (length pairs + length rest))) m h each sized

-- With an image of pairs of 32-bit numbers, and behind them nothing or a text that is no number with
-- anything after it, where the pairs' addresses and the address 0 have a word in the
-- array, which is shorter than 2^64, `prepareMemory` ends and returns 0, and leaves the words of the image in
-- memory with one more write of 0 at the address 0: the word there reads as 0 whatever the image
-- puts there.
pub prepare_memory-flat :
    (platform : Platform) (pairs : List (ℕ × ℕ)) (rest : List Token) (m : MemoryStore) (garbage : ℕ)
    → stops rest ≡ true
    → HoldsWord m 0
    → All (λ p. HoldsWord m p.0) pairs
    → All IsPair pairs
    → length m.mem_arr < 2 ^ 64
    → let s = (set_mem_value platform 0 0 word_size (written_image platform pairs m)).store in
      (prepare_memory platform (some (flat pairs ++ rest)) m ≡ some (pos 0, s))
      × (get_mem_value platform 0 garbage word_size s
          ≡ record { ret = pos 0; value = 0; store = s })
prepare_memory-flat platform pairs rest m garbage ends fits h each sized =
    let image = written_image platform pairs m in
    let shaped = written_image-IsShaped platform pairs m in
    let holds = HoldsWord-shaped platform m image 0 shaped fits in
    let long : length image.mem_arr < 2 ^ 64 = omega (arith, shaped.same_length) in
    (
      prepare_memory-pairs platform pairs rest m h each sized
          ∙ last_round platform (length pairs + length rest) rest image ends holds long,
      (get-set platform image 0 0 word_size garbage refl holds long).1,
    )

-- With an image of pairs of 32-bit numbers, and behind them a 32-bit address, a number that does not
-- fit into 32 bits, and anything, where these addresses have a word in the array, which is shorter
-- than 2^64, `prepareMemory` ends and returns 0, and leaves the words of the image in memory and then
-- 2^32 - 1 as a word at the last address.
pub prepare_memory-overflow :
    (platform : Platform) (pairs : List (ℕ × ℕ)) (address n : ℕ) (tokens : List Token)
    (m : MemoryStore)
    → address < 2 ^ 32
    → 2 ^ 32 ≤ n
    → HoldsWord m address
    → All (λ p. HoldsWord m p.0) pairs
    → All IsPair pairs
    → length m.mem_arr < 2 ^ 64
    → prepare_memory platform (some (flat pairs ++ number address ∷ number n ∷ tokens)) m
      ≡ some (
        pos 0,
        (set_mem_value platform address
            (2 ^ 32 - 1)
            word_size
            (written_image platform pairs m)).store,
      )
prepare_memory-overflow platform pairs address n tokens m small wide fits h each sized =
    let image = written_image platform pairs m in
    let shaped = written_image-IsShaped platform pairs m in
    let rest = number address ∷ number n ∷ tokens in
    prepare_memory-pairs platform pairs rest m h each sized
    ∙ overflow_round platform (length pairs + length rest) address n tokens image small wide
        (HoldsWord-shaped platform m image address shaped fits) (omega (arith, shaped.same_length))
