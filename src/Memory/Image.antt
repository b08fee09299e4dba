-- ===== src/Memory/Image.antt =====
-- `prepareMemory` of src/MemoryStore.cpp, the two constructors that call it, and `loadFromFile`. A
-- file is `none` if it does not open; an image is the list of what stands in it between spaces.
pub mod Prepared
pub mod Returns
use ece375_project.Base.{
  ℕ, zero, suc, ◌+◌, ◌-◌, ◌^◌, Bool, true, false, not, Option, none, some, List, [], ◌∷◌, length,
  ◌==◌, ltb, if◌then◌else◌,
}
use ece375_project.Base.Int.{ℤ, pos, negsuc}
use ece375_project.Platform.{Platform}
use ece375_project.Funct.{Status, success, error}
use ece375_project.Memory.{
  MemoryStore, word_size, minus_einval, set_mem_value, new_store, load_bytes,
}

-- A hexadecimal number without a sign, of any size, or a text that does not begin with a number.
pub data Token : Type 0 where
  number : ℕ → Token
  other : Token

-- An input stream: what is left in it, or that an extraction has failed.
pub data Input : Type 0 where
  good : List Token → Input
  failed : Input

-- `>>` into a `uint32_t` that holds `x`, which keeps it at the end of the file and after a failure. A
-- number that does not fit stores the greatest value and a text that is no number stores 0, and
-- either fails.
abbrev pub extract : ℕ → Input → ℕ × Input
extract x (good []) = (x, failed)
extract x (good (number n ∷ tokens)) =
    if ltb n (2 ^ 32) then (n, good tokens) else (2 ^ 32 - 1, failed)
extract x (good (other ∷ tokens)) = (0, failed)
extract x failed = (x, failed)

-- An `int` as a condition.
abbrev pub nonzero : ℤ → Bool
nonzero (pos n) = not (n == 0)
nonzero (negsuc n) = true

-- The loop on fuel: `none` if it has not ended yet. It runs again after the last pair, since
-- nothing has failed by then.
unfoldable pub prepare_loop : Platform → ℕ → Input → MemoryStore → Option (ℤ × MemoryStore)
unfolding set_mem_value
prepare_loop platform zero input m = none
prepare_loop platform (suc fuel) failed m = some (pos 0, m)
prepare_loop platform (suc fuel) (good tokens) m =
    let (addr, after_addr) = extract 0 (good tokens) in
    let (cur_val, after_val) = extract 0 after_addr in
    let set = set_mem_value platform addr cur_val word_size m in
    let rest = prepare_loop platform fuel after_val set.store in
    if nonzero set.ret then some (minus_einval platform, set.store) else rest

unfoldable pub prepare_memory :
    Platform → Option (List Token) → MemoryStore → Option (ℤ × MemoryStore)
unfolding prepare_loop
prepare_memory platform none m = some (pos 0, m)
prepare_memory platform (some tokens) m = prepare_loop platform (length tokens + 2) (good tokens) m

-- `assert((prepareMemory(this) == 0))`: `none` if it does not hold.
abbrev pub asserted : Option (ℤ × MemoryStore) → Option MemoryStore
asserted none = none
asserted (some (ret, m)) = if nonzero ret then none else some m

-- The constructor without a file.
unfoldable pub construct : Platform → Option (List Token) → ℕ → ℕ → Option MemoryStore
unfolding prepare_memory new_store
construct platform image start num_entries =
    asserted (prepare_memory platform image (new_store start num_entries))

unfoldable pub load_from_file : Platform → Option (List ℕ) → MemoryStore → MemoryStore × Status
unfolding load_bytes
load_from_file platform none m = (m, error)
load_from_file platform (some bytes) m = (load_bytes platform 0 bytes m, success)

-- The constructor with a program file, whose status it does not read.
unfoldable pub construct_from :
    Platform → Option (List Token) → Option (List ℕ) → ℕ → ℕ → Option MemoryStore
unfolding construct load_from_file
construct_from platform image file start num_entries =
    elim (construct platform image start num_entries) [
      | none ↦ none
      | some m ↦ some (load_from_file platform file m).0
    ]
