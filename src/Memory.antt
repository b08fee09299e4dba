-- ===== src/Memory.antt =====
-- src/MemoryStore.cpp: the byte array behind loads, stores and instruction fetch. A call returns
-- the `int` of the source, the value that its reference argument ends with, and the store.
pub mod Write
pub mod Read
pub mod Frame
pub mod Image
pub mod Print
use ece375_project.Base.{
  ℕ, zero, suc, ◌+◌, ◌-◌, ◌*◌, ◌/◌, ◌%◌, ◌^◌, bit_and, bit_or, Bool, true, false, ◌||◌, Option,
  none, some, List, [], ◌∷◌, length, get_elem?, set, replicate, ltb, ◌==◌, if◌then◌else◌,
}
use ece375_project.Base.Int.{ℤ, pos, sub_ℕ}
use ece375_project.Platform.{Platform}
use ece375_project.Word.{u64, sub64, shl64, shr}

-- `enum MemEntrySize`, kept as its numbers: `getOrSetValue` tests for others.
abbrev pub byte_size : ℕ
byte_size = 1

abbrev pub half_size : ℕ
half_size = 2

abbrev pub word_size : ℕ
word_size = 4

abbrev pub double_size : ℕ
double_size = 8

abbrev pub memory_size : ℕ
memory_size = 0x10000

pub record MemoryStore : Type 0 where
  pub start_addr : ℕ
  pub mem_arr : List ℕ

-- A loop that `memArr.at` may leave by `std::out_of_range`, with what the loop had done so far.
pub data Outcome (S : Type 0) : Type 0 where
  finished : S → Outcome S
  out_of_range : S → Outcome S

-- The loop of a read from round `i`, with `left` rounds to go.
unfoldable pub get_bytes : List ℕ → ℕ → ℕ → ℕ → ℕ → Outcome ℕ
get_bytes arr rel zero i value = finished value
get_bytes arr rel (suc left) i value = elim (get_elem? arr (u64 (rel + i))) [
  | none ↦ out_of_range value
  | some b ↦ get_bytes arr rel left (i + 1) (bit_or value (shl64 b (i * 8)))
]

-- The loop of a write. The bytes that it wrote before an exception stay written.
unfoldable pub set_bytes : ℕ → ℕ → ℕ → ℕ → List ℕ → Outcome (List ℕ)
set_bytes value rel zero i arr = finished arr
set_bytes value rel (suc left) i arr =
    let index = u64 (rel + i) in
    let rest =
      set_bytes value rel left (i + 1) (set arr index (bit_and (shr value (i * 8)) 0xff)) in
    if ltb index (length arr) then rest else out_of_range arr

-- What a call of `getOrSetValue` leaves behind.
pub record Access : Type 0 where
  pub ret : ℤ
  pub value : ℕ
  pub store : MemoryStore

abbrev pub valid_size : ℕ → Bool
valid_size size = size == byte_size || size == half_size || size == word_size || size == double_size

-- `-EINVAL`, an `int`.
abbrev pub minus_einval : Platform → ℤ
minus_einval platform = sub_ℕ 0 platform.einval

abbrev pub relative_addr : MemoryStore → ℕ → ℕ
relative_addr m address = sub64 address m.start_addr

abbrev got : Platform → MemoryStore → Outcome ℕ → Access
got platform m (finished v) = record { ret = pos 0; value = v; store = m }
got platform m (out_of_range v) = record { ret = minus_einval platform; value = v; store = m }

abbrev done : Platform → MemoryStore → ℕ → Outcome (List ℕ) → Access
done platform m value (finished arr) = record {
  ret = pos 0;
  value = value;
  store = record m { mem_arr = arr };
}
done platform m value (out_of_range arr) = record {
  ret = minus_einval platform;
  value = value;
  store = record m { mem_arr = arr };
}

unfoldable pub get_or_set_value : Platform → Bool → ℕ → ℕ → ℕ → MemoryStore → Access
get_or_set_value platform get address value size m =
    if valid_size size
    then if get
      then got platform m (get_bytes m.mem_arr (relative_addr m address) size 0 0)
      else done platform m value (set_bytes value (relative_addr m address) size 0 m.mem_arr)
    else record { ret = minus_einval platform; value = value; store = m }

-- `value` is what the reference argument holds before the call.
unfoldable pub get_mem_value : Platform → ℕ → ℕ → ℕ → MemoryStore → Access
unfolding get_or_set_value
get_mem_value platform address value size m = get_or_set_value platform true address value size m

unfoldable pub set_mem_value : Platform → ℕ → ℕ → ℕ → MemoryStore → Access
unfolding get_or_set_value
set_mem_value platform address value size m = get_or_set_value platform false address value size m

-- The constructor with no file: `numEntries` zero bytes.
unfoldable pub new_store : ℕ → ℕ → MemoryStore
new_store start num_entries = record { start_addr = start; mem_arr = replicate num_entries 0 }

-- The loop of `loadFromFile` from index `i` of the buffer; the results of the writes are not read.
unfoldable pub load_bytes : Platform → ℕ → List ℕ → MemoryStore → MemoryStore
unfolding set_mem_value
load_bytes platform i [] m = m
load_bytes platform i (b ∷ buf) m =
    load_bytes platform (i + 1) buf (set_mem_value platform (i * byte_size) b byte_size m).store
