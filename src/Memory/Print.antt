-- ===== src/Memory/Print.antt =====
-- `printMemArray`, `printMemory` and `dumpMemoryState` of src/MemoryStore.cpp. What is written before
-- an access violation stays written.
pub mod Returns
use ece375_project.Base.{
  ℕ, zero, suc, ◌+◌, ◌*◌, true, false, Option, none, some, List, [], ◌∷◌, ◌++◌, get_elem?, ltb,
  if◌then◌else◌,
}
use ece375_project.Base.Int.{ℤ, pos}
use ece375_project.Platform.{Platform}
use ece375_project.Word.{u64, add64}
use ece375_project.Memory.{
  MemoryStore, Outcome, finished, out_of_range, valid_size, word_size, minus_einval, relative_addr,
}
use ece375_project.Output.{Text, codes, endl, hex, pad_left}

abbrev pub word_width : ℕ
word_width = 8

abbrev pub byte_width : ℕ
byte_width = 2

-- The loop over `left` bytes of an entry, from byte `j` on.
unfoldable pub print_bytes : List ℕ → ℕ → ℕ → ℕ → Text → Outcome Text
print_bytes arr rel zero j out = finished out
print_bytes arr rel (suc left) j out = elim (get_elem? arr (u64 (rel + j))) [
  | none ↦ out_of_range out
  | some b ↦ print_bytes arr rel left (j + 1) (out ++ pad_left b'0' byte_width (hex b))
]

-- How a row ends: before the next one, by the `return` in the loop, or by an access violation.
pub data Row : Type 0 where
  next_row : ℕ → Text → Row
  returned : Text → Row
  violated : Text → Row

-- The loop over the entries of a row, `left` of them to go.
unfoldable pub print_row : List ℕ → ℕ → ℕ → ℕ → ℕ → Text → Row
unfolding print_bytes
print_row arr entry_size rel_end zero rel_start out = next_row rel_start (out ++ endl)
print_row arr entry_size rel_end (suc left) rel_start out = elim (ltb rel_start rel_end) [
  | true ↦ elim (print_bytes arr rel_start entry_size 0 (out ++ codes "0x")) [
    | finished text ↦
        print_row arr entry_size rel_end left (add64 rel_start entry_size) (text ++ codes " ")
    | out_of_range text ↦ violated text
  ]
  | false ↦ returned (out ++ endl)
]

-- The loop over the rows on fuel: `none` if it has not ended yet.
unfoldable pub print_rows : Platform → ℕ → List ℕ → ℕ → ℕ → ℕ → ℕ → ℕ → Text → Option (ℤ × Text)
unfolding print_row
print_rows platform zero arr entry_size per_row rel_end rel_start cur out = none
print_rows platform (suc fuel) arr entry_size per_row rel_end rel_start cur out =
    let head = out ++ codes "0x" ++ pad_left b'0' word_width (hex cur) ++ codes ": " in
    elim (ltb rel_start rel_end) [
      | true ↦ elim (print_row arr entry_size rel_end per_row rel_start head) [
        | next_row rel text ↦
            print_rows platform fuel arr entry_size per_row rel_end rel
              (add64 cur (u64 (entry_size * per_row))) text
        | returned text ↦ some (pos 0, text)
        | violated text ↦ some (minus_einval platform, text)
      ]
      | false ↦ some (pos 0, out)
    ]

-- A row begins at a place of its own before the end, which is the fuel.
unfoldable pub print_mem_array : Platform → ℕ → ℕ → ℕ → ℕ → MemoryStore → Option (ℤ × Text)
unfolding print_rows
print_mem_array platform start_addr end_addr entry_size entries_per_row m =
    if valid_size entry_size
    then print_rows platform (relative_addr m end_addr + 1) m.mem_arr entry_size entries_per_row
        (relative_addr m end_addr) (relative_addr m start_addr) start_addr []
    else some (minus_einval platform, [])

unfoldable pub print_memory : Platform → ℕ → ℕ → MemoryStore → Option (ℤ × Text)
unfolding print_mem_array
print_memory platform start_addr end_address m =
    print_mem_array platform start_addr end_address word_size 5 m

-- The range of `dumpMemoryState`: the two numbers of `print_mem_range`, or the default.
abbrev pub mem_range : Option (ℕ × ℕ) → ℕ × ℕ
mem_range none = (0, 0x1f4)
mem_range (some range) = range

abbrev dashes : Text
dashes = codes "---------------------" ++ endl

abbrev framed : Text → Text
framed text =
    dashes
    ++ (codes "Begin Memory State" ++ endl)
    ++ dashes
    ++ text
    ++ dashes
    ++ (codes "End Memory State" ++ endl)
    ++ dashes

-- The file, if it opens. The result of the printing is not read.
unfoldable pub dump_memory_state : Platform → Option (ℕ × ℕ) → MemoryStore → Option Text
unfolding print_mem_array
dump_memory_state platform range m =
    let (start_addr, end_addr) = mem_range range in
    elim (print_mem_array platform start_addr end_addr word_size 5 m) [
      | none ↦ none
      | some (ret, text) ↦ some (framed text)
    ]
