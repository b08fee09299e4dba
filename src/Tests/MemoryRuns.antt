-- ===== src/Tests/MemoryRuns.antt =====
-- The memory and the bit fields at concrete inputs.
use ece375_project.Base.{◌*◌, ◌%◌, ◌^◌, ◌<◌, ◌≡◌, refl, arith, [], ◌∷◌, length, get_elem?}
use ece375_project.Base.Int.{pos}
use ece375_project.Memory.{MemoryStore, get_mem_value, set_mem_value, minus_einval}
use ece375_project.Memory.Write.{IsWritten}
use ece375_project.Memory.Frame.{
  IsStore, get-set, set_mem_value_past_end, set_mem_value_elsewhere, access-IsStore,
}
use ece375_project.Word.{signed, sext64}
use ece375_project.Word.Sext.{sext64-signed}
use ece375_project.Tests.{linux}

-- Twelve bytes from address 0 on.
abbrev bytes : MemoryStore
bytes = record { start_addr = 0; mem_arr = 1 ∷ 2 ∷ 3 ∷ 4 ∷ 5 ∷ 6 ∷ 7 ∷ 8 ∷ 9 ∷ 10 ∷ 11 ∷ 255 ∷ [] }

bytes-IsStore : IsStore bytes
bytes-IsStore = record { sized = omega arith; bytes = ground arith }

get-set_example :
    let w = set_mem_value linux 4 0xdeadbeef 2 bytes in
    (w.ret ≡ pos 0)
    × (get_mem_value linux 4 7 2 w.store
        ≡ record { ret = pos 0; value = 0xdeadbeef % 2 ^ (2 * 8); store = w.store })
get-set_example = get-set linux bytes 4 0xdeadbeef 2 7 refl (omega arith) (omega arith)

set_mem_value_past_end_example :
    let w = set_mem_value linux 10 0x11223344 4 bytes in
    (w.ret ≡ minus_einval linux) × IsWritten 0x11223344 10 12 0 bytes.mem_arr w.store.mem_arr
set_mem_value_past_end_example =
    set_mem_value_past_end linux bytes 10 0x11223344 4 refl (omega arith) (omega arith)
      (omega arith)

set_mem_value_elsewhere_example :
    let w = set_mem_value linux 4 77 4 bytes in
    (get_elem? w.store.mem_arr 9 ≡ get_elem? bytes.mem_arr 9)
    × (length w.store.mem_arr ≡ length bytes.mem_arr)
    × (w.store.start_addr ≡ 0)
set_mem_value_elsewhere_example = set_mem_value_elsewhere linux bytes 4 77 4 9 (λ k h. ground arith)

access-IsStore_example :
    IsStore (set_mem_value linux 4 77 8 bytes).store
    × ((get_mem_value linux 4 7 8 bytes).value < 2 ^ (8 * 8))
access-IsStore_example = access-IsStore linux bytes 4 77 8 7 refl bytes-IsStore

sext64-signed_example : (signed 64 (sext64 0xfff 11) ≡ signed 12 0xfff) × (sext64 0xfff 11 < 2 ^ 64)
sext64-signed_example = sext64-signed 0xfff 11 (omega arith) (omega arith)
