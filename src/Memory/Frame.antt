-- ===== src/Memory/Frame.antt =====
-- `getMemValue` and `setMemValue` as a memory: a load after a store, what a store leaves alone, and
-- what happens at the end of the array.
use native.Mathlib.Nat.{add-zero, zero-add}
use ece375_project.Base.{
  ◌⊎◌, if_cases, ℕ, ◌+◌, ◌*◌, ◌%◌, ◌^◌, ◌≤◌, ◌<◌, ◌≡◌, ◌≢◌, refl, sym, subst, arith, true, List,
  length, All, get_elem?, Bool-cases, inl, inr,
}
use ece375_project.Base.Int.{pos}
use ece375_project.Platform.{Platform}
use ece375_project.Word.{u64}
use ece375_project.Memory.Write.{
  IsWritten, set_bytes-fits, set_bytes-faults, set_bytes-elsewhere, set_bytes-All, written,
}
use ece375_project.Memory.Read.{Holds, get_bytes_whole, get_bytes-lt, read}
use ece375_project.Memory.{
  MemoryStore, Access, got, done, set_bytes, get_bytes, get_mem_value, set_mem_value, valid_size,
  relative_addr, minus_einval, Outcome, finished, out_of_range,
}

-- The array and its bytes are in range, as `std::vector<uint8_t>` and `uint64_t` make them.
pub record IsStore (m : MemoryStore) : Type 0 where
  pub sized : length m.mem_arr < 2 ^ 64
  pub bytes : All (λ b. b < 2 ^ 8) m.mem_arr

valid_size-le : (size : ℕ) → valid_size size ≡ true → size ≤ 8
valid_size-le size h = ground arith

IsWritten-Holds :
    (value rel size : ℕ) (arr out : List ℕ)
    → IsWritten value (rel + 0) (rel + size) 0 arr out
    → Holds out rel size value
IsWritten-Holds value rel size arr out w i h =
    w.inside (rel + i) i (omega arith) (omega arith) (omega arith)

done-store :
    (platform : Platform) (m : MemoryStore) (value : ℕ) (o : Outcome (List ℕ))
    → (done platform m value o).store ≡ record m { mem_arr = written o }
done-store platform m value (finished out) = refl
done-store platform m value (out_of_range out) = refl

got-value :
    (platform : Platform) (m : MemoryStore) (o : Outcome ℕ) → (got platform m o).value ≡ read o
got-value platform m (finished v) = refl
got-value platform m (out_of_range v) = refl

module _ (platform : Platform) (m : MemoryStore) (address value size : ℕ) where
  -- In an array shorter than 2^64, a store of a valid size that fits succeeds, and a load of the
  -- same address and size then succeeds and returns the low bytes of the stored value.
  pub get-set :
      (garbage : ℕ)
      → valid_size size ≡ true
      → relative_addr m address + size ≤ length m.mem_arr
      → length m.mem_arr < 2 ^ 64
      → let w = set_mem_value platform address value size m in
        (w.ret ≡ pos 0)
        × (get_mem_value platform address garbage size w.store
            ≡ record { ret = pos 0; value = value % 2 ^ (size * 8); store = w.store })
  unfolding set_mem_value get_mem_value
  get-set garbage v h k =
      let rel = relative_addr m address in
      let (out, runs, w) =
        set_bytes-fits value rel size 0 (rel + size) m.mem_arr (omega arith) h (omega arith) in
      let back : get_bytes out rel size 0 0 ≡ finished (value % 2 ^ (size * 8)) =
        get_bytes_whole out rel value size (IsWritten-Holds value rel size m.mem_arr out w)
          (valid_size-le size v) (omega arith) in
      rw (v, runs, back) (refl, refl)

  -- In an array shorter than 2^64, a store of a valid size that starts in the array or at its end
  -- and runs past its end returns `-EINVAL`, and yet writes the bytes of the value that lie below
  -- the end; the array keeps its length.
  pub set_mem_value_past_end :
      valid_size size ≡ true
      → relative_addr m address ≤ length m.mem_arr
      → length m.mem_arr < relative_addr m address + size
      → length m.mem_arr < 2 ^ 64
      → let w = set_mem_value platform address value size m in
        (w.ret ≡ minus_einval platform)
        × IsWritten value (relative_addr m address) (length m.mem_arr) 0 m.mem_arr w.store.mem_arr
  unfolding set_mem_value
  set_mem_value_past_end v h k n =
      let rel = relative_addr m address in
      let (out, runs, w) =
        set_bytes-faults value rel size 0 (length m.mem_arr) m.mem_arr refl (omega arith)
          (omega arith) n in
      rw (v, runs)
        (
          refl,
          subst (λ (lo : ℕ). IsWritten value lo (length m.mem_arr) 0 m.mem_arr out) (add-zero rel)
              w,
        )

  -- A store of any size, whatever it returns, changes no byte but those at the addresses from
  -- `address` on that it covers, counted from the start address and wrapped to 64 bits; nor does
  -- it change the start address or the length of the array.
  pub set_mem_value_elsewhere :
      (j : ℕ)
      → ((k : ℕ) → k < size → u64 (relative_addr m address + k) ≢ j)
      → let w = set_mem_value platform address value size m in
        (get_elem? w.store.mem_arr j ≡ get_elem? m.mem_arr j)
        × (length w.store.mem_arr ≡ length m.mem_arr)
        × (w.store.start_addr ≡ m.start_addr)
  unfolding set_mem_value
  set_mem_value_elsewhere j h = elim (Bool-cases (valid_size size)) [
    | inl v ↦
        let rel = relative_addr m address in
        let o = set_bytes value rel size 0 m.mem_arr in
        rw (v, done-store platform m value o)
          (
            set_bytes-elsewhere value rel size 0 m.mem_arr j
                (λ k below. subst (λ (n : ℕ). u64 (rel + n) ≢ j) (sym (zero-add k)) (h k below)),
            (set_bytes-All value rel size 0 m.mem_arr).0,
            refl,
          )
    | inr bad ↦ rw bad (refl, refl, refl)
  ]

  -- In an `IsStore` memory, a store of a valid size keeps the bytes and the length in range, and a
  -- load of that size returns a value that fits the size.
  pub access-IsStore :
      (garbage : ℕ)
      → valid_size size ≡ true
      → IsStore m
      → IsStore (set_mem_value platform address value size m).store
        × ((get_mem_value platform address garbage size m).value < 2 ^ (size * 8))
  unfolding set_mem_value get_mem_value
  access-IsStore garbage v s =
      let rel = relative_addr m address in
      let o = set_bytes value rel size 0 m.mem_arr in
      let w = set_bytes-All value rel size 0 m.mem_arr in
      rw (v, done-store platform m value o, got-value platform m (get_bytes m.mem_arr rel size 0 0))
        (
          record { sized = omega (arith, w.0, s.sized); bytes = w.1 s.bytes },
          get_bytes-lt m.mem_arr rel size 0 size 0 s.bytes (omega arith) (valid_size-le size v)
              (omega arith),
        )

-- A read returns 0 or `-EINVAL`.
pub get_mem_value-ret :
    (platform : Platform) (address value size : ℕ) (m : MemoryStore)
    → ((get_mem_value platform address value size m).ret ≡ pos 0)
      ⊎ ((get_mem_value platform address value size m).ret ≡ minus_einval platform)
unfolding get_mem_value
get_mem_value-ret platform address value size m =
    if_cases (λ (a : Access). (a.ret ≡ pos 0) ⊎ (a.ret ≡ minus_einval platform)) (valid_size size)
      (outcome (get_bytes m.mem_arr (relative_addr m address) size 0 0)) (inr refl)
  where
    outcome :
        (o : Outcome ℕ)
        → ((got platform m o).ret ≡ pos 0) ⊎ ((got platform m o).ret ≡ minus_einval platform)
    outcome (finished v) = inl refl
    outcome (out_of_range v) = inr refl
