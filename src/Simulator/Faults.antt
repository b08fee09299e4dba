-- ===== src/Simulator/Faults.antt =====
-- Loads and stores that leave the memory, as `simMemAccess` sees them.
use ece375_project.Base.{◌≡◌, refl, Bool, true, false, ◌⊎◌, if◌then◌else◌, arith}
use ece375_project.Base.Int.{ℤ, pos, eqb_ℤ}
use ece375_project.Platform.{Platform}
use ece375_project.Memory.Frame.{get_mem_value-ret}
use ece375_project.Memory.{MemoryStore, minus_einval}
use ece375_project.Instruction.{Instruction}
use ece375_project.Simulator.{sim_mem_access, access_size}

-- The test of `simMemAccess`: neither of the two is EINVAL.
never_einval :
    (platform : Platform) (ret : ℤ)
    → (ret ≡ pos 0) ⊎ (ret ≡ minus_einval platform)
    → eqb_ℤ ret (pos platform.einval) ≡ false
never_einval platform ret h = ground (arith, platform.einval_pos)

by_kind :
    (reads writes : Bool) (load store other : Instruction × MemoryStore) {e : Bool}
    → load.0.mem_exception ≡ false
    → store.0.mem_exception ≡ e
    → other.0.mem_exception ≡ e
    → (if reads then load else if writes then store else other).0.mem_exception
      ≡ (if reads then false else e)
by_kind true writes a b c p q r = p
by_kind false true a b c p q r = q
by_kind false false a b c p q r = r

-- `simMemAccess` never sets `memException`: a load clears it, at every address, and a store leaves
-- it as it was, also where the access is out of range.
pub sim_mem_access_exception :
    (platform : Platform) (inst : Instruction) (m : MemoryStore)
    → (sim_mem_access platform inst m).0.mem_exception
      ≡ (if inst.reads_mem then false else inst.mem_exception)
unfolding sim_mem_access
sim_mem_access_exception platform inst m =
    by_kind inst.reads_mem inst.writes_mem _ _ _
      (never_einval platform _
        (get_mem_value-ret platform inst.mem_address 0 (access_size inst.funct3) m))
      refl refl
