-- ===== src/Funct.antt =====
-- src/funct.cpp: the functional simulator. The statics `simulator` and `PC` are the state `Funct`.
pub mod Runs
use ece375_project.Base.{
  ℕ, zero, suc, Bool, true, false, not, Option, none, some, ◌==◌, if◌then◌else◌,
}
use ece375_project.Platform.{Platform}
use ece375_project.Memory.{MemoryStore}
use ece375_project.Simulator.{Simulator, new_simulator, sim_instruction}

-- `enum Status` of src/Utilities.h.
pub data Status : Type 0 where
  success error halt : Status

pub record Funct : Type 0 where
  pub simulator : Simulator
  pub pc : ℕ

-- `initSimulator`.
unfoldable pub init_simulator : MemoryStore → Funct
unfolding new_simulator
init_simulator mem = record { simulator = new_simulator mem; pc = 0 }

-- One round of the loop: the state after it, and the status by which it leaves the loop, if any.
unfoldable pub run_one : Platform → Funct → Funct × Option Status
run_one platform s =
    let (inst, sim) = sim_instruction platform s.pc s.simulator in
    (
      record { simulator = sim; pc = inst.next_pc },
      if inst.is_halt then some halt else if not inst.is_legal then some error else none,
    )

-- `n` rounds of the loop of `runInstructions`, which ends earlier at a halt or an error.
unfoldable pub run_rounds : Platform → ℕ → Funct → Funct × Status
unfolding run_one
run_rounds platform zero s = (s, success)
run_rounds platform (suc n) s =
    let (t, exit) = run_one platform s in
    elim exit [ some status ↦ (t, status) | none ↦ run_rounds platform n t ]

-- The loop without a limit, on fuel: `none` if it has not ended yet.
unfoldable pub run_unlimited : Platform → ℕ → Funct → Option (Funct × Status)
unfolding run_one
run_unlimited platform zero s = none
run_unlimited platform (suc fuel) s =
    let (t, exit) = run_one platform s in
    elim exit [ some status ↦ some (t, status) | none ↦ run_unlimited platform fuel t ]

-- `runInstructions(n)`, where 0 is no limit. The fuel serves that case alone.
unfoldable pub run_instructions : Platform → ℕ → ℕ → Funct → Option (Funct × Status)
unfolding run_rounds run_unlimited
run_instructions platform fuel n s =
    if n == 0 then run_unlimited platform fuel s else some (run_rounds platform n s)

abbrev pub is_success : Status → Bool
is_success success = true
is_success _ = false

-- `runTillHalt`, which calls `runInstructions(1)`, on fuel: `none` if it has not ended yet.
unfoldable pub run_till_halt : Platform → ℕ → Funct → Option (Funct × Status)
unfolding run_instructions
run_till_halt platform zero s = none
run_till_halt platform (suc fuel) s = elim (run_instructions platform 1 1 s) [
  | none ↦ none
  | some (t, success) ↦ run_till_halt platform fuel t
  | some (t, error) ↦ some (t, error)
  | some (t, halt) ↦ some (t, halt)
]
