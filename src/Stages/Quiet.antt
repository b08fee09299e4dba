-- ===== src/Stages/Quiet.antt =====
-- `memException` through the stages IF, ID, EX and MEM of src/simulator.cpp.
use ece375_project.Base.{
  ℕ, ◌≡◌, refl, ◌∙◌, Bool, true, false, ◌||◌, ◌==◌, if_cases, if◌then◌else◌, arith,
}
use ece375_project.Platform.{Platform}
use ece375_project.Instruction.{Instruction}
use ece375_project.Decode.{sim_decode, decode_fields, halt_word, nop_word}
use ece375_project.Decode.Legal.{switch_cases}
use ece375_project.Execute.{
  sim_operand_collection, sim_next_pc_resolution, sim_arith_logic, sim_addr_gen, mask_shift,
}
use ece375_project.Simulator.{Simulator, sim_fetch}
use ece375_project.Simulator.Faults.{sim_mem_access_exception}
use ece375_project.Stages.{passes, stops, sim_if, sim_id, sim_ex, sim_mem, issue}

-- The instruction has raised no memory exception.
abbrev pub IsQuiet : Instruction → Type 0
IsQuiet i = i.mem_exception ≡ false

pub sim_if-IsQuiet :
    (platform : Platform) (pc : ℕ) (sim : Simulator) → IsQuiet (sim_if platform pc sim)
unfolding sim_if sim_fetch
sim_if-IsQuiet platform pc sim = refl

sim_decode-IsQuiet : (i : Instruction) → IsQuiet i → IsQuiet (sim_decode i)
unfolding sim_decode
sim_decode-IsQuiet i q = if_cases IsQuiet ((decode_fields i).instruction == halt_word) q (
    if_cases IsQuiet ((decode_fields i).instruction == nop_word) q
      (switch_cases IsQuiet (decode_fields i) q q q q q q q q))

pub sim_id-IsQuiet : (i : Instruction) (sim : Simulator) → IsQuiet i → IsQuiet (sim_id i sim).0
unfolding sim_id issue sim_operand_collection sim_next_pc_resolution
sim_id-IsQuiet i sim q =
    if_cases (λ (r : Instruction × Simulator). IsQuiet r.0) (passes i) q
      (if_cases (λ (r : Instruction × Simulator). IsQuiet r.0) (stops (sim_decode i))
        (sim_decode-IsQuiet i q) (sim_decode-IsQuiet i q))

sim_arith_logic-IsQuiet : (i : Instruction) → IsQuiet i → IsQuiet (sim_arith_logic i)
unfolding sim_arith_logic mask_shift
sim_arith_logic-IsQuiet i q = ground arith

sim_addr_gen-IsQuiet : (i : Instruction) → IsQuiet i → IsQuiet (sim_addr_gen i)
unfolding sim_addr_gen
sim_addr_gen-IsQuiet i q = if_cases IsQuiet i.reads_mem q (if_cases IsQuiet i.writes_mem q q)

pub sim_ex-IsQuiet : (i : Instruction) → IsQuiet i → IsQuiet (sim_ex i)
unfolding sim_ex
sim_ex-IsQuiet i q =
    let computed : IsQuiet (if i.does_arith_logic then sim_arith_logic i else i) =
      if_cases IsQuiet i.does_arith_logic (sim_arith_logic-IsQuiet i q) q in
    if_cases IsQuiet (passes i) q
      (if_cases IsQuiet (stops i) q (if_cases IsQuiet _ (sim_addr_gen-IsQuiet _ computed) computed))

pub sim_mem-IsQuiet :
    (platform : Platform) (i : Instruction) (sim : Simulator)
    → IsQuiet i
    → IsQuiet (sim_mem platform i sim).0
unfolding sim_mem
sim_mem-IsQuiet platform i sim q =
    if_cases (λ (r : Instruction × Simulator). IsQuiet r.0) (passes i) q
      (if_cases (λ (r : Instruction × Simulator). IsQuiet r.0) (stops i) q
        (if_cases (λ (r : Instruction × Simulator). IsQuiet r.0) (i.reads_mem || i.writes_mem)
          (quiet_access i.reads_mem (sim_mem_access_exception platform i sim.memory) q) q))
  where
    quiet_access : (b : Bool) {e x : Bool} → e ≡ (if b then false else x) → x ≡ false → e ≡ false
    quiet_access true p q = p
    quiet_access false p q = p ∙ q
