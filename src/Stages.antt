-- ===== src/Stages.antt =====
-- The five pipeline stages of src/simulator.cpp.
pub mod Frame
pub mod Sequential
pub mod Quiet
use ece375_project.Base.{ℕ, ◌+◌, Bool, true, not, ◌||◌, if◌then◌else◌}
use ece375_project.Platform.{Platform}
use ece375_project.Word.{u64}
use ece375_project.Instruction.{Instruction, normal, is_bubble, is_squashed}
use ece375_project.Decode.{sim_decode}
use ece375_project.Execute.{
  sim_operand_collection, sim_next_pc_resolution, sim_arith_logic, sim_addr_gen,
}
use ece375_project.Simulator.{Simulator, sim_fetch, sim_mem_access, sim_commit}

-- The first test of each stage: such an instruction passes unchanged.
abbrev pub passes : Instruction → Bool
passes inst = inst.is_nop || is_bubble inst.status || is_squashed inst.status

abbrev pub stops : Instruction → Bool
stops inst = inst.is_halt || not inst.is_legal

unfoldable pub sim_if : Platform → ℕ → Simulator → Instruction
unfolding sim_fetch
sim_if platform pc sim = record (sim_fetch platform pc sim.memory) { status = normal }

-- What `simID` does with a decoded instruction.
unfoldable pub issue : Instruction → Simulator → Instruction × Simulator
issue inst sim =
    let resolved = sim_next_pc_resolution (sim_operand_collection inst sim.registers) in
    (
      record resolved { instruction_id = sim.din; status = normal },
      record sim { din = u64 (sim.din + 1) },
    )

unfoldable pub sim_id : Instruction → Simulator → Instruction × Simulator
sim_id inst sim =
    if passes inst
    then (inst, sim)
    else (let decoded = sim_decode inst in
        if stops decoded then (decoded, sim) else issue decoded sim)

unfoldable pub sim_ex : Instruction → Instruction
sim_ex inst =
    if passes inst
    then inst
    else if stops inst
    then inst
    else (let computed = if inst.does_arith_logic then sim_arith_logic inst else inst in
        let addressed =
          if computed.reads_mem || computed.writes_mem then sim_addr_gen computed else computed in
        record addressed { status = normal })

unfoldable pub sim_mem : Platform → Instruction → Simulator → Instruction × Simulator
sim_mem platform inst sim =
    if passes inst
    then (inst, sim)
    else if stops inst
    then (inst, sim)
    else if inst.reads_mem || inst.writes_mem
    then (let (accessed, memory) = sim_mem_access platform inst sim.memory in
        (record accessed { status = normal }, record sim { memory = memory }))
    else (record inst { status = normal }, sim)

unfoldable pub sim_wb : Instruction → Simulator → Instruction × Simulator
sim_wb inst sim = if passes inst then (inst, sim) else if stops inst then (inst, sim) else (
  record inst { status = normal },
  if inst.writes_rd then record sim { registers = sim_commit inst sim.registers } else sim,
)
