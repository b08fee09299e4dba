-- ===== src/Simulator.antt =====
-- `class Simulator` of src/simulator.cpp and src/simulator.h: the registers, the memory and the
-- dynamic instruction number, with the steps that read or write them. The memory that
-- `setMemory` is handed is used by the simulator alone, so it is a part of the state here.
pub mod Faults
use ece375_project.Base.{
  ℕ, ◌+◌, ◌-◌, ◌*◌, Bool, true, false, not, ◌||◌, List, set, replicate, ◌==◌, if◌then◌else◌,
}
use ece375_project.Base.Int.{pos, eqb_ℤ}
use ece375_project.Platform.{Platform}
use ece375_project.Word.{u32, u64, sext64}
use ece375_project.Memory.{
  MemoryStore, byte_size, half_size, word_size, double_size, get_mem_value, set_mem_value,
}
use ece375_project.Instruction.{Instruction, fresh}
use ece375_project.Instruction.Encodings.{
  funct3_b, funct3_h, funct3_w, funct3_bu, funct3_hu, funct3_wu,
}
use ece375_project.Decode.{sim_decode}
use ece375_project.Execute.{
  sim_operand_collection, sim_next_pc_resolution, sim_arith_logic, sim_addr_gen,
}

pub record Simulator : Type 0 where
  -- `regData`, 32 registers
  pub registers : List ℕ
  pub memory : MemoryStore
  pub din : ℕ

-- The constructor, and `setMemory`.
unfoldable pub new_simulator : MemoryStore → Simulator
new_simulator memory = record { registers = replicate 32 0; memory = memory; din = 0 }

-- `myMem->getMemValue` sets its result to 0 before it reads, so no earlier value is seen.
unfoldable pub sim_fetch : Platform → ℕ → MemoryStore → Instruction
unfolding get_mem_value
sim_fetch platform pc memory = record fresh {
  pc = pc;
  instruction = u32 (get_mem_value platform pc 0 word_size memory).value;
}

unfoldable pub access_size : ℕ → ℕ
access_size funct3 =
    if funct3 == funct3_b || funct3 == funct3_bu
    then byte_size
    else if funct3 == funct3_h || funct3 == funct3_hu
    then half_size
    else if funct3 == funct3_w || funct3 == funct3_wu
    then word_size
    else double_size

-- `memException` is set by the comparison of the returned `int` with EINVAL; the result of a
-- store is not read.
unfoldable pub sim_mem_access : Platform → Instruction → MemoryStore → Instruction × MemoryStore
sim_mem_access platform inst memory =
    let size = access_size inst.funct3 in
    if inst.reads_mem
    then (let access = get_mem_value platform inst.mem_address 0 size memory in
        let extends =
          inst.funct3 == funct3_b || inst.funct3 == funct3_h || inst.funct3 == funct3_w in
        (
          record inst {
            mem_exception = eqb_ℤ access.ret (pos platform.einval);
            mem_result = if extends then sext64 access.value (size * 8 - 1) else access.value;
          },
          access.store,
        ))
    else if inst.writes_mem
    then (inst, (set_mem_value platform inst.mem_address inst.op2_val size memory).store)
    else (inst, memory)

-- `simCommit` on the registers.
unfoldable pub sim_commit : Instruction → List ℕ → List ℕ
sim_commit inst registers =
    set registers inst.rd (if inst.reads_mem then inst.mem_result else inst.arith_result)

-- The steps of `simInstruction` from `simOperandCollection` on.
abbrev pub collected : Instruction → Simulator → Instruction
collected inst sim = sim_next_pc_resolution (sim_operand_collection inst sim.registers)

abbrev pub computed : Instruction → Instruction
computed inst = if inst.does_arith_logic then sim_arith_logic inst else inst

abbrev pub accessed : Platform → Instruction → MemoryStore → Instruction × MemoryStore
accessed platform inst memory =
    if inst.reads_mem || inst.writes_mem
    then sim_mem_access platform (sim_addr_gen inst) memory
    else (inst, memory)

abbrev pub committed : Instruction → List ℕ → List ℕ
committed inst registers = if inst.writes_rd then sim_commit inst registers else registers

unfoldable pub execute : Platform → Instruction → Simulator → Instruction × Simulator
execute platform inst sim =
    let (done, memory) = accessed platform (computed (collected inst sim)) sim.memory in
    (done, record sim { registers = committed done sim.registers; memory = memory })

-- `simInstruction`.
unfoldable pub sim_instruction : Platform → ℕ → Simulator → Instruction × Simulator
sim_instruction platform pc sim =
    let decoded = sim_decode (sim_fetch platform pc sim.memory) in
    let inst = record decoded { instruction_id = sim.din } in
    let counted = record sim { din = u64 (sim.din + 1) } in
    if not inst.is_legal || inst.is_halt then (inst, counted) else execute platform inst counted
