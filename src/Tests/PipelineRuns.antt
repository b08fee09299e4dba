-- ===== src/Tests/PipelineRuns.antt =====
-- Decoding, the stages and the pipeline at concrete inputs.
use ece375_project.Base.{◌≡◌, refl, true, false, [], ◌∷◌}
use ece375_project.Memory.{MemoryStore, get_bytes}
use ece375_project.Instruction.{Instruction, fresh, normal}
use ece375_project.Decode.{sim_decode}
use ece375_project.Decode.Legal.{IsUndecoded, IsDecoded, sim_decode-IsDecoded}
use ece375_project.Simulator.{Simulator, new_simulator, sim_fetch, sim_mem_access, sim_instruction}
use ece375_project.Simulator.Faults.{sim_mem_access_exception}
use ece375_project.Stages.Sequential.{run_stages, run_stages-eq-sim_instruction}
use ece375_project.Cache.{CacheConfig}
use ece375_project.Cycle.{run_cycles}
use ece375_project.Cycle.State.{Machine, nop, init_simulator}
use ece375_project.Cycle.Hazards.{hazard, is_load, is_store, is_branch_or_jump, forward, writes_reg}
use ece375_project.Cycle.Exceptions.{NoException, run_cycles-NoException}
use ece375_project.Cycle.Stalls.{hazard-must_wait, forward-newest}
use ece375_project.Tests.{linux}

-- `addi x1, x0, 5`, `addi x2, x1, 7`, and the word that halts.
abbrev program : MemoryStore
program = record {
  start_addr = 0;
  mem_arr = 0x93 ∷ 0x00 ∷ 0x50 ∷ 0x00 ∷ 0x13 ∷ 0x81 ∷ 0x70 ∷ 0x00 ∷ 0xfe ∷ 0xed ∷ 0xfe ∷ 0xed ∷ [];
}

abbrev started : Simulator
started = new_simulator program

goes_on : (sim_decode (sim_fetch linux 0 started.memory)).is_halt ≡ false
unfolding sim_decode sim_fetch get_bytes new_simulator
goes_on = refl

is_known : (sim_decode (sim_fetch linux 0 started.memory)).is_legal ≡ true
unfolding sim_decode sim_fetch get_bytes new_simulator
is_known = refl

run_stages-eq-sim_instruction_example : run_stages linux 0 started ≡ sim_instruction linux 0 started
run_stages-eq-sim_instruction_example =
    run_stages-eq-sim_instruction linux 0 started goes_on is_known

-- `addi x2, x1, 7` as it is fetched.
abbrev fetched : Instruction
fetched = record fresh { instruction = 0x00708113; pc = 4 }

fetched-IsUndecoded : IsUndecoded fetched
fetched-IsUndecoded = record {
  legal = refl;
  halt = refl;
  nop = refl;
  reads_mem = refl;
  writes_mem = refl;
  arith = refl;
  writes_rd = refl;
  reads_rs1 = refl;
  reads_rs2 = refl;
  exception = refl;
  status = refl;
}

sim_decode-IsDecoded_example : IsDecoded (sim_decode fetched)
sim_decode-IsDecoded_example = sim_decode-IsDecoded fetched fetched-IsUndecoded

-- A load of a word from beyond the memory.
abbrev wild_load : Instruction
wild_load = record fresh { is_legal = true; reads_mem = true; funct3 = 2; mem_address = 0x123456 }

sim_mem_access_exception_example : (sim_mem_access linux wild_load program).0.mem_exception ≡ false
sim_mem_access_exception_example = sim_mem_access_exception linux wild_load program

abbrev config : CacheConfig
config = record { cache_size = 64; block_size = 16; ways = 2; miss_latency = 5 }

abbrev booted : Machine
booted = init_simulator config config program

booted-NoException : NoException booted.pipeline
unfolding init_simulator
booted-NoException = record { if_quiet = refl; id_quiet = refl; ex_quiet = refl; mem_quiet = refl }

run_cycles-NoException_example : NoException (run_cycles linux 8 booted).0.pipeline
run_cycles-NoException_example = run_cycles-NoException linux 8 booted booted-NoException

-- `addi x1, x0, 5` in EX and `addi x2, x1, 7` in ID.
abbrev producer : Instruction
producer = record fresh {
  instruction = 0x00500093;
  is_legal = true;
  does_arith_logic = true;
  writes_rd = true;
  reads_rs1 = true;
  rd = 1;
  arith_result = 5;
  status = normal;
}

abbrev consumer : Instruction
consumer = record fetched {
  is_legal = true;
  does_arith_logic = true;
  writes_rd = true;
  reads_rs1 = true;
  rd = 2;
  rs1 = 1;
  status = normal;
}

forward-newest_example :
    ((forward (nop normal) producer consumer).op1_val ≡ 5)
    × ((forward (nop normal) producer consumer).op2_val ≡ 0)
unfolding writes_reg is_load
forward-newest_example = forward-newest (nop normal) producer consumer refl

-- `lw x1, 0(x0)` in EX, on which `addi x2, x1, 7` in ID must wait.
abbrev loader : Instruction
loader = record fresh {
  instruction = 0x00002083;
  is_legal = true;
  reads_mem = true;
  writes_rd = true;
  reads_rs1 = true;
  rd = 1;
  status = normal;
}

hazard-must_wait_example :
    ((hazard loader consumer 0 6).stall ≡ true) × ((hazard loader consumer 0 6).remaining ≡ 0)
unfolding is_load is_store is_branch_or_jump writes_reg
hazard-must_wait_example = hazard-must_wait loader consumer 6
