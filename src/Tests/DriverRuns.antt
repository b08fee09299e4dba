-- ===== src/Tests/DriverRuns.antt =====
-- Waiting and stalled rounds of the pipeline, and runs of the functional simulator.
use ece375_project.Base.{◌+◌, ◌≡◌, refl, arith, true, false, [], ◌∷◌}
use ece375_project.Word.{u64}
use ece375_project.Memory.{MemoryStore}
use ece375_project.Instruction.{Instruction, fresh, bubble, normal}
use ece375_project.Cache.{CacheConfig, new_cache}
use ece375_project.Stages.{sim_mem, sim_wb}
use ece375_project.Cycle.{cycle, front, data_step, hazard_step, inst_step}
use ece375_project.Cycle.State.{
  Machine, Loop, PipelineInfo, nop, exc_handler, init_simulator, enter,
}
use ece375_project.Cycle.Hazards.{
  hazard, load_hazard, is_load, is_store, writes_reg, forward, forward_store, raises_illegal,
  is_branch_or_jump,
}
use ece375_project.Cycle.Waits.{IsWaiting, Ends, rounds-Ends}
use ece375_project.Cycle.Frozen.{cycle-frozen}
use ece375_project.Cycle.LoadUse.{cycle-bubble}
use ece375_project.Funct
use ece375_project.Funct.{run_rounds, run_instructions, run_till_halt}
use ece375_project.Funct.Runs.{outcome, run_till_halt-outcome}
use ece375_project.Tests.{linux}

-- `addi x1, x0, 5`, `addi x2, x1, 7`, and the word that halts.
abbrev program : MemoryStore
program = record {
  start_addr = 0;
  mem_arr = 0x93 ∷ 0x00 ∷ 0x50 ∷ 0x00 ∷ 0x13 ∷ 0x81 ∷ 0x70 ∷ 0x00 ∷ 0xed ∷ 0xfe ∷ 0xed ∷ 0xfe ∷ [];
}

abbrev config : CacheConfig
config = record { cache_size = 64; block_size = 16; ways = 2; miss_latency = 5 }

abbrev booted : Machine
booted = init_simulator config config program

-- The loop while the data cache waits for memory, two cycles before the data are there.
abbrev waiting : Loop
waiting = record (enter booted) { data_fetch_miss = true; data_miss_stalls = 2 }

waiting-IsWaiting : IsWaiting waiting
unfolding init_simulator raises_illegal enter
waiting-IsWaiting = record { miss = refl; legal = refl; quiet = refl }

latency : waiting.machine.dcache.config.miss_latency ≡ 5
unfolding init_simulator new_cache enter
latency = refl

rounds-Ends_example : Ends linux 1 waiting
rounds-Ends_example =
    rounds-Ends linux 1 waiting waiting-IsWaiting (omega (arith, latency)) (omega (arith, latency))

-- `lw x1, 0(x0)` in EX, and `addi x2, x1, 7`, which needs its result, in ID.
abbrev loader : Instruction
loader = record fresh {
  instruction = 0x00002083;
  reads_mem = true;
  writes_rd = true;
  reads_rs1 = true;
  rd = 1;
}

abbrev consumer : Instruction
consumer = record fresh {
  instruction = 0x00708113;
  pc = 4;
  does_arith_logic = true;
  writes_rd = true;
  reads_rs1 = true;
  rd = 2;
  rs1 = 1;
}

abbrev load_use : PipelineInfo
load_use = record {
  if_inst = nop normal;
  id_inst = consumer;
  ex_inst = loader;
  mem_inst = nop normal;
  wb_inst = nop normal;
}

-- The loop with no miss and these instructions in the pipeline.
abbrev ready : Loop
ready = record (enter booted) {
  data_fetch_miss = false;
  machine = record booted { pipeline = load_use };
}

cycle-bubble_example :
    let m = ready.machine in
    let t = (cycle linux ready).machine in
    let ex = forward_store false load_use.mem_inst load_use.ex_inst in
    let wb = sim_wb load_use.mem_inst m.simulator in
    let mem = sim_mem linux ex wb.1 in
    (t.pc ≡ m.pc)
    × (t.pipeline.if_inst ≡ load_use.if_inst)
    × (t.pipeline.id_inst ≡ forward load_use.mem_inst ex load_use.id_inst)
    × (t.pipeline.ex_inst ≡ nop bubble)
    × (t.pipeline.mem_inst ≡ mem.0)
    × (t.pipeline.wb_inst ≡ wb.0)
    × (t.simulator ≡ mem.1)
    × (t.load_stall_count ≡ u64 (m.load_stall_count + 1))
    × (t.remaining_stall_cycles ≡ 0)
    × ((hazard t.pipeline.ex_inst t.pipeline.id_inst t.remaining_stall_cycles
          t.load_stall_count).stall
        ≡ false)
unfolding raises_illegal is_branch_or_jump init_simulator enter front data_step hazard_step
    inst_step is_load is_store writes_reg hazard load_hazard new_cache
cycle-bubble_example = cycle-bubble linux ready refl refl refl refl refl refl refl

cycle-frozen_example :
    let m = waiting.machine in
    let t = (cycle linux waiting).machine in
    let p = m.pipeline in
    let h = hazard p.ex_inst p.id_inst m.remaining_stall_cycles m.load_stall_count in
    (t.pipeline ≡ record {
      if_inst = p.if_inst;
      id_inst = forward p.mem_inst p.ex_inst p.id_inst;
      ex_inst = p.ex_inst;
      mem_inst = p.mem_inst;
      wb_inst = nop bubble;
    })
    × (t.simulator ≡ m.simulator)
    × (t.pc ≡ m.pc)
    × (t.dcache ≡ m.dcache)
    × (t.completed_count ≡ m.completed_count)
    × (t.cycle_count ≡ u64 (m.cycle_count + 1))
    × (t.remaining_stall_cycles ≡ h.remaining)
    × (t.load_stall_count ≡ h.load_stalls)
cycle-frozen_example = cycle-frozen linux waiting waiting-IsWaiting

-- An illegal instruction in ID, where the handler's first word was the last to be fetched.
abbrev trapped : Loop
trapped = record ready {
  machine = record booted {
    prev_icpc = exc_handler;
    pipeline = record load_use {
      id_inst = record fresh { instruction = 0xffffffff; is_legal = false; status = normal };
      ex_inst = nop normal;
    };
  };
}

abbrev started : Funct.Funct
started = Funct.init_simulator program

run_till_halt-outcome_example :
    (run_till_halt linux 3 started ≡ outcome (run_rounds linux 3 started))
    × (run_till_halt linux 3 started ≡ run_instructions linux 3 0 started)
run_till_halt-outcome_example = run_till_halt-outcome linux 3 started
