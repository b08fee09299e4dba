-- ===== src/Cycle.antt =====
-- `runCycles` of src/cycle.cpp: one round of its loop, cut at its comments, and the loop. The debug
-- output is left out.
pub mod State
pub mod Hazards
pub mod Stalls
pub mod Upset
pub mod Waits
pub mod Frozen
pub mod Bubbles
pub mod LoadUse
pub mod Handler
pub mod Exceptions
use ece375_project.Base.{
  ℕ, zero, suc, ◌+◌, ◌-◌, ◌^◌, Bool, true, false, not, ◌&&◌, ◌||◌, Option, none, some, leb, ◌==◌,
  if◌then◌else◌,
}
use ece375_project.Platform.{Platform}
use ece375_project.Word.{u64, add64, sub64}
use ece375_project.Instruction.{
  Instruction, StageStatus, normal, bubble, squashed, speculative, is_bubble, is_squashed, is_idle,
  is_speculative,
}
use ece375_project.Execute.{sim_next_pc_resolution}
use ece375_project.Stages.{sim_if, sim_id, sim_ex, sim_mem, sim_wb}
use ece375_project.Cache.{CacheOperation, cache_read, cache_write, access}
use ece375_project.Funct.{Status, success, halt}
use State.{Machine, Loop, PipelineInfo, nop, exc_handler, enter, leave}
use Hazards.{
  is_load, is_store, is_live, is_branch_or_jump, raises_illegal, hazard, forward_store, forward,
}

-- `opType != prevDOp`.
abbrev pub same_operation : CacheOperation → CacheOperation → Bool
same_operation cache_read cache_read = true
same_operation cache_write cache_write = true
same_operation _ _ = false

abbrev op_type : Instruction → CacheOperation
op_type mem = if mem.writes_mem then cache_write else cache_read

-- The access of the instruction in MEM to the data cache.
unfoldable pub data_access : Platform → Instruction → Loop → Loop
data_access platform mem l =
    let m = l.machine in
    if not m.prev_d_valid
      || not (mem.mem_address == m.prev_d_addr)
      || not (same_operation (op_type mem) m.prev_d_op)
    then (let (dcache, hit) = access platform mem.mem_address (op_type mem) m.dcache in
        record l {
          machine = record m {
            prev_d_valid = true;
            prev_d_addr = mem.mem_address;
            prev_d_op = op_type mem;
            dcache = dcache;
          };
          data_fetch_miss = if hit then l.data_fetch_miss else true;
          data_miss_stalls = if hit then l.data_miss_stalls else 0;
        })
    else l

unfoldable pub data_step : Platform → Instruction → Loop → Loop
data_step platform mem l =
    if not l.data_fetch_miss && (is_load mem || is_store mem)
    then data_access platform mem l
    else if l.data_fetch_miss
    then record l { data_miss_stalls = u64 (l.data_miss_stalls + 1) }
    else l

-- The hazard tests, with the counters that they change.
unfoldable pub hazard_step : Instruction → Instruction → Loop → Loop × Bool
hazard_step ex id l =
    let m = l.machine in
    let h = hazard ex id m.remaining_stall_cycles m.load_stall_count in
    (
      record l {
        machine = record m {
          remaining_stall_cycles = h.remaining;
          load_stall_count = h.load_stalls;
        };
      },
      h.stall,
    )

-- The access of the instruction in IF to the instruction cache.
unfoldable pub inst_access : Platform → Instruction → Loop → Loop
inst_access platform fetched l =
    let m = l.machine in
    if fetched.pc == m.prev_icpc
    then l
    else (let (icache, hit) = access platform fetched.pc cache_read m.icache in
        record l {
          machine = record m { prev_icpc = fetched.pc; icache = icache };
          inst_fetch_miss = if hit then l.inst_fetch_miss else true;
          inst_miss_stalls = if hit then l.inst_miss_stalls else 0;
        })

unfoldable pub inst_step : Platform → Bool → Instruction → Loop → Loop
inst_step platform stall fetched l =
    if not stall && not l.inst_fetch_miss && not fetched.is_nop
    then inst_access platform fetched l
    else if l.inst_fetch_miss
    then record l { inst_miss_stalls = u64 (l.inst_miss_stalls + 1) }
    else l

-- `pipelineInfo` with one latch set.
abbrev pub with_pipeline : (PipelineInfo → PipelineInfo) → Loop → Loop
with_pipeline f l = record l { machine = record l.machine { pipeline = f l.machine.pipeline } }

unfoldable pub wb_step : Instruction → Loop → Loop
wb_step mem l =
    let m = l.machine in
    let (wb, sim) =
      if l.data_fetch_miss then (nop bubble, m.simulator) else sim_wb mem m.simulator in
    record l {
      machine = record m {
        simulator = sim;
        completed_count = if is_live wb then u64 (m.completed_count + 1) else m.completed_count;
        pipeline = record m.pipeline { wb_inst = wb };
      };
    }

-- The MEM stage, and whether it raised an exception.
unfoldable pub mem_step : Platform → Instruction → Instruction → Loop → Loop × Bool
mem_step platform mem ex l =
    let m = l.machine in
    let (inst, sim) =
      if l.data_fetch_miss then (mem, m.simulator) else sim_mem platform ex m.simulator in
    (
      record l {
        machine = record m {
          simulator = sim;
          pipeline = record m.pipeline {
            mem_inst = if inst.mem_exception then record inst { status = squashed } else inst;
          };
        };
      },
      inst.mem_exception,
    )

unfoldable pub ex_step : Bool → Bool → Instruction → Instruction → Loop → Loop
ex_step illegal_exc stall ex id l =
    let inst =
      if l.data_fetch_miss
      then ex
      else if illegal_exc
      then nop squashed
      else if stall
      then nop bubble
      else sim_ex id in
    with_pipeline (λ p. record p { ex_inst = inst }) l

-- An instruction from IF that is no bubble enters ID as NORMAL.
abbrev pub entering : Instruction → Instruction
entering fetched =
    if not fetched.is_nop
      && not (is_bubble fetched.status)
      && not (is_squashed fetched.status)
      && not (is_idle fetched.status)
    then record fetched { status = normal }
    else fetched

unfoldable pub id_step : Bool → Bool → Instruction → Instruction → Loop → Loop
id_step illegal_exc stall fetched id l =
    let m = l.machine in
    let (inst, sim) =
      if l.data_fetch_miss
      then (id, m.simulator)
      else if illegal_exc
      then (nop squashed, m.simulator)
      else if stall
      then (if is_branch_or_jump id then sim_next_pc_resolution id else id, m.simulator)
      else if l.inst_fetch_miss
      then (nop bubble, m.simulator)
      else if is_speculative fetched.status && not (fetched.pc == sub64 m.pc 4)
      then (nop squashed, m.simulator)
      else sim_id (entering fetched) m.simulator in
    record l {
      machine = record m { simulator = sim; pipeline = record m.pipeline { id_inst = inst } };
    }

unfoldable pub branch_in_id : Loop → Bool
branch_in_id l =
    not l.data_fetch_miss && not l.inst_fetch_miss && is_branch_or_jump l.machine.pipeline.id_inst

unfoldable pub taken : Loop → Bool
taken l = let id = l.machine.pipeline.id_inst in branch_in_id l && not (id.next_pc == add64 id.pc 4)

-- A fetch at `PC`, after which `PC` is as given.
abbrev pub fetch : Platform → (Instruction → Instruction) → ℕ → Loop → Loop
fetch platform f next l =
    let m = l.machine in
    record l {
      machine = record m {
        pc = next;
        pipeline = record m.pipeline { if_inst = f (sim_if platform m.pc m.simulator) };
      };
    }

abbrev pub no_inst_miss : Loop → Loop
no_inst_miss l = record l { inst_fetch_miss = false; inst_miss_stalls = 0 }

-- To the exception handler.
abbrev pub redirect : Platform → Loop → Loop
redirect platform l =
    fetch platform (λ i. i) exc_handler
      (no_inst_miss (record l { machine = record l.machine { pc = exc_handler } }))

abbrev pub squash : Instruction → Instruction
squash inst = record inst { status = squashed }

abbrev pub hold_if : Instruction → Loop → Loop
hold_if fetched = with_pipeline (λ p. record p { if_inst = fetched })

-- A stalled fetch: the latch keeps its instruction, and a branch in ID sets `PC` again.
unfoldable pub stalled_if : Instruction → Loop → Loop
stalled_if fetched l =
    let held = hold_if fetched l in
    let next = l.machine.pipeline.id_inst.next_pc in
    if branch_in_id l
    then (if taken l
        then no_inst_miss (record held { machine = record held.machine { pc = next } })
        else record held { machine = record held.machine { pc = add64 next 4 } })
    else held

abbrev pub speculate : Instruction → Instruction
speculate inst = record inst { status = speculative }

unfoldable pub if_step : Platform → Bool → Bool → Bool → Instruction → Loop → Loop
if_step platform illegal_exc mem_exc stall fetched l =
    let id = l.machine.pipeline.id_inst in
    if illegal_exc
    then redirect platform l
    else if mem_exc
    then redirect platform (
        with_pipeline
          (λ p. record p {
            if_inst = squash p.if_inst;
            id_inst = squash p.id_inst;
            ex_inst = squash p.ex_inst;
          })
          l)
    else if stall
    then stalled_if fetched l
    else if branch_in_id l
    then (let fetched_next = fetch platform speculate id.next_pc l in
        if taken l then no_inst_miss fetched_next else fetched_next)
    else if l.inst_fetch_miss
    then hold_if fetched l
    else if l.data_fetch_miss
    then hold_if fetched l
    else fetch platform (λ i. if is_branch_or_jump id then speculate i else i)
        (add64 l.machine.pc 4) l

-- A miss ends after `missLatency - 1` stalled rounds.
unfoldable pub end_misses : Loop → Loop
end_misses l =
    let inst_done = leb (sub64 l.machine.icache.config.miss_latency 1) l.inst_miss_stalls in
    let data_done = leb (sub64 l.machine.dcache.config.miss_latency 1) l.data_miss_stalls in
    record l {
      inst_miss_stalls = if inst_done then 0 else l.inst_miss_stalls;
      inst_fetch_miss = if inst_done then false else l.inst_fetch_miss;
      data_miss_stalls = if data_done then 0 else l.data_miss_stalls;
      data_fetch_miss = if data_done then false else l.data_fetch_miss;
    }

-- The first half of a round: the caches and the hazards.
unfoldable pub front : Platform → Loop → Loop × Bool
front platform l =
    let prev = l.machine.pipeline in
    let started = record l { pipe_cycle = l.machine.cycle_count } in
    let (checked, stall) =
      hazard_step prev.ex_inst prev.id_inst (data_step platform prev.mem_inst started) in
    (inst_step platform stall prev.if_inst checked, stall)

-- The second half: the stages, from WB back to IF, on the latches that the round began with.
unfoldable pub stages : Platform → PipelineInfo → Loop → Bool → Loop
stages platform prev l stall =
    let illegal_exc = raises_illegal prev.id_inst in
    let written = wb_step prev.mem_inst l in
    let ex = forward_store l.data_fetch_miss prev.mem_inst prev.ex_inst in
    let (reached, mem_exc) = mem_step platform prev.mem_inst ex written in
    let id = forward prev.mem_inst ex prev.id_inst in
    let decoded =
      id_step illegal_exc stall prev.if_inst id (ex_step illegal_exc stall ex id reached) in
    if_step platform illegal_exc mem_exc stall prev.if_inst decoded

-- One round of the loop.
unfoldable pub cycle : Platform → Loop → Loop
cycle platform l =
    let (ready, stall) = front platform l in
    let t = end_misses (stages platform l.machine.pipeline ready stall) in
    record t { machine = record t.machine { cycle_count = u64 (t.machine.cycle_count + 1) } }

-- The loop for `n` rounds, not 0 (at 0 the source runs without a limit).
unfoldable pub run_loop : Platform → ℕ → Loop → Loop × Status
run_loop platform zero l = (l, success)
run_loop platform (suc n) l =
    let t = cycle platform l in
    elim t.machine.pipeline.wb_inst.is_halt [ true ↦ (t, halt) | false ↦ run_loop platform n t ]

-- `struct PipeState`, filled from the latches. Each call of `runCycles` writes one out as it ends.
pub record PipeState : Type 0 where
  pub cycle : ℕ
  pub if_status : StageStatus
  pub if_pc : ℕ
  pub id_status : StageStatus
  pub id_instr : ℕ
  pub ex_status : StageStatus
  pub ex_instr : ℕ
  pub mem_status : StageStatus
  pub mem_instr : ℕ
  pub wb_status : StageStatus
  pub wb_instr : ℕ

unfoldable pub pipe_state : Loop → PipeState
pipe_state l =
    let p = l.machine.pipeline in
    record {
      cycle = l.pipe_cycle;
      if_status = p.if_inst.status;
      if_pc = p.if_inst.pc;
      id_status = p.id_inst.status;
      id_instr = p.id_inst.instruction;
      ex_status = p.ex_inst.status;
      ex_instr = p.ex_inst.instruction;
      mem_status = p.mem_inst.status;
      mem_instr = p.mem_inst.instruction;
      wb_status = p.wb_inst.status;
      wb_instr = p.wb_inst.instruction;
    }

unfoldable pub run_cycles : Platform → ℕ → Machine → Machine × Status × PipeState
run_cycles platform n m =
    let (l, status) = run_loop platform n (enter m) in (leave l, status, pipe_state l)

-- `runTillHalt`, which calls `runCycles(1)`, on fuel: `none` if it has not halted yet.
unfoldable pub run_till_halt : Platform → ℕ → Machine → Option Machine
run_till_halt platform zero m = none
run_till_halt platform (suc fuel) m =
    let (t, status, _) = run_cycles platform 1 m in
    elim status [ halt ↦ some t | _ ↦ run_till_halt platform fuel t ]
