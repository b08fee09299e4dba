-- ===== src/Cycle/Exceptions.antt =====
-- `memException` in the latches of `runCycles` in src/cycle.cpp, stage by stage.
use ece375_project.Base.{ℕ, zero, suc, ◌≡◌, refl, Bool, true, false, if_cases, if◌then◌else◌, arith}
use ece375_project.Platform.{Platform}
use ece375_project.Instruction.{Instruction, squashed}
use ece375_project.Simulator.{Simulator}
use ece375_project.Execute.{sim_next_pc_resolution}
use ece375_project.Stages.{sim_if}
use ece375_project.Stages.Quiet.{
  IsQuiet, sim_if-IsQuiet, sim_id-IsQuiet, sim_ex-IsQuiet, sim_mem-IsQuiet,
}
use ece375_project.Funct.{Status, halt}
use ece375_project.Cycle.State.{Machine, Loop, PipelineInfo, exc_handler, enter, leave}
use ece375_project.Cycle.Hazards.{
  is_branch_or_jump, raises_illegal, forward_store, forward, forward_mem, forward_ex,
  forward_branch, writes_reg, with_operand, produced,
}
use ece375_project.Cycle.{
  cycle, front, stages, wb_step, mem_step, ex_step, id_step, if_step, stalled_if, branch_in_id,
  taken, end_misses, run_loop, run_cycles, entering, speculate,
}

-- No instruction in the latches IF, ID, EX or MEM has raised the memory exception.
pub record NoException (p : PipelineInfo) : Type 0 where
  pub if_quiet : IsQuiet p.if_inst
  pub id_quiet : IsQuiet p.id_inst
  pub ex_quiet : IsQuiet p.ex_inst
  pub mem_quiet : IsQuiet p.mem_inst

pub forward_store-IsQuiet :
    (b : Bool) (mem ex : Instruction) → IsQuiet ex → IsQuiet (forward_store b mem ex)
unfolding forward_store
forward_store-IsQuiet b mem ex q = ground arith

with_operand-IsQuiet :
    (b : Bool) (rd value : ℕ) (id : Instruction)
    → IsQuiet id
    → IsQuiet (if b then with_operand rd value id else id)
with_operand-IsQuiet true rd value id q = q
with_operand-IsQuiet false rd value id q = q

forward-IsQuiet : (mem ex id : Instruction) → IsQuiet id → IsQuiet (forward mem ex id)
unfolding forward forward_mem forward_ex forward_branch
forward-IsQuiet mem ex id q =
    let after_mem = with_operand-IsQuiet (writes_reg mem) mem.rd (produced mem) id q in
    let after_ex = with_operand-IsQuiet (writes_reg ex) ex.rd ex.arith_result _ after_mem in
    with_operand-IsQuiet _ ex.rd ex.arith_result _ after_ex

-- The instruction that each stage puts into its latch.
mem_step-IsQuiet :
    (platform : Platform) (mem ex : Instruction) (l : Loop)
    → IsQuiet mem
    → IsQuiet ex
    → IsQuiet (mem_step platform mem ex l).0.machine.pipeline.mem_inst
unfolding mem_step
mem_step-IsQuiet platform mem ex l qm qe = kept _ (
    if_cases (λ (r : Instruction × Simulator). IsQuiet r.0) l.data_fetch_miss qm
      (sim_mem-IsQuiet platform ex l.machine.simulator qe))
  where
    kept :
        (i : Instruction)
        → IsQuiet i
        → IsQuiet (if i.mem_exception then record i { status = squashed } else i)
    kept i q = if_cases IsQuiet i.mem_exception q q

ex_step-IsQuiet :
    (illegal stall : Bool) (ex id : Instruction) (l : Loop)
    → IsQuiet ex
    → IsQuiet id
    → IsQuiet (ex_step illegal stall ex id l).machine.pipeline.ex_inst
unfolding ex_step
ex_step-IsQuiet illegal stall ex id l qe qi =
    if_cases IsQuiet l.data_fetch_miss qe
      (if_cases IsQuiet illegal refl (if_cases IsQuiet stall refl (sim_ex-IsQuiet id qi)))

entering-IsQuiet : (i : Instruction) → IsQuiet i → IsQuiet (entering i)
entering-IsQuiet i q = if_cases IsQuiet _ q q

id_step-IsQuiet :
    (illegal stall : Bool) (fetched id : Instruction) (l : Loop)
    → IsQuiet fetched
    → IsQuiet id
    → IsQuiet (id_step illegal stall fetched id l).machine.pipeline.id_inst
unfolding id_step sim_next_pc_resolution
id_step-IsQuiet illegal stall fetched id l qf qi =
    let Q = λ (r : Instruction × Simulator). IsQuiet r.0 in
    if_cases Q l.data_fetch_miss qi (
      if_cases Q illegal refl (
        if_cases Q stall (if_cases IsQuiet (is_branch_or_jump id) qi qi) (
          if_cases Q l.inst_fetch_miss refl (
            if_cases Q _ refl
              (sim_id-IsQuiet _ l.machine.simulator (entering-IsQuiet fetched qf))))))

-- The flag that the MEM stage hands to the rest of the round.
pub mem_step-flag :
    (platform : Platform) (mem ex : Instruction) (l : Loop)
    → IsQuiet mem
    → IsQuiet ex
    → (mem_step platform mem ex l).1 ≡ false
unfolding mem_step
mem_step-flag platform mem ex l qm qe =
    if_cases (λ (r : Instruction × Simulator). IsQuiet r.0) l.data_fetch_miss qm
      (sim_mem-IsQuiet platform ex l.machine.simulator qe)

if_step-NoException :
    (platform : Platform) (illegal mem_exc stall : Bool) (fetched : Instruction) (l : Loop)
    → IsQuiet fetched
    → IsQuiet l.machine.pipeline.id_inst
    → IsQuiet l.machine.pipeline.ex_inst
    → IsQuiet l.machine.pipeline.mem_inst
    → NoException (if_step platform illegal mem_exc stall fetched l).machine.pipeline
unfolding if_step stalled_if
if_step-NoException platform illegal mem_exc stall fetched l f i e m = if_cases N illegal fetches (
    if_cases N mem_exc squashes (
      if_cases N stall (if_cases N (branch_in_id l) (if_cases N (taken l) holds holds) holds) (
        if_cases N (branch_in_id l) (if_cases N (taken l) speculates speculates) (
          if_cases N l.inst_fetch_miss holds (
            if_cases N l.data_fetch_miss holds (record {
              if_quiet =
                  if_cases IsQuiet (is_branch_or_jump l.machine.pipeline.id_inst) (new l.machine.pc)
                    (new l.machine.pc);
              id_quiet = i;
              ex_quiet = e;
              mem_quiet = m;
            }))))))
  where
    N : Loop → Type 0
    N t = NoException t.machine.pipeline

    new : (pc : ℕ) → IsQuiet (sim_if platform pc l.machine.simulator)
    new pc = sim_if-IsQuiet platform pc l.machine.simulator

    fetches :
        NoException
          (record l.machine.pipeline { if_inst = sim_if platform exc_handler l.machine.simulator })
    fetches = record { if_quiet = new exc_handler; id_quiet = i; ex_quiet = e; mem_quiet = m }

    squashes : NoException (record l.machine.pipeline {
      if_inst = sim_if platform exc_handler l.machine.simulator;
      id_inst = record l.machine.pipeline.id_inst { status = squashed };
      ex_inst = record l.machine.pipeline.ex_inst { status = squashed };
    })
    squashes = record { if_quiet = new exc_handler; id_quiet = i; ex_quiet = e; mem_quiet = m }

    holds : NoException (record l.machine.pipeline { if_inst = fetched })
    holds = record { if_quiet = f; id_quiet = i; ex_quiet = e; mem_quiet = m }

    speculates : NoException (record l.machine.pipeline {
      if_inst = speculate (sim_if platform l.machine.pc l.machine.simulator);
    })
    speculates = record { if_quiet = new l.machine.pc; id_quiet = i; ex_quiet = e; mem_quiet = m }

stages-NoException :
    (platform : Platform) (prev : PipelineInfo) (l : Loop) (stall : Bool)
    → NoException prev
    → NoException (stages platform prev l stall).machine.pipeline
unfolding stages ex_step id_step
stages-NoException platform prev l stall q =
    let illegal = raises_illegal prev.id_inst in
    let written = wb_step prev.mem_inst l in
    let ex = forward_store l.data_fetch_miss prev.mem_inst prev.ex_inst in
    let id = forward prev.mem_inst ex prev.id_inst in
    let ex_quiet = forward_store-IsQuiet l.data_fetch_miss prev.mem_inst prev.ex_inst q.ex_quiet in
    let id_quiet = forward-IsQuiet prev.mem_inst ex prev.id_inst q.id_quiet in
    let reached = (mem_step platform prev.mem_inst ex written).0 in
    if_step-NoException platform illegal _ stall prev.if_inst _ q.if_quiet
      (id_step-IsQuiet illegal stall prev.if_inst id (ex_step illegal stall ex id reached)
        q.if_quiet id_quiet)
      (ex_step-IsQuiet illegal stall ex id reached ex_quiet id_quiet)
      (mem_step-IsQuiet platform prev.mem_inst ex written q.mem_quiet ex_quiet)

cycle-NoException :
    (platform : Platform) (l : Loop)
    → NoException l.machine.pipeline
    → NoException (cycle platform l).machine.pipeline
unfolding cycle end_misses
cycle-NoException platform l q =
    stages-NoException platform l.machine.pipeline (front platform l).0 (front platform l).1 q

run_loop-zero-NoException :
    (platform : Platform) (l : Loop)
    → NoException l.machine.pipeline
    → NoException (run_loop platform 0 l).0.machine.pipeline
unfolding run_loop
run_loop-zero-NoException platform l q = q

run_loop-suc-NoException :
    (platform : Platform) (n : ℕ) (l : Loop)
    → NoException (cycle platform l).machine.pipeline
    → NoException (run_loop platform n (cycle platform l)).0.machine.pipeline
    → NoException (run_loop platform (suc n) l).0.machine.pipeline
unfolding run_loop
run_loop-suc-NoException platform n l now later =
    go (cycle platform l).machine.pipeline.wb_inst.is_halt
  where
    go :
        (halted : Bool)
        → NoException
            (elim halted as (λ (_ : Bool). Loop × Status) [
              | true ↦ (cycle platform l, halt)
              | false ↦ run_loop platform n (cycle platform l)
            ]).0.machine.pipeline
    go true = now
    go false = later

run_loop-NoException :
    (platform : Platform) (n : ℕ) (l : Loop)
    → NoException l.machine.pipeline
    → NoException (run_loop platform n l).0.machine.pipeline
run_loop-NoException platform zero l q = run_loop-zero-NoException platform l q
run_loop-NoException platform (suc n) l q =
    let now = cycle-NoException platform l q in
    run_loop-suc-NoException platform n l now
      (run_loop-NoException platform n (cycle platform l) now)

-- From latches IF, ID, EX and MEM with no memory exception, as `initSimulator` makes them, no number
-- of cycles sets `memException` in one of these latches, whatever addresses the program loads from or stores to.
pub run_cycles-NoException :
    (platform : Platform) (n : ℕ) (m : Machine)
    → NoException m.pipeline
    → NoException (run_cycles platform n m).0.pipeline
unfolding run_cycles enter leave
run_cycles-NoException platform n m q = run_loop-NoException platform n (enter m) q
