-- ===== src/Cycle/Upset.antt =====
-- The stages of a round of `runCycles` in src/cycle.cpp in which the data cache waits for memory, or an
-- illegal instruction is in ID.
use ece375_project.Base.{
  ◌≡◌, refl, Bool, true, false, ◌&&◌, not, ◌==◌, Bool-cases, inl, inr, if◌then◌else◌,
}
use ece375_project.Platform.{Platform}
use ece375_project.Instruction.{Instruction, bubble, squashed}
use ece375_project.Stages.{sim_if, sim_wb}
use ece375_project.Stages.Quiet.{IsQuiet}
use ece375_project.Cycle.State.{Loop, PipelineInfo, nop, exc_handler}
use ece375_project.Cycle.Hazards.{
  is_store, raises_illegal, forward_store, forward, writes_reg, produced,
}
use ece375_project.Cycle.{
  stages, wb_step, mem_step, ex_step, id_step, if_step, stalled_if, branch_in_id,
}

forward_store-miss : (mem ex : Instruction) → forward_store true mem ex ≡ ex
unfolding forward_store
forward_store-miss mem ex = off (is_store ex) (writes_reg mem)
  where
    off :
        (a b : Bool)
        → (if a && b && not true
            then (if ex.rs2 == mem.rd && not (mem.rd == 0)
                then record ex { op2_val = produced mem }
                else ex)
            else ex)
          ≡ ex
    off true true = refl
    off true false = refl
    off false b = refl

-- The round with a data miss: only a bubble for WB, and the operands that are forwarded in ID.
abbrev pub frozen : PipelineInfo → Loop → Loop
frozen prev l = record l {
  machine = record l.machine {
    pipeline = record {
      if_inst = prev.if_inst;
      id_inst = forward prev.mem_inst prev.ex_inst prev.id_inst;
      ex_inst = prev.ex_inst;
      mem_inst = prev.mem_inst;
      wb_inst = nop bubble;
    };
  };
}

-- While the data cache waits for memory, and with no illegal instruction in ID and no memory
-- exception in MEM, the stages of a round put a bubble into WB, keep the instructions in IF, EX and
-- MEM, forward to the one in ID, and change nothing else.
pub stages-frozen :
    (platform : Platform) (prev : PipelineInfo) (l : Loop) (stall : Bool)
    → l.data_fetch_miss ≡ true
    → raises_illegal prev.id_inst ≡ false
    → IsQuiet prev.mem_inst
    → stages platform prev l stall ≡ frozen prev l
unfolding stages wb_step mem_step ex_step id_step if_step stalled_if branch_in_id
stages-frozen platform prev l stall miss legal quiet =
    let store = forward_store-miss prev.mem_inst prev.ex_inst in
    elim (Bool-cases stall) [
      | inl s ↦ rw (miss, legal, store, quiet, s) refl
      | inr s ↦ elim (Bool-cases l.inst_fetch_miss) [
        | inl m ↦ rw (miss, legal, store, quiet, s, m) refl
        | inr m ↦ rw (miss, legal, store, quiet, s, m) refl
      ]
    ]

-- An illegal instruction in ID, with no data miss: the round fetches from the exception handler,
-- leaves `PC` there, squashes ID and EX, and still passes the instruction in MEM through WB.
pub stages-illegal :
    (platform : Platform) (prev : PipelineInfo) (l : Loop) (stall : Bool)
    → l.data_fetch_miss ≡ false
    → raises_illegal prev.id_inst ≡ true
    → let t = (stages platform prev l stall).machine in
      (t.pc ≡ exc_handler)
      × (t.pipeline.if_inst ≡ sim_if platform exc_handler t.simulator)
      × (t.pipeline.id_inst ≡ nop squashed)
      × (t.pipeline.ex_inst ≡ nop squashed)
      × (t.pipeline.wb_inst ≡ (sim_wb prev.mem_inst l.machine.simulator).0)
unfolding stages wb_step mem_step ex_step id_step if_step
stages-illegal platform prev l stall miss illegal =
    rw (miss, illegal) (refl, refl, refl, refl, refl)
