-- ===== src/Cycle/Frozen.antt =====
-- A whole round of `runCycles` in src/cycle.cpp while the data cache waits for memory.
use ece375_project.Base.{◌+◌, ◌≡◌, refl, ap, Bool, true, not, ◌&&◌, ◌==◌, if_cases}
use ece375_project.Platform.{Platform}
use ece375_project.Word.{u64}
use ece375_project.Instruction.{Instruction, bubble}
use ece375_project.Cycle.State.{Loop, nop}
use ece375_project.Cycle.Hazards.{hazard, forward}
use ece375_project.Cycle.Upset.{stages-frozen}
use ece375_project.Cycle.{cycle, front, end_misses, hazard_step, inst_step, inst_access}
use ece375_project.Cycle.Waits.{IsWaiting, front-Ready, data_step-waiting}

-- The counters after the first half of a round of waiting: those of hazards as the hazard tests say.
abbrev Counted : Loop → Loop → Type 0
Counted l t =
    let m = l.machine in
    let h =
      hazard m.pipeline.ex_inst m.pipeline.id_inst m.remaining_stall_cycles m.load_stall_count in
    (t.machine.remaining_stall_cycles ≡ h.remaining)
    × (t.machine.load_stall_count ≡ h.load_stalls)
    × (t.machine.cycle_count ≡ m.cycle_count)

inst_step-Counted :
    (platform : Platform) (stall : Bool) (fetched : Instruction) (l t : Loop)
    → Counted l t
    → Counted l (inst_step platform stall fetched t)
unfolding inst_step inst_access
inst_step-Counted platform stall fetched l t r =
    if_cases (Counted l) (not stall && not t.inst_fetch_miss && not fetched.is_nop)
      (if_cases (Counted l) (fetched.pc == t.machine.prev_icpc) r r)
      (if_cases (Counted l) t.inst_fetch_miss r r)

front-Counted :
    (platform : Platform) (l : Loop) → l.data_fetch_miss ≡ true → Counted l (front platform l).0
unfolding front hazard_step
front-Counted platform l miss =
    rw
      (data_step-waiting platform l.machine.pipeline.mem_inst
        (record l { pipe_cycle = l.machine.cycle_count }) miss)
      (inst_step-Counted platform _ l.machine.pipeline.if_inst l _ (refl, refl, refl))

-- A whole round while the data cache waits for memory, with no illegal instruction in ID and no
-- memory exception in MEM: IF, EX and MEM keep their instructions, ID keeps its own with the
-- forwarded operands, WB gets a bubble, the simulator, `PC`, the data cache and the count of completed
-- instructions stay, the cycle is counted, and the two hazard counters go on as the hazard tests say.
pub cycle-frozen :
    (platform : Platform) (l : Loop)
    → IsWaiting l
    → let m = l.machine in
      let t = (cycle platform l).machine in
      let p = m.pipeline in
      let h = hazard p.ex_inst p.id_inst m.remaining_stall_cycles m.load_stall_count in
      (t.pipeline ≡ record {
        if_inst = p.if_inst;
        id_inst = forward p.mem_inst p.ex_inst p.id_inst;
        ex_inst = p.ex_inst;
        mem_inst = p.mem_inst;
        wb_inst = nop bubble;
      })
      × (t.simulator ≡ m.simulator)
      × (t.pc ≡ m.pc)
      × (t.dcache ≡ m.dcache)
      × (t.completed_count ≡ m.completed_count)
      × (t.cycle_count ≡ u64 (m.cycle_count + 1))
      × (t.remaining_stall_cycles ≡ h.remaining)
      × (t.load_stall_count ≡ h.load_stalls)
unfolding cycle end_misses
cycle-frozen platform l w =
    let (sim, pc, completed, dcache, _, miss, _) = front-Ready platform l w.miss in
    let (remaining, load_stalls, count) = front-Counted platform l w.miss in
    rw
      (stages-frozen platform l.machine.pipeline (front platform l).0 (front platform l).1 miss
        w.legal w.quiet)
      (refl, sim, pc, dcache, completed, ap (λ n. u64 (n + 1)) count, remaining, load_stalls)
