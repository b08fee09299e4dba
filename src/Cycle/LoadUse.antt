-- ===== src/Cycle/LoadUse.antt =====
-- A round of `runCycles` in src/cycle.cpp in which the instruction in ID waits for a load in EX.
use ece375_project.Base.{
  ℕ, ◌+◌, ◌≡◌, refl, ap, ◌∙◌, Bool, true, false, not, ◌&&◌, ◌||◌, ◌==◌, if_cases, arith,
}
use ece375_project.Platform.{Platform}
use ece375_project.Word.{u64}
use ece375_project.Instruction.{Instruction, bubble}
use ece375_project.Stages.{sim_mem, sim_wb}
use ece375_project.Stages.Quiet.{IsQuiet}
use ece375_project.Cycle.State.{Loop, Machine, nop}
use ece375_project.Cycle.Hazards.{
  is_load, is_store, hazard, load_hazard, branch_hazard, raises_illegal, is_branch_or_jump,
  writes_reg, forward, forward_store,
}
use ece375_project.Cycle.Stalls.{must_wait}
use ece375_project.Cycle.Bubbles.{stages-bubble}
use ece375_project.Cycle.{
  cycle, front, stages, end_misses, data_step, data_access, hazard_step, inst_step, inst_access,
}

-- What the access to the data cache leaves alone.
abbrev Kept : Loop → Loop → Type 0
Kept l t =
    (t.machine.simulator ≡ l.machine.simulator)
    × (t.machine.pc ≡ l.machine.pc)
    × (t.machine.pipeline ≡ l.machine.pipeline)
    × (t.machine.remaining_stall_cycles ≡ l.machine.remaining_stall_cycles)
    × (t.machine.load_stall_count ≡ l.machine.load_stall_count)

data_step-Kept :
    (platform : Platform) (mem : Instruction) (l t : Loop)
    → Kept l t
    → Kept l (data_step platform mem t)
unfolding data_step data_access
data_step-Kept platform mem l t k =
    if_cases (Kept l) (not t.data_fetch_miss && (is_load mem || is_store mem))
      (if_cases (Kept l) _ k k) (if_cases (Kept l) t.data_fetch_miss k k)

-- The first half of a round: the hazard counters go on as the hazard tests say.
abbrev pub Fronted : Loop → Loop → Type 0
Fronted l t =
    let m = l.machine in
    let h =
      hazard m.pipeline.ex_inst m.pipeline.id_inst m.remaining_stall_cycles m.load_stall_count in
    (t.machine.simulator ≡ m.simulator)
    × (t.machine.pc ≡ m.pc)
    × (t.machine.pipeline ≡ m.pipeline)
    × (t.machine.remaining_stall_cycles ≡ h.remaining)
    × (t.machine.load_stall_count ≡ h.load_stalls)

inst_step-Fronted :
    (platform : Platform) (stall : Bool) (fetched : Instruction) (l t : Loop)
    → Fronted l t
    → Fronted l (inst_step platform stall fetched t)
unfolding inst_step inst_access
inst_step-Fronted platform stall fetched l t r =
    if_cases (Fronted l) (not stall && not t.inst_fetch_miss && not fetched.is_nop)
      (if_cases (Fronted l) (fetched.pc == t.machine.prev_icpc) r r)
      (if_cases (Fronted l) t.inst_fetch_miss r r)

pub front-Fronted :
    (platform : Platform) (l : Loop)
    → let m = l.machine in
      let h =
        hazard m.pipeline.ex_inst m.pipeline.id_inst m.remaining_stall_cycles m.load_stall_count in
      Fronted l (front platform l).0 × ((front platform l).1 ≡ h.stall)
unfolding front hazard_step
front-Fronted platform l =
    let p = l.machine.pipeline in
    let started = record l { pipe_cycle = l.machine.cycle_count } in
    let (sim, pc, pipeline, remaining, load_stalls) =
      data_step-Kept platform p.mem_inst l started (refl, refl, refl, refl, refl) in
    (
      inst_step-Fronted platform _ p.if_inst l _ (
        sim,
        pc,
        pipeline,
        (λ i. (hazard p.ex_inst p.id_inst (remaining i) (load_stalls i)).remaining),
        (λ i. (hazard p.ex_inst p.id_inst (remaining i) (load_stalls i)).load_stalls),
      ),
      (λ i. (hazard p.ex_inst p.id_inst (remaining i) (load_stalls i)).stall),
    )

-- A wait for a load that is not a branch's is one stall, counted once.
one_stall :
    (ex id : Instruction) (load_stalls : ℕ)
    → must_wait ex id ≡ true
    → is_branch_or_jump id ≡ false
    → hazard ex id 0 load_stalls
      ≡ record { stall = true; remaining = 0; load_stalls = u64 (load_stalls + 1) }
unfolding hazard load_hazard branch_hazard
one_stall ex id load_stalls waits straight = ground arith

no_stall :
    (id : Instruction) (load_stalls : ℕ) → (hazard (nop bubble) id 0 load_stalls).stall ≡ false
unfolding hazard load_hazard branch_hazard is_load writes_reg
no_stall id load_stalls = ground arith

-- The instruction in ID, which is no branch, waits for a load in EX: with no stall cycle left over, no
-- data miss in the round, no illegal instruction in ID and no memory exception in EX and MEM, a whole
-- round keeps IF, `PC` and the instruction in ID, which gets the forwarded operands, puts a bubble
-- into EX, passes the load on to MEM and the instruction in MEM to WB, and counts one load stall; and
-- the hazard tests of the next round ask for no stall.
pub cycle-bubble :
    (platform : Platform) (l : Loop)
    → l.machine.remaining_stall_cycles ≡ 0
    → must_wait l.machine.pipeline.ex_inst l.machine.pipeline.id_inst ≡ true
    → is_branch_or_jump l.machine.pipeline.id_inst ≡ false
    → raises_illegal l.machine.pipeline.id_inst ≡ false
    → IsQuiet l.machine.pipeline.mem_inst
    → IsQuiet l.machine.pipeline.ex_inst
    → (front platform l).0.data_fetch_miss ≡ false
    → let m = l.machine in
      let p = m.pipeline in
      let t = (cycle platform l).machine in
      let ex = forward_store false p.mem_inst p.ex_inst in
      let wb = sim_wb p.mem_inst m.simulator in
      let mem = sim_mem platform ex wb.1 in
      (t.pc ≡ m.pc)
      × (t.pipeline.if_inst ≡ p.if_inst)
      × (t.pipeline.id_inst ≡ forward p.mem_inst ex p.id_inst)
      × (t.pipeline.ex_inst ≡ nop bubble)
      × (t.pipeline.mem_inst ≡ mem.0)
      × (t.pipeline.wb_inst ≡ wb.0)
      × (t.simulator ≡ mem.1)
      × (t.load_stall_count ≡ u64 (m.load_stall_count + 1))
      × (t.remaining_stall_cycles ≡ 0)
      × ((hazard t.pipeline.ex_inst t.pipeline.id_inst t.remaining_stall_cycles
            t.load_stall_count).stall
          ≡ false)
unfolding cycle end_misses
cycle-bubble platform l none_left waits straight legal quiet_mem quiet_ex miss =
    let m = l.machine in
    let p = m.pipeline in
    let ((sim, pc, _, remaining, load_stalls), stall) = front-Fronted platform l in
    let once : hazard p.ex_inst p.id_inst m.remaining_stall_cycles m.load_stall_count
        ≡ record { stall = true; remaining = 0; load_stalls = u64 (m.load_stall_count + 1) } =
      (λ i. hazard p.ex_inst p.id_inst (none_left i) m.load_stall_count)
      ∙ one_stall p.ex_inst p.id_inst m.load_stall_count waits straight in
    let stalls : (front platform l).1 ≡ true = stall ∙ ap (λ h. h.stall) once in
    let s = stages-bubble platform p (front platform l).0 miss legal straight quiet_mem quiet_ex in
    let r = (front platform l).0 in
    let st : Bool → Machine = λ b. (stages platform p r b).machine in
    let counted : (st (front platform l).1).load_stall_count ≡ u64 (m.load_stall_count + 1) =
      ap (λ b. (st b).load_stall_count) stalls ∙ s.7 ∙ load_stalls ∙ ap (λ h. h.load_stalls) once in
    let left : (st (front platform l).1).remaining_stall_cycles ≡ 0 =
      ap (λ b. (st b).remaining_stall_cycles) stalls
      ∙ s.8
      ∙ remaining
      ∙ ap (λ h. h.remaining) once in
    let emptied : (st (front platform l).1).pipeline.ex_inst ≡ nop bubble =
      ap (λ b. (st b).pipeline.ex_inst) stalls ∙ s.3 in
    (
      ap (λ b. (st b).pc) stalls ∙ s.0 ∙ pc,
      ap (λ b. (st b).pipeline.if_inst) stalls ∙ s.1,
      ap (λ b. (st b).pipeline.id_inst) stalls
          ∙ s.2
          ∙ (λ i. forward p.mem_inst (forward_store (miss i) p.mem_inst p.ex_inst) p.id_inst),
      emptied,
      ap (λ b. (st b).pipeline.mem_inst) stalls ∙ s.4 ∙ (λ i.
          (sim_mem platform (forward_store (miss i) p.mem_inst p.ex_inst)
            (sim_wb p.mem_inst (sim i)).1).0),
      ap (λ b. (st b).pipeline.wb_inst) stalls ∙ s.5 ∙ (λ i. (sim_wb p.mem_inst (sim i)).0),
      ap (λ b. (st b).simulator) stalls ∙ s.6 ∙ (λ i.
          (sim_mem platform (forward_store (miss i) p.mem_inst p.ex_inst)
            (sim_wb p.mem_inst (sim i)).1).1),
      counted,
      left,
      (λ i.
            (hazard (emptied i) (st (front platform l).1).pipeline.id_inst (left i)
              (counted i)).stall)
          ∙ no_stall (st (front platform l).1).pipeline.id_inst (u64 (m.load_stall_count + 1)),
    )
