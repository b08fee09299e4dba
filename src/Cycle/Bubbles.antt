-- ===== src/Cycle/Bubbles.antt =====
-- A round of `runCycles` in src/cycle.cpp that stalls for a hazard.
use ece375_project.Base.{ℕ, ◌≡◌, refl, ap, ◌∙◌, Bool, true, false, ◌&&◌, not, if◌then◌else◌}
use ece375_project.Platform.{Platform}
use ece375_project.Instruction.{Instruction, bubble}
use ece375_project.Simulator.{Simulator}
use ece375_project.Stages.{sim_mem, sim_wb}
use ece375_project.Stages.Quiet.{IsQuiet}
use ece375_project.Cycle.State.{Loop, PipelineInfo, nop}
use ece375_project.Cycle.Hazards.{
  raises_illegal, is_branch_or_jump, forward, forward_store, with_operand,
}
use ece375_project.Cycle.Exceptions.{mem_step-flag, forward_store-IsQuiet}
use ece375_project.Cycle.Waits.{forward-keeps}
use ece375_project.Cycle.{
  stages, wb_step, mem_step, ex_step, id_step, if_step, stalled_if, branch_in_id, hold_if,
}

with_operand-is_branch_or_jump :
    (rd value : ℕ) (i : Instruction)
    → is_branch_or_jump (with_operand rd value i) ≡ is_branch_or_jump i
unfolding is_branch_or_jump
with_operand-is_branch_or_jump rd value i = refl

-- The latch of IF and `PC`, when the fetch stalls and ID has no branch.
if_step_stalled :
    (platform : Platform) (fetched : Instruction) (l : Loop)
    → is_branch_or_jump l.machine.pipeline.id_inst ≡ false
    → if_step platform false false true fetched l ≡ hold_if fetched l
unfolding if_step stalled_if branch_in_id
if_step_stalled platform fetched l straight =
    rw straight (no_branch _ _ (not l.data_fetch_miss) (not l.inst_fetch_miss))
  where
    no_branch : (x y : Loop) (a b : Bool) → (if a && b && false then x else y) ≡ y
    no_branch x y true true = refl
    no_branch x y true false = refl
    no_branch x y false b = refl

id_step_stalled :
    (fetched id : Instruction) (l : Loop)
    → l.data_fetch_miss ≡ false
    → is_branch_or_jump id ≡ false
    → (id_step false true fetched id l).machine.pipeline.id_inst ≡ id
unfolding id_step
id_step_stalled fetched id l miss straight = rw (miss, straight) refl

plain : {A : Type 0} (b : Bool) (x y : A) → b ≡ false → (if b then x else y) ≡ y
plain true x y e = absurd (cc)
plain false x y e = refl

mem_step_lem :
    (platform : Platform) (mem ex : Instruction) (l : Loop)
    → l.data_fetch_miss ≡ false
    → (mem_step platform mem ex l).1 ≡ false
    → let m = (mem_step platform mem ex l).0.machine in
      let r = sim_mem platform ex l.machine.simulator in
      (m.pipeline.mem_inst ≡ r.0) × (m.simulator ≡ r.1)
unfolding mem_step
mem_step_lem platform mem ex l miss flag =
    let r =
      plain l.data_fetch_miss (mem, l.machine.simulator) (sim_mem platform ex l.machine.simulator)
        miss in
    (
      plain _ _ _ flag ∙ ap (λ (p : Instruction × Simulator). p.0) r,
      ap (λ (p : Instruction × Simulator). p.1) r,
    )

wb_step_lem :
    (mem : Instruction) (l : Loop)
    → l.data_fetch_miss ≡ false
    → let m = (wb_step mem l).machine in
      let r = sim_wb mem l.machine.simulator in (m.pipeline.wb_inst ≡ r.0) × (m.simulator ≡ r.1)
unfolding wb_step
wb_step_lem mem l miss = rw miss (refl, refl)

-- What the stages of the round hand on: WB and MEM go ahead, and EX and ID do not.
abbrev reached : Platform → PipelineInfo → Loop → Loop
reached platform prev l =
    (mem_step platform prev.mem_inst (forward_store l.data_fetch_miss prev.mem_inst prev.ex_inst)
      (wb_step prev.mem_inst l)).0

abbrev decoded : Platform → PipelineInfo → Loop → Loop
decoded platform prev l =
    let ex = forward_store l.data_fetch_miss prev.mem_inst prev.ex_inst in
    let id = forward prev.mem_inst ex prev.id_inst in
    id_step false true prev.if_inst id (ex_step false true ex id (reached platform prev l))

module _ (platform : Platform) (prev : PipelineInfo) (l : Loop) (miss : l.data_fetch_miss ≡ false)
    (legal : raises_illegal prev.id_inst ≡ false)
    (straight : is_branch_or_jump prev.id_inst ≡ false) (quiet_mem : IsQuiet prev.mem_inst)
    (quiet_ex : IsQuiet prev.ex_inst) where
  abbrev ex : Instruction
  ex = forward_store l.data_fetch_miss prev.mem_inst prev.ex_inst

  abbrev id : Instruction
  id = forward prev.mem_inst ex prev.id_inst

  flag : (mem_step platform prev.mem_inst ex (wb_step prev.mem_inst l)).1 ≡ false
  flag =
      mem_step-flag platform prev.mem_inst ex (wb_step prev.mem_inst l) quiet_mem
        (forward_store-IsQuiet l.data_fetch_miss prev.mem_inst prev.ex_inst quiet_ex)

  still_straight : is_branch_or_jump id ≡ false
  still_straight =
      forward-keeps is_branch_or_jump with_operand-is_branch_or_jump prev.mem_inst ex prev.id_inst
      ∙ straight

  id_held : (decoded platform prev l).machine.pipeline.id_inst ≡ id
  unfolding ex_step mem_step wb_step
  id_held = id_step_stalled prev.if_inst id _ miss still_straight

  stages-eq-hold_if : stages platform prev l true ≡ hold_if prev.if_inst (decoded platform prev l)
  unfolding stages
  stages-eq-hold_if =
      (λ i. if_step platform (legal i) (flag i) true prev.if_inst (
        id_step (legal i) true prev.if_inst id
          (ex_step (legal i) true ex id (reached platform prev l))))
      ∙ if_step_stalled platform prev.if_inst (decoded platform prev l)
          (ap is_branch_or_jump id_held ∙ still_straight)

  passed :
      let d = (decoded platform prev l).machine in
      let r = (reached platform prev l).machine in
      let w = (wb_step prev.mem_inst l).machine in
      (d.pc ≡ l.machine.pc)
      × (d.pipeline.ex_inst ≡ nop bubble)
      × (d.pipeline.mem_inst ≡ r.pipeline.mem_inst)
      × (d.pipeline.wb_inst ≡ w.pipeline.wb_inst)
      × (d.simulator ≡ r.simulator)
      × (d.load_stall_count ≡ l.machine.load_stall_count)
      × (d.remaining_stall_cycles ≡ l.machine.remaining_stall_cycles)
  unfolding id_step ex_step mem_step wb_step
  passed = rw miss (refl, refl, refl, refl, refl, refl, refl)

  reached_mem :
      let m = (reached platform prev l).machine in
      let r = sim_mem platform ex (wb_step prev.mem_inst l).machine.simulator in
      (m.pipeline.mem_inst ≡ r.0) × (m.simulator ≡ r.1)
  unfolding wb_step
  reached_mem = mem_step_lem platform prev.mem_inst ex (wb_step prev.mem_inst l) miss flag

  -- The stages of a round that stalls, with no data miss, no illegal instruction and no branch in ID,
  -- and no memory exception in EX and MEM.
  pub stages-bubble :
      let t = (stages platform prev l true).machine in
      let wb = sim_wb prev.mem_inst l.machine.simulator in
      let mem = sim_mem platform ex wb.1 in
      (t.pc ≡ l.machine.pc)
      × (t.pipeline.if_inst ≡ prev.if_inst)
      × (t.pipeline.id_inst ≡ id)
      × (t.pipeline.ex_inst ≡ nop bubble)
      × (t.pipeline.mem_inst ≡ mem.0)
      × (t.pipeline.wb_inst ≡ wb.0)
      × (t.simulator ≡ mem.1)
      × (t.load_stall_count ≡ l.machine.load_stall_count)
      × (t.remaining_stall_cycles ≡ l.machine.remaining_stall_cycles)
  stages-bubble =
      let e = stages-eq-hold_if in
      let (wb_inst, wb_sim) = wb_step_lem prev.mem_inst l miss in
      let (pc, ex_inst, mem_inst, same_wb, sim, load_stalls, remaining) = passed in
      (
        ap (λ (t : Loop). t.machine.pc) e ∙ pc,
        ap (λ (t : Loop). t.machine.pipeline.if_inst) e,
        ap (λ (t : Loop). t.machine.pipeline.id_inst) e ∙ id_held,
        ap (λ (t : Loop). t.machine.pipeline.ex_inst) e ∙ ex_inst,
        ap (λ (t : Loop). t.machine.pipeline.mem_inst) e
            ∙ mem_inst
            ∙ reached_mem.0
            ∙ ap (λ (s : Simulator). (sim_mem platform ex s).0) wb_sim,
        ap (λ (t : Loop). t.machine.pipeline.wb_inst) e ∙ same_wb ∙ wb_inst,
        ap (λ (t : Loop). t.machine.simulator) e
            ∙ sim
            ∙ reached_mem.1
            ∙ ap (λ (s : Simulator). (sim_mem platform ex s).1) wb_sim,
        ap (λ (t : Loop). t.machine.load_stall_count) e ∙ load_stalls,
        ap (λ (t : Loop). t.machine.remaining_stall_cycles) e ∙ remaining,
      )
