-- ===== src/Stages/Sequential.antt =====
-- One instruction alone in the pipeline: the five stages against `simInstruction`.
use ece375_project.Base.{
  ℕ, ◌+◌, ◌≡◌, refl, sym, ap, ◌∙◌, true, false, ◌||◌, Bool-cases, inl, inr, arith,
}
use ece375_project.Platform.{Platform}
use ece375_project.Word.{u64}
use ece375_project.Memory.{MemoryStore}
use ece375_project.Instruction.{Instruction, normal}
use ece375_project.Decode.{sim_decode}
use ece375_project.Decode.Legal.{IsUndecoded, IsDecoded, sim_decode-IsDecoded}
use ece375_project.Execute.{sim_operand_collection, sim_next_pc_resolution}
use ece375_project.Simulator.{
  Simulator, sim_fetch, sim_instruction, execute, accessed, computed, committed, collected,
}
use ece375_project.Stages.{sim_if, sim_id, sim_ex, sim_mem, sim_wb, issue}
use ece375_project.Stages.Frame.{
  IsActive, Keeps-IsActive, collected-Keeps, computed-Keeps, addressed, addressed-Keeps,
  sim_addr_gen-Keeps, at_normal, passes_nop, sim_ex-passes, sim_mem-passes, sim_wb-passes, reached,
  reached-Keeps, sim_ex_active, sim_mem_active, sim_wb_active,
}

pub sim_fetch-IsUndecoded :
    (platform : Platform) (pc : ℕ) (memory : MemoryStore)
    → IsUndecoded (sim_fetch platform pc memory)
unfolding sim_fetch
sim_fetch-IsUndecoded platform pc memory = ground arith

-- EX, MEM and WB one after the other.
abbrev pub back_end : Platform → Instruction × Simulator → Instruction × Simulator
back_end platform (inst, sim) =
    let (reaches, after_mem) = sim_mem platform (sim_ex inst) sim in sim_wb reaches after_mem

-- The instruction at `pc` through all five stages, with nothing else in the pipeline.
pub run_stages : Platform → ℕ → Simulator → Instruction × Simulator
run_stages platform pc sim = back_end platform (sim_id (sim_if platform pc sim) sim)

-- The same steps with no stage between them.
abbrev straight : Platform → Instruction → Simulator → Instruction × Simulator
straight platform inst sim =
    let (done, memory) = accessed platform (computed inst) sim.memory in
    (done, record sim { registers = committed done sim.registers; memory = memory })

reached-accessed :
    (platform : Platform) (i : Instruction) (m : MemoryStore)
    → reached platform (addressed i) m ≡ accessed platform i m
reached-accessed platform i m = elim (Bool-cases (i.reads_mem || i.writes_mem)) [
  | inl on ↦ let k = sim_addr_gen-Keeps i in rw (on, k.reads_mem, k.writes_mem, on) refl
  | inr off ↦ rw (off, off) refl
]

back_end_active :
    (platform : Platform) (i : Instruction) (sim : Simulator)
    → IsActive i
    → back_end platform (i, sim) ≡ straight platform i sim
back_end_active platform i sim a =
    let c = addressed (computed i) in
    let ca : IsActive c =
      Keeps-IsActive (addressed-Keeps (computed i)) (Keeps-IsActive (computed-Keeps i) a) in
    let r = reached platform c sim.memory in
    let ra : IsActive r.0 = Keeps-IsActive (reached-Keeps platform c sim.memory) ca in
    rw (sim_ex_active i a, sim_mem_active platform c sim ca)
      (sim_wb_active r.0 (record sim { memory = r.1 }) ra
        ∙ ap {B = Instruction × Simulator}
            (λ (d : Instruction × MemoryStore).
              (d.0, record sim { registers = committed d.0 sim.registers; memory = d.1 }))
            (reached-accessed platform (computed i) sim.memory))

-- A NOP passes EX, MEM and WB unchanged, and the straight steps do nothing with it.
back_end_nop :
    (platform : Platform) (i : Instruction) (sim : Simulator)
    → i.is_nop ≡ true
    → back_end platform (i, sim) ≡ (i, sim)
back_end_nop platform i sim n =
    let p = passes_nop i n in
    rw (sim_ex-passes i p, sim_mem-passes platform i sim p) (sim_wb-passes i sim p)

straight_nop :
    (platform : Platform) (i : Instruction) (sim : Simulator)
    → i.does_arith_logic ≡ false
    → i.reads_mem ≡ false
    → i.writes_mem ≡ false
    → i.writes_rd ≡ false
    → straight platform i sim ≡ (i, sim)
straight_nop platform i sim a r w d = simp (a, r, w, d)

issued : Instruction → Simulator → Instruction
issued inst sim = collected (record inst { instruction_id = sim.din }) sim

counted : Simulator → Simulator
counted sim = record sim { din = u64 (sim.din + 1) }

issue-eq :
    (inst : Instruction) (sim : Simulator)
    → inst.status ≡ normal
    → issue inst sim ≡ (issued inst sim, counted sim)
unfolding issue issued counted sim_operand_collection sim_next_pc_resolution
issue-eq inst sim h =
    ap {B = Instruction × Simulator} (λ j. (j, counted sim)) (at_normal (issued inst sim) h)

execute-eq :
    (platform : Platform) (inst : Instruction) (sim : Simulator)
    → execute platform (record inst { instruction_id = sim.din }) (counted sim)
      ≡ straight platform (issued inst sim) (counted sim)
unfolding execute issued counted
execute-eq platform inst sim = refl

back_end-eq-straight :
    (platform : Platform) (i : Instruction) (sim : Simulator)
    → IsDecoded i
    → i.is_halt ≡ false
    → i.is_legal ≡ true
    → back_end platform (i, sim) ≡ straight platform i sim
back_end-eq-straight platform i sim d h l = elim (Bool-cases i.is_nop) [
  | inl n ↦
      let f = d.idle (inl n) in
      back_end_nop platform i sim n ∙ sym (straight_nop platform i sim f.0 f.1 f.2 f.3)
  | inr n ↦
      back_end_active platform i sim (record { nop = n; halt = h; legal = l; status = d.status })
]

collected-IsDecoded :
    (i : Instruction) (sim : Simulator) → IsDecoded i → IsDecoded (collected i sim)
unfolding sim_operand_collection sim_next_pc_resolution
collected-IsDecoded i sim d = ground arith

numbered-IsDecoded :
    (i : Instruction) (n : ℕ) → IsDecoded i → IsDecoded (record i { instruction_id = n })
numbered-IsDecoded i n d = ground arith

issued-IsDecoded :
    (inst : Instruction) (sim : Simulator)
    → IsDecoded inst
    → inst.is_halt ≡ false
    → inst.is_legal ≡ true
    → IsDecoded (issued inst sim)
      × ((issued inst sim).is_halt ≡ false)
      × ((issued inst sim).is_legal ≡ true)
unfolding issued
issued-IsDecoded inst sim d h l =
    let numbered = record inst { instruction_id = sim.din } in
    let k = collected-Keeps numbered sim in
    (collected-IsDecoded numbered sim (numbered-IsDecoded inst sim.din d), k.halt ∙ h, k.legal ∙ l)

sim_id-eq :
    (platform : Platform) (pc : ℕ) (sim : Simulator)
    → let inst = sim_decode (sim_fetch platform pc sim.memory) in
      inst.is_halt ≡ false
      → inst.is_legal ≡ true
      → sim_id (sim_if platform pc sim) sim ≡ issue inst sim
unfolding sim_id sim_if sim_fetch
sim_id-eq platform pc sim h l = rw (h, l) refl

sim_instruction-eq :
    (platform : Platform) (pc : ℕ) (sim : Simulator)
    → let inst = sim_decode (sim_fetch platform pc sim.memory) in
      inst.is_halt ≡ false
      → inst.is_legal ≡ true
      → sim_instruction platform pc sim
        ≡ execute platform (record inst { instruction_id = sim.din }) (counted sim)
unfolding sim_instruction counted
sim_instruction-eq platform pc sim h l = rw (h, l) refl

-- For every word that decodes to a legal instruction other than the halt word, the five stages one
-- after the other leave the same instruction record and the same registers, memory and instruction
-- count as `simInstruction`.
pub run_stages-eq-sim_instruction :
    (platform : Platform) (pc : ℕ) (sim : Simulator)
    → (sim_decode (sim_fetch platform pc sim.memory)).is_halt ≡ false
    → (sim_decode (sim_fetch platform pc sim.memory)).is_legal ≡ true
    → run_stages platform pc sim ≡ sim_instruction platform pc sim
unfolding run_stages
run_stages-eq-sim_instruction platform pc sim h l =
    let inst = sim_decode (sim_fetch platform pc sim.memory) in
    let d : IsDecoded inst =
      sim_decode-IsDecoded _ (sim_fetch-IsUndecoded platform pc sim.memory) in
    let a = issued-IsDecoded inst sim d h l in
    ap (back_end platform) (sim_id-eq platform pc sim h l ∙ issue-eq inst sim d.status)
    ∙ back_end-eq-straight platform (issued inst sim) (counted sim) a.0 a.1 a.2
    ∙ sym (execute-eq platform inst sim)
    ∙ sym (sim_instruction-eq platform pc sim h l)
