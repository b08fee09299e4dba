-- ===== src/Stages/Frame.antt =====
-- What the steps of an instruction leave of its control fields, and the stages EX, MEM and WB on an
-- instruction that they neither pass nor stop at.
use ece375_project.Base.{
  ℕ, ◌≡◌, refl, sym, ap, ◌∙◌, List, Bool, true, false, ◌||◌, Bool-cases, inl, inr, if_cases,
  if◌then◌else◌, arith,
}
use ece375_project.Platform.{Platform}
use ece375_project.Memory.{MemoryStore}
use ece375_project.Instruction.{Instruction, StageStatus, normal}
use ece375_project.Execute.{
  sim_operand_collection, sim_next_pc_resolution, sim_arith_logic, sim_addr_gen, mask_shift,
  arith_switch,
}
use ece375_project.Simulator.{Simulator, sim_mem_access, sim_commit, computed, committed, collected}
use ece375_project.Stages.{passes, stops, sim_ex, sim_mem, sim_wb}

-- `j` has the control fields of `i`.
pub record Keeps (i j : Instruction) : Type 0 where
  pub nop : j.is_nop ≡ i.is_nop
  pub halt : j.is_halt ≡ i.is_halt
  pub legal : j.is_legal ≡ i.is_legal
  pub reads_mem : j.reads_mem ≡ i.reads_mem
  pub writes_mem : j.writes_mem ≡ i.writes_mem
  pub does_arith_logic : j.does_arith_logic ≡ i.does_arith_logic
  pub writes_rd : j.writes_rd ≡ i.writes_rd
  pub rd : j.rd ≡ i.rd
  pub instruction_id : j.instruction_id ≡ i.instruction_id
  pub status : j.status ≡ i.status

pub collected-Keeps : (i : Instruction) (sim : Simulator) → Keeps i (collected i sim)
unfolding sim_operand_collection sim_next_pc_resolution
collected-Keeps i sim = ground arith

Keeps-refl : (i : Instruction) → Keeps i i
Keeps-refl i = ground arith

mask_shift-Keeps : (i : Instruction) → Keeps i (mask_shift i)
unfolding mask_shift
mask_shift-Keeps i = ground arith

with_result : {i j : Instruction} (x : ℕ) → Keeps i j → Keeps i (record j { arith_result = x })
with_result x k = ground arith

pub sim_arith_logic-Keeps : (i : Instruction) → Keeps i (sim_arith_logic i)
unfolding sim_arith_logic
sim_arith_logic-Keeps i = with_result (arith_switch (mask_shift i)) (mask_shift-Keeps i)

pub computed-Keeps : (i : Instruction) → Keeps i (computed i)
computed-Keeps i = if_cases (Keeps i) i.does_arith_logic (sim_arith_logic-Keeps i) (Keeps-refl i)

with_address : {i : Instruction} (x : ℕ) → Keeps i (record i { mem_address = x })
with_address x = ground arith

pub sim_addr_gen-Keeps : (i : Instruction) → Keeps i (sim_addr_gen i)
unfolding sim_addr_gen
sim_addr_gen-Keeps i =
    if_cases (Keeps i) i.reads_mem (with_address _)
      (if_cases (Keeps i) i.writes_mem (with_address _) (Keeps-refl i))

with_value :
    {i : Instruction} (e : Bool) (x : ℕ) → Keeps i (record i { mem_exception = e; mem_result = x })
with_value e x = ground arith

pub sim_mem_access-Keeps :
    (platform : Platform) (i : Instruction) (m : MemoryStore)
    → Keeps i (sim_mem_access platform i m).0
unfolding sim_mem_access
sim_mem_access-Keeps platform i m =
    if_cases (λ (r : Instruction × MemoryStore). Keeps i r.0) i.reads_mem (with_value _ _)
      (if_cases (λ (r : Instruction × MemoryStore). Keeps i r.0) i.writes_mem (Keeps-refl i)
        (Keeps-refl i))

pub at_normal : (i : Instruction) → i.status ≡ normal → record i { status = normal } ≡ i
at_normal i h = ap (λ (s : StageStatus). record i { status = s }) (sym h)

-- The control fields of an instruction that the stages work on.
pub record IsActive (i : Instruction) : Type 0 where
  pub nop : i.is_nop ≡ false
  pub halt : i.is_halt ≡ false
  pub legal : i.is_legal ≡ true
  pub status : i.status ≡ normal

pub Keeps-IsActive : {i j : Instruction} → Keeps i j → IsActive i → IsActive j
Keeps-IsActive k a = ground arith

active_passes : (i : Instruction) → IsActive i → passes i ≡ false
active_passes i a = rw (a.nop, a.status) refl

active_stops : (i : Instruction) → IsActive i → stops i ≡ false
active_stops i a = rw (a.halt, a.legal) refl

-- The address of a load or store, as EX computes it.
abbrev pub addressed : Instruction → Instruction
addressed i = if i.reads_mem || i.writes_mem then sim_addr_gen i else i

pub addressed-Keeps : (i : Instruction) → Keeps i (addressed i)
addressed-Keeps i = if_cases (Keeps i) _ (sim_addr_gen-Keeps i) (Keeps-refl i)

abbrev pub reached : Platform → Instruction → MemoryStore → Instruction × MemoryStore
reached platform i m = if i.reads_mem || i.writes_mem then sim_mem_access platform i m else (i, m)

pub reached-Keeps :
    (platform : Platform) (i : Instruction) (m : MemoryStore) → Keeps i (reached platform i m).0
reached-Keeps platform i m =
    if_cases (λ (r : Instruction × MemoryStore). Keeps i r.0) _ (sim_mem_access-Keeps platform i m)
      (Keeps-refl i)

Keeps-trans : {i j k : Instruction} → Keeps i j → Keeps j k → Keeps i k
Keeps-trans p q = ground arith

-- EX computes the result, then the address.
pub sim_ex_active : (i : Instruction) → IsActive i → sim_ex i ≡ addressed (computed i)
unfolding sim_ex
sim_ex_active i a =
    rw (active_passes i a, active_stops i a)
      (at_normal _
        (Keeps-IsActive (Keeps-trans (computed-Keeps i) (addressed-Keeps (computed i))) a).status)

pub sim_mem_active :
    (platform : Platform) (i : Instruction) (sim : Simulator)
    → IsActive i
    → let r = reached platform i sim.memory in
      sim_mem platform i sim ≡ (r.0, record sim { memory = r.1 })
unfolding sim_mem
sim_mem_active platform i sim a =
    rw (active_passes i a, active_stops i a)
      (elim (Bool-cases (i.reads_mem || i.writes_mem)) [
        | inl on ↦ rw on (
            let r = sim_mem_access platform i sim.memory in
            ap {B = Instruction × Simulator} (λ j. (j, record sim { memory = r.1 }))
              (at_normal r.0
                (Keeps-IsActive (sim_mem_access-Keeps platform i sim.memory) a).status))
        | inr off ↦ rw off (ap {B = Instruction × Simulator} (λ j. (j, sim)) (at_normal i a.status))
      ])

if_registers :
    (b : Bool) (sim : Simulator) (r : List ℕ)
    → (if b then record sim { registers = r } else sim)
      ≡ record sim { registers = if b then r else sim.registers }
if_registers true sim r = refl
if_registers false sim r = refl

pub sim_wb_active :
    (i : Instruction) (sim : Simulator)
    → IsActive i
    → sim_wb i sim ≡ (i, record sim { registers = committed i sim.registers })
unfolding sim_wb
sim_wb_active i sim a =
    rw (active_passes i a, active_stops i a)
      (ap {B = Instruction × Simulator}
          (λ j.
            (j, if i.writes_rd then record sim { registers = sim_commit i sim.registers } else sim))
          (at_normal i a.status)
        ∙ ap {B = Instruction × Simulator} (λ s. (i, s)) (if_registers i.writes_rd sim _))

-- What a stage passes, it leaves as it is, and the state too.
pub passes_nop : (i : Instruction) → i.is_nop ≡ true → passes i ≡ true
passes_nop i n = rw n refl

pub sim_ex-passes : (i : Instruction) → passes i ≡ true → sim_ex i ≡ i
unfolding sim_ex
sim_ex-passes i h = rw h refl

pub sim_mem-passes :
    (platform : Platform) (i : Instruction) (sim : Simulator)
    → passes i ≡ true
    → sim_mem platform i sim ≡ (i, sim)
unfolding sim_mem
sim_mem-passes platform i sim h = rw h refl

pub sim_wb-passes : (i : Instruction) (sim : Simulator) → passes i ≡ true → sim_wb i sim ≡ (i, sim)
unfolding sim_wb
sim_wb-passes i sim h = rw h refl
