-- ===== src/Cycle/Stalls.antt =====
-- Forwarding and hazard stalls in a round of `runCycles` in src/cycle.cpp.
use ece375_project.Base.{
  ℕ, ◌≡◌, refl, ◌∙◌, Bool, true, false, ◌&&◌, ◌||◌, not, ◌==◌, arith, Bool-cases, inl, inr,
  if_cases, if◌then◌else◌,
}
use ece375_project.Instruction.{Instruction}
use ece375_project.Cycle.Hazards.{
  is_store, is_live, is_load, hazard, load_hazard, branch_hazard, uses, uses_rs1, uses_rs2,
  is_branch_or_jump, forward, forward_mem, forward_ex, forward_branch, writes_reg, produced,
  with_operand,
}

-- An instruction that writes a register writes another one than register 0.
writes_reg-rd : (i : Instruction) → writes_reg i ≡ true → (i.rd == 0) ≡ false
unfolding writes_reg
writes_reg-rd i w = middle i.writes_rd (i.rd == 0) (is_live i) w
  where
    middle : (a b c : Bool) → (a && not b && c) ≡ true → b ≡ false
    middle a b c h = ground arith

-- What is left of an operand that was read as `old`, when `i` has `value` for its register.
abbrev pub given : Instruction → ℕ → Bool → ℕ → ℕ → ℕ
given i value reads reg old = if reads && reg == i.rd && writes_reg i then value else old

abbrev Gives : Instruction → ℕ → Instruction → Instruction → Type 0
Gives i value before after =
    (after.op1_val ≡ given i value before.reads_rs1 before.rs1 before.op1_val)
    × (after.op2_val ≡ given i value before.reads_rs2 before.rs2 before.op2_val)

with_operand-Gives :
    (i id : Instruction) (value : ℕ)
    → writes_reg i ≡ true
    → Gives i value id (with_operand i.rd value id)
with_operand-Gives i id value w = rw (w, writes_reg-rd i w) (refl, refl)

with_operand_twice-Gives :
    (i id : Instruction) (value : ℕ)
    → writes_reg i ≡ true
    → Gives i value id (with_operand i.rd value (with_operand i.rd value id))
with_operand_twice-Gives i id value w =
    rw (w, writes_reg-rd i w)
      (
        again (id.reads_rs1 && id.rs1 == i.rd && true) id.op1_val,
        again (id.reads_rs2 && id.rs2 == i.rd && true) id.op2_val,
      )
  where
    again :
        (b : Bool) (y : ℕ)
        → (if b then value else if b then value else y) ≡ (if b then value else y)
    again true y = refl
    again false y = refl

idle-Gives : (i id : Instruction) (value : ℕ) → writes_reg i ≡ false → Gives i value id id
idle-Gives i id value w =
    rw w (
      never id.reads_rs1 (id.rs1 == i.rd) id.op1_val,
      never id.reads_rs2 (id.rs2 == i.rd) id.op2_val,
    )
  where
    never : (a b : Bool) (y : ℕ) → y ≡ (if a && b && false then value else y)
    never true true y = refl
    never true false y = refl
    never false b y = refl

-- The property of a branch may use the value of the test.
tested :
    (P : Instruction → Type 0) (b : Bool) {x y : Instruction}
    → (b ≡ true → P x)
    → (b ≡ false → P y)
    → P (if b then x else y)
tested P true p q = p refl
tested P false p q = q refl

forward_mem-Gives : (mem id : Instruction) → Gives mem (produced mem) id (forward_mem mem id)
unfolding forward_mem
forward_mem-Gives mem id =
    tested (Gives mem (produced mem) id) (writes_reg mem) (with_operand-Gives mem id (produced mem))
      (idle-Gives mem id (produced mem))

forward_ex-Gives :
    (ex id : Instruction) → Gives ex ex.arith_result id (forward_branch ex (forward_ex ex id))
unfolding forward_branch forward_ex
forward_ex-Gives ex id = both (writes_reg ex) is_branch_or_jump refl
  where
    W : Instruction → Instruction
    W i = with_operand ex.rd ex.arith_result i

    both :
        (w : Bool) (b : Instruction → Bool)
        → writes_reg ex ≡ w
        → Gives ex ex.arith_result id (
            if w && b (if w then W id else id)
            then W (if w then W id else id)
            else if w
            then W id
            else id)
    both true b e =
        if_cases (Gives ex ex.arith_result id) (b (W id))
          (with_operand_twice-Gives ex id ex.arith_result e)
          (with_operand-Gives ex id ex.arith_result e)
    both false b e = idle-Gives ex id ex.arith_result e

forward_mem-keeps :
    {A : Type 0} (f : Instruction → A) (mem id : Instruction)
    → f (with_operand mem.rd (produced mem) id) ≡ f id
    → f (forward_mem mem id) ≡ f id
unfolding forward_mem
forward_mem-keeps f mem id k = if_cases (λ i. f i ≡ f id) (writes_reg mem) k refl

-- The value of the youngest older instruction in flight that writes the register `reg`: EX before
-- MEM, each with what it produces, and `old` if neither writes it.
abbrev pub newest : Instruction → Instruction → Bool → ℕ → ℕ → ℕ
newest mem ex reads reg old =
    given ex (produced ex) reads reg (given mem (produced mem) reads reg old)

-- Where EX does not hold a load, what it produces is in `arithResult`.
given-produced :
    (ex : Instruction) (reads : Bool) (reg old : ℕ)
    → (is_load ex && reads && reg == ex.rd && not (ex.rd == 0)) ≡ false
    → given ex ex.arith_result reads reg old ≡ given ex (produced ex) reads reg old
given-produced ex reads reg old h = elim (Bool-cases (writes_reg ex)) [
  | inl w ↦ writes (writes_reg-rd ex w) w
  | inr w ↦ rw w (same reads (reg == ex.rd) _ _)
]
  where
    same :
        (a b : Bool) (x y : ℕ)
        → (if a && b && false then x else old) ≡ (if a && b && false then y else old)
    same true true x y = refl
    same true false x y = refl
    same false b x y = refl

    writes :
        (ex.rd == 0) ≡ false
        → writes_reg ex ≡ true
        → given ex ex.arith_result reads reg old ≡ given ex (produced ex) reads reg old
    writes nonzero w = ground arith

-- Unless EX holds a load of a register that the instruction in ID reads, whose value is not there
-- yet, forwarding gives each operand that ID reads the value that the youngest older instruction in
-- EX or MEM produces for its register, EX before MEM, and keeps it if neither writes the register; an
-- operand that is not read is kept.
pub forward-newest :
    (mem ex id : Instruction)
    → (is_load ex && uses id ex.rd) ≡ false
    → ((forward mem ex id).op1_val ≡ newest mem ex id.reads_rs1 id.rs1 id.op1_val)
      × ((forward mem ex id).op2_val ≡ newest mem ex id.reads_rs2 id.rs2 id.op2_val)
unfolding forward
forward-newest mem ex id ready =
    let first = forward_mem-Gives mem id in
    let second = forward_ex-Gives ex (forward_mem mem id) in
    let reads_rs1 = forward_mem-keeps (λ i. i.reads_rs1) mem id refl in
    let reads_rs2 = forward_mem-keeps (λ i. i.reads_rs2) mem id refl in
    let rs1 = forward_mem-keeps (λ i. i.rs1) mem id refl in
    let rs2 = forward_mem-keeps (λ i. i.rs2) mem id refl in
    let ready1 : (is_load ex && id.reads_rs1 && id.rs1 == ex.rd && not (ex.rd == 0)) ≡ false =
      ground arith in
    let ready2 : (is_load ex && id.reads_rs2 && id.rs2 == ex.rd && not (ex.rd == 0)) ≡ false =
      ground arith in
    (
      second.0
          ∙ (λ i. given ex ex.arith_result (reads_rs1 i) (rs1 i) (first.0 i))
          ∙ given-produced ex id.reads_rs1 id.rs1 _ ready1,
      second.1
          ∙ (λ i. given ex ex.arith_result (reads_rs2 i) (rs2 i) (first.1 i))
          ∙ given-produced ex id.reads_rs2 id.rs2 _ ready2,
    )

-- ID needs a value that the instruction in EX does not have yet: a loaded value as an operand, but
-- for the data of a store, which MEM gets later, or any result as an operand of a branch.
abbrev pub must_wait : Instruction → Instruction → Bool
must_wait ex id =
    is_load ex && (uses_rs1 id ex.rd || uses_rs2 id ex.rd && not (is_store id))
    || is_branch_or_jump id && writes_reg ex && not (is_load ex) && uses id ex.rd

-- With no stall cycle left over from an earlier round, the round stalls exactly when ID needs a value
-- that EX does not have yet; and at most one stall cycle is left over, for a branch after a load.
pub hazard-must_wait :
    (ex id : Instruction) (load_stalls : ℕ)
    → ((hazard ex id 0 load_stalls).stall ≡ must_wait ex id)
      × ((hazard ex id 0 load_stalls).remaining ≡ (
          if is_load ex && not (is_store id) && is_branch_or_jump id && uses id ex.rd
          then 1
          else 0))
unfolding hazard load_hazard branch_hazard
hazard-must_wait ex id load_stalls = (ground arith, ground arith)
