-- ===== src/Cycle/Hazards.antt =====
-- The tests on pipeline instructions of src/cycle.cpp, the stalls that hazards ask for, and the
-- values that are forwarded.
use ece375_project.Base.{ℕ, ◌+◌, ◌-◌, Bool, true, false, not, ◌&&◌, ◌||◌, ltb, ◌==◌, if◌then◌else◌}
use ece375_project.Word.{u64}
use ece375_project.Instruction.{Instruction, is_bubble, is_squashed}
use ece375_project.Instruction.Encodings.{op_branch, op_jal, op_jalr}

-- The four tests share their last conjuncts.
abbrev pub is_live : Instruction → Bool
is_live inst =
    inst.is_legal && not inst.is_nop && not (is_bubble inst.status) && not (is_squashed inst.status)

unfoldable pub is_load : Instruction → Bool
is_load inst = inst.reads_mem && is_live inst

unfoldable pub is_store : Instruction → Bool
is_store inst = inst.writes_mem && is_live inst

unfoldable pub writes_reg : Instruction → Bool
writes_reg inst = inst.writes_rd && not (inst.rd == 0) && is_live inst

unfoldable pub is_branch_or_jump : Instruction → Bool
is_branch_or_jump inst =
    (inst.opcode == op_branch || inst.opcode == op_jal || inst.opcode == op_jalr) && is_live inst

-- The test for an illegal instruction in ID at the start of a round.
unfoldable pub raises_illegal : Instruction → Bool
raises_illegal inst =
    not inst.is_legal
    && not inst.is_nop
    && not (is_bubble inst.status)
    && not (is_squashed inst.status)
    && not inst.is_halt

-- `inst` reads register `rd` as its first, or its second, operand.
abbrev pub uses_rs1 : Instruction → ℕ → Bool
uses_rs1 inst rd = inst.reads_rs1 && inst.rs1 == rd && not (rd == 0)

abbrev pub uses_rs2 : Instruction → ℕ → Bool
uses_rs2 inst rd = inst.reads_rs2 && inst.rs2 == rd && not (rd == 0)

abbrev pub uses : Instruction → ℕ → Bool
uses inst rd = uses_rs1 inst rd || uses_rs2 inst rd

-- What the hazard tests of a round decide: whether it stalls, and the counters after it.
pub record Hazard : Type 0 where
  pub stall : Bool
  pub remaining : ℕ
  pub load_stalls : ℕ

-- A load in EX: a store waits for its address, a branch waits a cycle more than any other user.
unfoldable pub load_hazard : Instruction → Instruction → ℕ → Hazard
load_hazard ex id load_stalls =
    let calm : Hazard = record { stall = false; remaining = 0; load_stalls = load_stalls } in
    let waits : Hazard = record {
      stall = true;
      remaining = 0;
      load_stalls = u64 (load_stalls + 1);
    } in
    if is_load ex
    then (if is_store id
        then (if uses_rs1 id ex.rd then waits else calm)
        else if is_branch_or_jump id
        then (if uses id ex.rd then record waits { remaining = 1 } else calm)
        else (if uses id ex.rd then waits else calm))
    else calm

-- A result in EX that a branch in ID needs.
unfoldable pub branch_hazard : Instruction → Instruction → Bool
branch_hazard ex id = is_branch_or_jump id && (writes_reg ex && not (is_load ex)) && uses id ex.rd

unfoldable pub hazard : Instruction → Instruction → ℕ → ℕ → Hazard
hazard ex id remaining load_stalls =
    if ltb 0 remaining
    then record { stall = true; remaining = remaining - 1; load_stalls = load_stalls }
    else (let h = load_hazard ex id load_stalls in
        if not h.stall && branch_hazard ex id then record h { stall = true } else h)

-- The value that an instruction in MEM or WB has for its register.
abbrev pub produced : Instruction → ℕ
produced inst = if is_load inst then inst.mem_result else inst.arith_result

-- WB to MEM: the value that a store in EX is about to write.
unfoldable pub forward_store : Bool → Instruction → Instruction → Instruction
forward_store data_fetch_miss mem ex =
    if is_store ex && writes_reg mem && not data_fetch_miss
    then (if ex.rs2 == mem.rd && not (mem.rd == 0)
        then record ex { op2_val = produced mem }
        else ex)
    else ex

-- The operands of `id` that name register `rd`, set to a value.
abbrev pub with_operand : ℕ → ℕ → Instruction → Instruction
with_operand rd value id = record id {
  op1_val = if uses_rs1 id rd then value else id.op1_val;
  op2_val = if uses_rs2 id rd then value else id.op2_val;
}

-- MEM to EX, and EX to EX; the copy for branches, EX to ID, comes after them.
unfoldable pub forward_mem : Instruction → Instruction → Instruction
forward_mem mem id = if writes_reg mem then with_operand mem.rd (produced mem) id else id

unfoldable pub forward_ex : Instruction → Instruction → Instruction
forward_ex ex id = if writes_reg ex then with_operand ex.rd ex.arith_result id else id

unfoldable pub forward_branch : Instruction → Instruction → Instruction
forward_branch ex id =
    if writes_reg ex && is_branch_or_jump id then with_operand ex.rd ex.arith_result id else id

unfoldable pub forward : Instruction → Instruction → Instruction → Instruction
forward mem ex id = forward_branch ex (forward_ex ex (forward_mem mem id))
