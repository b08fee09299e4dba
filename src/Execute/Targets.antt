-- ===== src/Execute/Targets.antt =====
-- `simNextPCResolution` of src/simulator.cpp on branches and jumps in the formats of the manual.
use ece375_project.Base.{
  Bool, not, ◌&&◌, ◌==◌, if◌then◌else◌, ℕ, ◌+◌, ◌*◌, ◌/◌, ◌%◌, ◌^◌, ◌<◌, ◌≡◌, refl, ap, ◌∙◌, false,
  arith,
}
use ece375_project.Word.{add64}
use ece375_project.Word.Fields.{extract_bits_lem}
use ece375_project.Instruction.{Instruction}
use ece375_project.Decode.{decode_fields}
use ece375_project.Instruction.Encodings.{op_branch, op_jal}
use ece375_project.Execute.{
  sim_next_pc_resolution, branch_taken, jal_imm, branch_target, jal_target,
}
use ece375_project.Execute.Encode.{takes, b_word, j_word, moved}
use ece375_project.Execute.Immediates.{
  decode_fields-word, branch_imm-fields, jal_imm-word, moved_by,
}

branch_target-b_word :
    (inst : Instruction) (opcode funct3 rs1 rs2 imm : ℕ)
    → opcode < 2 ^ 7
    → funct3 < 2 ^ 3
    → rs1 < 2 ^ 5
    → rs2 < 2 ^ 5
    → imm < 2 ^ 13
    → imm % 2 ≡ 0
    → inst.instruction ≡ b_word opcode funct3 rs1 rs2 imm
    → branch_target (decode_fields inst) ≡ moved 12 inst.pc imm
unfolding branch_target
branch_target-b_word inst opcode funct3 rs1 rs2 imm a b c d fits even word_is =
    let low : imm / 2 ^ 11 % 2 + imm / 2 % 2 ^ 4 * 2 < 2 ^ 5 = omega arith in
    let high : imm / 2 ^ 5 % 2 ^ 6 + imm / 2 ^ 12 % 2 * 2 ^ 6 < 2 ^ 7 = omega arith in
    let fields = decode_fields-word inst opcode _ funct3 rs1 rs2 _ a low b c d high word_is in
    let decoded = decode_fields inst in
    let joined =
      branch_imm-fields decoded imm fits even (ap (λ t. t.rd) fields) (ap (λ t. t.funct7) fields) in
    rw joined (moved_by decoded.pc imm 12 (omega arith) fits) ∙ ap (λ t. moved 12 t.pc imm) fields

jal_target-j_word :
    (inst : Instruction) (opcode rd imm : ℕ)
    → opcode < 2 ^ 7
    → rd < 2 ^ 5
    → imm < 2 ^ 21
    → imm % 2 ≡ 0
    → inst.instruction ≡ j_word opcode rd imm
    → jal_target inst ≡ moved 20 inst.pc imm
unfolding jal_target
jal_target-j_word inst opcode rd imm a b fits even word_is =
    rw (jal_imm-word inst opcode rd imm a b fits even word_is)
      (moved_by inst.pc imm 20 (omega arith) fits)

-- The six tests, by funct3.
tests :
    (funct3 : ℕ) (equal less below : Bool)
    → funct3 < 2 ^ 3
    → (if funct3 == 0
        then equal
        else if funct3 == 1
        then not equal
        else if funct3 == 4
        then less
        else if funct3 == 5
        then not less
        else if funct3 == 6
        then below
        else if funct3 == 7
        then not below
        else false)
      ≡ not (funct3 / 2 == 1)
        && (if funct3 % 2 == 0
            then (if funct3 / 2 == 0 then equal else if funct3 / 2 == 2 then less else below)
            else not (if funct3 / 2 == 0 then equal else if funct3 / 2 == 2 then less else below))
tests funct3 equal less below h = ground arith

branch_taken-takes :
    (inst : Instruction)
    → inst.funct3 < 2 ^ 3
    → branch_taken inst ≡ takes inst.funct3 inst.op1_val inst.op2_val
unfolding branch_taken
branch_taken-takes inst h = tests inst.funct3 _ _ _ h

pub resolved-branch :
    (inst : Instruction)
    → inst.opcode ≡ op_branch
    → (sim_next_pc_resolution inst).next_pc
      ≡ (if branch_taken inst then branch_target inst else add64 inst.pc 4)
unfolding sim_next_pc_resolution
resolved-branch inst e = rw e refl

pub resolved-jal :
    (inst : Instruction)
    → inst.opcode ≡ op_jal
    → (sim_next_pc_resolution inst).next_pc ≡ jal_target inst
unfolding sim_next_pc_resolution
resolved-jal inst e = rw e refl

-- An instruction in the B format with BRANCH's opcode and the even 13-bit offset `imm`, once decoded:
-- its next PC is its own address moved by `imm`, whose sign is bit 12, if the branch is taken, and else
-- the address 4 further on. By its funct3 it is taken where its operands are equal, different, below,
-- or at least as great, signed and unsigned.
pub next_pc-b_word :
    (inst : Instruction) (funct3 rs1 rs2 imm : ℕ)
    → funct3 < 2 ^ 3
    → rs1 < 2 ^ 5
    → rs2 < 2 ^ 5
    → imm < 2 ^ 13
    → imm % 2 ≡ 0
    → inst.instruction ≡ b_word 0b1100011 funct3 rs1 rs2 imm
    → (sim_next_pc_resolution (decode_fields inst)).next_pc ≡ (
        if takes funct3 inst.op1_val inst.op2_val
        then moved 12 inst.pc imm
        else (inst.pc + 4) % 2 ^ 64)
next_pc-b_word inst funct3 rs1 rs2 imm a b c fits even word_is =
    let low : imm / 2 ^ 11 % 2 + imm / 2 % 2 ^ 4 * 2 < 2 ^ 5 = omega arith in
    let high : imm / 2 ^ 5 % 2 ^ 6 + imm / 2 ^ 12 % 2 * 2 ^ 6 < 2 ^ 7 = omega arith in
    let fields =
      decode_fields-word inst op_branch (imm / 2 ^ 11 % 2 + imm / 2 % 2 ^ 4 * 2) funct3 rs1 rs2
        (imm / 2 ^ 5 % 2 ^ 6 + imm / 2 ^ 12 % 2 * 2 ^ 6) (omega arith) low a b c high word_is in
    let i = decode_fields inst in
    let is3 : i.funct3 ≡ funct3 = ap (λ t. t.funct3) fields in
    let taken : branch_taken i ≡ takes funct3 inst.op1_val inst.op2_val =
      branch_taken-takes i (omega (arith, is3))
      ∙ (λ t. takes (fields t).funct3 (fields t).op1_val (fields t).op2_val) in
    let target =
      branch_target-b_word inst op_branch funct3 rs1 rs2 imm (omega arith) a b c fits even
        word_is in
    resolved-branch i (ap (λ t. t.opcode) fields)
    ∙ (λ t. if taken t then target t else add64 (fields t).pc 4)

decoded-op_jal :
    (inst : Instruction) (rd imm : ℕ)
    → rd < 2 ^ 5
    → imm < 2 ^ 21
    → imm % 2 ≡ 0
    → inst.instruction ≡ j_word op_jal rd imm
    → (decode_fields inst).opcode ≡ op_jal
unfolding decode_fields
decoded-op_jal inst rd imm a fits even word_is =
    extract_bits_lem inst.instruction 6 0 (omega arith) ∙ omega (arith, word_is)

pub decoded_target : (inst : Instruction) → jal_target (decode_fields inst) ≡ jal_target inst
unfolding decode_fields jal_target jal_imm
decoded_target inst = refl

-- An instruction in the J format with JAL's opcode and the even 21-bit offset `imm`, once decoded: its
-- next PC is its own address moved by `imm`, whose sign is bit 20.
pub next_pc-j_word :
    (inst : Instruction) (rd imm : ℕ)
    → rd < 2 ^ 5
    → imm < 2 ^ 21
    → imm % 2 ≡ 0
    → inst.instruction ≡ j_word 0b1101111 rd imm
    → (sim_next_pc_resolution (decode_fields inst)).next_pc ≡ moved 20 inst.pc imm
next_pc-j_word inst rd imm a fits even word_is =
    let target = jal_target-j_word inst op_jal rd imm (omega arith) a fits even word_is in
    resolved-jal (decode_fields inst) (decoded-op_jal inst rd imm a fits even word_is)
    ∙ decoded_target inst
    ∙ target
