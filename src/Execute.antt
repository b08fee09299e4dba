-- ===== src/Execute.antt =====
-- The steps of src/simulator.cpp that compute on a decoded instruction alone: operands, the next
-- PC, arithmetic and addresses.
pub mod Encode
pub mod Immediates
pub mod Targets
use ece375_project.Base.{
  ℕ, ◌-◌, ◌^◌, bit_and, bit_or, bit_xor, Bool, false, not, ◌&&◌, ◌||◌, List, get_or, set, ltb, ◌==◌,
  if◌then◌else◌,
}
use ece375_project.Word.{
  u32, add64, sub64, shl64, shr, add32, sub32, shl32, sar64, sar32, slt64, extract_bits, sext32,
  sext64,
}
use ece375_project.Instruction.{Instruction}
use ece375_project.Instruction.Encodings.{
  op_int, op_intw, op_intimm, op_intimmw, op_jalr, op_branch, op_auipc, op_lui, op_jal, funct3_add,
  funct3_sll, funct3_slt, funct3_sltu, funct3_xor, funct3_sr, funct3_or, funct3_and, funct3_beq,
  funct3_bne, funct3_blt, funct3_bge, funct3_bltu, funct3_bgeu, funct7_add, funct7_sub,
  funct7_logical, upperimm_logical, upperimm_arith,
}

-- `simOperandCollection`: the registers come by value, and register 0 of the copy is cleared.
unfoldable pub sim_operand_collection : Instruction → List ℕ → Instruction
sim_operand_collection inst registers =
    let cleared = set registers 0 0 in
    record inst {
      op1_val = if inst.reads_rs1 then get_or cleared inst.rs1 0 else inst.op1_val;
      op2_val = if inst.reads_rs2 then get_or cleared inst.rs2 0 else inst.op2_val;
    }

-- The immediates of the formats, from the fields that the source takes them from.
unfoldable pub branch_imm : Instruction → ℕ
unfolding extract_bits
branch_imm inst =
    let imm5 = inst.rd in
    let imm7 = inst.funct7 in
    bit_or
      (bit_or (bit_or (shl64 (extract_bits imm7 6 6) 12) (shl64 (extract_bits imm7 5 0) 5))
        (shl64 (extract_bits imm5 4 1) 1))
      (shl64 (extract_bits imm5 0 0) 11)

unfoldable pub jal_imm : Instruction → ℕ
unfolding extract_bits
jal_imm inst =
    let imm20 = extract_bits inst.instruction 31 12 in
    bit_or
      (bit_or (bit_or (shl64 (extract_bits imm20 19 19) 20) (shl64 (extract_bits imm20 18 9) 1))
        (shl64 (extract_bits imm20 8 8) 11))
      (shl64 (extract_bits imm20 7 0) 12)

unfoldable pub branch_target : Instruction → ℕ
unfolding branch_imm sext64
branch_target inst = add64 inst.pc (sext64 (branch_imm inst) 12)

unfoldable pub jal_target : Instruction → ℕ
unfolding jal_imm sext64
jal_target inst = add64 inst.pc (sext64 (jal_imm inst) 20)

-- The condition under which the inner `switch` sets the branch target.
unfoldable pub branch_taken : Instruction → Bool
branch_taken inst =
    if inst.funct3 == funct3_beq
    then inst.op1_val == inst.op2_val
    else if inst.funct3 == funct3_bne
    then not (inst.op1_val == inst.op2_val)
    else if inst.funct3 == funct3_blt
    then slt64 inst.op1_val inst.op2_val
    else if inst.funct3 == funct3_bge
    then not (slt64 inst.op1_val inst.op2_val)
    else if inst.funct3 == funct3_bltu
    then ltb inst.op1_val inst.op2_val
    else if inst.funct3 == funct3_bgeu
    then not (ltb inst.op1_val inst.op2_val)
    else false

unfoldable pub jalr_target : Instruction → ℕ
unfolding extract_bits sext64
jalr_target inst =
    bit_and (add64 inst.op1_val (sext64 (extract_bits inst.instruction 31 20) 11)) (2 ^ 64 - 2)

unfoldable pub resolved_pc : Instruction → ℕ
unfolding branch_target jal_target branch_taken jalr_target
resolved_pc inst =
    if inst.opcode == op_jalr
    then jalr_target inst
    else if inst.opcode == op_branch
    then (if branch_taken inst then branch_target inst else add64 inst.pc 4)
    else if inst.opcode == op_jal
    then jal_target inst
    else add64 inst.pc 4

unfoldable pub sim_next_pc_resolution : Instruction → Instruction
unfolding resolved_pc
sim_next_pc_resolution inst = record inst { next_pc = resolved_pc inst }

abbrev of_bool : Bool → ℕ
of_bool b = if b then 1 else 0

-- RV64I takes the low 6 bits of rs2 as a shift amount, the W forms the low 5.
unfoldable pub mask_shift : Instruction → Instruction
mask_shift inst =
    let shifts = inst.funct3 == funct3_sll || inst.funct3 == funct3_sr in
    if inst.opcode == op_int && shifts
    then record inst { op2_val = bit_and inst.op2_val 0x3f }
    else if inst.opcode == op_intw && shifts
    then record inst { op2_val = bit_and inst.op2_val 0x1f }
    else inst

-- `imm12`, `upperImm12` and `imm20` of `simArithLogic`.
abbrev pub imm12 : Instruction → ℕ
imm12 inst = extract_bits inst.instruction 31 20

abbrev pub upper_imm12 : Instruction → ℕ
upper_imm12 inst = extract_bits inst.instruction 31 26

abbrev pub imm20 : Instruction → ℕ
imm20 inst = extract_bits inst.instruction 31 12

-- Each case of the `switch` as the value that `arithResult` has after it.
unfoldable pub arith_int : Instruction → ℕ
unfolding extract_bits
arith_int inst =
    let a = inst.op1_val in
    let b = inst.op2_val in
    if inst.funct3 == funct3_add
    then (if inst.funct7 == funct7_add
        then add64 a b
        else if inst.funct7 == funct7_sub
        then sub64 a b
        else inst.arith_result)
    else if inst.funct3 == funct3_sll
    then shl64 a b
    else if inst.funct3 == funct3_slt
    then of_bool (slt64 a b)
    else if inst.funct3 == funct3_sltu
    then of_bool (ltb a b)
    else if inst.funct3 == funct3_xor
    then bit_xor a b
    else if inst.funct3 == funct3_sr
    then (if upper_imm12 inst == funct7_logical
        then shr a b
        else if upper_imm12 inst == upperimm_arith
        then sar64 a b
        else inst.arith_result)
    else if inst.funct3 == funct3_or
    then bit_or a b
    else if inst.funct3 == funct3_and
    then bit_and a b
    else inst.arith_result

unfoldable pub arith_intw : Instruction → ℕ
unfolding extract_bits sext64
arith_intw inst =
    let a = u32 inst.op1_val in
    let b = u32 inst.op2_val in
    if inst.funct3 == funct3_add
    then (if inst.funct7 == funct7_add
        then sext64 (add32 a b) 31
        else if inst.funct7 == funct7_sub
        then sext64 (sub32 a b) 31
        else inst.arith_result)
    else if inst.funct3 == funct3_sll
    then sext64 (shl32 a b) 31
    else if inst.funct3 == funct3_sr
    then (if upper_imm12 inst == funct7_logical
        then sext64 (shr a b) 31
        else if upper_imm12 inst == upperimm_arith
        then sext64 (sar32 a b) 31
        else inst.arith_result)
    else inst.arith_result

unfoldable pub arith_intimm : Instruction → ℕ
unfolding extract_bits sext64
arith_intimm inst =
    let a = inst.op1_val in
    let imm = sext64 (imm12 inst) 11 in
    let shift = bit_and (imm12 inst) 0x3f in
    if inst.funct3 == funct3_add
    then add64 a imm
    else if inst.funct3 == funct3_sll
    then shl64 a shift
    else if inst.funct3 == funct3_slt
    then of_bool (slt64 a imm)
    else if inst.funct3 == funct3_sltu
    then of_bool (ltb a imm)
    else if inst.funct3 == funct3_xor
    then bit_xor a imm
    else if inst.funct3 == funct3_sr
    then (if upper_imm12 inst == upperimm_logical
        then shr a shift
        else if upper_imm12 inst == upperimm_arith
        then sar64 a shift
        else inst.arith_result)
    else if inst.funct3 == funct3_or
    then bit_or a imm
    else if inst.funct3 == funct3_and
    then bit_and a imm
    else inst.arith_result

unfoldable pub arith_intimmw : Instruction → ℕ
unfolding extract_bits sext32 sext64
arith_intimmw inst =
    let a = u32 inst.op1_val in
    let shift = bit_and (imm12 inst) 0x1f in
    if inst.funct3 == funct3_add
    then sext64 (add32 a (sext32 (imm12 inst) 11)) 31
    else if inst.funct3 == funct3_sll
    then sext64 (shl32 a shift) 31
    else if inst.funct3 == funct3_sr
    then (if upper_imm12 inst == upperimm_logical
        then sext64 (shr a shift) 31
        else if upper_imm12 inst == upperimm_arith
        then sext64 (sar32 a shift) 31
        else inst.arith_result)
    else inst.arith_result

unfoldable pub arith_switch : Instruction → ℕ
unfolding arith_int arith_intw arith_intimm arith_intimmw extract_bits sext64
arith_switch inst =
    if inst.opcode == op_int
    then arith_int inst
    else if inst.opcode == op_intw
    then arith_intw inst
    else if inst.opcode == op_intimm
    then arith_intimm inst
    else if inst.opcode == op_intimmw
    then arith_intimmw inst
    else if inst.opcode == op_jalr
    then add64 inst.pc 4
    else if inst.opcode == op_auipc
    then add64 inst.pc (sext64 (shl64 (imm20 inst) 12) 31)
    else if inst.opcode == op_lui
    then sext64 (shl64 (imm20 inst) 12) 31
    else if inst.opcode == op_jal
    then add64 inst.pc 4
    else inst.arith_result

unfoldable pub sim_arith_logic : Instruction → Instruction
sim_arith_logic inst =
    let masked = mask_shift inst in record masked { arith_result = arith_switch masked }

-- `simAddrGen`, with the S-type immediate of a store.
unfoldable pub sim_addr_gen : Instruction → Instruction
unfolding extract_bits sext64
sim_addr_gen inst =
    let store_imm = sext64 (bit_or (shl64 inst.funct7 5) inst.rd) 11 in
    if inst.reads_mem
    then record inst { mem_address = add64 inst.op1_val (sext64 (imm12 inst) 11) }
    else if inst.writes_mem
    then record inst { mem_address = add64 inst.op1_val store_imm }
    else inst
