-- ===== src/Output/Disassembly.antt =====
-- The instruction columns of src/Utilities.cpp: `handleIAndR`, `handleLAndS`, `handleBranch`,
-- `handleSpecial`, `printIFPC` and `printInstr`. Each returns what it writes.
pub mod Legality
pub mod LastWord
pub mod Offsets
use ece375_project.Base.{
  ℕ, ◌+◌, ◌/◌, ◌%◌, ◌^◌, bit_and, bit_or, ◌||◌, List, [], ◌∷◌, ◌++◌, ◌==◌, if◌then◌else◌,
}
use ece375_project.Word.{u32, shl64, extract_bits, sext64}
use ece375_project.Instruction.{StageStatus}
use ece375_project.Instruction.Encodings.{
  op_int, op_intw, op_load, op_intimm, op_intimmw, op_jalr, op_store, op_branch, op_auipc, op_lui,
  op_jal, funct3_sll, funct3_sr,
}
use ece375_project.Decode.{halt_word, nop_word}
use ece375_project.Output.{Text, codes, text_eq, dec, hex, signed_dec, pad_right}
use ece375_project.Output.Names.{reg_name, stage_status_str, illegal_text, get_op_string}

-- What a handler writes: " ILLEGAL" for a word without a name, else the name and the operands.
abbrev pub named : Text → Text → Text
named name operands =
    if text_eq name illegal_text
    then codes " ILLEGAL"
    else codes " " ++ name ++ codes " " ++ operands

-- The operands of `handleIAndR`. A shift shows the low six bits of its immediate.
unfoldable pub i_and_r_operands : ℕ → Text
unfolding extract_bits sext64 dec signed_dec
i_and_r_operands cur_inst =
    let opcode = extract_bits cur_inst 6 0 in
    let rd = extract_bits cur_inst 11 7 in
    let funct3 = extract_bits cur_inst 14 12 in
    let rs1 = extract_bits cur_inst 19 15 in
    let rs2 = extract_bits cur_inst 24 20 in
    let imm12 = extract_bits cur_inst 31 20 in
    if opcode == op_int || opcode == op_intw
    then reg_name rd ++ codes ", " ++ reg_name rs1 ++ codes ", " ++ reg_name rs2
    else reg_name rd
      ++ codes ", "
      ++ reg_name rs1
      ++ codes ", "
      ++ (if funct3 == funct3_sll || funct3 == funct3_sr
          then dec (bit_and imm12 0x3f)
          else signed_dec (sext64 imm12 11))

unfoldable pub handle_i_and_r : ℕ → Text
handle_i_and_r cur_inst =
    let opcode = extract_bits cur_inst 6 0 in
    let funct3 = extract_bits cur_inst 14 12 in
    let funct7 = extract_bits cur_inst 31 25 in
    named (get_op_string opcode funct3 funct7) (i_and_r_operands cur_inst)

unfoldable pub l_and_s_operands : ℕ → Text
unfolding extract_bits sext64 signed_dec
l_and_s_operands cur_inst =
    let opcode = extract_bits cur_inst 6 0 in
    let rd = extract_bits cur_inst 11 7 in
    let rs1 = extract_bits cur_inst 19 15 in
    let rs2 = extract_bits cur_inst 24 20 in
    let imm5 = extract_bits cur_inst 11 7 in
    let imm7 = extract_bits cur_inst 31 25 in
    let imm12 = extract_bits cur_inst 31 20 in
    let sext_imm12 = sext64 imm12 11 in
    let store_imm = sext64 (bit_or (shl64 imm7 5) imm5) 11 in
    if opcode == op_load
    then reg_name rd
      ++ codes ", "
      ++ signed_dec sext_imm12
      ++ codes "("
      ++ reg_name rs1
      ++ codes ")"
    else reg_name rs2
      ++ codes ", "
      ++ signed_dec store_imm
      ++ codes "("
      ++ reg_name rs1
      ++ codes ")"

unfoldable pub handle_l_and_s : ℕ → Text
handle_l_and_s cur_inst =
    let opcode = extract_bits cur_inst 6 0 in
    let funct3 = extract_bits cur_inst 14 12 in
    named (get_op_string opcode funct3 0) (l_and_s_operands cur_inst)

-- `branchImm`.
unfoldable pub printed_branch_imm : ℕ → ℕ
unfolding extract_bits sext64
printed_branch_imm cur_inst =
    let imm7 = extract_bits cur_inst 31 25 in
    let imm5 = extract_bits cur_inst 11 7 in
    sext64
      (bit_or
        (bit_or (bit_or (shl64 (extract_bits imm7 6 6) 12) (shl64 (extract_bits imm7 5 0) 5))
          (shl64 (extract_bits imm5 4 1) 1))
        (shl64 (extract_bits imm5 0 0) 11))
      12

unfoldable pub branch_operands : ℕ → Text
unfolding extract_bits printed_branch_imm signed_dec
branch_operands cur_inst =
    let rs1 = extract_bits cur_inst 19 15 in
    let rs2 = extract_bits cur_inst 24 20 in
    reg_name rs1
    ++ codes ", "
    ++ reg_name rs2
    ++ codes ", "
    ++ signed_dec (printed_branch_imm cur_inst)

unfoldable pub handle_branch : ℕ → Text
handle_branch cur_inst =
    let opcode = extract_bits cur_inst 6 0 in
    let funct3 = extract_bits cur_inst 14 12 in
    named (get_op_string opcode funct3 0) (branch_operands cur_inst)

-- `sextUpper`: the sign is taken from bit 19.
unfoldable pub sext_upper : ℕ → ℕ
unfolding extract_bits sext64
sext_upper cur_inst = sext64 (shl64 (extract_bits cur_inst 31 12) 12) 19

-- `jalImm`.
unfoldable pub printed_jal_imm : ℕ → ℕ
unfolding extract_bits sext64
printed_jal_imm cur_inst =
    let imm20 = extract_bits cur_inst 31 12 in
    sext64
      (bit_or
        (bit_or (bit_or (shl64 (extract_bits imm20 19 19) 20) (shl64 (extract_bits imm20 18 9) 1))
          (shl64 (extract_bits imm20 8 8) 11))
        (shl64 (extract_bits imm20 7 0) 12))
      20

unfoldable pub special_operands : ℕ → Text
unfolding extract_bits sext_upper printed_jal_imm signed_dec
special_operands cur_inst =
    let opcode = extract_bits cur_inst 6 0 in
    let rd = extract_bits cur_inst 11 7 in
    reg_name rd
    ++ codes ", "
    ++ (if opcode == op_jal
        then signed_dec (printed_jal_imm cur_inst)
        else signed_dec (sext_upper cur_inst))

unfoldable pub handle_special : ℕ → Text
handle_special cur_inst =
    let opcode = extract_bits cur_inst 6 0 in
    named (get_op_string opcode 0 0) (special_operands cur_inst)

-- The width of a column.
abbrev pub column : ℕ
column = 25

unfoldable pub print_if_pc : ℕ → StageStatus → Text
unfolding hex
print_if_pc pc status = pad_right column (codes " Inst at 0x" ++ hex pc ++ stage_status_str status)

-- The `switch` of `printInstr`.
unfoldable pub disassembled : ℕ → Text
disassembled cur_inst =
    let opcode = extract_bits cur_inst 6 0 in
    if opcode == op_int
      || opcode == op_intw
      || opcode == op_intimm
      || opcode == op_intimmw
      || opcode == op_jalr
    then handle_i_and_r cur_inst
    else if opcode == op_load || opcode == op_store
    then handle_l_and_s cur_inst
    else if opcode == op_branch
    then handle_branch cur_inst
    else if opcode == op_jal || opcode == op_lui || opcode == op_auipc
    then handle_special cur_inst
    else codes " ILLEGAL"

-- The pipe state keeps a word in 64 bits; the parameter here has 32.
unfoldable pub print_instr : ℕ → StageStatus → Text
unfolding disassembled
print_instr instr status =
    let cur_inst = u32 instr in
    if cur_inst == halt_word
    then pad_right column (codes " HALT" ++ stage_status_str status)
    else if cur_inst == nop_word
    then pad_right column (codes " NOP" ++ stage_status_str status)
    else pad_right column (disassembled cur_inst ++ stage_status_str status)
