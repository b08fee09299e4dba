-- ===== src/Decode.antt =====
-- `Simulator::simDecode` of src/simulator.cpp. Each case of its `switch` is a function of its own.
pub mod Legal
use ece375_project.Base.{ℕ, ◌/◌, Bool, true, false, ◌&&◌, ◌||◌, ◌==◌, if◌then◌else◌}
use ece375_project.Word.{extract_bits}
use ece375_project.Instruction.{Instruction}
use ece375_project.Instruction.Encodings.{
  op_int, op_intw, op_load, op_intimm, op_intimmw, op_jalr, op_store, op_branch, op_auipc, op_lui,
  op_jal, funct3_add, funct3_sll, funct3_slt, funct3_sltu, funct3_xor, funct3_sr, funct3_or,
  funct3_and, funct3_b, funct3_h, funct3_w, funct3_d, funct3_bu, funct3_hu, funct3_wu, funct3_beq,
  funct3_bne, funct3_blt, funct3_bge, funct3_bltu, funct3_bgeu, funct7_add, funct7_sub,
  funct7_logical, funct7_arith, upperimm_logical, upperimm_arith,
}

-- The fields of the instruction word.
unfoldable pub decode_fields : Instruction → Instruction
decode_fields inst = record inst {
  opcode = extract_bits inst.instruction 6 0;
  rd = extract_bits inst.instruction 11 7;
  funct3 = extract_bits inst.instruction 14 12;
  rs1 = extract_bits inst.instruction 19 15;
  rs2 = extract_bits inst.instruction 24 20;
  funct7 = extract_bits inst.instruction 31 25;
}

abbrev pub illegal : Instruction → Instruction
illegal inst = record inst { is_legal = false }

abbrev pub legal_int : Instruction → Bool
legal_int inst =
    (inst.funct3 == funct3_add && (inst.funct7 == funct7_add || inst.funct7 == funct7_sub))
    || inst.funct3 == funct3_sll
    || inst.funct3 == funct3_slt
    || inst.funct3 == funct3_sltu
    || inst.funct3 == funct3_xor
    || (inst.funct3 == funct3_sr
        && (inst.funct7 / 2 == upperimm_arith || inst.funct7 / 2 == upperimm_logical))
    || inst.funct3 == funct3_or
    || inst.funct3 == funct3_and

unfoldable pub decode_int : Instruction → Instruction
decode_int inst =
    if legal_int inst
    then record inst {
      does_arith_logic = true;
      writes_rd = true;
      reads_rs1 = true;
      reads_rs2 = true;
    }
    else illegal inst

abbrev pub legal_intw : Instruction → Bool
legal_intw inst =
    (inst.funct3 == funct3_add && (inst.funct7 == funct7_add || inst.funct7 == funct7_sub))
    || inst.funct3 == funct3_sll
    || (inst.funct3 == funct3_sr && (inst.funct7 == funct7_arith || inst.funct7 == funct7_logical))

unfoldable pub decode_intw : Instruction → Instruction
decode_intw inst =
    if legal_intw inst
    then record inst {
      does_arith_logic = true;
      writes_rd = true;
      reads_rs1 = true;
      reads_rs2 = true;
    }
    else illegal inst

abbrev pub legal_load : Instruction → Bool
legal_load inst =
    inst.funct3 == funct3_b
    || inst.funct3 == funct3_h
    || inst.funct3 == funct3_w
    || inst.funct3 == funct3_d
    || inst.funct3 == funct3_bu
    || inst.funct3 == funct3_hu
    || inst.funct3 == funct3_wu

unfoldable pub decode_load : Instruction → Instruction
decode_load inst =
    if legal_load inst
    then record inst { reads_rs1 = true; writes_rd = true; reads_mem = true }
    else illegal inst

abbrev pub legal_intimm : Instruction → Bool
legal_intimm inst =
    inst.funct3 == funct3_add
    || inst.funct3 == funct3_sll
    || inst.funct3 == funct3_slt
    || inst.funct3 == funct3_sltu
    || inst.funct3 == funct3_xor
    || (inst.funct3 == funct3_sr
        && (inst.funct7 / 2 == upperimm_arith || inst.funct7 / 2 == upperimm_logical))
    || inst.funct3 == funct3_or
    || inst.funct3 == funct3_and

unfoldable pub decode_intimm : Instruction → Instruction
decode_intimm inst =
    if legal_intimm inst
    then record inst { does_arith_logic = true; writes_rd = true; reads_rs1 = true }
    else illegal inst

abbrev pub legal_intimmw : Instruction → Bool
legal_intimmw inst =
    inst.funct3 == funct3_add
    || inst.funct3 == funct3_sll
    || (inst.funct3 == funct3_sr && (inst.funct7 == funct7_arith || inst.funct7 == funct7_logical))

unfoldable pub decode_intimmw : Instruction → Instruction
decode_intimmw inst =
    if legal_intimmw inst
    then record inst { does_arith_logic = true; writes_rd = true; reads_rs1 = true }
    else illegal inst

unfoldable pub decode_jalr : Instruction → Instruction
decode_jalr inst = record inst {
  is_legal = true;
  does_arith_logic = true;
  writes_rd = true;
  reads_rs1 = true;
}

abbrev pub legal_store : Instruction → Bool
legal_store inst =
    inst.funct3 == funct3_b
    || inst.funct3 == funct3_h
    || inst.funct3 == funct3_w
    || inst.funct3 == funct3_d

unfoldable pub decode_store : Instruction → Instruction
decode_store inst =
    if legal_store inst
    then record inst { reads_rs1 = true; reads_rs2 = true; writes_mem = true }
    else illegal inst

abbrev pub legal_branch : Instruction → Bool
legal_branch inst =
    inst.funct3 == funct3_beq
    || inst.funct3 == funct3_bne
    || inst.funct3 == funct3_blt
    || inst.funct3 == funct3_bge
    || inst.funct3 == funct3_bltu
    || inst.funct3 == funct3_bgeu

unfoldable pub decode_branch : Instruction → Instruction
decode_branch inst =
    if legal_branch inst then record inst { reads_rs1 = true; reads_rs2 = true } else illegal inst

-- AUIPC, LUI and JAL.
unfoldable pub decode_upper : Instruction → Instruction
decode_upper inst = record inst { is_legal = true; does_arith_logic = true; writes_rd = true }

unfoldable pub decode_switch : Instruction → Instruction
unfolding decode_int decode_intw decode_load decode_intimm decode_intimmw decode_jalr decode_store
    decode_branch decode_upper
decode_switch inst =
    if inst.opcode == op_int
    then decode_int inst
    else if inst.opcode == op_intw
    then decode_intw inst
    else if inst.opcode == op_load
    then decode_load inst
    else if inst.opcode == op_intimm
    then decode_intimm inst
    else if inst.opcode == op_intimmw
    then decode_intimmw inst
    else if inst.opcode == op_jalr
    then decode_jalr inst
    else if inst.opcode == op_store
    then decode_store inst
    else if inst.opcode == op_branch
    then decode_branch inst
    else if inst.opcode == op_auipc || inst.opcode == op_lui || inst.opcode == op_jal
    then decode_upper inst
    else illegal inst

abbrev pub halt_word : ℕ
halt_word = 0xfeedfeed

abbrev pub nop_word : ℕ
nop_word = 0x00000013

unfoldable pub sim_decode : Instruction → Instruction
unfolding decode_fields decode_switch extract_bits
sim_decode raw =
    let inst = decode_fields raw in
    if inst.instruction == halt_word
    then record inst { is_halt = true }
    else if inst.instruction == nop_word
    then record inst { is_nop = true }
    else decode_switch inst
