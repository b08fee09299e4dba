-- ===== src/Decode/Legal.antt =====
-- The instructions that `simDecode` of src/simulator.cpp takes, and those that it returns.
use ece375_project.Base.{◌<◌, ◌≡◌, true, false, ◌||◌, ◌==◌, if_cases, arith, ◌⊎◌}
use ece375_project.Word.Fields.{extract_bits-lt}
use ece375_project.Instruction.{Instruction, normal}
use ece375_project.Instruction.Encodings
use ece375_project.Decode.{
  decode_fields, decode_switch, sim_decode, illegal, halt_word, nop_word, legal_int, legal_intw,
  legal_load, legal_intimm, legal_intimmw, legal_store, legal_branch,
}

module _ {ℓ} (P : Instruction → Type ℓ) (inst : Instruction) where
  pub switch_cases :
      P (illegal inst)
      → P (record inst {
        does_arith_logic = true;
        writes_rd = true;
        reads_rs1 = true;
        reads_rs2 = true;
      })
      → P (record inst { reads_rs1 = true; writes_rd = true; reads_mem = true })
      → P (record inst { does_arith_logic = true; writes_rd = true; reads_rs1 = true })
      → P (record inst {
        is_legal = true;
        does_arith_logic = true;
        writes_rd = true;
        reads_rs1 = true;
      })
      → P (record inst { reads_rs1 = true; reads_rs2 = true; writes_mem = true })
      → P (record inst { reads_rs1 = true; reads_rs2 = true })
      → P (record inst { is_legal = true; does_arith_logic = true; writes_rd = true })
      → P (decode_switch inst)
  unfolding decode_switch
  switch_cases bad int load imm jalr store branch upper =
      if_cases P (inst.opcode == Encodings.op_int) (if_cases P (legal_int inst) int bad) (
        if_cases P (inst.opcode == Encodings.op_intw) (if_cases P (legal_intw inst) int bad) (
          if_cases P (inst.opcode == Encodings.op_load) (if_cases P (legal_load inst) load bad) (
            if_cases P (inst.opcode == Encodings.op_intimm) (if_cases P (legal_intimm inst) imm bad)
              (if_cases P (inst.opcode == Encodings.op_intimmw)
                (if_cases P (legal_intimmw inst) imm bad)
                (if_cases P (inst.opcode == Encodings.op_jalr) jalr (
                  if_cases P (inst.opcode == Encodings.op_store)
                    (if_cases P (legal_store inst) store bad)
                    (if_cases P (inst.opcode == Encodings.op_branch)
                      (if_cases P (legal_branch inst) branch bad)
                      (if_cases P
                        (inst.opcode == Encodings.op_auipc
                          || inst.opcode == Encodings.op_lui
                          || inst.opcode == Encodings.op_jal)
                        upper bad))))))))

-- An instruction as `simFetch` hands it to `simDecode`: no flag but `isLegal` is set.
pub record IsUndecoded (inst : Instruction) : Type 0 where
  pub legal : inst.is_legal ≡ true
  pub halt : inst.is_halt ≡ false
  pub nop : inst.is_nop ≡ false
  pub reads_mem : inst.reads_mem ≡ false
  pub writes_mem : inst.writes_mem ≡ false
  pub arith : inst.does_arith_logic ≡ false
  pub writes_rd : inst.writes_rd ≡ false
  pub reads_rs1 : inst.reads_rs1 ≡ false
  pub reads_rs2 : inst.reads_rs2 ≡ false
  pub exception : inst.mem_exception ≡ false
  pub status : inst.status ≡ normal

-- A decoded instruction: its register fields name registers, it does arithmetic or reads memory or
-- writes memory and no two of these, it reads memory or does arithmetic exactly when it writes
-- `rd`, and a NOP, a halt and an illegal instruction do none of these.
pub record IsDecoded (inst : Instruction) : Type 0 where
  pub rd_fits : inst.rd < 32
  pub rs1_fits : inst.rs1 < 32
  pub rs2_fits : inst.rs2 < 32
  pub read_alone :
      inst.reads_mem ≡ true → (inst.does_arith_logic ≡ false) × (inst.writes_mem ≡ false)
  pub write_alone :
      inst.writes_mem ≡ true → (inst.does_arith_logic ≡ false) × (inst.writes_rd ≡ false)
  pub result : inst.writes_rd ≡ inst.does_arith_logic || inst.reads_mem
  pub address : inst.reads_mem || inst.writes_mem ≡ true → inst.reads_rs1 ≡ true
  pub stored : inst.writes_mem ≡ true → inst.reads_rs2 ≡ true
  pub idle :
      (inst.is_nop ≡ true) ⊎ (inst.is_halt ≡ true) ⊎ (inst.is_legal ≡ false)
      → (inst.does_arith_logic ≡ false)
        × (inst.reads_mem ≡ false)
        × (inst.writes_mem ≡ false)
        × (inst.writes_rd ≡ false)
  pub exception : inst.mem_exception ≡ false
  pub status : inst.status ≡ normal

fields-IsUndecoded : {inst : Instruction} → IsUndecoded inst → IsUndecoded (decode_fields inst)
unfolding decode_fields
fields-IsUndecoded u = ground arith

abbrev Fits : Instruction → Type 0
Fits inst = (inst.rd < 32) × (inst.rs1 < 32) × (inst.rs2 < 32)

fields_fit : (inst : Instruction) → Fits (decode_fields inst)
unfolding decode_fields
fields_fit inst = (
  extract_bits-lt inst.instruction 11 7 (omega arith),
  extract_bits-lt inst.instruction 19 15 (omega arith),
  extract_bits-lt inst.instruction 24 20 (omega arith),
)

stopped :
    (inst : Instruction) → IsUndecoded inst → Fits inst → IsDecoded (record inst { is_halt = true })
stopped inst u f = ground arith

skipped :
    (inst : Instruction) → IsUndecoded inst → Fits inst → IsDecoded (record inst { is_nop = true })
skipped inst u f = ground arith

switch-IsDecoded :
    (inst : Instruction) → IsUndecoded inst → Fits inst → IsDecoded (decode_switch inst)
switch-IsDecoded inst u f =
    switch_cases IsDecoded inst (ground arith) (ground arith) (ground arith) (ground arith)
      (ground arith) (ground arith) (ground arith) (ground arith)

-- `simDecode` turns every instruction as the fetch hands it over, `IsUndecoded`, into an `IsDecoded`
-- one: its register fields are below 32, it does arithmetic, reads memory or writes memory and no
-- two of these, it writes `rd` exactly when it does arithmetic or reads memory, a memory access reads
-- its first operand and a store its second, and a NOP, a halt and an illegal instruction do none of
-- these.
pub sim_decode-IsDecoded : (inst : Instruction) → IsUndecoded inst → IsDecoded (sim_decode inst)
unfolding sim_decode
sim_decode-IsDecoded inst u =
    let i = decode_fields inst in
    let v : IsUndecoded i = fields-IsUndecoded u in
    let f : Fits i = fields_fit inst in
    if_cases IsDecoded (i.instruction == halt_word) (stopped i v f)
      (if_cases IsDecoded (i.instruction == nop_word) (skipped i v f) (switch-IsDecoded i v f))
