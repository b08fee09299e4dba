-- ===== src/Instruction.antt =====
-- The encodings of src/Utilities.h and the decoded instruction of src/simulator.h, which every
-- stage of both simulators hands on.
pub mod Encodings
use ece375_project.Base.{ℕ, Bool, true, false}

-- `enum StageStatus`.
pub data StageStatus : Type 0 where
  normal bubble idle speculative squashed : StageStatus

abbrev pub is_bubble : StageStatus → Bool
is_bubble bubble = true
is_bubble _ = false

abbrev pub is_idle : StageStatus → Bool
is_idle idle = true
is_idle _ = false

abbrev pub is_speculative : StageStatus → Bool
is_speculative speculative = true
is_speculative _ = false

abbrev pub is_squashed : StageStatus → Bool
is_squashed squashed = true
is_squashed _ = false

-- `Simulator::Instruction`.
pub record Instruction : Type 0 where
  pub pc : ℕ
  pub instruction : ℕ
  pub is_halt : Bool
  pub is_legal : Bool
  pub is_nop : Bool
  pub reads_mem : Bool
  pub writes_mem : Bool
  pub does_arith_logic : Bool
  pub writes_rd : Bool
  pub reads_rs1 : Bool
  pub reads_rs2 : Bool
  pub opcode : ℕ
  pub funct3 : ℕ
  pub funct7 : ℕ
  pub rd : ℕ
  pub rs1 : ℕ
  pub rs2 : ℕ
  pub next_pc : ℕ
  pub op1_val : ℕ
  pub op2_val : ℕ
  pub arith_result : ℕ
  pub mem_address : ℕ
  pub mem_exception : Bool
  pub mem_result : ℕ
  pub val_to_write : ℕ
  pub instruction_id : ℕ
  pub status : StageStatus

-- An instruction with every member at its initializer.
abbrev pub fresh : Instruction
fresh = record {
  pc = 0;
  instruction = 0;
  is_halt = false;
  is_legal = true;
  is_nop = false;
  reads_mem = false;
  writes_mem = false;
  does_arith_logic = false;
  writes_rd = false;
  reads_rs1 = false;
  reads_rs2 = false;
  opcode = 0;
  funct3 = 0;
  funct7 = 0;
  rd = 0;
  rs1 = 0;
  rs2 = 0;
  next_pc = 0;
  op1_val = 0;
  op2_val = 0;
  arith_result = 0;
  mem_address = 0;
  mem_exception = false;
  mem_result = 0;
  val_to_write = 0;
  instruction_id = 0;
  status = normal;
}
