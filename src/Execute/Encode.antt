-- ===== src/Execute/Encode.antt =====
-- The instruction formats of the RISC-V manual, as numbers: what the decoder and the immediates of
-- src/simulator.cpp are measured against.
use ece375_project.Base.Int.{ltb_ℤ}
use ece375_project.Word.{signed}
use ece375_project.Base.{ℕ, ◌+◌, ◌-◌, ◌*◌, ◌/◌, ◌%◌, ◌^◌, Bool, not, ◌&&◌, ◌==◌, ltb, if◌then◌else◌}

-- A word by its six fields.
abbrev pub word : ℕ → ℕ → ℕ → ℕ → ℕ → ℕ → ℕ
word opcode rd funct3 rs1 rs2 funct7 =
    opcode + rd * 2 ^ 7 + funct3 * 2 ^ 12 + rs1 * 2 ^ 15 + rs2 * 2 ^ 20 + funct7 * 2 ^ 25

-- I: imm[11:0] at bit 20.
abbrev pub i_word : ℕ → ℕ → ℕ → ℕ → ℕ → ℕ
i_word opcode rd funct3 rs1 imm =
    opcode + rd * 2 ^ 7 + funct3 * 2 ^ 12 + rs1 * 2 ^ 15 + imm * 2 ^ 20

-- S: imm[4:0] as rd, imm[11:5] as funct7.
abbrev pub s_word : ℕ → ℕ → ℕ → ℕ → ℕ → ℕ
s_word opcode funct3 rs1 rs2 imm = word opcode (imm % 2 ^ 5) funct3 rs1 rs2 (imm / 2 ^ 5 % 2 ^ 7)

-- B: imm[4:1] and imm[11] as rd, imm[10:5] and imm[12] as funct7.
abbrev pub b_word : ℕ → ℕ → ℕ → ℕ → ℕ → ℕ
b_word opcode funct3 rs1 rs2 imm =
    word opcode (imm / 2 ^ 11 % 2 + imm / 2 % 2 ^ 4 * 2) funct3 rs1 rs2
      (imm / 2 ^ 5 % 2 ^ 6 + imm / 2 ^ 12 % 2 * 2 ^ 6)

-- J: imm[19:12], imm[11], imm[10:1] and imm[20] from bit 12 on.
abbrev pub j_word : ℕ → ℕ → ℕ → ℕ
j_word opcode rd imm =
    opcode
    + rd * 2 ^ 7
    + imm / 2 ^ 12 % 2 ^ 8 * 2 ^ 12
    + imm / 2 ^ 11 % 2 * 2 ^ 20
    + imm / 2 % 2 ^ 10 * 2 ^ 21
    + imm / 2 ^ 20 % 2 * 2 ^ 31

-- `pc` moved by an offset in two's complement whose sign is bit `k`, modulo 2^64.
abbrev pub moved : ℕ → ℕ → ℕ → ℕ
moved k pc offset =
    (pc + (if ltb offset (2 ^ k) then offset else offset + (2 ^ 64 - 2 ^ (k + 1)))) % 2 ^ 64

-- Whether a branch of the manual is taken, by its funct3. The upper bits choose between equal (0),
-- signed less (2) and unsigned less (3), and the lowest bit asks for the opposite.
abbrev pub takes : ℕ → ℕ → ℕ → Bool
takes funct3 a b =
    let holds =
      if funct3 / 2 == 0
      then a == b
      else if funct3 / 2 == 2
      then ltb_ℤ (signed 64 a) (signed 64 b)
      else ltb a b in
    not (funct3 / 2 == 1) && (if funct3 % 2 == 0 then holds else not holds)
