-- ===== src/Execute/Immediates.antt =====
-- The decoder and the immediates of src/simulator.cpp on words in the formats of the manual.
use native.Mathlib.Nat.{mod-eq_of_lt}
use ece375_project.Base.{
  ℕ, ◌+◌, ◌-◌, ◌*◌, ◌/◌, ◌%◌, ◌^◌, ◌<◌, ◌≡◌, refl, ap, ◌∙◌, bit_or, true, false, arith,
}
use ece375_project.Word.{add64, shl64, extract_bits, sext64}
use ece375_project.Word.Fields.{extract_bits_lem}
use ece375_project.Word.Bits.{bit_or_fields}
use ece375_project.Word.Disjoint.{or_comm, bit_or_between}
use ece375_project.Word.Sext.{sext64_lem}
use ece375_project.Instruction.{Instruction}
use ece375_project.Decode.{decode_fields}
use ece375_project.Execute.{branch_imm, jal_imm, sim_addr_gen}
use ece375_project.Execute.Encode.{word, s_word, j_word, moved}

-- The decoder reads the six fields of a word back, each within its width.
pub decode_fields-word :
    (inst : Instruction) (opcode rd funct3 rs1 rs2 funct7 : ℕ)
    → opcode < 2 ^ 7
    → rd < 2 ^ 5
    → funct3 < 2 ^ 3
    → rs1 < 2 ^ 5
    → rs2 < 2 ^ 5
    → funct7 < 2 ^ 7
    → inst.instruction ≡ word opcode rd funct3 rs1 rs2 funct7
    → decode_fields inst ≡ record inst {
      opcode = opcode;
      rd = rd;
      funct3 = funct3;
      rs1 = rs1;
      rs2 = rs2;
      funct7 = funct7;
    }
unfolding decode_fields
decode_fields-word inst opcode rd funct3 rs1 rs2 funct7 a b c d e f w =
    let x = inst.instruction in
    let e0 : extract_bits x 6 0 ≡ opcode =
      extract_bits_lem x 6 0 (omega arith) ∙ omega (arith, w) in
    let e1 : extract_bits x 11 7 ≡ rd = extract_bits_lem x 11 7 (omega arith) ∙ omega (arith, w) in
    let e2 : extract_bits x 14 12 ≡ funct3 =
      extract_bits_lem x 14 12 (omega arith) ∙ omega (arith, w) in
    let e3 : extract_bits x 19 15 ≡ rs1 =
      extract_bits_lem x 19 15 (omega arith) ∙ omega (arith, w) in
    let e4 : extract_bits x 24 20 ≡ rs2 =
      extract_bits_lem x 24 20 (omega arith) ∙ omega (arith, w) in
    let e5 : extract_bits x 31 25 ≡ funct7 =
      extract_bits_lem x 31 25 (omega arith) ∙ omega (arith, w) in
    λ i. record inst {
      opcode = e0 i;
      rd = e1 i;
      funct3 = e2 i;
      rs1 = e3 i;
      rs2 = e4 i;
      funct7 = e5 i;
    }

pub branch_fields :
    (a b c d : ℕ)
    → b < 2 ^ 6
    → c < 2 ^ 4
    → d < 2
    → bit_or (bit_or (bit_or (a * 2 ^ 12) (b * 2 ^ 5)) (c * 2 ^ 1)) (d * 2 ^ 11)
      ≡ a * 2 ^ 12 + d * 2 ^ 11 + b * 2 ^ 5 + c * 2
branch_fields a b c d hb hc hd =
    let one : bit_or (a * 2 ^ 12) (b * 2 ^ 5) ≡ (a * 2 ^ 7 + b) * 2 ^ 5 + 0 =
      ap (λ t. bit_or t (b * 2 ^ 5)) (omega arith)
      ∙ bit_or_between 5 7 a b 0 (omega arith) (omega arith)
      ∙ omega arith in
    let two : bit_or ((a * 2 ^ 7 + b) * 2 ^ 5 + 0) (c * 2 ^ 1) ≡ a * 2 ^ 12 + (b * 2 ^ 5 + c * 2) =
      bit_or_between 1 4 (a * 2 ^ 7 + b) c 0 (omega arith) hc ∙ omega arith in
    let three = bit_or_between 11 1 a d (b * 2 ^ 5 + c * 2) (omega arith) hd in
    rw (one, two) (three ∙ omega arith)

pub jal_fields :
    (a b c d : ℕ)
    → b < 2 ^ 10
    → c < 2
    → d < 2 ^ 8
    → bit_or (bit_or (bit_or (a * 2 ^ 20) (b * 2 ^ 1)) (c * 2 ^ 11)) (d * 2 ^ 12)
      ≡ a * 2 ^ 20 + d * 2 ^ 12 + c * 2 ^ 11 + b * 2
jal_fields a b c d hb hc hd =
    let one : bit_or (a * 2 ^ 20) (b * 2 ^ 1) ≡ a * 2 ^ 9 * 2 ^ 11 + 2 ^ 0 * (b * 2) =
      ap (λ t. bit_or t (b * 2 ^ 1)) (omega arith)
      ∙ bit_or_between 1 19 a b 0 (omega arith) (omega arith)
      ∙ omega arith in
    let two : bit_or (a * 2 ^ 9 * 2 ^ 11 + 2 ^ 0 * (b * 2)) (c * 2 ^ 11)
        ≡ a * 2 ^ 20 + (c * 2 ^ 11 + b * 2) =
      ap (λ t. bit_or t (c * 2 ^ 11)) (omega arith)
      ∙ bit_or_between 11 9 a c (b * 2) (omega arith) (omega arith)
      ∙ omega arith in
    let three = bit_or_between 12 8 a d (c * 2 ^ 11 + b * 2) (omega arith) hd in
    rw (one, two) (three ∙ omega arith)

-- A field, read and shifted left, where nothing is lost.
pub field-shl64 :
    (x start end k a : ℕ)
    → start + 1 - end < 31
    → x / 2 ^ end % 2 ^ (start + 1 - end) ≡ a
    → a * 2 ^ k < 2 ^ 64
    → shl64 (extract_bits x start end) k ≡ a * 2 ^ k
field-shl64 x start end k a h e fits = rw (extract_bits_lem x start end h, e) (mod-eq_of_lt fits)

pub branch_imm-fields :
    (inst : Instruction) (imm : ℕ)
    → imm < 2 ^ 13
    → imm % 2 ≡ 0
    → inst.rd ≡ imm / 2 ^ 11 % 2 + imm / 2 % 2 ^ 4 * 2
    → inst.funct7 ≡ imm / 2 ^ 5 % 2 ^ 6 + imm / 2 ^ 12 % 2 * 2 ^ 6
    → branch_imm inst ≡ imm
unfolding branch_imm
branch_imm-fields inst imm fits even rd_is funct7_is =
    rw
      (
        field-shl64 inst.funct7 6 6 12 (imm / 2 ^ 12) (omega arith) (omega arith) (omega arith),
        field-shl64 inst.funct7 5 0 5 (imm / 2 ^ 5 % 2 ^ 6) (omega arith) (omega arith)
            (omega arith),
        field-shl64 inst.rd 4 1 1 (imm / 2 % 2 ^ 4) (omega arith) (omega arith) (omega arith),
        field-shl64 inst.rd 0 0 11 (imm / 2 ^ 11 % 2) (omega arith) (omega arith) (omega arith),
      )
      (branch_fields (imm / 2 ^ 12) (imm / 2 ^ 5 % 2 ^ 6) (imm / 2 % 2 ^ 4) (imm / 2 ^ 11 % 2)
          (omega arith) (omega arith) (omega arith)
        ∙ omega arith)

pub jal_imm-word :
    (inst : Instruction) (opcode rd imm : ℕ)
    → opcode < 2 ^ 7
    → rd < 2 ^ 5
    → imm < 2 ^ 21
    → imm % 2 ≡ 0
    → inst.instruction ≡ j_word opcode rd imm
    → jal_imm inst ≡ imm
unfolding jal_imm
jal_imm-word inst opcode rd imm opcode_fits rd_fits fits even word_is =
    let imm20 =
      imm / 2 ^ 12 % 2 ^ 8
      + imm / 2 ^ 11 % 2 * 2 ^ 8
      + imm / 2 % 2 ^ 10 * 2 ^ 9
      + imm / 2 ^ 20 % 2 * 2 ^ 19 in
    let is20 : extract_bits inst.instruction 31 12 ≡ imm20 =
      extract_bits_lem inst.instruction 31 12 (omega arith) ∙ omega (arith, word_is) in
    rw
      (
        is20,
        field-shl64 imm20 19 19 20 (imm / 2 ^ 20) (omega arith) (omega arith) (omega arith),
        field-shl64 imm20 18 9 1 (imm / 2 % 2 ^ 10) (omega arith) (omega arith) (omega arith),
        field-shl64 imm20 8 8 11 (imm / 2 ^ 11 % 2) (omega arith) (omega arith) (omega arith),
        field-shl64 imm20 7 0 12 (imm / 2 ^ 12 % 2 ^ 8) (omega arith) (omega arith) (omega arith),
      )
      (jal_fields (imm / 2 ^ 20) (imm / 2 % 2 ^ 10) (imm / 2 ^ 11 % 2) (imm / 2 ^ 12 % 2 ^ 8)
          (omega arith) (omega arith) (omega arith)
        ∙ omega arith)

pub moved_by :
    (pc imm k : ℕ) → k < 63 → imm < 2 ^ (k + 1) → add64 pc (sext64 imm k) ≡ moved k pc imm
moved_by pc imm k hk fits = rw (sext64_lem imm k hk fits) refl

-- A store in the S format with the 12-bit offset `imm` addresses, once decoded, the value of its
-- base register moved by `imm`, whose sign is bit 11.
pub sim_addr_gen-s_word :
    (inst : Instruction) (opcode funct3 rs1 rs2 imm : ℕ)
    → opcode < 2 ^ 7
    → funct3 < 2 ^ 3
    → rs1 < 2 ^ 5
    → rs2 < 2 ^ 5
    → imm < 2 ^ 12
    → inst.instruction ≡ s_word opcode funct3 rs1 rs2 imm
    → inst.reads_mem ≡ false
    → inst.writes_mem ≡ true
    → (sim_addr_gen (decode_fields inst)).mem_address ≡ moved 11 inst.op1_val imm
unfolding sim_addr_gen
sim_addr_gen-s_word inst opcode funct3 rs1 rs2 imm a b c d fits word_is no_load store =
    let low : imm % 2 ^ 5 < 2 ^ 5 = omega arith in
    let high : imm / 2 ^ 5 % 2 ^ 7 < 2 ^ 7 = omega arith in
    let fields = decode_fields-word inst opcode _ funct3 rs1 rs2 _ a low b c d high word_is in
    let joined : bit_or (shl64 (imm / 2 ^ 5 % 2 ^ 7) 5) (imm % 2 ^ 5) ≡ imm =
      ap (λ t. bit_or t (imm % 2 ^ 5)) (mod-eq_of_lt (omega arith))
      ∙ or_comm (imm / 2 ^ 5 % 2 ^ 7 * 2 ^ 5) (imm / 2 ^ 5 % 2 ^ 7 * 2 ^ 5) (imm % 2 ^ 5)
          (omega arith)
      ∙ bit_or_fields 5 (imm / 2 ^ 5 % 2 ^ 7) (imm % 2 ^ 5) low
      ∙ omega arith in
    rw (fields, no_load, store, joined) (moved_by inst.op1_val imm 11 (omega arith) fits)
