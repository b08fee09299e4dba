-- ===== src/Output/Disassembly/Offsets.antt =====
-- The offsets that `handleBranch` and `handleSpecial` of src/Utilities.cpp print, against the targets
-- that src/simulator.cpp computes.
use ece375_project.Base.{
  not, ◌&&◌, ◌||◌, ◌==◌, if◌then◌else◌, sym, true, false, Bool-cases, inl, inr, [], ◌++◌, ℕ, ◌+◌,
  ◌/◌, ◌%◌, ◌^◌, ◌<◌, ◌≡◌, refl, ap, ◌∙◌, arith,
}
use ece375_project.Word.{add64, extract_bits, sext64}
use ece375_project.Word.Sext.{sext64-signed}
use ece375_project.Instruction.{Instruction}
use ece375_project.Instruction.Encodings.{op_branch, op_jal}
use ece375_project.Decode.{decode_fields}
use ece375_project.Execute.{
  branch_taken, sim_next_pc_resolution, branch_imm, jal_imm, branch_target, jal_target,
}
use ece375_project.Execute.Immediates.{branch_fields, jal_fields, field-shl64}
use ece375_project.Execute.Targets.{decoded_target, resolved-branch, resolved-jal}
use ece375_project.Output.{Text, codes, text_eq, signed_dec}
use ece375_project.Output.Digits.{signed_number, signed_number-signed_dec}
use ece375_project.Output.Names.{get_op_string, reg_name, illegal_text}
use ece375_project.Output.Disassembly.{
  named, branch_operands, special_operands, handle_branch, handle_special, disassembled,
  printed_branch_imm, printed_jal_imm,
}
use ece375_project.Output.Disassembly.Legality.{shows_illegal}
use ece375_project.Output.Disassembly.LastWord.{EndsIn, EndsIn-append, last_word, comma-EndsIn}

branch_imm-lt : (inst : Instruction) → branch_imm inst < 2 ^ 13
unfolding branch_imm
branch_imm-lt inst =
    let a = inst.funct7 / 2 ^ 6 % 2 ^ 1 in
    let b = inst.funct7 / 2 ^ 0 % 2 ^ 6 in
    let c = inst.rd / 2 ^ 1 % 2 ^ 4 in
    let d = inst.rd / 2 ^ 0 % 2 ^ 1 in
    rw
      (
        field-shl64 inst.funct7 6 6 12 a (omega arith) refl (omega arith),
        field-shl64 inst.funct7 5 0 5 b (omega arith) refl (omega arith),
        field-shl64 inst.rd 4 1 1 c (omega arith) refl (omega arith),
        field-shl64 inst.rd 0 0 11 d (omega arith) refl (omega arith),
        branch_fields a b c d (omega arith) (omega arith) (omega arith),
      )
      (omega arith)

jal_imm-lt : (inst : Instruction) → jal_imm inst < 2 ^ 21
unfolding jal_imm
jal_imm-lt inst =
    let x = extract_bits inst.instruction 31 12 in
    let a = x / 2 ^ 19 % 2 ^ 1 in
    let b = x / 2 ^ 9 % 2 ^ 10 in
    let c = x / 2 ^ 8 % 2 ^ 1 in
    let d = x / 2 ^ 0 % 2 ^ 8 in
    rw
      (
        field-shl64 x 19 19 20 a (omega arith) refl (omega arith),
        field-shl64 x 18 9 1 b (omega arith) refl (omega arith),
        field-shl64 x 8 8 11 c (omega arith) refl (omega arith),
        field-shl64 x 7 0 12 d (omega arith) refl (omega arith),
        jal_fields a b c d (omega arith) (omega arith) (omega arith),
      )
      (omega arith)

printed_branch :
    (inst : Instruction)
    → printed_branch_imm inst.instruction ≡ sext64 (branch_imm (decode_fields inst)) 12
unfolding decode_fields printed_branch_imm branch_imm
printed_branch inst = refl

printed_jal : (inst : Instruction) → printed_jal_imm inst.instruction ≡ sext64 (jal_imm inst) 20
unfolding printed_jal_imm jal_imm
printed_jal inst = refl

branched :
    (inst : Instruction)
    → add64 inst.pc (sext64 (branch_imm (decode_fields inst)) 12)
      ≡ branch_target (decode_fields inst)
unfolding branch_target decode_fields
branched inst = refl

jumped : (inst : Instruction) → add64 inst.pc (sext64 (jal_imm inst) 20) ≡ jal_target inst
unfolding jal_target
jumped inst = refl

-- An extended immediate, printed and read back.
read_back :
    (imm k : ℕ)
    → k < 63
    → imm < 2 ^ (k + 1)
    → signed_number (signed_dec (sext64 imm k)) ≡ sext64 imm k
read_back imm k h fits = signed_number-signed_dec (sext64 imm k) (sext64-signed imm k h fits).1

-- A line with a name ends in its operands' last word.
named-EndsIn :
    (u name operands : Text)
    → shows_illegal (named name operands) ≡ false
    → EndsIn u operands
    → EndsIn u (named name operands)
named-EndsIn u name operands shown h = elim (Bool-cases (text_eq name illegal_text)) [
  | inl e ↦ let wrong : shows_illegal (named name operands) ≡ true = rw e refl in absurd (cc)
  | inr e ↦ rw e (EndsIn-append u (codes " " ++ name ++ codes " ") operands h)
]

branch_operands-EndsIn : (w : ℕ) → EndsIn (signed_dec (printed_branch_imm w)) (branch_operands w)
unfolding branch_operands
branch_operands-EndsIn w =
    comma-EndsIn (reg_name (extract_bits w 19 15) ++ codes ", " ++ reg_name (extract_bits w 24 20))
      (printed_branch_imm w)

special_operands-EndsIn :
    (w : ℕ)
    → extract_bits w 6 0 ≡ op_jal
    → EndsIn (signed_dec (printed_jal_imm w)) (special_operands w)
unfolding special_operands
special_operands-EndsIn w e =
    rw e (comma-EndsIn (reg_name (extract_bits w 11 7)) (printed_jal_imm w))

listed_branch :
    (w : ℕ)
    → extract_bits w 6 0 ≡ op_branch
    → shows_illegal (disassembled w) ≡ false
    → last_word (disassembled w) ≡ signed_dec (printed_branch_imm w)
unfolding disassembled handle_branch
listed_branch w e shown =
    let line : disassembled w ≡ handle_branch w = rw e refl in
    let name = get_op_string (extract_bits w 6 0) (extract_bits w 14 12) 0 in
    let named_line : shows_illegal (named name (branch_operands w)) ≡ false =
      sym (ap shows_illegal line) ∙ shown in
    ap last_word line
    ∙ named-EndsIn (signed_dec (printed_branch_imm w)) name (branch_operands w) named_line
        (branch_operands-EndsIn w) []

listed_jal :
    (w : ℕ)
    → extract_bits w 6 0 ≡ op_jal
    → shows_illegal (disassembled w) ≡ false
    → last_word (disassembled w) ≡ signed_dec (printed_jal_imm w)
unfolding disassembled handle_special
listed_jal w e shown =
    let line : disassembled w ≡ handle_special w = rw e refl in
    let name = get_op_string (extract_bits w 6 0) 0 0 in
    let named_line : shows_illegal (named name (special_operands w)) ≡ false =
      sym (ap shows_illegal line) ∙ shown in
    ap last_word line
    ∙ named-EndsIn (signed_dec (printed_jal_imm w)) name (special_operands w) named_line
        (special_operands-EndsIn w e) []

-- The offset that a line ends in, read back.
read_branch :
    (inst : Instruction)
    → (decode_fields inst).opcode ≡ op_branch
    → shows_illegal (disassembled inst.instruction) ≡ false
    → branch_target (decode_fields inst)
      ≡ add64 inst.pc (signed_number (last_word (disassembled inst.instruction)))
unfolding decode_fields
read_branch inst e shown =
    let imm = branch_imm (decode_fields inst) in
    let move = λ (t : Text). add64 inst.pc (signed_number t) in
    sym (
      ap move (listed_branch inst.instruction e shown)
      ∙ ap (λ t. move (signed_dec t)) (printed_branch inst)
      ∙ ap (add64 inst.pc) (read_back imm 12 (omega arith) (branch_imm-lt (decode_fields inst)))
      ∙ branched inst)

read_jal :
    (inst : Instruction)
    → (decode_fields inst).opcode ≡ op_jal
    → shows_illegal (disassembled inst.instruction) ≡ false
    → jal_target (decode_fields inst)
      ≡ add64 inst.pc (signed_number (last_word (disassembled inst.instruction)))
unfolding decode_fields
read_jal inst e shown =
    let move = λ (t : Text). add64 inst.pc (signed_number t) in
    decoded_target inst
    ∙ sym (
        ap move (listed_jal inst.instruction e shown)
        ∙ ap (λ t. move (signed_dec t)) (printed_jal inst)
        ∙ ap (add64 inst.pc) (read_back (jal_imm inst) 20 (omega arith) (jal_imm-lt inst))
        ∙ jumped inst)

decoded_pc : (inst : Instruction) → (decode_fields inst).pc ≡ inst.pc
unfolding decode_fields
decoded_pc inst = refl

-- The listing of a branch or a JAL that is not shown as ILLEGAL ends in its offset: read back and
-- added to the instruction's own address, it is the next PC that the simulator computes, but for a
-- branch that is not taken, whose next PC is the address 4 further on.
pub listed_offset-next_pc :
    (inst : Instruction)
    → ((decode_fields inst).opcode == op_branch || (decode_fields inst).opcode == op_jal) ≡ true
    → shows_illegal (disassembled inst.instruction) ≡ false
    → (sim_next_pc_resolution (decode_fields inst)).next_pc ≡ (
        if (decode_fields inst).opcode == op_branch && not (branch_taken (decode_fields inst))
        then add64 inst.pc 4
        else add64 inst.pc (signed_number (last_word (disassembled inst.instruction))))
listed_offset-next_pc inst either shown =
    let i = decode_fields inst in
    elim (Bool-cases (i.opcode == op_branch)) [
      | inl e ↦
          let op : i.opcode ≡ op_branch = ground arith in
          resolved-branch i op ∙ elim (Bool-cases (branch_taken i)) [
            | inl taken ↦ rw (taken, e) (read_branch inst op shown)
            | inr falls ↦ rw (falls, e) (ap (λ t. add64 t 4) (decoded_pc inst))
          ]
      | inr e ↦
          let op : i.opcode ≡ op_jal = ground arith in
          resolved-jal i op ∙ rw e (read_jal inst op shown)
    ]
