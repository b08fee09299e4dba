-- ===== src/Output/Disassembly/Legality.antt =====
-- `getOpString` and `printInstr` of src/Utilities.cpp against `simDecode` of src/simulator.cpp: which
-- words have a name.
use ece375_project.Base.{
  ℕ, ◌≡◌, refl, arith, Bool, true, false, not, ◌&&◌, ◌||◌, [], ◌∷◌, ◌++◌, leb, Bool-cases, ap, sym,
  ◌∙◌, if_split, ◌==◌, inl, inr,
}
use ece375_project.Instruction.{Instruction}
use ece375_project.Instruction.Encodings
use ece375_project.Decode.{halt_word, nop_word, decode_fields, sim_decode, decode_switch}
use ece375_project.Output.{Text, codes, text_eq}
use ece375_project.Word.{extract_bits}
use ece375_project.Output.Disassembly.{
  named, handle_i_and_r, handle_l_and_s, handle_branch, handle_special, disassembled,
  i_and_r_operands, l_and_s_operands, branch_operands, special_operands,
}
use ece375_project.Output.Names.{illegal_text, get_op_string}

-- An ADDIW whose immediate's upper bits are neither those of an ADD nor of a SUB.
abbrev pub unnamed_addiw : Instruction → Bool
unnamed_addiw inst =
    inst.opcode == Encodings.op_intimmw
    && inst.funct3 == Encodings.funct3_add
    && not (inst.funct7 == Encodings.funct7_add || inst.funct7 == Encodings.funct7_sub)

abbrev is_illegal : Text → Bool
is_illegal t = text_eq t illegal_text

get_op_string-legal :
    (inst : Instruction)
    → inst.is_legal ≡ true
    → is_illegal (get_op_string inst.opcode inst.funct3 inst.funct7)
      ≡ not (decode_switch inst).is_legal || unnamed_addiw inst
unfolding get_op_string decode_switch
get_op_string-legal inst legal = ground arith

fields_legal :
    (inst : Instruction)
    → inst.is_legal ≡ true
    → is_illegal (
        get_op_string
          (extract_bits inst.instruction 6 0)
          (extract_bits inst.instruction 14 12)
          (extract_bits inst.instruction 31 25))
      ≡ not (decode_switch (decode_fields inst)).is_legal || unnamed_addiw (decode_fields inst)
unfolding decode_fields
fields_legal inst legal = get_op_string-legal (decode_fields inst) legal

switched :
    (inst : Instruction)
    → (inst.instruction == halt_word) ≡ false
    → (inst.instruction == nop_word) ≡ false
    → sim_decode inst ≡ decode_switch (decode_fields inst)
unfolding sim_decode decode_fields
switched inst running busy = rw (running, busy) refl

-- A name does not begin like "ILLEGAL" unless it is that.
abbrev is_name : Text → Bool
is_name [] = false
is_name (c ∷ t) = is_illegal (c ∷ t) || leb b'a' c

get_op_string_name :
    (opcode funct3 funct7 : ℕ) → is_name (get_op_string opcode funct3 funct7) ≡ true
unfolding get_op_string
get_op_string_name opcode funct3 funct7 = ground arith

abbrev pub shows_illegal : Text → Bool
shows_illegal t = text_eq t (codes " ILLEGAL")

-- What follows a name does not make it look illegal.
unlike : (c : ℕ) (t : Text) → leb b'a' c ≡ true → shows_illegal (b' ' ∷ c ∷ t) ≡ false
unlike c t h = ground arith

shown :
    (name operands : Text)
    → is_name name ≡ true
    → shows_illegal (named name operands) ≡ is_illegal name
shown [] operands h = absurd (cc)
shown (c ∷ t) operands h = elim (Bool-cases (is_illegal (c ∷ t))) [
  | inl e ↦ rw e refl
  | inr e ↦ rw e (unlike c (t ++ codes " " ++ operands) (sym (ap (λ b. b || leb b'a' c) e) ∙ h))
]

shown_op :
    (opcode funct3 funct7 : ℕ) (operands : Text)
    → shows_illegal (named (get_op_string opcode funct3 funct7) operands)
      ≡ is_illegal (get_op_string opcode funct3 funct7)
shown_op opcode funct3 funct7 operands =
    shown (get_op_string opcode funct3 funct7) operands (get_op_string_name opcode funct3 funct7)

-- Where a handler passes zeros to `getOpString`, the fields it drops make no difference.
funct7_unread :
    (opcode funct3 funct7 : ℕ)
    → (opcode == Encodings.op_load || opcode == Encodings.op_store || opcode == Encodings.op_branch)
      ≡ true
    → get_op_string opcode funct3 0 ≡ get_op_string opcode funct3 funct7
unfolding get_op_string
funct7_unread opcode funct3 funct7 h = ground arith

functs_unread :
    (opcode funct3 funct7 : ℕ)
    → (opcode == Encodings.op_jal || opcode == Encodings.op_lui || opcode == Encodings.op_auipc)
      ≡ true
    → get_op_string opcode 0 0 ≡ get_op_string opcode funct3 funct7
unfolding get_op_string
functs_unread opcode funct3 funct7 h = ground arith

abbrev is_register_form : ℕ → Bool
is_register_form opcode =
    opcode == Encodings.op_int
    || opcode == Encodings.op_intw
    || opcode == Encodings.op_intimm
    || opcode == Encodings.op_intimmw
    || opcode == Encodings.op_jalr

unknown_op :
    (opcode funct3 funct7 : ℕ)
    → is_register_form opcode ≡ false
    → (opcode == Encodings.op_load || opcode == Encodings.op_store) ≡ false
    → (opcode == Encodings.op_branch) ≡ false
    → (opcode == Encodings.op_jal || opcode == Encodings.op_lui || opcode == Encodings.op_auipc)
      ≡ false
    → get_op_string opcode funct3 funct7 ≡ illegal_text
unfolding get_op_string
unknown_op opcode funct3 funct7 a b c d = ground arith

-- What `printInstr` shows for a word, as its opcode chooses.
disassembled-name :
    (w : ℕ)
    → shows_illegal (disassembled w)
      ≡ is_illegal
          (get_op_string (extract_bits w 6 0) (extract_bits w 14 12) (extract_bits w 31 25))
unfolding disassembled handle_i_and_r handle_l_and_s handle_branch handle_special
disassembled-name w =
    let op = extract_bits w 6 0 in
    let f3 = extract_bits w 14 12 in
    let f7 = extract_bits w 31 25 in
    let P : Text → Type 0 = λ t. shows_illegal t ≡ is_illegal (get_op_string op f3 f7) in
    if_split P (is_register_form op) (λ _. shown_op op f3 f7 (i_and_r_operands w))
      λ a.
        if_split P (op == Encodings.op_load || op == Encodings.op_store)
          (λ e.
            shown_op op f3 0 (l_and_s_operands w)
            ∙ ap is_illegal (funct7_unread op f3 f7 (ground arith)))
          λ b.
            if_split P (op == Encodings.op_branch)
              (λ e.
                shown_op op f3 0 (branch_operands w)
                ∙ ap is_illegal (funct7_unread op f3 f7 (ground arith)))
              λ c.
                if_split P
                  (op == Encodings.op_jal || op == Encodings.op_lui || op == Encodings.op_auipc)
                  (λ e.
                    shown_op op 0 0 (special_operands w) ∙ ap is_illegal (functs_unread op f3 f7 e))
                  (λ d. sym (ap is_illegal (unknown_op op f3 f7 a b c d)))

-- For a word that is neither HALT nor NOP, fetched with `isLegal` set, the column of `printInstr`
-- says ILLEGAL exactly when `simDecode` finds the word illegal or the word is an ADDIW whose upper
-- immediate bits are neither those of an ADD nor those of a SUB.
pub disassembled-sim_decode :
    (inst : Instruction)
    → inst.is_legal ≡ true
    → (inst.instruction == halt_word) ≡ false
    → (inst.instruction == nop_word) ≡ false
    → shows_illegal (disassembled inst.instruction)
      ≡ not (sim_decode inst).is_legal || unnamed_addiw (decode_fields inst)
disassembled-sim_decode inst legal running busy =
    disassembled-name inst.instruction
    ∙ fields_legal inst legal
    ∙ ap (λ t. not t.is_legal || unnamed_addiw (decode_fields inst))
        (sym (switched inst running busy))
