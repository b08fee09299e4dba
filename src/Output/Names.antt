-- ===== src/Output/Names.antt =====
-- The names of src/Utilities.h and src/Utilities.cpp: registers, stage states and `getOpString`,
-- one function for the cases of each opcode. `none` is the source's early return of "ILLEGAL".
use ece375_project.Base.{
  ℕ, ◌/◌, Option, none, some, List, [], ◌∷◌, ◌++◌, get_or, ◌==◌, if◌then◌else◌,
}
use ece375_project.Output.{Text, codes}
use ece375_project.Instruction.{StageStatus, normal, bubble, idle, speculative, squashed}
use ece375_project.Instruction.Encodings.{
  op_int, op_intw, op_load, op_intimm, op_intimmw, op_jalr, op_store, op_branch, op_auipc, op_lui,
  op_jal, funct3_add, funct3_sll, funct3_slt, funct3_sltu, funct3_xor, funct3_sr, funct3_or,
  funct3_and, funct3_b, funct3_h, funct3_w, funct3_d, funct3_bu, funct3_hu, funct3_wu, funct3_beq,
  funct3_bne, funct3_blt, funct3_bge, funct3_bltu, funct3_bgeu, funct7_add, funct7_sub,
  funct7_logical, funct7_arith, upperimm_logical, upperimm_arith,
}

abbrev pub reg_names : List Text
reg_names =
    codes "zero"
    ∷ codes "ra"
    ∷ codes "sp"
    ∷ codes "gp"
    ∷ codes "tp"
    ∷ codes "t0"
    ∷ codes "t1"
    ∷ codes "t2"
    ∷ codes "s0"
    ∷ codes "s1"
    ∷ codes "a0"
    ∷ codes "a1"
    ∷ codes "a2"
    ∷ codes "a3"
    ∷ codes "a4"
    ∷ codes "a5"
    ∷ codes "a6"
    ∷ codes "a7"
    ∷ codes "s2"
    ∷ codes "s3"
    ∷ codes "s4"
    ∷ codes "s5"
    ∷ codes "s6"
    ∷ codes "s7"
    ∷ codes "s8"
    ∷ codes "s9"
    ∷ codes "s10"
    ∷ codes "s11"
    ∷ codes "t3"
    ∷ codes "t4"
    ∷ codes "t5"
    ∷ codes "t6"
    ∷ []

-- `regNames[r]`: the index is five bits of the word.
abbrev pub reg_name : ℕ → Text
reg_name r = get_or reg_names r []

abbrev pub stage_status_str : StageStatus → Text
stage_status_str bubble = codes " (bubble) "
stage_status_str idle = codes " (idle) "
stage_status_str normal = codes " "
stage_status_str speculative = codes " (spcu) "
stage_status_str squashed = codes " (squashed) "

abbrev pub illegal_text : Text
illegal_text = codes "ILLEGAL"

-- `body` for OP_INT and OP_INTIMM.
unfoldable pub int_body : ℕ → ℕ → ℕ → Option Text
int_body opcode funct3 funct7 =
    if funct3 == funct3_add
    then (if opcode == op_int
        then (if funct7 == funct7_add
            then some (codes "add")
            else if funct7 == funct7_sub
            then some (codes "sub")
            else none)
        else some (codes "add"))
    else if funct3 == funct3_sll
    then some (codes "sll")
    else if funct3 == funct3_slt
    then some (codes "slt")
    else if funct3 == funct3_sltu
    then some (codes "sltu")
    else if funct3 == funct3_xor
    then some (codes "xor")
    else if funct3 == funct3_sr
    then (if funct7 / 2 == upperimm_logical
        then some (codes "srl")
        else if funct7 / 2 == upperimm_arith
        then some (codes "sra")
        else none)
    else if funct3 == funct3_or
    then some (codes "or")
    else if funct3 == funct3_and
    then some (codes "and")
    else none

-- `body` for OP_INTW and OP_INTIMMW.
unfoldable pub intw_body : ℕ → ℕ → Option Text
intw_body funct3 funct7 =
    if funct3 == funct3_add
    then (if funct7 == funct7_add
        then some (codes "add")
        else if funct7 == funct7_sub
        then some (codes "sub")
        else none)
    else if funct3 == funct3_sll
    then some (codes "sll")
    else if funct3 == funct3_sr
    then (if funct7 == funct7_logical
        then some (codes "srl")
        else if funct7 == funct7_arith
        then some (codes "sra")
        else none)
    else none

unfoldable pub load_body : ℕ → Option Text
load_body funct3 =
    if funct3 == funct3_b
    then some (codes "b")
    else if funct3 == funct3_h
    then some (codes "h")
    else if funct3 == funct3_w
    then some (codes "w")
    else if funct3 == funct3_d
    then some (codes "d")
    else if funct3 == funct3_bu
    then some (codes "bu")
    else if funct3 == funct3_hu
    then some (codes "hu")
    else if funct3 == funct3_wu
    then some (codes "wu")
    else none

unfoldable pub store_body : ℕ → Option Text
store_body funct3 =
    if funct3 == funct3_b
    then some (codes "b")
    else if funct3 == funct3_h
    then some (codes "h")
    else if funct3 == funct3_w
    then some (codes "w")
    else if funct3 == funct3_d
    then some (codes "d")
    else none

unfoldable pub branch_body : ℕ → Option Text
branch_body funct3 =
    if funct3 == funct3_beq
    then some (codes "eq")
    else if funct3 == funct3_bne
    then some (codes "ne")
    else if funct3 == funct3_blt
    then some (codes "lt")
    else if funct3 == funct3_bge
    then some (codes "ge")
    else if funct3 == funct3_bltu
    then some (codes "ltu")
    else if funct3 == funct3_bgeu
    then some (codes "geu")
    else none

-- `return prefix + body + suffix`, unless the `switch` has returned.
abbrev pub assembled : Text → Option Text → Text → Text
assembled prefix none suffix = illegal_text
assembled prefix (some body) suffix = prefix ++ body ++ suffix

unfoldable pub get_op_string : ℕ → ℕ → ℕ → Text
unfolding int_body intw_body load_body store_body branch_body
get_op_string opcode funct3 funct7 =
    if opcode == op_intimm
    then assembled [] (int_body opcode funct3 funct7) (codes "i")
    else if opcode == op_int
    then assembled [] (int_body opcode funct3 funct7) []
    else if opcode == op_intimmw
    then assembled [] (intw_body funct3 funct7) (codes "iw")
    else if opcode == op_intw
    then assembled [] (intw_body funct3 funct7) (codes "w")
    else if opcode == op_load
    then assembled (codes "l") (load_body funct3) []
    else if opcode == op_store
    then assembled (codes "s") (store_body funct3) []
    else if opcode == op_branch
    then assembled (codes "b") (branch_body funct3) []
    else if opcode == op_jal
    then codes "jal"
    else if opcode == op_jalr
    then codes "jalr"
    else if opcode == op_lui
    then codes "lui"
    else if opcode == op_auipc
    then codes "auipc"
    else illegal_text
