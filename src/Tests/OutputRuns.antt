-- ===== src/Tests/OutputRuns.antt =====
-- Words of the RISC-V manual's formats, the printed text and the files at concrete inputs.
use mathlib.Core.Option
use ece375_project.Base.{
  ℕ, ◌^◌, ◌<◌, ◌≡◌, ◌≢◌, refl, arith, true, false, not, ◌||◌, ◌&&◌, ◌==◌, ◌%◌, ◌+◌, ◌-◌,
  if◌then◌else◌, ◌++◌, none, some, List, [], ◌∷◌, map, replicate, get_or, All-replicate,
}
use ece375_project.Base.Int.{pos}
use ece375_project.Word.{add64, extract_bits}
use ece375_project.Memory.{MemoryStore, word_size, set_mem_value, get_mem_value}
use ece375_project.Memory.Image.{number, other, prepare_memory}
use ece375_project.Memory.Image.Prepared.{
  flat, written_image, prepare_memory-flat, prepare_memory-overflow,
}
use ece375_project.Memory.Image.Returns.{prepare_memory-returns}
use ece375_project.Memory.Print.{print_mem_array}
use ece375_project.Memory.Print.Returns.{print_mem_array-returns}
use ece375_project.Instruction.{Instruction, fresh, idle}
use ece375_project.Decode.{decode_fields, sim_decode}
use ece375_project.Instruction.Encodings.{op_branch}
use ece375_project.Execute.{sim_next_pc_resolution, branch_taken, sim_addr_gen}
use ece375_project.Execute.Encode.{takes, moved}
use ece375_project.Execute.Immediates.{decode_fields-word, sim_addr_gen-s_word}
use ece375_project.Execute.Targets.{next_pc-b_word, next_pc-j_word}
use ece375_project.Cycle.{PipeState}
use ece375_project.Output.{codes, endl, hex}
use ece375_project.Output.Names.{get_op_string}
use ece375_project.Output.Digits.{signed_number}
use ece375_project.Output.Disassembly.{
  disassembled, handle_i_and_r, handle_l_and_s, handle_special, i_and_r_operands, l_and_s_operands,
  special_operands, handle_branch,
}
use ece375_project.Output.Disassembly.Legality.{
  shows_illegal, unnamed_addiw, disassembled-sim_decode,
}
use ece375_project.Output.Disassembly.Offsets.{listed_offset-next_pc}
use ece375_project.Output.Disassembly.LastWord.{last_word}
use ece375_project.Output.Dump.{
  PipeFile, SimulationStats, joined, pipe_line, dump_sim_stats, dump_register_state,
}
use ece375_project.Output.Dump.ReadBack.{numbers, Fits, numbers-dump_sim_stats}
use ece375_project.Output.Dump.Registers.{shown_registers, numbers-dump_register_state}
use ece375_project.Output.Dump.Appends.{dumped, dumped-joined}
use ece375_project.Tests.{linux}

-- `addi sp, sp, -32` at 0x10.
abbrev addi : Instruction
addi = record fresh { pc = 0x10; instruction = 0xfe010113 }

decode_fields-word_example :
    decode_fields addi
    ≡ record addi { opcode = 0x13; rd = 2; funct3 = 0; rs1 = 2; rs2 = 0; funct7 = 0x7f }
decode_fields-word_example =
    decode_fields-word addi 0x13 2 0 2 0 0x7f (omega arith) (omega arith) (omega arith)
      (omega arith) (omega arith) (omega arith) refl

-- `beq a0, a1, -4`.
abbrev beq : Instruction
beq = record fresh { pc = 0x10; instruction = 0xfeb50ee3; op1_val = 7; op2_val = 7 }

next_pc-b_word_example :
    (sim_next_pc_resolution (decode_fields beq)).next_pc
    ≡ (if takes 0 7 7 then moved 12 0x10 0x1ffc else (0x10 + 4) % 2 ^ 64)
next_pc-b_word_example =
    next_pc-b_word beq 0 10 11 0x1ffc (omega arith) (omega arith) (omega arith) (omega arith) refl
      refl

-- `jal ra, 0x800`.
abbrev jal : Instruction
jal = record fresh { pc = 0x10; instruction = 0x001000ef }

next_pc-j_word_example : (sim_next_pc_resolution (decode_fields jal)).next_pc ≡ moved 20 0x10 0x800
next_pc-j_word_example = next_pc-j_word jal 1 0x800 (omega arith) (omega arith) refl refl

-- `sd ra, 24(sp)`.
abbrev sd : Instruction
sd = record fresh { instruction = 0x00113c23; op1_val = 0x100; writes_mem = true }

sim_addr_gen-s_word_example : (sim_addr_gen (decode_fields sd)).mem_address ≡ moved 11 0x100 24
unfolding decode_fields
sim_addr_gen-s_word_example =
    sim_addr_gen-s_word sd 0x23 3 2 1 24 (omega arith) (omega arith) (omega arith) (omega arith)
      (omega arith) refl refl refl

disassembled-sim_decode_example :
    shows_illegal (disassembled 0xfe010113)
    ≡ not (sim_decode addi).is_legal || unnamed_addiw (decode_fields addi)
disassembled-sim_decode_example = disassembled-sim_decode addi refl refl refl

listed_offset-next_pc_example : (sim_next_pc_resolution (decode_fields beq)).next_pc ≡ (
    if (decode_fields beq).opcode == op_branch && not (branch_taken (decode_fields beq))
    then add64 0x10 4
    else add64 0x10 (signed_number (last_word (disassembled 0xfeb50ee3))))
unfolding decode_fields extract_bits disassembled handle_branch get_op_string
listed_offset-next_pc_example = listed_offset-next_pc beq refl refl

abbrev stats : SimulationStats
stats = record {
  dynamic_instructions = 12;
  total_cycles = 345;
  ic_hits = 10;
  ic_misses = 2;
  dc_hits = 0;
  dc_misses = 1;
  load_use_stalls = 3;
}

stats-Fits : Fits stats
stats-Fits = record {
  dynamic_instructions = omega arith;
  total_cycles = omega arith;
  ic_hits = omega arith;
  ic_misses = omega arith;
  dc_hits = omega arith;
  dc_misses = omega arith;
  load_use_stalls = omega arith;
}

numbers-dump_sim_stats_example :
    Option.map (numbers b':' 10 none) (dump_sim_stats true stats).0
    ≡ some (12 ∷ 345 ∷ 10 ∷ 2 ∷ 0 ∷ 1 ∷ 3 ∷ [])
numbers-dump_sim_stats_example = numbers-dump_sim_stats stats stats-Fits

abbrev registers : List ℕ
registers = replicate 32 0x1234abcd

numbers-dump_register_state_example :
    Option.map (numbers b'x' 16 none) (dump_register_state true registers).0
    ≡ some (map (λ i. get_or registers i 0) (joined shown_registers))
numbers-dump_register_state_example =
    numbers-dump_register_state registers
      (All-replicate (λ v. v < 2 ^ 64) 32 0x1234abcd (omega arith))

-- The pipe state before the first instruction.
abbrev first_cycle : PipeState
first_cycle = record {
  cycle = 0;
  if_status = idle;
  if_pc = 0;
  id_status = idle;
  id_instr = 0x13;
  ex_status = idle;
  ex_instr = 0x13;
  mem_status = idle;
  mem_instr = 0x13;
  wb_status = idle;
  wb_instr = 0x13;
}

abbrev old_file : PipeFile
old_file = record { file_init = false; contents = codes "of another run" }

dumped-joined_example :
    (dumped (first_cycle ∷ first_cycle ∷ []) old_file).contents
    ≡ joined (map pipe_line (first_cycle ∷ first_cycle ∷ []))
dumped-joined_example = dumped-joined first_cycle (first_cycle ∷ []) old_file refl

-- Sixteen bytes, and an image that puts a word at 0 and one at 8.
abbrev small : MemoryStore
small = record { start_addr = 0; mem_arr = replicate 16 0 }

abbrev image : List (ℕ × ℕ)
image = (0, 0x11223344) ∷ (8, 0x55667788) ∷ []

prepare_memory-flat_example :
    let s = (set_mem_value linux 0 0 word_size (written_image linux image small)).store in
    (prepare_memory linux (some (flat image ++ other ∷ number 9 ∷ [])) small ≡ some (pos 0, s))
    × (get_mem_value linux 0 7 word_size s ≡ record { ret = pos 0; value = 0; store = s })
prepare_memory-flat_example =
    prepare_memory-flat linux image (other ∷ number 9 ∷ []) small 7 refl (omega arith)
      (omega arith, (omega arith, tt))
      ((omega arith, omega arith), ((omega arith, omega arith), tt)) (omega arith)

prepare_memory-overflow_example :
    prepare_memory linux (some (flat image ++ number 4 ∷ number (2 ^ 32) ∷ other ∷ [])) small
    ≡ some (
      pos 0,
      (set_mem_value linux 4 (2 ^ 32 - 1) word_size (written_image linux image small)).store,
    )
prepare_memory-overflow_example =
    prepare_memory-overflow linux image 4 (2 ^ 32) (other ∷ []) small (omega arith) (omega arith)
      (omega arith) (omega arith, (omega arith, tt))
      ((omega arith, omega arith), ((omega arith, omega arith), tt)) (omega arith)

prepare_memory-returns_example :
    prepare_memory linux (some (number 12 ∷ number (2 ^ 32) ∷ other ∷ [])) small ≢ none
prepare_memory-returns_example =
    prepare_memory-returns linux (some (number 12 ∷ number (2 ^ 32) ∷ other ∷ [])) small

print_mem_array-returns_example : print_mem_array linux 0 0x1f4 4 5 small ≢ none
print_mem_array-returns_example =
    print_mem_array-returns linux 0 0x1f4 4 5 small (omega arith) (omega arith)

-- The listing of some words.
shown_addi : disassembled 0xfe010113 ≡ codes " addi sp, sp, -32"
unfolding disassembled handle_i_and_r get_op_string extract_bits i_and_r_operands
shown_addi = refl

shown_sd : disassembled 0x00113c23 ≡ codes " sd ra, 24(sp)"
unfolding disassembled handle_l_and_s get_op_string extract_bits l_and_s_operands
shown_sd = refl

-- `sltiu a0, a1, 1` is listed under another name.
shown_sltiu : disassembled 0x0015b513 ≡ codes " sltui a0, a1, 1"
unfolding disassembled handle_i_and_r get_op_string extract_bits i_and_r_operands
shown_sltiu = refl

-- `addiw a0, a1, 1` is decoded and listed; with the immediate 33 it is decoded and not listed.
shown_addiw : disassembled 0x0215851b ≡ codes " ILLEGAL"
unfolding disassembled handle_i_and_r get_op_string extract_bits i_and_r_operands
shown_addiw = refl

decoded_addiw : (sim_decode (record fresh { instruction = 0x0215851b })).is_legal ≡ true
unfolding sim_decode
decoded_addiw = refl

-- `lui a0, 0x80` is listed with a negative operand, which is not the value that it loads.
shown_lui : disassembled 0x00080537 ≡ codes " lui a0, -524288"
unfolding disassembled handle_special get_op_string extract_bits special_operands
shown_lui = refl

-- A row of `printMemArray`.
shown_row :
    print_mem_array linux 0 8 4 5
      (record { start_addr = 0; mem_arr = 1 ∷ 2 ∷ 3 ∷ 4 ∷ 5 ∷ 6 ∷ 7 ∷ 255 ∷ [] })
    ≡ some (pos 0, codes "0x00000000: 0x01020304 0x050607ff " ++ endl)
unfolding print_mem_array hex
shown_row = refl

shown_line :
    pipe_line first_cycle
    ≡ codes "Cycle:        0"
      ++ (9 ∷ codes "|| Inst at 0x0 (idle)      | NOP (idle)              ")
      ++ codes "| NOP (idle)              | NOP (idle)              | NOP (idle)              |"
      ++ endl
unfolding pipe_line
shown_line = refl
