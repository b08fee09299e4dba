-- ===== src/Output/Dump.antt =====
-- The output files: `dumpPipeState` and `dumpSimStats` of src/Utilities.cpp, `dumpRegisterState` of
-- src/RegisterInfo.h. Whether a file opens is a parameter; `none` is a file that was not written.
pub mod ReadBack
pub mod Registers
pub mod Appends
use ece375_project.Base.{
  ℕ, Bool, true, false, Option, none, some, List, [], ◌∷◌, ◌++◌, map, get_or, if◌then◌else◌,
}
use ece375_project.Funct.{Status, success, error}
use ece375_project.Cycle.{PipeState}
use ece375_project.Output.{Text, codes, endl, dec, hex, pad_left, pad_right}
use ece375_project.Output.Disassembly.{print_if_pc, print_instr}

-- Texts one after the other.
abbrev pub joined : List Text → Text
joined [] = []
joined (t ∷ ts) = t ++ joined ts

-- The pipe state file, with the static `fileInit`.
pub record PipeFile : Type 0 where
  pub file_init : Bool
  pub contents : Text

-- One line of it. `std::left` is set by the first column, so the cycle stands at the right of its
-- eight places.
unfoldable pub pipe_line : PipeState → Text
unfolding dec print_if_pc print_instr
pipe_line state = joined (
    codes "Cycle: "
    ∷ pad_left b' ' 8 (dec state.cycle)
    ∷ (9 ∷ codes "|")
    ∷ codes "|"
    ∷ print_if_pc state.if_pc state.if_status
    ∷ codes "|"
    ∷ print_instr state.id_instr state.id_status
    ∷ codes "|"
    ∷ print_instr state.ex_instr state.ex_status
    ∷ codes "|"
    ∷ print_instr state.mem_instr state.mem_status
    ∷ codes "|"
    ∷ print_instr state.wb_instr state.wb_status
    ∷ codes "|"
    ∷ endl
    ∷ [])

-- The first call truncates the file, the later ones append to it.
unfoldable pub dump_pipe_state : Bool → PipeState → PipeFile → PipeFile × Status
dump_pipe_state opens state file =
    let kept = if file.file_init then file.contents else [] in
    if opens
    then (record { file_init = true; contents = kept ++ pipe_line state }, success)
    else (record { file_init = true; contents = file.contents }, error)

pub record SimulationStats : Type 0 where
  pub dynamic_instructions : ℕ
  pub total_cycles : ℕ
  pub ic_hits : ℕ
  pub ic_misses : ℕ
  pub dc_hits : ℕ
  pub dc_misses : ℕ
  pub load_use_stalls : ℕ

abbrev pub stats_line : Text × ℕ → Text
stats_line (label, value) = pad_right 23 label ++ (dec value ++ endl)

abbrev pub stats_lines : SimulationStats → List (Text × ℕ)
stats_lines stats =
    (codes "Dynamic instructions: ", stats.dynamic_instructions)
    ∷ (codes "Total cycles: ", stats.total_cycles)
    ∷ (codes "I-cache hits: ", stats.ic_hits)
    ∷ (codes "I-cache misses: ", stats.ic_misses)
    ∷ (codes "D-cache hits: ", stats.dc_hits)
    ∷ (codes "D-cache misses: ", stats.dc_misses)
    ∷ (codes "Load-use stalls: ", stats.load_use_stalls)
    ∷ []

unfoldable pub dump_sim_stats : Bool → SimulationStats → Option Text × Status
dump_sim_stats opens stats =
    if opens then (some (joined (map stats_line (stats_lines stats))), success) else (none, error)

abbrev pub reg_output_width : ℕ
reg_output_width = 8

abbrev pub reg_line : Text × ℕ → Text
reg_line (name, value) =
    name ++ (codes " = 0x" ++ (pad_left b'0' reg_output_width (hex value) ++ endl))

-- The registers that stand between two empty lines. `r` is the union of `RegisterInfo` with the
-- array of registers.
abbrev pub reg_groups : List ℕ → List (List (Text × ℕ))
reg_groups r =
    ((codes "$ra", get_or r 1 0)
      ∷ (codes "$sp", get_or r 2 0)
      ∷ (codes "$gp", get_or r 3 0)
      ∷ (codes "$tp", get_or r 4 0)
      ∷ [])
    ∷ ((codes "$t0", get_or r 5 0) ∷ (codes "$t1", get_or r 6 0) ∷ (codes "$t2", get_or r 7 0) ∷ [])
    ∷ ((codes "$s0", get_or r 8 0) ∷ (codes "$s1", get_or r 9 0) ∷ [])
    ∷ ((codes "$a0", get_or r 10 0)
        ∷ (codes "$a1", get_or r 11 0)
        ∷ (codes "$a2", get_or r 12 0)
        ∷ (codes "$a3", get_or r 13 0)
        ∷ (codes "$a4", get_or r 14 0)
        ∷ (codes "$a5", get_or r 15 0)
        ∷ (codes "$a6", get_or r 16 0)
        ∷ (codes "$a7", get_or r 17 0)
        ∷ [])
    ∷ ((codes "$s2", get_or r 18 0)
        ∷ (codes "$s3", get_or r 19 0)
        ∷ (codes "$s4", get_or r 20 0)
        ∷ (codes "$s5", get_or r 21 0)
        ∷ (codes "$s6", get_or r 22 0)
        ∷ (codes "$s7", get_or r 23 0)
        ∷ (codes "$s8", get_or r 24 0)
        ∷ (codes "$s9", get_or r 25 0)
        ∷ (codes "$s10", get_or r 26 0)
        ∷ (codes "$s11", get_or r 27 0)
        ∷ [])
    ∷ ((codes "$t3", get_or r 28 0)
        ∷ (codes "$t4", get_or r 29 0)
        ∷ (codes "$t5", get_or r 30 0)
        ∷ (codes "$t6", get_or r 31 0)
        ∷ [])
    ∷ []

abbrev pub group_lines : List (List (Text × ℕ)) → Text
group_lines [] = []
group_lines (g ∷ []) = joined (map reg_line g)
group_lines (g ∷ h ∷ gs) = joined (map reg_line g) ++ (endl ++ group_lines (h ∷ gs))

abbrev pub rule : Text
rule = codes "---------------------" ++ endl

unfoldable pub dump_register_state : Bool → List ℕ → Option Text × Status
dump_register_state opens r =
    if opens
    then (
      some (
          joined (
            rule
            ∷ (codes "Begin Register Values" ++ endl)
            ∷ rule
            ∷ group_lines (reg_groups r)
            ∷ rule
            ∷ (codes "End Register Values" ++ endl)
            ∷ rule
            ∷ [])),
      success,
    )
    else (none, error)
