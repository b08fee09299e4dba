-- ===== src/Output/Finish.antt =====
-- What the programs write as they end: the two `finalizeSimulator` of src/cycle.cpp and
-- src/funct.cpp, `dumpRegMem` of src/simulator.cpp, and `Cache::dump` of src/cache.cpp. Every file
-- opens, or none does.
use ece375_project.Base.{ℕ, Bool, Option, none, some, [], ◌∷◌, ◌++◌, ◌==◌, if◌then◌else◌}
use ece375_project.Platform.{Platform}
use ece375_project.Memory.Print.{dump_memory_state}
use ece375_project.Simulator.{Simulator}
use ece375_project.Cache.{CacheConfig}
use ece375_project.Cycle.State.{Machine}
use ece375_project.Funct.{Funct, Status, success, error}
use ece375_project.Output.{Text, codes, endl, dec}
use ece375_project.Output.Dump.{SimulationStats, joined, dump_sim_stats, dump_register_state}

-- The files of a run; `none` is a file that was not written.
pub record Files : Type 0 where
  pub sim_stats : Option Text
  pub reg_state : Option Text
  pub mem_state : Option Text

-- The registers and the memory; `range` is what `print_mem_range` says.
unfoldable pub dump_reg_mem :
    Platform → Bool → Option (ℕ × ℕ) → Simulator → Option Text × Option Text
unfolding dump_register_state dump_memory_state
dump_reg_mem platform opens range sim = (
  (dump_register_state opens sim.registers).0,
  if opens then dump_memory_state platform range sim.memory else none,
)

abbrev pub cycle_stats : Machine → SimulationStats
cycle_stats m = record {
  dynamic_instructions = m.completed_count;
  total_cycles = m.cycle_count;
  ic_hits = m.icache.hits;
  ic_misses = m.icache.misses;
  dc_hits = m.dcache.hits;
  dc_misses = m.dcache.misses;
  load_use_stalls = m.load_stall_count;
}

abbrev pub funct_stats : Funct → SimulationStats
funct_stats s = record {
  dynamic_instructions = s.simulator.din;
  total_cycles = 0;
  ic_hits = 0;
  ic_misses = 0;
  dc_hits = 0;
  dc_misses = 0;
  load_use_stalls = 0;
}

unfoldable pub finalize_cycle : Platform → Bool → Option (ℕ × ℕ) → Machine → Files × Status
unfolding dump_sim_stats dump_reg_mem
finalize_cycle platform opens range m =
    let (reg_state, mem_state) = dump_reg_mem platform opens range m.simulator in
    (
      record {
        sim_stats = (dump_sim_stats opens (cycle_stats m)).0;
        reg_state = reg_state;
        mem_state = mem_state;
      },
      success,
    )

unfoldable pub finalize_funct : Platform → Bool → Option (ℕ × ℕ) → Funct → Files × Status
unfolding dump_sim_stats dump_reg_mem
finalize_funct platform opens range s =
    let (reg_state, mem_state) = dump_reg_mem platform opens range s.simulator in
    (
      record {
        sim_stats = (dump_sim_stats opens (funct_stats s)).0;
        reg_state = reg_state;
        mem_state = mem_state;
      },
      success,
    )

abbrev dashes : Text
dashes = codes "---------------------" ++ endl

-- The line of the ways shows a truth value.
unfoldable pub dump_cache : Bool → CacheConfig → Option Text × Status
unfolding dec
dump_cache opens config =
    if opens
    then (
      some (
          joined (
            dashes
            ∷ (codes "Begin Register Values" ++ endl)
            ∷ dashes
            ∷ (codes "Cache Configuration:" ++ endl)
            ∷ (codes "Size: " ++ dec config.cache_size ++ codes " bytes" ++ endl)
            ∷ (codes "Block Size: " ++ dec config.block_size ++ codes " bytes" ++ endl)
            ∷ (codes "Ways: " ++ dec (if config.ways == 1 then 1 else 0) ++ endl)
            ∷ (codes "Miss Latency: " ++ dec config.miss_latency ++ codes " cycles" ++ endl)
            ∷ dashes
            ∷ (codes "End Register Values" ++ endl)
            ∷ dashes
            ∷ [])),
      success,
    )
    else (none, error)
