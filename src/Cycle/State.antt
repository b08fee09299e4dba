-- ===== src/Cycle/State.antt =====
-- The statics of src/cycle.cpp, with the locals that `runCycles` keeps from round to round.
use ece375_project.Base.{ℕ, ◌-◌, ◌^◌, Bool, true, false}
use ece375_project.Instruction.{Instruction, StageStatus, idle, fresh}
use ece375_project.Memory.{MemoryStore}
use ece375_project.Simulator.{Simulator, new_simulator}
use ece375_project.Cache.{
  Cache, CacheConfig, CacheOperation, cache_read, i_cache, d_cache, new_cache,
}

abbrev pub exc_handler : ℕ
exc_handler = 0x8000

-- `nop(status)`.
abbrev pub nop : StageStatus → Instruction
nop status = record fresh {
  instruction = 0x00000013;
  is_legal = true;
  is_nop = true;
  status = status;
}

pub record PipelineInfo : Type 0 where
  pub if_inst : Instruction
  pub id_inst : Instruction
  pub ex_inst : Instruction
  pub mem_inst : Instruction
  pub wb_inst : Instruction

pub record Machine : Type 0 where
  pub simulator : Simulator
  pub icache : Cache
  pub dcache : Cache
  pub cycle_count : ℕ
  pub load_stall_count : ℕ
  pub completed_count : ℕ
  pub prev_icpc : ℕ
  pub remaining_stall_cycles : ℕ
  pub prev_d_valid : Bool
  pub prev_d_addr : ℕ
  pub prev_d_op : CacheOperation
  pub pc : ℕ
  pub pipeline : PipelineInfo

-- `initSimulator`, with the statics at their initializers.
unfoldable pub init_simulator : CacheConfig → CacheConfig → MemoryStore → Machine
init_simulator icache_config dcache_config mem = record {
  simulator = new_simulator mem;
  icache = new_cache icache_config i_cache;
  dcache = new_cache dcache_config d_cache;
  cycle_count = 0;
  load_stall_count = 0;
  completed_count = 0;
  prev_icpc = 2 ^ 64 - 1;
  remaining_stall_cycles = 0;
  prev_d_valid = false;
  prev_d_addr = 0;
  prev_d_op = cache_read;
  pc = 0;
  pipeline = record {
    if_inst = nop idle;
    id_inst = nop idle;
    ex_inst = nop idle;
    mem_inst = nop idle;
    wb_inst = nop idle;
  };
}

-- The loop of `runCycles` between two rounds: the statics and its locals. `pipe_cycle` is
-- `pipeState.cycle`.
pub record Loop : Type 0 where
  pub machine : Machine
  pub data_fetch_miss : Bool
  pub inst_fetch_miss : Bool
  pub data_miss_stalls : ℕ
  pub inst_miss_stalls : ℕ
  pub pipe_cycle : ℕ

-- The locals are read from the caches when `runCycles` starts, and stored there when it ends.
unfoldable pub enter : Machine → Loop
enter m = record {
  machine = m;
  data_fetch_miss = m.dcache.fetch_miss;
  inst_fetch_miss = m.icache.fetch_miss;
  data_miss_stalls = m.dcache.fetch_stalls;
  inst_miss_stalls = m.icache.fetch_stalls;
  pipe_cycle = 0;
}

unfoldable pub leave : Loop → Machine
leave l = record l.machine {
  dcache = record l.machine.dcache {
    fetch_miss = l.data_fetch_miss;
    fetch_stalls = l.data_miss_stalls;
  };
  icache = record l.machine.icache {
    fetch_miss = l.inst_fetch_miss;
    fetch_stalls = l.inst_miss_stalls;
  };
}
