-- ===== src/Lib.antt =====
-- The RISC-V simulator of this repository: a functional simulator that runs one RV64I instruction
-- at a time, and a cycle simulator with a five-stage pipeline, forwarding, hazard stalls and an
-- instruction and a data cache. Both share the class `Simulator` of src/simulator.cpp and the memory
-- of src/MemoryStore.cpp.
--
-- Base, Base/Tests, Base/Lists, Base/Int: Boolean tests, lists and integers over the native numbers.
-- Platform: what the program takes from its platform, as parameters: EINVAL, and `log2` cut to an
--   integer, which is exact on powers of two below 2^64.
-- Word: 32-bit and 64-bit words as numbers with the wrap-around written out, with `extractBits`,
--   `sext32` and `sext64` of src/Utilities.cpp. Word/Bits: masks and disjoint fields as arithmetic;
--   Word/Disjoint: fields put together in any order; Word/Fields: bit fields; Word/Sext: sign
--   extension.
-- Memory: `MemoryStore` of src/MemoryStore.cpp; an access past the end is the `std::out_of_range`
--   of the source, a value of `Outcome`. Memory/Write and Memory/Read: the two loops; Memory/Frame:
--   loads after stores. Memory/Image: `prepareMemory`, the constructors and `loadFromFile`, with
--   Memory/Image/Prepared on what `prepareMemory` leaves in memory and Memory/Image/Returns on its
--   end; Memory/Print: `printMemArray` and `dumpMemoryState`, and Memory/Print/Returns the end of their loops.
-- Instruction, Instruction/Encodings: `Simulator::Instruction` of src/simulator.h, and the
--   enumerations of src/Utilities.h.
-- Decode, Execute, Simulator, Stages: src/simulator.cpp. Decode is `simDecode` with one definition
--   for each case of its `switch` (Decode/Legal: what it can return); Execute has
--   `simOperandCollection`, `simNextPCResolution`, `simArithLogic` and `simAddrGen` (Execute/Encode:
--   the instruction formats of the RISC-V manual and the tests of its branches, which are not code
--   of the program; Execute/Immediates: decoding and addresses against them; Execute/Targets: next
--   PCs); Simulator has the state (registers, memory, `din`) and `simFetch`, `simMemAccess`,
--   `simCommit` and `simInstruction` (Simulator/Faults: the memory exception); Stages has `simIF`,
--   `simID`, `simEX`, `simMEM` and `simWB` (Stages/Frame: what the stages keep; Stages/Sequential: the stages in a
--   row; Stages/Quiet: the memory exception through the stages). The parts that a function of the
--   source changes are passed in and returned.
-- Funct: the driver src/funct.cpp. `runInstructions` is `run_rounds` with a limit and `run_unlimited`
--   without one. Funct/Runs: `runTillHalt` against both.
-- Cache: src/cache.cpp. Cache/Ways: the searches of one set; Cache/Ranks: the order of use;
--   Cache/Replace: an access to one set; Cache/Access: an access to the whole cache;
--   Cache/Recency, Cache/View and Cache/Ideal: a cache described by lists of tags in the order of
--   use, which is not code of the program, what a set shows of such a list, and runs of both.
-- Cycle: src/cycle.cpp. Cycle/State has its static variables (`Machine`) and the locals of
--   `runCycles` (`Loop`); Cycle/Hazards the tests on instructions, the hazards and forwarding; Cycle
--   one round of the loop, cut at the source's comments, the loop and `runTillHalt`.
--   Cycle/Exceptions: memory exceptions; Cycle/Stalls: forwarding and hazards; Cycle/Upset: the
--   stages in a data miss or after an illegal instruction; Cycle/Waits: the rounds of a data miss;
--   Cycle/Frozen: all that one of them does; Cycle/Bubbles and Cycle/LoadUse: a stalled round;
--   Cycle/Handler: the rounds after an illegal instruction.
-- Output: texts as lists of character codes, and the stream operators of C++. Output/Digits: printed
--   numbers; Output/Names: the names of src/Utilities.h and `getOpString` of src/Utilities.cpp;
--   Output/Disassembly: `printInstr` and its handlers, with Output/Disassembly/Legality on which words
--   have a name, Output/Disassembly/LastWord on the end of a line and Output/Disassembly/Offsets on
--   the offsets that are shown; Output/Dump:
--   the pipe state, statistics and register files, with Output/Dump/Appends, Output/Dump/ReadBack and
--   Output/Dump/Registers on their contents; Output/Finish: `finalizeSimulator`, `dumpRegMem` and
--   `Cache::dump`. Whether a file opens is a parameter, and so is what a file that is read holds.
-- Tests: concrete runs on a platform with EINVAL 22 and a `log2` by halving.
--
-- Fuel: `runInstructions` with a limit recurs on the number of instructions that it is asked for,
-- which bounds it, and without a limit, at 0, on fuel. `runCycles` recurs on the number of cycles;
-- at 0 the source runs without a limit, and that call is not modelled. The runs without a limit and
-- the two `runTillHalt` return `none` when fuel runs out, since a program need not halt.
-- The loops of `prepareMemory` and `printMemArray` take fuel and return `none` when it runs out: two
-- more than the texts in the file, and one more than the end address, are enough. A printed number
-- has 64 bits and so at most 64 digits, the fuel of `digits`.
--
-- Not modelled: the messages to `std::cerr` and `std::cout`, numbers with a sign in an image
-- file, `getBaseFilename`, the main programs src/sim_funct.cpp and src/sim_cycle.cpp, and
-- src/cycle.cpp.backup, which is not compiled.
pub mod Base
pub mod Output
pub mod Platform
pub mod Word
pub mod Memory
pub mod Instruction
pub mod Decode
pub mod Execute
pub mod Simulator
pub mod Stages
pub mod Funct
pub mod Cache
pub mod Cycle
pub mod Tests
