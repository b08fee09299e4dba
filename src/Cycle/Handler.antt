-- ===== src/Cycle/Handler.antt =====
-- The rounds of `runCycles` in src/cycle.cpp after an illegal instruction.
use ece375_project.Platform.{Platform}
use ece375_project.Instruction.{Instruction}
