-- ===== src/Output/Dump/Appends.antt =====
-- The pipe state file after a sequence of calls of `dumpPipeState` of src/Utilities.cpp.
use mathlib.Core.List.{append_assoc, append-nil}
use ece375_project.Base.{◌≡◌, refl, sym, ◌∙◌, true, false, List, [], ◌∷◌, ◌++◌, map}
use ece375_project.Cycle.{PipeState}
use ece375_project.Output.Dump.{PipeFile, joined, pipe_line, dump_pipe_state}

-- The file after the calls, where it opens each time.
unfoldable pub dumped : List PipeState → PipeFile → PipeFile
dumped [] file = file
dumped (state ∷ states) file = dumped states (dump_pipe_state true state file).0

dumped-init :
    (states : List PipeState) (file : PipeFile)
    → file.file_init ≡ true
    → (dumped states file).contents ≡ file.contents ++ joined (map pipe_line states)
unfolding dumped dump_pipe_state
dumped-init [] file h = sym (append-nil file.contents)
dumped-init (state ∷ states) file h =
    dumped-init states _ refl
    ∙ rw h (append_assoc file.contents (pipe_line state) (joined (map pipe_line states)))

-- From the first call of a run on, the file holds the lines of the calls in their order and nothing
-- else, whatever it held before.
pub dumped-joined :
    (state : PipeState) (states : List PipeState) (file : PipeFile)
    → file.file_init ≡ false
    → (dumped (state ∷ states) file).contents ≡ joined (map pipe_line (state ∷ states))
unfolding dumped dump_pipe_state
dumped-joined state states file h = dumped-init states _ refl ∙ rw h refl
