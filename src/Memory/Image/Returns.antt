-- ===== src/Memory/Image/Returns.antt =====
-- The end of the loop of `prepareMemory` in src/MemoryStore.cpp.
use mathlib.Core.Option.{some-ne-none}
use ece375_project.Base.{
  ◌≢◌, ℕ, zero, suc, ◌+◌, ◌^◌, ◌≤◌, ◌<◌, arith, Bool, true, false, Option, none, some, List, [],
  ◌∷◌, length, ltb, Bool-cases, inl, inr, if◌then◌else◌,
}
use ece375_project.Base.Int.{ℤ}
use ece375_project.Platform.{Platform}
use ece375_project.Memory.{MemoryStore, word_size, set_mem_value}
use ece375_project.Memory.Image.{
  Token, number, Input, good, failed, extract, prepare_loop, prepare_memory,
}

-- A loop that goes on to one that returns, returns.
goes_on :
    (b : Bool) (out : ℤ × MemoryStore) {rest : Option (ℤ × MemoryStore)}
    → rest ≢ none
    → (if b then some out else rest) ≢ none
goes_on true out h = λ e. absurd (cc)
goes_on false out h = h

-- One more than what is left to read.
abbrev size : Input → ℕ
size (good tokens) = length tokens + 1
size failed = 0

extract-size : (x : ℕ) (input : Input) → size (extract x input).1 ≤ size input
extract-size x (good []) = omega arith
extract-size x (good (number n ∷ tokens)) = elim (Bool-cases (ltb n (2 ^ 32))) [
  | inl e ↦ rw e (omega arith)
  | inr e ↦ rw e (omega arith)
]
extract-size x (good (Token.other ∷ tokens)) = omega arith
extract-size x failed = omega arith

extract-lt : (x : ℕ) (tokens : List Token) → size (extract x (good tokens)).1 ≤ length tokens
extract-lt x [] = omega arith
extract-lt x (number n ∷ tokens) = elim (Bool-cases (ltb n (2 ^ 32))) [
  | inl e ↦ rw e (omega arith)
  | inr e ↦ rw e (omega arith)
]
extract-lt x (Token.other ∷ tokens) = omega arith

loop_returns :
    (platform : Platform) (fuel : ℕ) (input : Input) (m : MemoryStore)
    → size input < fuel
    → prepare_loop platform fuel input m ≢ none
unfolding prepare_loop
loop_returns platform zero input m enough = absurd (omega arith)
loop_returns platform (suc fuel) failed m enough = some-ne-none _
loop_returns platform (suc fuel) (good tokens) m enough =
    let first = extract 0 (good tokens) in
    let second = extract 0 first.1 in
    goes_on _ _ (
      loop_returns platform fuel second.1
        (set_mem_value platform first.0 second.0 word_size m).store
        (omega (arith, extract-lt 0 tokens, extract-size 0 first.1)))

-- `prepareMemory` returns on every file, whether it opens or not, whatever numbers without a sign, of
-- any size, and other texts stand in it, and for every memory.
pub prepare_memory-returns :
    (platform : Platform) (image : Option (List Token)) (m : MemoryStore)
    → prepare_memory platform image m ≢ none
unfolding prepare_memory
prepare_memory-returns platform none m = λ e. absurd (cc)
prepare_memory-returns platform (some tokens) m =
    loop_returns platform (length tokens + 2) (good tokens) m (omega arith)
