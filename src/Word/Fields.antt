-- ===== src/Word/Fields.antt =====
-- `extractBits`: the field of an instruction word, as a quotient and a remainder.
use native.Mathlib.Nat.{mod-lt, one-le-pow}
use ece375_project.Base.{ℕ, ◌+◌, ◌-◌, ◌/◌, ◌%◌, ◌^◌, ◌<◌, ◌≡◌, lt→ltb, arith}
use ece375_project.Word.{extract_bits}
use ece375_project.Word.Bits.{bit_and_mask}

-- A field of at most 30 bits is the number that the bits from `end` up to `start` spell.
pub extract_bits_lem :
    (x start end : ℕ)
    → start + 1 - end < 31
    → extract_bits x start end ≡ x / 2 ^ end % 2 ^ (start + 1 - end)
unfolding extract_bits
extract_bits_lem x start end h =
    rw (lt→ltb (start + 1 - end) 31 h) (bit_and_mask (start + 1 - end) (x / 2 ^ end))

pub extract_bits-lt :
    (x start end : ℕ) → start + 1 - end < 31 → extract_bits x start end < 2 ^ (start + 1 - end)
extract_bits-lt x start end h =
    rw (extract_bits_lem x start end h) (mod-lt _ (one-le-pow (start + 1 - end) 2 (omega arith)))
