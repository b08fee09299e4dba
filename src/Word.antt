-- ===== src/Word.antt =====
-- The bit helpers of src/Utilities.cpp and the casts of C++ that src/simulator.cpp applies to
-- its `uint64_t` values: a word is a number below 2 ^ 64.
pub mod Bits
pub mod Disjoint
pub mod Fields
pub mod Sext
use ece375_project.Base.{
  ℕ, ◌+◌, ◌-◌, ◌*◌, ◌/◌, ◌%◌, ◌^◌, bit_and, bit_or, Bool, ltb, ◌==◌, if◌then◌else◌,
}
use ece375_project.Base.Int.{ℤ, pos, negsuc, ltb_ℤ}

-- The wrap-around of `uint64_t` and the cast `(uint32_t)`.
abbrev pub u64 : ℕ → ℕ
u64 n = n % 2 ^ 64

abbrev pub u32 : ℕ → ℕ
u32 n = n % 2 ^ 32

-- `a + b`, `a - b`, `a << k` and `a >> k` on `uint64_t`.
abbrev pub add64 : ℕ → ℕ → ℕ
add64 a b = u64 (a + b)

abbrev pub sub64 : ℕ → ℕ → ℕ
sub64 a b = u64 (a + 2 ^ 64 - b)

abbrev pub shl64 : ℕ → ℕ → ℕ
shl64 a k = u64 (a * 2 ^ k)

abbrev pub shr : ℕ → ℕ → ℕ
shr a k = a / 2 ^ k

-- The same on `uint32_t`.
abbrev pub add32 : ℕ → ℕ → ℕ
add32 a b = u32 (a + b)

abbrev pub sub32 : ℕ → ℕ → ℕ
sub32 a b = u32 (a + 2 ^ 32 - b)

abbrev pub shl32 : ℕ → ℕ → ℕ
shl32 a k = u32 (a * 2 ^ k)

-- The integer that a word of `w` bits stands for in two's complement: the casts `(int64_t)` at
-- 64 and `(int32_t)` at 32.
abbrev pub signed : ℕ → ℕ → ℤ
signed w x = if ltb x (2 ^ (w - 1)) then pos x else negsuc (2 ^ w - x - 1)

-- `(int64_t)a < (int64_t)b`.
abbrev pub slt64 : ℕ → ℕ → Bool
slt64 a b = ltb_ℤ (signed 64 a) (signed 64 b)

-- `(int64_t)a >> k`, an arithmetic shift, as the word of its result.
abbrev pub sar64 : ℕ → ℕ → ℕ
sar64 a k = if ltb a (2 ^ 63) then a / 2 ^ k else 2 ^ 64 - 1 - (2 ^ 64 - 1 - a) / 2 ^ k

-- `(int32_t)a >> k`; the `int` result becomes a `uint64_t` by sign extension.
abbrev pub sar32 : ℕ → ℕ → ℕ
sar32 a k = if ltb a (2 ^ 31) then a / 2 ^ k else 2 ^ 64 - 1 - (2 ^ 32 - 1 - a) / 2 ^ k

-- `extractBits`, for `end <= start`. The mask is computed on an `int`, so that a field of 31 bits or
-- more is undefined in the source, and stands as 0 here: every call takes at most 20 bits.
unfoldable pub extract_bits : ℕ → ℕ → ℕ → ℕ
extract_bits instruction start end =
    let bits_to_extract = start + 1 - end in
    let mask = 2 ^ bits_to_extract - 1 in
    let clipped = shr instruction end in if ltb bits_to_extract 31 then bit_and clipped mask else 0

-- `sext32`: `~0U << (signBit + 1)` drops what leaves the 32 bits.
unfoldable pub sext32 : ℕ → ℕ → ℕ
sext32 imm sign_bit =
    if bit_and imm (2 ^ sign_bit) == 0
    then imm
    else bit_or imm (u32 ((2 ^ 32 - 1) * 2 ^ (sign_bit + 1)))

unfoldable pub sext64 : ℕ → ℕ → ℕ
sext64 imm sign_bit =
    if bit_and imm (2 ^ sign_bit) == 0
    then imm
    else bit_or imm (u64 ((2 ^ 64 - 1) * 2 ^ (sign_bit + 1)))
