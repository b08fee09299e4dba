-- ===== src/Output.antt =====
-- The stream operators that the source's output uses, on texts as lists of character codes: `<<` of
-- numbers, `std::hex`, `std::setw`, `std::left`, `std::setfill` and `std::endl`.
pub mod Digits
pub mod Names
pub mod Disassembly
pub mod Dump
pub mod Finish
use Prim.Native.Char.{code}
use Prim.Native.String.{String}
use ece375_project.Base.{
  ℕ, zero, suc, ◌+◌, ◌-◌, ◌/◌, ◌%◌, ◌^◌, Bool, true, false, ◌&&◌, List, [], ◌∷◌, ◌++◌, length,
  replicate, ltb, ◌==◌, if◌then◌else◌,
}

abbrev pub Text : Type 0
Text = List ℕ

abbrev pub codes : String → Text
codes String.[] = []
codes (String.◌∷◌ c s) = code c ∷ codes s

-- `==` of `std::string`.
abbrev pub text_eq : Text → Text → Bool
text_eq [] [] = true
text_eq [] (b ∷ t) = false
text_eq (a ∷ s) [] = false
text_eq (a ∷ s) (b ∷ t) = a == b && text_eq s t

-- `std::endl`.
abbrev pub endl : Text
endl = 10 ∷ []

abbrev pub digit : ℕ → ℕ
digit d = if ltb d 10 then b'0' + d else b'a' + d - 10

-- The digits of `n` to the base of the stream; a number of 64 bits has at most 64 of them.
unfoldable pub digits : ℕ → ℕ → ℕ → Text
digits base zero n = []
digits base (suc fuel) n =
    let rest = digits base fuel (n / base) in
    if ltb n base then digit n ∷ [] else rest ++ digit (n % base) ∷ []

-- `<<` of a `uint64_t`, in decimal and after `std::hex`.
unfoldable pub dec : ℕ → Text
unfolding digits
dec n = digits 10 64 n

unfoldable pub hex : ℕ → Text
unfolding digits
hex n = digits 16 64 n

-- `<<` of an `int64_t`, held as its 64 bits.
unfoldable pub signed_dec : ℕ → Text
unfolding dec
signed_dec v = if ltb v (2 ^ 63) then dec v else b'-' ∷ dec (2 ^ 64 - v)

-- `std::setw` pads on the right after `std::left`, and on the left otherwise.
abbrev pub pad_right : ℕ → Text → Text
pad_right width t = t ++ replicate (width - length t) b' '

abbrev pub pad_left : ℕ → ℕ → Text → Text
pad_left fill width t = replicate (width - length t) fill ++ t
