-- ===== src/Output/Disassembly/LastWord.antt =====
-- The last word of a printed line, between spaces: where the columns of src/Utilities.cpp end in a
-- number.
use ece375_project.Base.{
  ℕ, ◌^◌, ◌-◌, ◌≡◌, refl, sym, ap, ◌∙◌, arith, false, ◌==◌, if◌then◌else◌, [], ◌∷◌, ◌++◌, All,
  Bool-cases, inl, inr, ltb,
}
use ece375_project.Output.{Text, codes, dec, signed_dec}
use ece375_project.Output.Digits.{dec-IsNumeral, IsFigure}

-- What stands behind the last space, of what has been read and what comes.
abbrev pub last_from : Text → Text → Text
last_from held [] = held
last_from held (c ∷ t) = if c == b' ' then last_from [] t else last_from (held ++ c ∷ []) t

abbrev pub last_word : Text → Text
last_word = last_from []

-- A text whose last word is `u` whatever stands in front of it.
abbrev pub EndsIn : Text → Text → Type 0
EndsIn u t = (held : Text) → last_from held t ≡ u

pub EndsIn-append : (u s t : Text) → EndsIn u t → EndsIn u (s ++ t)
EndsIn-append u [] t h held = h held
EndsIn-append u (c ∷ s) t h held = elim (Bool-cases (c == b' ')) [
  | inl e ↦ rw e (EndsIn-append u s t h [])
  | inr e ↦ rw e (EndsIn-append u s t h (held ++ c ∷ []))
]

append_assoc : (a b c : Text) → (a ++ b) ++ c ≡ a ++ (b ++ c)
append_assoc [] b c = refl
append_assoc (x ∷ a) b c = ap (λ t. x ∷ t) (append_assoc a b c)

append_nil : (a : Text) → a ++ [] ≡ a
append_nil [] = refl
append_nil (x ∷ a) = ap (λ t. x ∷ t) (append_nil a)

-- A text without a space is its own last word.
abbrev NoSpace : Text → Type 0
NoSpace = All (λ c. (c == b' ') ≡ false)

NoSpace-whole : (held t : Text) → NoSpace t → last_from held t ≡ held ++ t
NoSpace-whole held [] h = sym (append_nil held)
NoSpace-whole held (c ∷ t) h =
    rw h.0 (NoSpace-whole (held ++ c ∷ []) t h.1 ∙ append_assoc held (c ∷ []) t)

figures : (t : Text) → All IsFigure t → NoSpace t
figures [] h = tt
figures (c ∷ t) h = (ground arith, figures t h.1)

signed_dec-NoSpace : (v : ℕ) → NoSpace (signed_dec v)
unfolding signed_dec
signed_dec-NoSpace v = elim (Bool-cases (ltb v (2 ^ 63))) [
  | inl e ↦ rw e (figures (dec v) (dec-IsNumeral v))
  | inr e ↦ rw e (refl, figures (dec (2 ^ 64 - v)) (dec-IsNumeral (2 ^ 64 - v)))
]

-- A comma and a space before a printed number, after any text.
pub comma-EndsIn : (s : Text) (v : ℕ) → EndsIn (signed_dec v) (s ++ codes ", " ++ signed_dec v)
comma-EndsIn s v =
    let last : EndsIn (signed_dec v) (codes ", " ++ signed_dec v) =
      λ held. NoSpace-whole [] (signed_dec v) (signed_dec-NoSpace v) in
    rw (append_assoc s (codes ", ") (signed_dec v))
      (EndsIn-append (signed_dec v) s (codes ", " ++ signed_dec v) last)
