-- ===== src/Output/Dump/Registers.antt =====
-- The file of `dumpRegisterState` of src/RegisterInfo.h read back.
use native.Mathlib.Nat.{zero-mul}
use mathlib.Core.List.{append_assoc, append-nil, map-map}
use mathlib.Core.Option
use ece375_project.Base.{
  ℕ, zero, suc, ◌-◌, ◌^◌, ◌<◌, ◌≡◌, refl, ap, sym, ◌∙◌, arith, Bool, true, not, ◌&&◌, none, some,
  List, [], ◌∷◌, ◌++◌, map, length, replicate, get_or, All, All-get_or, ◌==◌,
}
use ece375_project.Output.{Text, codes, endl, hex, pad_left}
use ece375_project.Output.Names.{reg_name, reg_names}
use ece375_project.Output.Digits.{number, IsNumeral, number-hex, hex-IsNumeral}
use ece375_project.Output.Dump.{joined, reg_line, group_lines, rule, dump_register_state}
use ece375_project.Output.Dump.ReadBack.{
  numbers, Lacks, Reads, numbers-label, line_end, numbers-joined,
}

-- Zeros before a number do not change it.
number-zeros : (base k : ℕ) (t : Text) → number base 0 (replicate k b'0' ++ t) ≡ number base 0 t
unfolding number
number-zeros base zero t = refl
number-zeros base (suc k) t =
    ap (λ n. number base n (replicate k b'0' ++ t)) (omega (arith, zero-mul base))
    ∙ number-zeros base k t

zeros-IsNumeral : (k : ℕ) (t : Text) → IsNumeral t → IsNumeral (replicate k b'0' ++ t)
zeros-IsNumeral zero t h = h
zeros-IsNumeral (suc k) t h = ((omega arith, omega arith), zeros-IsNumeral k t h)

reg_end :
    (v : ℕ) (rest : Text)
    → v < 2 ^ 64
    → numbers b'x' 16 (some 0) (pad_left b'0' 8 (hex v) ++ endl ++ rest)
      ≡ v ∷ numbers b'x' 16 none rest
reg_end v rest fits =
    line_end b'x' 16 (pad_left b'0' 8 (hex v)) rest
      (zeros-IsNumeral (8 - length (hex v)) (hex v) (hex-IsNumeral v))
    ∙ ap (λ n. n ∷ numbers b'x' 16 none rest)
        (number-zeros 16 (8 - length (hex v)) (hex v) ∙ number-hex v fits)

abbrev lacks : ℕ → Text → Bool
lacks mark [] = true
lacks mark (c ∷ t) = not (c == mark) && lacks mark t

lacks-Lacks : (mark : ℕ) (t : Text) → lacks mark t ≡ true → Lacks mark t
lacks-Lacks mark [] h = tt
lacks-Lacks mark (c ∷ t) h = (ground arith, lacks-Lacks mark t (ground arith))

abbrev all_lack : ℕ → List Text → Bool
all_lack mark [] = true
all_lack mark (t ∷ ts) = lacks mark t && all_lack mark ts

all_lack-get_or :
    (mark : ℕ) (ts : List Text) (i : ℕ)
    → all_lack mark ts ≡ true
    → lacks mark (get_or ts i []) ≡ true
all_lack-get_or mark [] i h = refl
all_lack-get_or mark (t ∷ ts) zero h = ground arith
all_lack-get_or mark (t ∷ ts) (suc i) h = all_lack-get_or mark ts i (ground arith)

-- The line of register `i`.
abbrev entry : List ℕ → ℕ → Text × ℕ
entry r i = (codes "$" ++ reg_name i, get_or r i 0)

entry-Reads : (r : List ℕ) (i : ℕ) → All (λ v. v < 2 ^ 64) r → Reads b'x' 16 reg_line (entry r i)
entry-Reads r i fits rest =
    let value = get_or r i 0 in
    let line = codes " = 0x" ++ (pad_left b'0' 8 (hex value) ++ endl) in
    let plain = lacks-Lacks b'x' (reg_name i) (all_lack-get_or b'x' reg_names i refl) in
    ap (numbers b'x' 16 none) (append_assoc (codes "$" ++ reg_name i) line rest)
    ∙ numbers-label b'x' 16 (codes "$" ++ reg_name i) (line ++ rest) (refl, plain)
    ∙ (unfold numbers in reg_end value rest (All-get_or (λ v. v < 2 ^ 64) r i 0 fits (omega arith)))

entries-Reads :
    (r is : List ℕ) → All (λ v. v < 2 ^ 64) r → All (Reads b'x' 16 reg_line) (map (entry r) is)
entries-Reads r [] fits = tt
entries-Reads r (i ∷ is) fits = (entry-Reads r i fits, entries-Reads r is fits)

abbrev values : List ℕ → List ℕ → List ℕ
values r is = map (λ i. get_or r i 0) is

values-append : (r is js : List ℕ) → values r (is ++ js) ≡ values r is ++ values r js
values-append r [] js = refl
values-append r (i ∷ is) js = ap (λ vs. get_or r i 0 ∷ vs) (values-append r is js)

module _ (r : List ℕ) (fits : All (λ v. v < 2 ^ 64) r) where
  numbers-group :
      (group : List ℕ) (rest : Text)
      → numbers b'x' 16 none (joined (map reg_line (map (entry r) group)) ++ rest)
        ≡ values r group ++ numbers b'x' 16 none rest
  numbers-group group rest =
      numbers-joined b'x' 16 reg_line (map (entry r) group) rest (entries-Reads r group fits)
      ∙ ap (λ vs. vs ++ numbers b'x' 16 none rest) (map-map (λ e. e.1) (entry r) group)

  numbers-group_lines :
      (groups : List (List ℕ)) (rest : Text)
      → numbers b'x' 16 none (group_lines (map (map (entry r)) groups) ++ rest)
        ≡ values r (joined groups) ++ numbers b'x' 16 none rest
  numbers-group_lines [] rest = refl
  numbers-group_lines (g ∷ []) rest =
      numbers-group g rest
      ∙ ap (λ is. values r is ++ numbers b'x' 16 none rest) (sym (append-nil g))
  numbers-group_lines (g ∷ h ∷ gs) rest =
      let first = joined (map reg_line (map (entry r) g)) in
      let more = group_lines (map (map (entry r)) (h ∷ gs)) in
      let after = numbers b'x' 16 none rest in
      let others = values r (joined (h ∷ gs)) in
      let below : numbers b'x' 16 none (endl ++ more ++ rest) ≡ others ++ after =
        numbers-label b'x' 16 endl (more ++ rest) (refl, tt) ∙ numbers-group_lines (h ∷ gs) rest in
      ap (numbers b'x' 16 none) (append_assoc first (endl ++ more) rest)
      ∙ numbers-group g (endl ++ more ++ rest)
      ∙ ap (λ ns. values r g ++ ns) below
      ∙ sym (append_assoc (values r g) others after)
      ∙ ap (λ vs. vs ++ after) (sym (values-append r g (joined (h ∷ gs))))

-- The registers that the file shows, group by group.
abbrev pub shown_registers : List (List ℕ)
shown_registers =
    (1 ∷ 2 ∷ 3 ∷ 4 ∷ [])
    ∷ (5 ∷ 6 ∷ 7 ∷ [])
    ∷ (8 ∷ 9 ∷ [])
    ∷ (10 ∷ 11 ∷ 12 ∷ 13 ∷ 14 ∷ 15 ∷ 16 ∷ 17 ∷ [])
    ∷ (18 ∷ 19 ∷ 20 ∷ 21 ∷ 22 ∷ 23 ∷ 24 ∷ 25 ∷ 26 ∷ 27 ∷ [])
    ∷ (28 ∷ 29 ∷ 30 ∷ 31 ∷ [])
    ∷ []

abbrev footer : Text
footer = rule ++ (codes "End Register Values" ++ endl ++ (rule ++ []))

-- The register file, read back, holds the registers 1 to 31 in their order, whatever their values
-- of 64 bits are.
pub numbers-dump_register_state :
    (r : List ℕ)
    → All (λ v. v < 2 ^ 64) r
    → Option.map (numbers b'x' 16 none) (dump_register_state true r).0
      ≡ some (map (λ i. get_or r i 0) (joined shown_registers))
unfolding dump_register_state
numbers-dump_register_state r fits =
    let done : numbers b'x' 16 none footer ≡ [] = unfold numbers in refl in
    let text = group_lines (map (map (entry r)) shown_registers) in
    let read : numbers b'x' 16 none (text ++ footer) ≡ values r (joined shown_registers) =
      numbers-group_lines r fits shown_registers footer
      ∙ ap (λ ns. values r (joined shown_registers) ++ ns) done
      ∙ append-nil (values r (joined shown_registers)) in
    ap some (unfold numbers in read)
