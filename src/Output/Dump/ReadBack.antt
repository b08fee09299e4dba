-- ===== src/Output/Dump/ReadBack.antt =====
-- The files of `dumpSimStats` and `dumpRegisterState` read back: numbers that stand after a mark.
use mathlib.Core.List.{append_assoc, append-nil}
use mathlib.Core.Option
use ece375_project.Base.{
  ℕ, zero, suc, ◌+◌, ◌*◌, ◌^◌, ◌<◌, ◌≡◌, refl, ap, sym, ◌∙◌, arith, true, false, Option, none, some,
  List, [], ◌∷◌, ◌++◌, map, replicate, All, ◌==◌,
}
use ece375_project.Output.{Text, endl, dec}
use ece375_project.Output.Digits.{digit_value, number, IsNumeral, number-dec, dec-IsNumeral}
use ece375_project.Output.Dump.{joined, SimulationStats, stats_line, stats_lines, dump_sim_stats}

-- The numbers of a text: each stands between a mark and the end of its line.
unfoldable pub numbers : ℕ → ℕ → Option ℕ → Text → List ℕ
numbers mark base none [] = []
numbers mark base none (c ∷ t) = elim (c == mark) [
  | true ↦ numbers mark base (some 0) t
  | false ↦ numbers mark base none t
]
numbers mark base (some n) [] = n ∷ []
numbers mark base (some n) (c ∷ t) = elim (c == 10) [
  | true ↦ n ∷ numbers mark base none t
  | false ↦ elim (c == b' ') [
    | true ↦ numbers mark base (some n) t
    | false ↦ numbers mark base (some (n * base + digit_value c)) t
  ]
]

abbrev pub Lacks : ℕ → Text → Type 0
Lacks mark = All (λ c. (c == mark) ≡ false)

module _ (mark base : ℕ) where
  pub numbers-label :
      (label rest : Text)
      → Lacks mark label
      → numbers mark base none (label ++ rest) ≡ numbers mark base none rest
  unfolding numbers
  numbers-label [] rest h = refl
  numbers-label (c ∷ label) rest h = rw (numbers, h.0) (numbers-label label rest h.1)

  numbers-spaces :
      (k n : ℕ) (rest : Text)
      → numbers mark base (some n) (replicate k b' ' ++ rest) ≡ numbers mark base (some n) rest
  unfolding numbers
  numbers-spaces zero n rest = refl
  numbers-spaces (suc k) n rest = numbers-spaces k n rest

  -- Figures up to the end of a line give the number that they stand for.
  numbers-figures :
      (n : ℕ) (t rest : Text)
      → IsNumeral t
      → numbers mark base (some n) (t ++ (endl ++ rest))
        ≡ number base n t ∷ numbers mark base none rest
  unfolding numbers number
  numbers-figures n [] rest h = refl
  numbers-figures n (c ∷ t) rest h =
      let no_end : (c == 10) ≡ false = ground arith in
      let no_space : (c == b' ') ≡ false = ground arith in
      rw (numbers, no_end, no_space) (numbers-figures (n * base + digit_value c) t rest h.1)

  pub line_end :
      (t rest : Text)
      → IsNumeral t
      → numbers mark base (some 0) (t ++ endl ++ rest)
        ≡ number base 0 t ∷ numbers mark base none rest
  line_end t rest h =
      ap (numbers mark base (some 0)) (append_assoc t endl rest) ∙ numbers-figures 0 t rest h

  -- A line whose number is read, whatever follows it.
  abbrev pub Reads : (Text × ℕ → Text) → Text × ℕ → Type 0
  Reads line entry =
      (rest : Text)
      → numbers mark base none (line entry ++ rest) ≡ entry.1 ∷ numbers mark base none rest

  pub numbers-joined :
      (line : Text × ℕ → Text) (entries : List (Text × ℕ)) (rest : Text)
      → All (Reads line) entries
      → numbers mark base none (joined (map line entries) ++ rest)
        ≡ map (λ e. e.1) entries ++ numbers mark base none rest
  numbers-joined line [] rest h = refl
  numbers-joined line (e ∷ entries) rest h =
      ap (numbers mark base none) (append_assoc (line e) (joined (map line entries)) rest)
      ∙ h.0 (joined (map line entries) ++ rest)
      ∙ ap (λ ns. e.1 ∷ ns) (numbers-joined line entries rest h.1)

stat_end :
    (v : ℕ) (rest : Text)
    → v < 2 ^ 64
    → numbers b':' 10 (some 0) (dec v ++ endl ++ rest) ≡ v ∷ numbers b':' 10 none rest
stat_end v rest fits =
    line_end b':' 10 (dec v) rest (dec-IsNumeral v)
    ∙ ap (λ n. n ∷ numbers b':' 10 none rest) (number-dec v fits)

-- Counters of 64 bits.
pub record Fits (stats : SimulationStats) : Type 0 where
  pub dynamic_instructions : stats.dynamic_instructions < 2 ^ 64
  pub total_cycles : stats.total_cycles < 2 ^ 64
  pub ic_hits : stats.ic_hits < 2 ^ 64
  pub ic_misses : stats.ic_misses < 2 ^ 64
  pub dc_hits : stats.dc_hits < 2 ^ 64
  pub dc_misses : stats.dc_misses < 2 ^ 64
  pub load_use_stalls : stats.load_use_stalls < 2 ^ 64

stats_lines_read :
    (stats : SimulationStats) → Fits stats → All (Reads b':' 10 stats_line) (stats_lines stats)
unfolding numbers
stats_lines_read stats fits = (
  λ rest. stat_end stats.dynamic_instructions rest fits.dynamic_instructions,
  (
    λ rest. stat_end stats.total_cycles rest fits.total_cycles,
    (
      λ rest. stat_end stats.ic_hits rest fits.ic_hits,
      (
        λ rest. stat_end stats.ic_misses rest fits.ic_misses,
        (
          λ rest. stat_end stats.dc_hits rest fits.dc_hits,
          (
            λ rest. stat_end stats.dc_misses rest fits.dc_misses,
            (λ rest. stat_end stats.load_use_stalls rest fits.load_use_stalls, tt),
          ),
        ),
      ),
    ),
  ),
)

-- The statistics file, read back, holds the seven counters in their order, each below 2^64.
pub numbers-dump_sim_stats :
    (stats : SimulationStats)
    → Fits stats
    → Option.map (numbers b':' 10 none) (dump_sim_stats true stats).0
      ≡ some (
          stats.dynamic_instructions ∷ stats.total_cycles ∷ stats.ic_hits ∷ stats.ic_misses
          ∷ stats.dc_hits ∷ stats.dc_misses ∷ stats.load_use_stalls ∷ [])
unfolding dump_sim_stats
numbers-dump_sim_stats stats fits = ap some (
    ap (numbers b':' 10 none) (sym (append-nil (joined (map stats_line (stats_lines stats)))))
    ∙ numbers-joined b':' 10 stats_line (stats_lines stats) [] (stats_lines_read stats fits)
    ∙ unfold numbers in refl)
