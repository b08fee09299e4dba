-- ===== src/Tests.antt =====
-- The concrete platform that the tests run on.
mod MemoryRuns
mod CacheRuns
mod PipelineRuns
mod DriverRuns
mod OutputRuns
use native.Mathlib.Nat.{pow-suc, one-le-pow}
use ece375_project.Base.{
  lt→ltb, le→ltb, ℕ, zero, suc, ◌+◌, ◌*◌, ◌/◌, ◌^◌, ◌≤◌, ◌<◌, ◌≡◌, refl, ap, ◌∙◌, ltb, Bool, true,
  false, arith,
}
use ece375_project.Platform.{Platform}

-- How often a number is halved before it is below 2.
unfoldable pub halvings : ℕ → ℕ → ℕ
halvings zero n = 0
halvings (suc fuel) n = elim (ltb n 2) [ true ↦ 0 | false ↦ suc (halvings fuel (n / 2)) ]

halvings_low : (fuel n : ℕ) → n < 2 → halvings fuel n ≡ 0
unfolding halvings
halvings_low zero n h = refl
halvings_low (suc fuel) n h = rw (lt→ltb n 2 h, halvings) refl

halvings_step : (fuel n : ℕ) → 2 ≤ n → halvings (suc fuel) n ≡ suc (halvings fuel (n / 2))
unfolding halvings
halvings_step fuel n h = rw (le→ltb n 2 h, halvings) refl

pub halvings_pow : (fuel k : ℕ) → k ≤ fuel → halvings fuel (2 ^ k) ≡ k
halvings_pow fuel zero h = halvings_low fuel 1 (omega arith)
halvings_pow zero (suc k) h = absurd (omega arith)
halvings_pow (suc fuel) (suc k) h =
    let double : 2 ^ (suc k) ≡ 2 * 2 ^ k = omega (arith, pow-suc 2 k) in
    let half : 2 ^ (suc k) / 2 ≡ 2 ^ k = omega (arith, double) in
    halvings_step fuel (2 ^ suc k) (omega (arith, double, one-le-pow k 2 (omega arith)))
    ∙ ap (λ (n : ℕ). suc (halvings fuel n)) half
    ∙ ap suc (halvings_pow fuel k (omega arith))

-- Linux, and a logarithm by halving.
abbrev pub linux : Platform
linux = record {
  einval = 22;
  einval_pos = omega arith;
  log2 = halvings 64;
  log2_pow = λ k h. halvings_pow 64 k (omega arith);
}
