-- ===== src/Funct/Runs.antt =====
-- The loops of src/funct.cpp: `runInstructions` in parts, and `runTillHalt` against it.
use ece375_project.Base.{
  ◌⊎◌, ℕ, zero, suc, ◌≡◌, ◌≢◌, refl, sym, ap, ◌∙◌, Bool, true, false, not, if◌then◌else◌, Option,
  none, some, inl, inr,
}
use ece375_project.Platform.{Platform}
use ece375_project.Simulator.{sim_instruction}
use ece375_project.Funct.{
  Funct, Status, success, error, halt, run_one, run_rounds, run_unlimited, run_instructions,
  run_till_halt,
}

run_rounds-none :
    (platform : Platform) (n : ℕ) (s : Funct)
    → (run_one platform s).1 ≡ none
    → run_rounds platform (suc n) s ≡ run_rounds platform n (run_one platform s).0
unfolding run_rounds
run_rounds-none platform n s e = rw (e, run_rounds) refl

run_rounds-some :
    (platform : Platform) (n : ℕ) (s : Funct) (status : Status)
    → (run_one platform s).1 ≡ some status
    → run_rounds platform (suc n) s ≡ ((run_one platform s).0, status)
unfolding run_rounds
run_rounds-some platform n s status e = rw (e, run_rounds) refl

-- An instruction ends the loop by a halt or an error only.
run_one-exit :
    (platform : Platform) (s : Funct)
    → ((run_one platform s).1 ≡ none)
      ⊎ ((status : Status) × (status ≢ success) × ((run_one platform s).1 ≡ some status))
unfolding run_one
run_one-exit platform s =
    by_flags (sim_instruction platform s.pc s.simulator).0.is_halt
      (sim_instruction platform s.pc s.simulator).0.is_legal
  where
    by_flags :
        (halts legal : Bool)
        → let exit = if halts then some halt else if not legal then some error else none in
          (exit ≡ none) ⊎ ((status : Status) × (status ≢ success) × (exit ≡ some status))
    by_flags true legal = inr (halt, cc, refl)
    by_flags false true = inl refl
    by_flags false false = inr (error, cc, refl)

run_rounds-zero : (platform : Platform) (s : Funct) → run_rounds platform 0 s ≡ (s, success)
unfolding run_rounds
run_rounds-zero platform s = refl

-- The outcome of a run that did not end by its count.
abbrev pub outcome : Funct × Status → Option (Funct × Status)
outcome (s, success) = none
outcome (s, error) = some (s, error)
outcome (s, halt) = some (s, halt)

-- What `runTillHalt` does after a call of `runInstructions(1)`.
abbrev after : Platform → ℕ → Funct × Status → Option (Funct × Status)
after platform fuel (t, success) = run_till_halt platform fuel t
after platform fuel (t, error) = some (t, error)
after platform fuel (t, halt) = some (t, halt)

till_step :
    (platform : Platform) (fuel : ℕ) (s : Funct)
    → run_till_halt platform (suc fuel) s ≡ after platform fuel (run_rounds platform 1 s)
unfolding run_till_halt run_instructions
till_step platform fuel s = by_status (run_rounds platform 1 s)
  where
    by_status :
        (out : Funct × Status)
        → elim (some out) [
          | none ↦ none
          | some (t, success) ↦ run_till_halt platform fuel t
          | some (t, error) ↦ some (t, error)
          | some (t, halt) ↦ some (t, halt)
        ]
          ≡ after platform fuel out
    by_status (t, success) = refl
    by_status (t, error) = refl
    by_status (t, halt) = refl

till-zero : (platform : Platform) (s : Funct) → run_till_halt platform 0 s ≡ none
unfolding run_till_halt
till-zero platform s = refl

till-rounds :
    (platform : Platform) (fuel : ℕ) (s : Funct)
    → run_till_halt platform fuel s ≡ outcome (run_rounds platform fuel s)
till-rounds platform zero s = till-zero platform s ∙ sym (ap outcome (run_rounds-zero platform s))
till-rounds platform (suc fuel) s =
    let t = (run_one platform s).0 in
    till_step platform fuel s ∙ elim (run_one-exit platform s) [
      | inl e ↦
          ap (after platform fuel) (run_rounds-none platform 0 s e ∙ run_rounds-zero platform t)
          ∙ till-rounds platform fuel t
          ∙ ap outcome (sym (run_rounds-none platform fuel s e))
      | inr (status, ne, e) ↦
          ap (after platform fuel) (run_rounds-some platform 0 s status e)
          ∙ ends t status ne
          ∙ ap outcome (sym (run_rounds-some platform fuel s status e))
    ]
  where
    ends :
        (t : Funct) (status : Status)
        → status ≢ success
        → after platform fuel (t, status) ≡ outcome (t, status)
    ends t success ne = absurd (ne refl)
    ends t error ne = refl
    ends t halt ne = refl

unlimited-none :
    (platform : Platform) (fuel : ℕ) (s : Funct)
    → (run_one platform s).1 ≡ none
    → run_unlimited platform (suc fuel) s ≡ run_unlimited platform fuel (run_one platform s).0
unfolding run_unlimited
unlimited-none platform fuel s e = rw (e, run_unlimited) refl

unlimited-some :
    (platform : Platform) (fuel : ℕ) (s : Funct) (status : Status)
    → (run_one platform s).1 ≡ some status
    → run_unlimited platform (suc fuel) s ≡ some ((run_one platform s).0, status)
unfolding run_unlimited
unlimited-some platform fuel s status e = rw (e, run_unlimited) refl

unlimited-zero : (platform : Platform) (s : Funct) → run_unlimited platform 0 s ≡ none
unfolding run_unlimited
unlimited-zero platform s = refl

unlimited-rounds :
    (platform : Platform) (fuel : ℕ) (s : Funct)
    → run_unlimited platform fuel s ≡ outcome (run_rounds platform fuel s)
unlimited-rounds platform zero s =
    unlimited-zero platform s ∙ sym (ap outcome (run_rounds-zero platform s))
unlimited-rounds platform (suc fuel) s =
    let t = (run_one platform s).0 in
    elim (run_one-exit platform s) [
      | inl e ↦
          unlimited-none platform fuel s e
          ∙ unlimited-rounds platform fuel t
          ∙ ap outcome (sym (run_rounds-none platform fuel s e))
      | inr (status, ne, e) ↦
          unlimited-some platform fuel s status e
          ∙ ends t status ne
          ∙ ap outcome (sym (run_rounds-some platform fuel s status e))
    ]
  where
    ends : (t : Funct) (status : Status) → status ≢ success → some (t, status) ≡ outcome (t, status)
    ends t success ne = absurd (ne refl)
    ends t error ne = refl
    ends t halt ne = refl

unlimited :
    (platform : Platform) (fuel : ℕ) (s : Funct)
    → run_instructions platform fuel 0 s ≡ run_unlimited platform fuel s
unfolding run_instructions
unlimited platform fuel s = refl

-- `runTillHalt` on fuel, one instruction at a time, is one run of that many rounds of the loop of
-- `runInstructions`: it is `none` while that run ends by its count, and else has the state and the
-- status of that run. It is `runInstructions(0)`, the run without a limit, on the same fuel.
pub run_till_halt-outcome :
    (platform : Platform) (fuel : ℕ) (s : Funct)
    → (run_till_halt platform fuel s ≡ outcome (run_rounds platform fuel s))
      × (run_till_halt platform fuel s ≡ run_instructions platform fuel 0 s)
run_till_halt-outcome platform fuel s = (
  till-rounds platform fuel s,
  till-rounds platform fuel s
      ∙ sym (unlimited-rounds platform fuel s)
      ∙ sym (unlimited platform fuel s),
)
