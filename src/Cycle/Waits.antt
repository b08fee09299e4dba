-- ===== src/Cycle/Waits.antt =====
-- The rounds of `runCycles` in src/cycle.cpp while the data cache waits for memory.
use ece375_project.Base.{
  ℕ, zero, suc, ◌+◌, ◌^◌, ◌≤◌, ◌<◌, ◌≡◌, refl, sym, ap, ◌∙◌, subst, Bool, true, false, not, ◌&&◌,
  ◌==◌, leb, if_cases, if◌then◌else◌, arith,
}
use ece375_project.Platform.{Platform}
use ece375_project.Word.{u64, sub64}
use ece375_project.Instruction.{Instruction}
use ece375_project.Cache.{Cache}
use ece375_project.Stages.Quiet.{IsQuiet}
use ece375_project.Cycle.State.{Loop}
use ece375_project.Cycle.Hazards.{
  with_operand, writes_reg, is_branch_or_jump, produced, raises_illegal, forward, forward_mem,
  forward_ex, forward_branch,
}
use ece375_project.Cycle.Upset.{frozen, stages-frozen}
use ece375_project.Cycle.{cycle, front, end_misses, data_step, hazard_step, inst_step, inst_access}

-- The data cache waits, no instruction in ID is illegal, and none in MEM has an exception.
pub record IsWaiting (l : Loop) : Type 0 where
  pub miss : l.data_fetch_miss ≡ true
  pub legal : raises_illegal l.machine.pipeline.id_inst ≡ false
  pub quiet : IsQuiet l.machine.pipeline.mem_inst

-- What a round of waiting leaves alone.
abbrev pub IsStill : Loop → Loop → Type 0
IsStill l t =
    (t.machine.simulator ≡ l.machine.simulator)
    × (t.machine.pc ≡ l.machine.pc)
    × (t.machine.completed_count ≡ l.machine.completed_count)
    × (t.machine.pipeline.if_inst ≡ l.machine.pipeline.if_inst)
    × (t.machine.pipeline.ex_inst ≡ l.machine.pipeline.ex_inst)
    × (t.machine.pipeline.mem_inst ≡ l.machine.pipeline.mem_inst)

IsStill-trans : (a b c : Loop) → IsStill a b → IsStill b c → IsStill a c
IsStill-trans a b c p q = (q.0 ∙ p.0, q.1 ∙ p.1, q.2 ∙ p.2, q.3 ∙ p.3, q.4 ∙ p.4, q.5 ∙ p.5)

-- The first half of such a round counts a stall.
abbrev pub Ready : Loop → Loop → Type 0
Ready l t =
    (t.machine.simulator ≡ l.machine.simulator)
    × (t.machine.pc ≡ l.machine.pc)
    × (t.machine.completed_count ≡ l.machine.completed_count)
    × (t.machine.dcache ≡ l.machine.dcache)
    × (t.machine.pipeline ≡ l.machine.pipeline)
    × (t.data_fetch_miss ≡ true)
    × (t.data_miss_stalls ≡ u64 (l.data_miss_stalls + 1))

inst_step-Ready :
    (platform : Platform) (stall : Bool) (fetched : Instruction) (l t : Loop)
    → Ready l t
    → Ready l (inst_step platform stall fetched t)
unfolding inst_step inst_access
inst_step-Ready platform stall fetched l t r =
    if_cases (Ready l) (not stall && not t.inst_fetch_miss && not fetched.is_nop)
      (if_cases (Ready l) (fetched.pc == t.machine.prev_icpc) r r)
      (if_cases (Ready l) t.inst_fetch_miss r r)

pub data_step-waiting :
    (platform : Platform) (mem : Instruction) (l : Loop)
    → l.data_fetch_miss ≡ true
    → data_step platform mem l ≡ record l { data_miss_stalls = u64 (l.data_miss_stalls + 1) }
unfolding data_step
data_step-waiting platform mem l miss = rw miss refl

pub front-Ready :
    (platform : Platform) (l : Loop) → l.data_fetch_miss ≡ true → Ready l (front platform l).0
unfolding front hazard_step
front-Ready platform l miss =
    rw
      (data_step-waiting platform l.machine.pipeline.mem_inst
        (record l { pipe_cycle = l.machine.cycle_count }) miss)
      (inst_step-Ready platform _ l.machine.pipeline.if_inst l _
        (refl, refl, refl, refl, refl, miss, refl))

-- What no operand changes, forwarding leaves alone.
pub forward-keeps :
    (f : Instruction → Bool)
    → ((rd value : ℕ) (i : Instruction) → f (with_operand rd value i) ≡ f i)
    → (mem ex id : Instruction) → f (forward mem ex id) ≡ f id
unfolding forward forward_mem forward_ex forward_branch
forward-keeps f k mem ex id =
    let after_mem = forward_mem mem id in
    let after_ex = forward_ex ex after_mem in
    kept (writes_reg ex && is_branch_or_jump after_ex) ex.rd ex.arith_result after_ex
    ∙ kept (writes_reg ex) ex.rd ex.arith_result after_mem
    ∙ kept (writes_reg mem) mem.rd (produced mem) id
  where
    kept :
        (b : Bool) (rd value : ℕ) (i : Instruction)
        → f (if b then with_operand rd value i else i) ≡ f i
    kept true rd value i = k rd value i
    kept false rd value i = refl

with_operand-illegal :
    (rd value : ℕ) (i : Instruction) → raises_illegal (with_operand rd value i) ≡ raises_illegal i
unfolding raises_illegal
with_operand-illegal rd value i = refl

abbrev done : Loop → Bool
done l = leb (sub64 l.machine.dcache.config.miss_latency 1) (u64 (l.data_miss_stalls + 1))

-- One round of waiting.
abbrev Waited : Loop → Loop → Type 0
Waited l t =
    IsStill l t
    × (t.machine.dcache ≡ l.machine.dcache)
    × (raises_illegal t.machine.pipeline.id_inst ≡ false)
    × (t.data_fetch_miss ≡ (if done l then false else true))
    × (t.data_miss_stalls ≡ (if done l then 0 else u64 (l.data_miss_stalls + 1)))

frozen-Waited :
    (l r : Loop) → IsWaiting l → Ready l r → Waited l (end_misses (frozen l.machine.pipeline r))
unfolding end_misses
frozen-Waited l r w (sim, pc, completed, dcache, pipeline, miss, stalls) =
    rw (dcache, miss, stalls)
      (
        (sim, pc, completed, refl, refl, refl),
        refl,
        forward-keeps raises_illegal with_operand-illegal l.machine.pipeline.mem_inst
              l.machine.pipeline.ex_inst l.machine.pipeline.id_inst
            ∙ w.legal,
        refl,
        refl,
      )

cycle-Waited : (platform : Platform) (l : Loop) → IsWaiting l → Waited l (cycle platform l)
unfolding cycle
cycle-Waited platform l w =
    let r = front-Ready platform l w.miss in
    rw
      (stages-frozen platform l.machine.pipeline (front platform l).0 (front platform l).1 r.5
        w.legal w.quiet)
      (frozen-Waited l (front platform l).0 w r)

-- The loop after `n` rounds.
unfoldable pub rounds : Platform → ℕ → Loop → Loop
rounds platform zero l = l
rounds platform (suc n) l = rounds platform n (cycle platform l)

-- What the test for the end of a miss says, by the stalls that are left.
done_cases :
    (l : Loop) (n : ℕ)
    → l.machine.dcache.config.miss_latency < 2 ^ 64
    → l.data_miss_stalls + suc n + 1 ≡ l.machine.dcache.config.miss_latency
    → (done l ≡ (n == 0)) × (u64 (l.data_miss_stalls + 1) ≡ l.data_miss_stalls + 1)
done_cases l n small e =
    let less : sub64 l.machine.dcache.config.miss_latency 1 ≡ l.data_miss_stalls + suc n =
      omega arith in
    let more : u64 (l.data_miss_stalls + 1) ≡ l.data_miss_stalls + 1 = omega arith in
    (rw (less, more) (ground arith), more)

-- The miss lasts through `n` rounds and is over after one more.
abbrev pub Ends : Platform → ℕ → Loop → Type 0
Ends platform n l =
    ((m : ℕ) → m ≤ n → (rounds platform m l).data_fetch_miss ≡ true)
    × ((rounds platform (suc n) l).data_fetch_miss ≡ false)
    × IsStill l (rounds platform (suc n) l)

Ends-now :
    (platform : Platform) (l : Loop)
    → l.data_fetch_miss ≡ true
    → (cycle platform l).data_fetch_miss ≡ false
    → IsStill l (cycle platform l)
    → Ends platform 0 l
unfolding rounds
Ends-now platform l miss over still = (at_most, over, still)
  where
    at_most : (m : ℕ) → m ≤ 0 → (rounds platform m l).data_fetch_miss ≡ true
    at_most zero h = miss
    at_most (suc m) h = absurd (omega arith)

Ends-later :
    (platform : Platform) (n : ℕ) (l : Loop)
    → l.data_fetch_miss ≡ true
    → IsStill l (cycle platform l)
    → Ends platform n (cycle platform l)
    → Ends platform (suc n) l
unfolding rounds
Ends-later platform n l miss still (lasts, over, rest) = (
  at_most,
  over,
  IsStill-trans l (cycle platform l) (rounds platform (suc n) (cycle platform l)) still rest,
)
  where
    at_most : (m : ℕ) → m ≤ suc n → (rounds platform m l).data_fetch_miss ≡ true
    at_most zero h = miss
    at_most (suc m) h = lasts m (omega arith)

-- A data miss that lacks `n + 1` stalls of `missLatency - 1`, with an `IsWaiting` pipeline and
-- `missLatency` in range: it lasts through `n` more rounds and is over after `n + 1`; until then the
-- simulator, `PC`, the count of completed instructions and the instructions in IF, EX and MEM stay
-- as they are.
pub rounds-Ends :
    (platform : Platform) (n : ℕ) (l : Loop)
    → IsWaiting l
    → l.machine.dcache.config.miss_latency < 2 ^ 64
    → l.data_miss_stalls + suc n + 1 ≡ l.machine.dcache.config.miss_latency
    → Ends platform n l
rounds-Ends platform zero l w small e =
    let (still, dcache, legal, miss, stalls) = cycle-Waited platform l w in
    let (over, more) = done_cases l 0 small e in
    Ends-now platform l w.miss (miss ∙ rw over refl) still
rounds-Ends platform (suc n) l w small e =
    let (still, dcache, legal, miss, stalls) = cycle-Waited platform l w in
    let (over, more) = done_cases l (suc n) small e in
    let latency = ap (λ (c : Cache). c.config.miss_latency) dcache in
    let counted : (cycle platform l).data_miss_stalls ≡ l.data_miss_stalls + 1 =
      stalls ∙ rw over (ground (arith, more)) in
    let later : IsWaiting (cycle platform l) = record {
      miss = miss ∙ rw over (ground arith);
      legal = legal;
      quiet = subst IsQuiet (sym still.5) w.quiet;
    } in
    Ends-later platform n l w.miss still (
      rounds-Ends platform n (cycle platform l) later (omega (arith, latency))
        (omega (arith, latency, counted)))
