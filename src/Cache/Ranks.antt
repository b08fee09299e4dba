-- ===== src/Cache/Ranks.antt =====
-- The ranks of a set of src/cache.cpp, and what a use of a way makes of them.
use ece375_project.Base.{
  ℕ, zero, suc, ◌+◌, ◌<◌, ◌≡◌, ◌≢◌, refl, ap, ◌↔◌, false, length, ltb, ◌==◌, if◌then◌else◌, arith,
}
use ece375_project.Cache.{Block, CacheSet, new_ways}
use ece375_project.Cache.Ways.{At, At-unique}

-- The ranks of the ways are distinct and below their number.
pub record IsRanked (s : CacheSet) : Type 0 where
  pub bounded : (w : ℕ) (b : Block) → At s w b → b.lru < length s
  pub distinct : (w v : ℕ) (b c : Block) → At s w b → At s v c → b.lru ≡ c.lru → w ≡ v

-- The rank that way `w` has once way `x` of rank `r` is used.
abbrev pub promoted : ℕ → ℕ → ℕ → Block → ℕ
promoted x r w b = if w == x then 0 else if ltb b.lru r then b.lru + 1 else b.lru

-- `t` is `s` after a use of way `x`, which had the block `u`.
pub record IsPromoted (s t : CacheSet) (x : ℕ) (u : Block) : Type 0 where
  pub same_length : length t ≡ length s
  pub used : At s x u
  pub back :
      (w : ℕ) (c : Block)
      → At t w c
      → (b : Block) × At s w b
        × (c.lru ≡ promoted x u.lru w b)
        × (w ≢ x → (c.is_valid ≡ b.is_valid) × (c.tag ≡ b.tag))

pub IsPromoted-IsRanked :
    {s t : CacheSet} {x : ℕ} {u : Block} → IsPromoted s t x u → IsRanked s → IsRanked t
IsPromoted-IsRanked {s} {t} {x} {u} p r = record {
  bounded = λ w c a.
      let (b, at, rank, _) = p.back w c a in
      let small = r.bounded w b at in
      let top = r.bounded x u p.used in ground (arith, p.same_length);
  distinct = λ w v c d aw av e.
      let (b, at_w, rank_w, _) = p.back w c aw in
      let (b', at_v, rank_v, _) = p.back v d av in
      ground (
        arith,
        r.distinct w v b b' at_w at_v,
        r.distinct w x b u at_w p.used,
        r.distinct v x b' u at_v p.used,
      );
}

-- The ways that are not used keep their order.
pub IsPromoted-order :
    {s t : CacheSet} {x : ℕ} {u : Block}
    → IsPromoted s t x u
    → IsRanked s
    → (w v : ℕ) (b c b' c' : Block) → At s w b
    → At s v c
    → At t w b'
    → At t v c'
    → w ≢ x
    → v ≢ x
    → (b.lru < c.lru) ↔ (b'.lru < c'.lru)
IsPromoted-order {s} {t} {x} {u} p r w v b c b' c' ab ac ab' ac' ne ne' =
    let (b_old, ab_old, rank, _) = p.back w b' ab' in
    let (c_old, ac_old, rank', _) = p.back v c' ac' in
    let e = ap (λ (a : Block). a.lru) (At-unique s w b b_old ab ab_old) in
    let e' = ap (λ (a : Block). a.lru) (At-unique s v c c_old ac ac_old) in
    let d : b.lru ≢ u.lru = λ q. ne (r.distinct w x b u ab p.used q) in
    let d' : c.lru ≢ u.lru = λ q. ne' (r.distinct v x c u ac p.used q) in
    (λ h. ground (arith, e, e', d, d'), λ h. ground (arith, e, e', d, d'))

-- The ways of a new set are ranked by their numbers.
pub new_ways-At :
    (n j w : ℕ) (b : Block)
    → At (new_ways n j) w b
    → (b.lru ≡ j + w) × (b.is_valid ≡ false) × (w < n)
unfolding new_ways
new_ways-At zero j w b a = absurd (cc)
new_ways-At (suc n) j zero b a = ground arith
new_ways-At (suc n) j (suc w) b a = ground (arith, new_ways-At n (j + 1) w b a)

pub length-new_ways : (n j : ℕ) → length (new_ways n j) ≡ n
unfolding new_ways
length-new_ways zero j = refl
length-new_ways (suc n) j = ap suc (length-new_ways n (j + 1))

pub new_ways-IsRanked : (n : ℕ) → IsRanked (new_ways n 0)
new_ways-IsRanked n = record {
  bounded = λ w b a. omega (arith, new_ways-At n 0 w b a, length-new_ways n 0);
  distinct = λ w v b c a d e. omega (arith, new_ways-At n 0 w b a, new_ways-At n 0 v c d);
}
