-- ===== src/Cache/Replace.antt =====
-- An access to one set of src/cache.cpp: the way that it uses, on a hit and on a miss.
use ece375_project.Base.{
  ℕ, ◌+◌, ◌≤◌, ◌<◌, ◌≡◌, refl, ap, ◌∙◌, Bool, true, false, none, length, All, Option-cases, inl,
  inr, ◌⊎◌, arith,
}
use ece375_project.Cache.{
  Block, CacheSet, Found, find_block, find_victim, touch_ways, fill_ways, access_set,
}
use ece375_project.Cache.Ways.{
  At, At-lt, lt-At, At-unique, All-At, Holds, find_block-some, find_block-none, find_victim-Names,
  find_victim-Chosen, Chosen, Names, touch_ways-At, fill_ways-At, length-touch_ways,
  length-fill_ways,
}
use ece375_project.Cache.Ranks.{IsPromoted}

-- The values that the search for a victim starts from.
abbrev first_guess : Found
first_guess = record { way = 0; rank = 0 }

touch-IsPromoted :
    (s : CacheSet) (f : Found) (x : ℕ) (u : Block)
    → f.way ≡ x
    → At s x u
    → f.rank ≡ u.lru
    → IsPromoted s (touch_ways f 0 s) x u
touch-IsPromoted s f x u ew a er = record {
  same_length = length-touch_ways f 0 s;
  used = a;
  back = λ w c ac.
      let below = At-lt (touch_ways f 0 s) w c ac in
      let (b, ab) = lt-At s w (omega (arith, length-touch_ways f 0 s)) in
      let new = touch_ways-At f 0 s w w b (omega arith) ab in
      let e = At-unique (touch_ways f 0 s) w c _ ac new in
      (b, ab, ground (arith, e), λ ne. ground (arith, e));
}

fill-IsPromoted :
    (tag : ℕ) (s : CacheSet) (f : Found) (x : ℕ) (u : Block)
    → f.way ≡ x
    → At s x u
    → f.rank ≡ u.lru
    → IsPromoted s (fill_ways tag f 0 s) x u
fill-IsPromoted tag s f x u ew a er = record {
  same_length = length-fill_ways tag f 0 s;
  used = a;
  back = λ w c ac.
      let below = At-lt (fill_ways tag f 0 s) w c ac in
      let (b, ab) = lt-At s w (omega (arith, length-fill_ways tag f 0 s)) in
      let new = fill_ways-At tag f 0 s w w b (omega arith) ab in
      let e = At-unique (fill_ways tag f 0 s) w c _ ac new in
      (b, ab, ground (arith, e), λ ne. ground (arith, e));
}

-- Way `x` may be replaced: its block `u` is invalid, or all blocks are valid and `u` has the
-- highest rank.
abbrev pub IsVictim : CacheSet → Block → Type 0
IsVictim s u =
    (u.is_valid ≡ false) ⊎ ((w : ℕ) (b : Block) → At s w b → (b.is_valid ≡ true) × (b.lru ≤ u.lru))

-- What an access for a tag makes of a set: it uses one way `x`, which holds the tag afterwards with
-- rank 0. It is a hit if `x` held the tag before, and a miss if no way did; then `x` was the victim.
pub record IsAccess (tag : ℕ) (s t : CacheSet) (hit : Bool) : Type 0 where
  pub way : ℕ
  pub old : Block
  pub new : Block
  pub promotes : IsPromoted s t way old
  pub now : At t way new
  pub first : new.lru ≡ 0
  pub holds : Holds tag new
  pub why :
      ((hit ≡ true) × Holds tag old)
      ⊎ ((hit ≡ false) × ((w : ℕ) (b : Block) → At s w b → ¬ Holds tag b) × IsVictim s old)

hit-IsAccess :
    (tag : ℕ) (s : CacheSet) (f : Found) (x : ℕ) (u : Block)
    → f.way ≡ 0 + x
    → At s x u
    → f.rank ≡ u.lru
    → Holds tag u
    → IsAccess tag s (touch_ways f 0 s) true
hit-IsAccess tag s f x u ew a er h =
    let e : f.way ≡ x = omega arith in
    record {
      way = x;
      old = u;
      new = record u { lru = 0 };
      promotes = touch-IsPromoted s f x u e a er;
      now = touch_ways-At f 0 s x x u (omega arith) a ∙ ground arith;
      first = refl;
      holds = h;
      why = inl (refl, h);
    }

IsVictim-found :
    (s : CacheSet)
    → 0 < length s
    → let v = find_victim 0 (first_guess) s in
      (x : ℕ) × (u : Block) × (v.way ≡ x) × At s x u × (v.rank ≡ u.lru) × IsVictim s u
IsVictim-found s h =
    from_choice (find_victim-Chosen 0 first_guess s) (find_victim-Names 0 first_guess s)
  where
    v : Found
    v = find_victim 0 first_guess s

    older :
        All (λ b. (b.is_valid ≡ true) × (b.lru ≤ v.rank)) s
        → (w : ℕ) (b : Block) → At s w b
        → (b.is_valid ≡ true) × (b.lru ≤ v.rank)
    older all w b a = All-At (λ b. (b.is_valid ≡ true) × (b.lru ≤ v.rank)) s w b all a

    from_choice :
        Chosen 0 first_guess s v
        → ((w : ℕ) × (b : Block) × Names 0 s v w b) ⊎ (v ≡ first_guess)
        → (x : ℕ) × (u : Block) × (v.way ≡ x) × At s x u × (v.rank ≡ u.lru) × IsVictim s u
    from_choice (inl (w, b, n, k)) _ = (w, b, omega (arith, n.0), n.1, n.2, inl k)
    from_choice (inr (all, _)) (inl (w, b, n)) =
        (w, b, omega (arith, n.0), n.1, n.2, inr (λ y c a. ground (arith, older all y c a, n.2)))
    from_choice (inr (all, _)) (inr e) =
        let (c, ac) = lt-At s 0 h in
        let low = older all 0 c ac in
        (
          0,
          c,
          ap (λ (f : Found). f.way) e,
          ac,
          omega (arith, low.1, ap (λ (f : Found). f.rank) e),
          inr (λ y d a. ground (arith, older all y d a, ap (λ (f : Found). f.rank) e)),
        )

miss-IsAccess :
    (tag : ℕ) (s : CacheSet)
    → 0 < length s
    → find_block tag 0 s ≡ none
    → IsAccess tag s (fill_ways tag (find_victim 0 (first_guess) s) 0 s) false
miss-IsAccess tag s h e =
    let f = find_victim 0 (first_guess) s in
    let (x, u, ew, a, er, v) = IsVictim-found s h in
    record {
      way = x;
      old = u;
      new = record { is_valid = true; tag = tag; lru = 0 };
      promotes = fill-IsPromoted tag s f x u ew a er;
      now = fill_ways-At tag f 0 s x x u (omega arith) a ∙ ground arith;
      first = refl;
      holds = (refl, refl);
      why = inr (refl, λ w b p. find_block-none tag 0 s w b e p, v);
    }

-- Every access to a set with at least one way is one of these.
pub access_set-IsAccess :
    (tag : ℕ) (s : CacheSet)
    → 0 < length s
    → IsAccess tag s (access_set tag s).0 (access_set tag s).1
unfolding access_set
access_set-IsAccess tag s h = elim (Option-cases (find_block tag 0 s)) [
  | inl e ↦ rw (e, access_set) (miss-IsAccess tag s h e)
  | inr (f, e) ↦
      let (x, u, ew, a, er, k) = find_block-some tag 0 s f e in
      rw (e, access_set) (hit-IsAccess tag s f x u ew a er k)
]
