-- ===== src/Cache/View.antt =====
-- A set of src/cache.cpp as a list of tags, the last used first: its valid ways by their ranks.
use ece375_project.Base.{
  ℕ, zero, suc, ◌-◌, ◌≤◌, ◌<◌, ◌≡◌, ◌≢◌, refl, sym, ap, ◌∙◌, subst, Bool, true, false, List, [],
  ◌∷◌, some, length, get_elem?, ltb, ◌==◌, Bool-cases, ltb→lt, ltb→le, ==→eq, ==→ne, inl, inr, ◌⊎◌,
  arith,
}
use mathlib.Core.Option.{some-injective}
use ece375_project.Cache.{Block, CacheSet, new_ways}
use ece375_project.Cache.Ways.{At, At-lt, lt-At, At-unique, Holds}
use ece375_project.Cache.Ranks.{IsRanked, IsPromoted, promoted, new_ways-At}
use ece375_project.Cache.Replace.{IsAccess, IsVictim}
use ece375_project.Cache.Recency.{
  contains, contains-index, use_tag-hit, use_tag-miss, take, use_tag, Distinct, use_tag-Distinct,
  remove_at, get_elem?-remove_at, length-remove_at, take-eq-remove_at,
}

-- The set `s` holds the tags `l`, in this order of use: a valid way of rank `i` has the tag of index
-- `i`, the invalid ways are ranked behind all tags, and every rank is some way's.
pub record IsView (s : CacheSet) (l : List ℕ) : Type 0 where
  pub held : (w : ℕ) (b : Block) → At s w b → b.is_valid ≡ true → get_elem? l b.lru ≡ some b.tag
  pub spare : (w : ℕ) (b : Block) → At s w b → b.is_valid ≡ false → length l ≤ b.lru
  pub ranks : (i : ℕ) → i < length s → (w : ℕ) × (b : Block) × At s w b × (b.lru ≡ i)
  pub short : length l ≤ length s
  pub distinct : Distinct l

-- A tag of the list is held by a way.
listed :
    {s : CacheSet} {l : List ℕ}
    → IsView s l
    → (i : ℕ) → i < length l
    → (w : ℕ) × (b : Block) × At s w b × (b.is_valid ≡ true) × (get_elem? l i ≡ some b.tag)
listed {s} {l} v i h =
    let (w, b, at, e) = v.ranks i (omega (arith, v.short)) in
    elim (Bool-cases b.is_valid) [
      | inl valid ↦
          (w, b, at, valid, subst (λ (n : ℕ). get_elem? l n ≡ some b.tag) e (v.held w b at valid))
      | inr not_valid ↦ absurd (omega (arith, v.spare w b at not_valid))
    ]

module _ {s t : CacheSet} {l : List ℕ} {x : ℕ} {u c : Block} (tag : ℕ) (p : IsPromoted s t x u)
    (r : IsRanked s) (v : IsView s l) (now : At t x c) (first : c.lru ≡ 0)
    (holds : Holds tag c) where
  -- A way other than the one used, after the access and before.
  pub forward_way :
      (w : ℕ) (b : Block) → At s w b → (d : Block) × At t w d × (d.lru ≡ promoted x u.lru w b)
  forward_way w b at =
      let (d, at') = lt-At t w (omega (arith, At-lt s w b at, p.same_length)) in
      let (b', at_b, rank, _) = p.back w d at' in
      (
        d,
        at',
        subst (λ (a : Block). d.lru ≡ promoted x u.lru w a) (At-unique s w b' b at_b at) rank,
      )

  -- The rank of another way after the access.
  other_rank :
      (w : ℕ) (d : Block)
      → At t w d
      → w ≢ x
      → (b : Block) × At s w b
        × (d.is_valid ≡ b.is_valid)
        × (d.tag ≡ b.tag)
        × (((d.lru ≡ suc b.lru) × (b.lru < u.lru)) ⊎ ((d.lru ≡ b.lru) × (u.lru < b.lru)))
  other_rank w d at ne =
      let (b, at_b, rank, same) = p.back w d at in
      let apart : b.lru ≢ u.lru = λ e. ne (r.distinct w x b u at_b p.used e) in
      (b, at_b, (same ne).0, (same ne).1, ground (arith, apart))

  moved :
      (n : ℕ) (d : Block)
      → d.lru ≡ suc n
      → get_elem? (remove_at l u.lru) n ≡ some d.tag
      → get_elem? (tag ∷ remove_at l u.lru) d.lru ≡ some d.tag
  moved n d e h = subst (λ (k : ℕ). get_elem? (tag ∷ remove_at l u.lru) k ≡ some d.tag) (sym e) h

  below_entry : (n : ℕ) → n < u.lru → get_elem? (remove_at l u.lru) n ≡ get_elem? l n
  below_entry n h = ground (arith, get_elem?-remove_at l u.lru n)

  above_entry : (n k : ℕ) → n ≡ suc k → u.lru < n → get_elem? (remove_at l u.lru) k ≡ get_elem? l n
  above_entry n k e h = ground (arith, get_elem?-remove_at l u.lru k)

  -- A block of another rank than `u` is in another way.
  apart : (w : ℕ) (b : Block) → At s w b → b.lru ≢ u.lru → w ≢ x
  apart w b at ne e =
      ne (ap (λ (a : Block). a.lru) (At-unique s x b u (subst (λ (a : ℕ). At s a b) e at) p.used))

  moved_held :
      (w : ℕ) (d : Block)
      → At t w d
      → d.is_valid ≡ true
      → get_elem? (tag ∷ remove_at l u.lru) d.lru ≡ some d.tag
  moved_held w d at valid = elim (Bool-cases (w == x)) [
    | inl e ↦
        let same = At-unique t x d c (subst (λ (a : ℕ). At t a d) (==→eq w x e) at) now in
        let e0 : d.lru ≡ 0 = ap (λ (a : Block). a.lru) same ∙ first in
        let e1 : d.tag ≡ tag = ap (λ (a : Block). a.tag) same ∙ holds.1 in
        subst (λ (k : ℕ). get_elem? (tag ∷ remove_at l u.lru) k ≡ some d.tag) (sym e0)
          (ap some (sym e1))
    | inr ne ↦
        let (b, at_b, same_valid, same_tag, way) = other_rank w d at (==→ne w x ne) in
        let old = v.held w b at_b (sym same_valid ∙ valid) in
        elim way [
          | inl (up, below) ↦
              moved b.lru d up (below_entry b.lru below ∙ old ∙ ap some (sym same_tag))
          | inr (stays, above) ↦
              moved (b.lru - 1) d (omega arith)
                (above_entry b.lru (b.lru - 1) (omega arith) above ∙ old ∙ ap some (sym same_tag))
        ]
  ]

  moved_spare :
      (w : ℕ) (d : Block) → At t w d → d.is_valid ≡ false → suc (length (remove_at l u.lru)) ≤ d.lru
  moved_spare w d at not_valid = elim (Bool-cases (w == x)) [
    | inl e ↦
        let same = At-unique t x d c (subst (λ (a : ℕ). At t a d) (==→eq w x e) at) now in
        let valid = ap (λ (a : Block). a.is_valid) same ∙ holds.0 in absurd (cc)
    | inr ne ↦
        let (b, at_b, same_valid, same_tag, way) = other_rank w d at (==→ne w x ne) in
        let old = v.spare w b at_b (sym same_valid ∙ not_valid) in
        ground (arith, old, length-remove_at l u.lru)
  ]

  moved_ranks : (i : ℕ) → i < length t → (w : ℕ) × (b : Block) × At t w b × (b.lru ≡ i)
  moved_ranks zero h = (x, c, now, first)
  moved_ranks (suc i) h =
      let top = r.bounded x u p.used in
      elim (Bool-cases (ltb i u.lru)) [
        | inl e ↦
            let below = ltb→lt i u.lru e in
            let (w, b, at, rank) = v.ranks i (omega arith) in
            let (d, at', moves) = forward_way w b at in
            (w, d, at', ground (arith, apart w b at (omega arith)))
        | inr e ↦
            let above = ltb→le i u.lru e in
            let (w, b, at, rank) = v.ranks (suc i) (omega (arith, p.same_length)) in
            let (d, at', moves) = forward_way w b at in
            (w, d, at', ground (arith, apart w b at (omega arith)))
      ]

  moved_short : suc (length (remove_at l u.lru)) ≤ length t
  moved_short =
      let top = r.bounded x u p.used in
      ground (arith, v.short, p.same_length, length-remove_at l u.lru)

  pub IsView-moved : Distinct (tag ∷ remove_at l u.lru) → IsView t (tag ∷ remove_at l u.lru)
  IsView-moved d = record {
    held = moved_held;
    spare = moved_spare;
    ranks = moved_ranks;
    short = moved_short;
    distinct = d;
  }

-- On a miss the list loses its last tag if all ways are taken, and none otherwise: that of the
-- victim.
victim_dropped :
    {s : CacheSet} {l : List ℕ} (x : ℕ) {u : Block}
    → IsView s l
    → IsRanked s
    → At s x u
    → IsVictim s u
    → take (length s - 1) l ≡ remove_at l u.lru
victim_dropped {s} {l} x {u} v r at victim =
    let top = r.bounded x u at in
    take-eq-remove_at l (length s - 1) u.lru (omega (arith, v.short)) (omega arith) (elim victim [
      | inl unused ↦ inl (v.spare x u at unused)
      | inr oldest ↦
          let (w, b, at_b, rank) = v.ranks (length s - 1) (omega arith) in
          let below = (oldest w b at_b).1 in inr (omega arith)
    ])

-- A tag of the list is held by a way.
contains-Holds :
    {s : CacheSet} {l : List ℕ} (tag : ℕ)
    → IsView s l
    → contains tag l ≡ true
    → (w : ℕ) × (b : Block) × At s w b × Holds tag b
contains-Holds {s} {l} tag v h =
    let (i, below, at_i) = contains-index tag l h in
    let (w, b, at, valid, same) = listed v i below in
    (w, b, at, (valid, some-injective b.tag tag (sym same ∙ at_i)))

module _ {s t : CacheSet} {l : List ℕ} {hit : Bool} (tag : ℕ) (a : IsAccess tag s t hit)
    (r : IsRanked s) (v : IsView s l) where
  used-IsView :
      use_tag (length s) tag l ≡ (tag ∷ remove_at l a.old.lru, hit)
      → (hit ≡ (use_tag (length s) tag l).1) × IsView t (use_tag (length s) tag l).0
  used-IsView step =
      let d = use_tag-Distinct (length s) tag l v.distinct in
      subst (λ (z : List ℕ × Bool). (hit ≡ z.1) × IsView t z.0) (sym step)
        (
          refl,
          IsView-moved tag a.promotes r v a.now a.first a.holds
              (subst (λ (z : List ℕ × Bool). Distinct z.0) step d),
        )

  -- An access to a set is a use of the tag in the list that it stands for.
  pub IsAccess-use_tag :
      (hit ≡ (use_tag (length s) tag l).1) × IsView t (use_tag (length s) tag l).0
  IsAccess-use_tag = elim a.why [
    | inl (e, (valid, same)) ↦
        let got = v.held a.way a.old a.promotes.used valid ∙ ap some same in
        used-IsView (
          use_tag-hit (length s) tag l a.old.lru v.distinct got
          ∙ ap (λ (b : Bool). (tag ∷ remove_at l a.old.lru, b)) (sym e))
    | inr (e, absent, victim) ↦
        let gone : contains tag l ≡ false = elim (Bool-cases (contains tag l)) [
          | inl there ↦ let (w, b, at, h) = contains-Holds tag v there in absurd (absent w b at h)
          | inr not_there ↦ not_there
        ] in
        used-IsView (
          use_tag-miss (length s) tag l (remove_at l a.old.lru) gone
            (victim_dropped a.way v r a.promotes.used victim)
          ∙ ap (λ (b : Bool). (tag ∷ remove_at l a.old.lru, b)) (sym e))
  ]

-- The list of a new set is empty.
pub new_ways-IsView : (n : ℕ) → IsView (new_ways n 0) []
new_ways-IsView n = record {
  held = λ w b at valid. let (_, unused, _) = new_ways-At n 0 w b at in absurd (cc);
  spare = λ w b at unused. omega arith;
  ranks = λ i h.
      let (b, at) = lt-At (new_ways n 0) i h in
      let (rank, _, _) = new_ways-At n 0 i b at in (i, b, at, omega arith);
  short = omega arith;
  distinct = tt;
}
