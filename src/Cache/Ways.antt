-- ===== src/Cache/Ways.antt =====
-- One set of the cache, way by way: what its loops find and write.
use ece375_project.Base.{
  ℕ, zero, suc, ◌+◌, ◌≤◌, ◌<◌, ◌≡◌, refl, sym, ap, subst, true, false, ◌&&◌, none, some, [], ◌∷◌,
  length, All, All-get_elem?, get_elem?, leb, ◌==◌, if◌then◌else◌, Bool-cases, inl, inr, ◌⊎◌, arith,
}
use ece375_project.Cache.{
  Block, CacheSet, Found, find_block, find_victim, aged, touch_ways, fill_ways,
}

-- Way `w` of the set holds the block `b`.
abbrev pub At : CacheSet → ℕ → Block → Type 0
At s w b = get_elem? s w ≡ some b

-- A block is in the cache under a tag.
abbrev pub Holds : ℕ → Block → Type 0
Holds tag b = (b.is_valid ≡ true) × (b.tag ≡ tag)

-- A search that finds something found a way of the set with the tag.
pub find_block-some :
    (tag i : ℕ) (s : CacheSet) (f : Found)
    → find_block tag i s ≡ some f
    → (w : ℕ) × (b : Block) × (f.way ≡ i + w) × At s w b × (f.rank ≡ b.lru) × Holds tag b
unfolding find_block
find_block-some tag i [] f e = absurd (cc)
find_block-some tag i (b ∷ bs) f e = elim (Bool-cases (b.is_valid && b.tag == tag)) [
  | inl here ↦ (0, b, ground arith, refl, ground arith, ground arith)
  | inr other ↦
      let (w, c, p, q, r, h) = find_block-some tag (i + 1) bs f (ground arith) in
      (suc w, c, omega arith, q, r, h)
]

-- A search that finds nothing saw no way with the tag.
pub find_block-none :
    (tag i : ℕ) (s : CacheSet) (w : ℕ) (b : Block)
    → find_block tag i s ≡ none
    → At s w b
    → ¬ Holds tag b
unfolding find_block
find_block-none tag i [] w b e a h = cc
find_block-none tag i (c ∷ bs) zero b e a h = ground arith
find_block-none tag i (c ∷ bs) (suc w) b e a h = elim (Bool-cases (c.is_valid && c.tag == tag)) [
  | inl here ↦ ground arith
  | inr other ↦ find_block-none tag (i + 1) bs w b (ground arith) a h
]

-- `f` names way `w` of the set, counted from `i`, and the rank of its block.
abbrev pub Names : ℕ → CacheSet → Found → ℕ → Block → Type 0
Names i s f w b = (f.way ≡ i + w) × At s w b × (f.rank ≡ b.lru)

abbrev here : ℕ → Block → Found
here i b = record { way = i; rank = b.lru }

abbrev older : ℕ → Found → Block → Found
older i best b = if leb best.rank b.lru then here i b else best

victim_valid :
    (i : ℕ) (best : Found) (b : Block) (bs : CacheSet)
    → b.is_valid ≡ true
    → find_victim i best (b ∷ bs) ≡ find_victim (i + 1) (older i best b) bs
unfolding find_victim
victim_valid i best b bs v = simp v

victim_invalid :
    (i : ℕ) (best : Found) (b : Block) (bs : CacheSet)
    → b.is_valid ≡ false
    → find_victim i best (b ∷ bs) ≡ here i b
unfolding find_victim
victim_invalid i best b bs v = simp v

-- The victim is a way of the set, or the first guess if the set offers none.
pub find_victim-Names :
    (i : ℕ) (best : Found) (s : CacheSet)
    → ((w : ℕ) × (b : Block) × Names i s (find_victim i best s) w b) ⊎ (find_victim i best s ≡ best)
find_victim-Names i best [] = inr (unfold find_victim in refl)
find_victim-Names i best (b ∷ bs) = elim (Bool-cases b.is_valid) [
  | inr v ↦ rw (victim_invalid i best b bs v) (inl (0, b, (omega arith, refl, refl)))
  | inl v ↦ rw (victim_valid i best b bs v) (elim (find_victim-Names (i + 1) (older i best b) bs) [
    | inl (w, c, n) ↦ inl (suc w, c, (omega arith, n.1, n.2))
    | inr e ↦ rw e (elim (Bool-cases (leb best.rank b.lru)) [
      | inl le ↦ rw le (inl (0, b, (omega arith, refl, refl)))
      | inr gt ↦ rw gt (inr refl)
    ])
  ])
]

-- `v` is an invalid block of the set; or all blocks are valid and none has a higher rank than `v`.
abbrev pub Chosen : ℕ → Found → CacheSet → Found → Type 0
Chosen i best s v =
    ((w : ℕ) × (b : Block) × Names i s v w b × (b.is_valid ≡ false))
    ⊎ (All (λ b. (b.is_valid ≡ true) × (b.lru ≤ v.rank)) s × (best.rank ≤ v.rank))

Chosen-cons :
    (i : ℕ) (best : Found) (b : Block) (bs : CacheSet) (v : Found)
    → b.is_valid ≡ true
    → Chosen (i + 1) (older i best b) bs v
    → Chosen i best (b ∷ bs) v
Chosen-cons i best b bs v e (inl (w, c, n, k)) = inl (suc w, c, (omega arith, n.1, n.2), k)
Chosen-cons i best b bs v e (inr (a, le)) = inr (((e, ground arith), a), ground arith)

pub find_victim-Chosen :
    (i : ℕ) (best : Found) (s : CacheSet) → Chosen i best s (find_victim i best s)
find_victim-Chosen i best [] = inr (tt, unfold find_victim in omega arith)
find_victim-Chosen i best (b ∷ bs) = elim (Bool-cases b.is_valid) [
  | inr v ↦
      subst (Chosen i best (b ∷ bs)) (sym (victim_invalid i best b bs v))
        (inl (0, b, (omega arith, refl, refl), v))
  | inl v ↦
      subst (Chosen i best (b ∷ bs)) (sym (victim_valid i best b bs v))
        (Chosen-cons i best b bs _ v (find_victim-Chosen (i + 1) (older i best b) bs))
]

-- A block of the set after a touch, from the block that was there.
pub touch_ways-At :
    (hit : Found) (i : ℕ) (s : CacheSet) (w j : ℕ) (b : Block)
    → i + w ≡ j
    → At s w b
    → At (touch_ways hit i s) w (if j == hit.way then record b { lru = 0 } else aged hit.rank b)
unfolding touch_ways
touch_ways-At hit i [] w j b e a = absurd (cc)
touch_ways-At hit i (c ∷ s) zero j b e a = ground arith
touch_ways-At hit i (c ∷ s) (suc w) j b e a = touch_ways-At hit (i + 1) s w j b (omega arith) a

-- A block of the set after a fill.
pub fill_ways-At :
    (tag : ℕ) (victim : Found) (i : ℕ) (s : CacheSet) (w j : ℕ) (b : Block)
    → i + w ≡ j
    → At s w b
    → At (fill_ways tag victim i s) w (
        if j == victim.way
        then record { is_valid = true; tag = tag; lru = 0 }
        else aged victim.rank b)
unfolding fill_ways
fill_ways-At tag victim i [] w j b e a = absurd (cc)
fill_ways-At tag victim i (c ∷ s) zero j b e a = ground arith
fill_ways-At tag victim i (c ∷ s) (suc w) j b e a =
    fill_ways-At tag victim (i + 1) s w j b (omega arith) a

pub length-touch_ways :
    (hit : Found) (i : ℕ) (s : CacheSet) → length (touch_ways hit i s) ≡ length s
unfolding touch_ways
length-touch_ways hit i [] = refl
length-touch_ways hit i (c ∷ s) = ap suc (length-touch_ways hit (i + 1) s)

pub length-fill_ways :
    (tag : ℕ) (victim : Found) (i : ℕ) (s : CacheSet) → length (fill_ways tag victim i s) ≡ length s
unfolding fill_ways
length-fill_ways tag victim i [] = refl
length-fill_ways tag victim i (c ∷ s) = ap suc (length-fill_ways tag victim (i + 1) s)

-- A way of the set is a number below its length.
pub At-lt : (s : CacheSet) (w : ℕ) (b : Block) → At s w b → w < length s
At-lt [] w b a = absurd (cc)
At-lt (c ∷ s) zero b a = omega arith
At-lt (c ∷ s) (suc w) b a = omega (arith, At-lt s w b a)

pub lt-At : (s : CacheSet) (w : ℕ) → w < length s → (b : Block) × At s w b
lt-At [] w h = absurd (omega arith)
lt-At (c ∷ s) zero h = (c, refl)
lt-At (c ∷ s) (suc w) h = lt-At s w (omega arith)

pub At-unique : (s : CacheSet) (w : ℕ) (b c : Block) → At s w b → At s w c → b ≡ c
At-unique s w b c p q = cc

pub All-At {κ} : (P : Block → Type κ) (s : CacheSet) (w : ℕ) (b : Block) → All P s → At s w b → P b
All-At P s w b h a = All-get_elem? P s w h a
