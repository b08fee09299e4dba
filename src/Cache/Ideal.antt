-- ===== src/Cache/Ideal.antt =====
-- `Cache` of src/cache.cpp against an LRU cache described by its block numbers alone: for each set
-- the list of its tags, the last used first.
use native.Mathlib.Nat.{one-le-pow}
use ece375_project.Base.{
  ℕ, ◌/◌, ◌%◌, ◌<◌, ◌≡◌, refl, sym, ap, ◌∙◌, subst, Bool, List, [], ◌∷◌, length, set, replicate,
  get_or, All-get_or_lt, length-set, length-replicate, get_or-replicate, get_or-set_self,
  get_or-set_ne, ◌==◌, Bool-cases, ==→eq, ==→ne, inl, inr, arith,
}
use ece375_project.Platform.{Platform}
use ece375_project.Cache.{
  Cache, CacheConfig, CacheSet, CacheDataType, CacheOperation, new_cache, new_ways, num_sets,
  access, set_index, tag_of,
}
use ece375_project.Cache.Access.{
  IsConfig, IsCache, index_lem, tag_lem, tag_of-set_index, set_access, access-IsCache,
  access_elsewhere, set_of, new_cache-IsCache,
}
use ece375_project.Cache.Ranks.{IsRanked}
use ece375_project.Cache.Recency.{use_tag}
use ece375_project.Cache.View.{IsView, IsAccess-use_tag, new_ways-IsView}

-- The set and the tag of an address, by division.
abbrev pub ideal_index : CacheConfig → ℕ → ℕ
ideal_index config address = address / config.block_size % num_sets config

abbrev pub ideal_tag : CacheConfig → ℕ → ℕ
ideal_tag config address = address / config.block_size / num_sets config

unfoldable pub ideal_access : CacheConfig → ℕ → List (List ℕ) → List (List ℕ) × Bool
ideal_access config address sets =
    let i = ideal_index config address in
    let (tags, hit) = use_tag config.ways (ideal_tag config address) (get_or sets i []) in
    (set sets i tags, hit)

-- Accesses one after the other, and which of them hit.
abbrev pub Requests : Type 0
Requests = List (ℕ × CacheOperation)

unfoldable pub accesses : Platform → Requests → Cache → Cache × List Bool
accesses platform [] c = (c, [])
accesses platform ((address, operation) ∷ rest) c =
    let (c', hit) = access platform address operation c in
    let (last, hits) = accesses platform rest c' in (last, hit ∷ hits)

unfoldable pub ideal_accesses : CacheConfig → Requests → List (List ℕ) → List (List ℕ) × List Bool
ideal_accesses config [] sets = (sets, [])
ideal_accesses config ((address, _) ∷ rest) sets =
    let (sets', hit) = ideal_access config address sets in
    let (last, hits) = ideal_accesses config rest sets' in (last, hit ∷ hits)

-- The cache holds what the lists say, set by set.
pub record IsModel (c : Cache) (sets : List (List ℕ)) : Type 0 where
  pub as_many : length sets ≡ num_sets c.config
  pub views : (j : ℕ) → j < num_sets c.config → IsView (get_or c.sets j []) (get_or sets j [])

module _ (platform : Platform) (c : Cache) (sets : List (List ℕ)) (k : IsConfig c.config)
    (i : IsCache c) (m : IsModel c sets) (address : ℕ) (operation : CacheOperation) where
  abbrev index : ℕ
  index = set_index platform c.config address

  abbrev used : List ℕ × Bool
  used = use_tag c.config.ways (tag_of platform c.config address) (get_or sets index [])

  index_fits : index < num_sets c.config
  index_fits = (tag_of-set_index platform c.config k address).0

  -- The set that the address goes to.
  set-IsView :
      ((access platform address operation c).1 ≡ used.1)
      × IsView (set_of platform address (access platform address operation c).0) used.0
  set-IsView =
      let there =
        All-get_or_lt (λ (s : CacheSet). IsRanked s × (length s ≡ c.config.ways)) c.sets index []
          i.ranked (omega (arith, index_fits, i.sets)) in
      let step =
        IsAccess-use_tag (tag_of platform c.config address)
          (set_access platform c k i address operation) there.0 (m.views index index_fits) in
      subst
        (λ (n : ℕ).
          let s = use_tag n (tag_of platform c.config address) (get_or sets index []) in
          ((access platform address operation c).1 ≡ s.1)
          × IsView (set_of platform address (access platform address operation c).0) s.0)
        there.1 step

  same_set :
      IsView
        (get_or (access platform address operation c).0.sets index [])
        (get_or (set sets index used.0) index [])
  unfolding access
  same_set =
      rw (get_or-set_self sets index used.0 [] (omega (arith, index_fits, m.as_many))) set-IsView.1

  all_views :
      (j : ℕ)
      → j < num_sets c.config
      → IsView
          (get_or (access platform address operation c).0.sets j [])
          (get_or (set sets index used.0) j [])
  all_views j h = elim (Bool-cases (index == j)) [
    | inl e ↦
        subst
          (λ (n : ℕ).
            IsView (get_or (access platform address operation c).0.sets n [])
              (get_or (set sets index used.0) n []))
          (==→eq index j e) same_set
    | inr ne ↦
        let other = ==→ne index j ne in
        rw
          (
            (access_elsewhere platform c k i address operation).0 j other,
            get_or-set_ne sets index j used.0 [] other,
          )
          (m.views j h)
  ]

  modelled :
      ((access platform address operation c).1 ≡ used.1)
      × IsModel (access platform address operation c).0 (set sets index used.0)
  modelled =
      let same_config = (access_elsewhere platform c k i address operation).1 in
      (
        set-IsView.0,
        record {
          as_many = length-set sets index used.0 ∙ m.as_many ∙ ap num_sets (sym same_config);
          views = λ j h. all_views j (subst (λ (f : CacheConfig). j < num_sets f) same_config h);
        },
      )

  -- In an `IsCache` with an `IsConfig` configuration that stands for some LRU lists, an access hits
  -- exactly when it hits in the list of its set, and afterwards the cache stands for the lists after
  -- that use.
  pub access-IsModel :
      let r = access platform address operation c in
      let s = ideal_access c.config address sets in (r.1 ≡ s.1) × IsModel r.0 s.0
  unfolding ideal_access
  access-IsModel =
      rw (index_lem platform c.config k address, tag_lem platform c.config k address) at modelled

-- A cache as it is made stands for as many empty lists as it has sets.
pub new_cache-IsModel :
    (config : CacheConfig) (kind : CacheDataType)
    → IsModel (new_cache config kind) (replicate (num_sets config) [])
unfolding new_cache
new_cache-IsModel config kind = record {
  as_many = length-replicate (num_sets config) [];
  views = λ j h.
      let set = get_or-replicate (num_sets config) j (new_ways config.ways 0) [] h in
      let tags : get_or (replicate (num_sets config) []) j [] ≡ [] =
        get_or-replicate (num_sets config) j [] [] h in
      subst
        (λ (t : List ℕ).
          IsView (get_or (replicate (num_sets config) (new_ways config.ways 0)) j []) t)
        (sym tags) (subst (λ (s : CacheSet). IsView s []) (sym set) (new_ways-IsView config.ways));
}

-- What is to show of a run from a cache and from the lists that it stands for.
abbrev Agrees : Platform → Requests → CacheConfig → Cache → List (List ℕ) → Type 0
Agrees platform requests config c sets =
    ((accesses platform requests c).1 ≡ (ideal_accesses config requests sets).1)
    × IsModel (accesses platform requests c).0 (ideal_accesses config requests sets).0

Agrees-nil :
    (platform : Platform) (c : Cache) (sets : List (List ℕ))
    → IsModel c sets
    → Agrees platform [] c.config c sets
unfolding accesses ideal_accesses
Agrees-nil platform c sets m = (refl, m)

Agrees-cons :
    (platform : Platform) (address : ℕ) (operation : CacheOperation) (rest : Requests)
    (config : CacheConfig) (c : Cache) (sets : List (List ℕ))
    → (access platform address operation c).1 ≡ (ideal_access config address sets).1
    → Agrees platform rest config
        (access platform address operation c).0
        (ideal_access config address sets).0
    → Agrees platform ((address, operation) ∷ rest) config c sets
unfolding accesses ideal_accesses
Agrees-cons platform address operation rest config c sets now later =
    (λ i. now i ∷ later.0 i, later.1)

-- From an `IsCache` with an `IsConfig` configuration that stands for some lists, any accesses one
-- after the other hit where they hit in the lists.
pub accesses-ideal_accesses :
    (platform : Platform) (requests : Requests) (c : Cache) (sets : List (List ℕ))
    → IsConfig c.config
    → IsCache c
    → IsModel c sets
    → ((accesses platform requests c).1 ≡ (ideal_accesses c.config requests sets).1)
      × IsModel (accesses platform requests c).0 (ideal_accesses c.config requests sets).0
accesses-ideal_accesses platform [] c sets k i m = Agrees-nil platform c sets m
accesses-ideal_accesses platform ((address, operation) ∷ rest) c sets k i m =
    let c' = (access platform address operation c).0 in
    let same = (access_elsewhere platform c k i address operation).1 in
    let (now, m') = access-IsModel platform c sets k i m address operation in
    let later =
      accesses-ideal_accesses platform rest c' (ideal_access c.config address sets).0
        (subst IsConfig (sym same) k) (access-IsCache platform c k i address operation) m' in
    Agrees-cons platform address operation rest c.config c sets now (
      subst (λ (f : CacheConfig). Agrees platform rest f c' (ideal_access c.config address sets).0)
        same later)

some_block : (config : CacheConfig) → IsConfig config → 0 < config.block_size
some_block config k = rw k.blocks (one-le-pow k.block_bits 2 (omega arith))

-- A cache as the constructor makes it, of an `IsConfig` configuration, hits in any sequence of
-- accesses exactly where an LRU cache hits that keeps for each set the list of its tags, the last
-- used first: it looks for the tag in the list of the address's set, moves it to the front, and
-- drops the last tag of a full list for a new one.
pub new_cache-ideal_accesses :
    (platform : Platform) (config : CacheConfig) (kind : CacheDataType) (requests : Requests)
    → IsConfig config
    → (accesses platform requests (new_cache config kind)).1
      ≡ (ideal_accesses config requests (replicate (num_sets config) [])).1
unfolding new_cache
new_cache-ideal_accesses platform config kind requests k =
    (accesses-ideal_accesses platform requests (new_cache config kind)
      (replicate (num_sets config) []) k
      (new_cache-IsCache config kind (some_block config k) k.some_way)
      (new_cache-IsModel config kind)).0
