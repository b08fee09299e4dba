-- ===== src/Cache/Access.antt =====
-- `Cache::access` on the whole cache: where an address goes, when it hits, and what stays.
use native.Mathlib.Nat.{mod-lt, one-le-pow, div-div-eq-div-mul}
use ece375_project.Base.{
  ℕ, zero, suc, ◌+◌, ◌*◌, ◌/◌, ◌%◌, ◌^◌, ◌<◌, ◌≡◌, ◌≢◌, refl, sym, ap, ◌∙◌, ◌↔◌, true, false, [],
  length, All, All-set, All-get_or_lt, All-replicate, length-set, length-replicate, get_or,
  get_or-set_self, get_or-set_ne, inl, inr, ◌⊎◌, arith,
}
use mathlib.Core.Bool.{false≢true}
use ece375_project.Platform.{Platform}
use ece375_project.Word.{u64}
use ece375_project.Word.Bits.{bit_and_mask, pow-add}
use ece375_project.Cache.{
  Block, Cache, CacheSet, CacheConfig, CacheDataType, CacheOperation, access_set, new_cache,
  num_sets, set_index, tag_of, index_bits, offset_bits, access,
}
use ece375_project.Cache.Ways.{At, Holds}
use ece375_project.Cache.Ranks.{
  IsRanked, IsPromoted-IsRanked, IsPromoted-order, new_ways-IsRanked, length-new_ways,
}
use ece375_project.Cache.Replace.{IsAccess, IsVictim, access_set-IsAccess}

-- A configuration as caches have it: powers of two, at least one way, and all shifts in range (that
-- of the source's `0x1 << index_bits` is on an `int`).
pub record IsConfig (config : CacheConfig) : Type 0 where
  pub set_bits : ℕ
  pub block_bits : ℕ
  pub sets : num_sets config ≡ 2 ^ set_bits
  pub blocks : config.block_size ≡ 2 ^ block_bits
  pub set_fits : set_bits < 31
  pub shift_fits : set_bits + block_bits < 64
  pub some_way : 0 < config.ways

Nat-cases : (n : ℕ) → (n ≡ 0) ⊎ (0 < n)
Nat-cases zero = inl refl
Nat-cases (suc n) = inr (omega arith)

-- The state of a cache: as many sets as configured, each with all its ways and with its ranks in
-- order.
pub record IsCache (c : Cache) : Type 0 where
  pub sets : length c.sets ≡ num_sets c.config
  pub ranked : All (λ (s : CacheSet). IsRanked s × (length s ≡ c.config.ways)) c.sets

module _ (platform : Platform) (config : CacheConfig) (k : IsConfig config) (address : ℕ) where
  index_bits_lem : index_bits platform config ≡ k.set_bits
  index_bits_lem =
      ap platform.log2 k.sets ∙ platform.log2_pow k.set_bits (omega (arith, k.set_fits))

  offset_bits_lem : offset_bits platform config ≡ k.block_bits
  offset_bits_lem =
      ap platform.log2 k.blocks ∙ platform.log2_pow k.block_bits (omega (arith, k.shift_fits))

  pub index_lem : set_index platform config address ≡ address / config.block_size % num_sets config
  unfolding set_index
  index_lem =
      rw
        (
          index_bits_lem,
          offset_bits_lem,
          bit_and_mask k.set_bits (address / 2 ^ k.block_bits),
          k.sets,
          k.blocks,
        )
        refl

  pub tag_lem : tag_of platform config address ≡ address / config.block_size / num_sets config
  unfolding tag_of
  tag_lem =
      rw (index_bits_lem, offset_bits_lem, k.sets, k.blocks, pow-add k.block_bits k.set_bits)
        (sym (div-div-eq-div-mul address (2 ^ k.block_bits) (2 ^ k.set_bits)))

  pub sets_pos : 0 < num_sets config
  sets_pos = rw k.sets (one-le-pow k.set_bits 2 (omega arith))

  -- In an `IsConfig` configuration, the set that an address goes to exists, and the set and the tag together are the number of the
  -- block of memory that holds the address.
  pub tag_of-set_index :
      (set_index platform config address < num_sets config)
      × (tag_of platform config address * num_sets config + set_index platform config address
          ≡ address / config.block_size)
  tag_of-set_index =
      rw (index_lem, tag_lem) (mod-lt (address / config.block_size) sets_pos, omega arith)

-- The set that an address goes to, and what it holds.
abbrev pub set_of : Platform → ℕ → Cache → CacheSet
set_of platform address c = get_or c.sets (set_index platform c.config address) []

-- Some way of the address's set is valid and has its tag.
abbrev pub Resident : Platform → ℕ → Cache → Type 0
Resident platform address c =
    (w : ℕ) × (b : Block) × At (set_of platform address c) w b
    × Holds (tag_of platform c.config address) b

module _ (platform : Platform) (c : Cache) (k : IsConfig c.config) (i : IsCache c) (address : ℕ)
    (operation : CacheOperation) where
  abbrev tag : ℕ
  tag = tag_of platform c.config address

  abbrev index : ℕ
  index = set_index platform c.config address

  index_fits : index < length c.sets
  index_fits = omega (arith, i.sets, (tag_of-set_index platform c.config k address).0)

  there :
      IsRanked (set_of platform address c) × (length (set_of platform address c) ≡ c.config.ways)
  there =
      All-get_or_lt (λ (s : CacheSet). IsRanked s × (length s ≡ c.config.ways)) c.sets index []
        i.ranked index_fits

  -- What the access makes of the address's set.
  pub set_access :
      IsAccess
        (tag_of platform c.config address)
        (set_of platform address c)
        (set_of platform address (access platform address operation c).0)
        (access platform address operation c).1
  unfolding access
  set_access =
      rw (get_or-set_self c.sets index (access_set tag (set_of platform address c)).0 [] index_fits)
        (access_set-IsAccess tag (set_of platform address c) (omega (arith, there.1, k.some_way)))

  -- Of a cache with an `IsConfig` configuration that is an `IsCache`, an access keeps the number of sets and their ways, and in every set the ranks stay distinct
  -- and below the number of ways.
  pub access-IsCache : IsCache (access platform address operation c).0
  unfolding access
  access-IsCache =
      let a =
        access_set-IsAccess tag (set_of platform address c) (omega (arith, there.1, k.some_way)) in
      record {
        sets = length-set c.sets index _ ∙ i.sets;
        ranked =
            All-set (λ (s : CacheSet). IsRanked s × (length s ≡ c.config.ways)) c.sets index _
              i.ranked (IsPromoted-IsRanked a.promotes there.0, a.promotes.same_length ∙ there.1);
      }

  -- In an `IsCache` with an `IsConfig` configuration, an access hits exactly when some way of the address's set is valid and has the address's tag.
  pub access_hit_iff :
      ((access platform address operation c).1 ≡ true) ↔ Resident platform address c
  access_hit_iff = (hits, resident)
    where
      hits : (access platform address operation c).1 ≡ true → Resident platform address c
      hits e = elim set_access.why [
        | inl (_, h) ↦ (set_access.way, set_access.old, set_access.promotes.used, h)
        | inr (f, _, _) ↦ absurd (false≢true (sym f ∙ e))
      ]

      resident : Resident platform address c → (access platform address operation c).1 ≡ true
      resident (w, b, a, h) = elim set_access.why [
        | inl (e, _) ↦ e
        | inr (_, absent, _) ↦ absurd (absent w b a h)
      ]

  -- After an access the address is in the cache, with the lowest rank of its set, so that the next
  -- access to it hits.
  pub access-Resident :
      let c' = (access platform address operation c).0 in
      (w : ℕ) × (b : Block) × At (set_of platform address c') w b
      × Holds (tag_of platform c.config address) b
      × (b.lru ≡ 0)
  access-Resident =
      (set_access.way, set_access.new, set_access.now, set_access.holds, set_access.first)

  -- In an `IsCache` with an `IsConfig` configuration, an access leaves all other sets and the configuration as they are, and counts either one hit
  -- or one miss.
  pub access_elsewhere :
      let r = access platform address operation c in
      ((j : ℕ)
        → set_index platform c.config address ≢ j
        → get_or r.0.sets j [] ≡ get_or c.sets j [])
      × (r.0.config ≡ c.config)
      × ((r.1 ≡ true) × (r.0.hits ≡ u64 (c.hits + 1)) × (r.0.misses ≡ c.misses)
          ⊎ (r.1 ≡ false) × (r.0.hits ≡ c.hits) × (r.0.misses ≡ u64 (c.misses + 1)))
  unfolding access
  access_elsewhere = (
    λ j ne. get_or-set_ne c.sets index j (access_set tag (set_of platform address c)).0 [] ne,
    refl,
    ground arith,
  )

  -- In an `IsCache` with an `IsConfig` configuration, a miss replaces one way of the set: an invalid
  -- one, or else one of the highest rank, which then is valid and has the address's tag. All other
  -- ways keep their valid bits and tags.
  pub access_replaces :
      (access platform address operation c).1 ≡ false
      → let s = set_of platform address c in
        let t = set_of platform address (access platform address operation c).0 in
        (x : ℕ) × (u : Block) × (n : Block) × At s x u
        × IsVictim s u
        × At t x n
        × (n.is_valid ≡ true)
        × (n.tag ≡ tag_of platform c.config address)
        × ((w : ℕ) (b : Block)
            → w ≢ x
            → At t w b
            → (a : Block) × At s w a × (b.is_valid ≡ a.is_valid) × (b.tag ≡ a.tag))
  access_replaces e = elim set_access.why [
    | inl (h, _) ↦ absurd (false≢true (sym e ∙ h))
    | inr (_, _, v) ↦ (
      set_access.way,
      set_access.old,
      set_access.new,
      set_access.promotes.used,
      v,
      set_access.now,
      set_access.holds.0,
      set_access.holds.1,
      λ w b ne at.
          let (a, was, _, same) = set_access.promotes.back w b at in
          (a, was, (same ne).0, (same ne).1),
    )
  ]

  -- In an `IsCache` with an `IsConfig` configuration, after an access the address's set has a valid
  -- way with the address's tag and rank 0, all its other ways have higher ranks, and any two of these
  -- keep their order.
  pub access_order :
      let s = set_of platform address c in
      let t = set_of platform address (access platform address operation c).0 in
      (x : ℕ) × (n : Block) × At t x n
      × (n.is_valid ≡ true)
      × (n.tag ≡ tag_of platform c.config address)
      × (n.lru ≡ 0)
      × ((v : ℕ) (d : Block) → At t v d → v ≢ x → 0 < d.lru)
      × ((w v : ℕ) (b d b' d' : Block)
          → At s w b
          → At s v d
          → At t w b'
          → At t v d'
          → w ≢ x
          → v ≢ x
          → (b.lru < d.lru) ↔ (b'.lru < d'.lru))
  access_order =
      let ranked = IsPromoted-IsRanked set_access.promotes there.0 in
      (
        set_access.way,
        set_access.new,
        set_access.now,
        set_access.holds.0,
        set_access.holds.1,
        set_access.first,
        (λ v d at ne.
            let same = ranked.distinct v set_access.way d set_access.new at set_access.now in
            elim (Nat-cases d.lru) [
              | inl e ↦ absurd (ne (same (e ∙ sym set_access.first)))
              | inr h ↦ h
            ]),
        IsPromoted-order set_access.promotes there.0,
      )

-- Of a configuration with a positive block size and at least one way, by which the source divides,
-- the constructor makes a cache that is an `IsCache`.
pub new_cache-IsCache :
    (config : CacheConfig) (kind : CacheDataType)
    → 0 < config.block_size
    → 0 < config.ways
    → IsCache (new_cache config kind)
unfolding new_cache
new_cache-IsCache config kind some_byte some_way = record {
  sets = length-replicate (num_sets config) _;
  ranked =
      All-replicate (λ (s : CacheSet). IsRanked s × (length s ≡ config.ways)) (num_sets config) _
        (new_ways-IsRanked config.ways, length-new_ways config.ways 0);
}

-- In an `IsCache` with an `IsConfig` configuration, of two accesses to one address with nothing
-- between them the second hits.
pub access_twice :
    (platform : Platform) (c : Cache)
    → IsConfig c.config
    → IsCache c
    → (address : ℕ) (operation again : CacheOperation)
    → (access platform address again (access platform address operation c).0).1 ≡ true
access_twice platform c k i address operation again =
    let (w, b, a, h, _) = access-Resident platform c k i address operation in
    (access_hit_iff platform (access platform address operation c).0 (same_config k)
        (access-IsCache platform c k i address operation) address again).1
      (w, b, a, unfold access in h)
  where
    same_config : IsConfig c.config → IsConfig (access platform address operation c).0.config
    same_config k = unfold access in k
