-- ===== src/Tests/CacheRuns.antt =====
-- The cache at a concrete configuration: two sets of two ways, with blocks of 16 bytes.
use ece375_project.Base.{
  ℕ, ◌+◌, ◌*◌, ◌<◌, ◌≡◌, ◌≢◌, ◌↔◌, ◌⊎◌, refl, arith, true, false, [], get_or, ◌∷◌, replicate,
}
use ece375_project.Word.{u64}
use ece375_project.Cache.{
  Cache, CacheConfig, Block, i_cache, d_cache, cache_read, cache_write, new_cache, new_ways,
  access_set, find_block, fill_ways, find_victim, set_index, tag_of, access,
}
use ece375_project.Cache.Ways.{At}
use ece375_project.Cache.Replace.{IsVictim}
use ece375_project.Cache.Access.{
  IsConfig, IsCache, Resident, set_of, tag_of-set_index, access-IsCache, access_hit_iff,
  access_replaces, access_order, access_elsewhere, access_twice, new_cache-IsCache,
}
use ece375_project.Cache.Ideal.{Requests, accesses, ideal_accesses, new_cache-ideal_accesses}
use ece375_project.Tests.{linux, halvings}

abbrev config : CacheConfig
config = record { cache_size = 64; block_size = 16; ways = 2; miss_latency = 5 }

config-IsConfig : IsConfig config
config-IsConfig = record {
  set_bits = 1;
  block_bits = 4;
  sets = refl;
  blocks = refl;
  set_fits = omega arith;
  shift_fits = omega arith;
  some_way = omega arith;
}

abbrev empty : Cache
empty = new_cache config d_cache

empty-IsCache : IsCache empty
empty-IsCache = new_cache-IsCache config d_cache (omega arith) (omega arith)

empty-IsConfig : IsConfig empty.config
unfolding new_cache
empty-IsConfig = config-IsConfig

-- One block is in the cache.
abbrev warm : Cache
warm = (access linux 0x1234 cache_write empty).0

warm-IsConfig : IsConfig warm.config
unfolding access new_cache
warm-IsConfig = config-IsConfig

warm-IsCache : IsCache warm
warm-IsCache = access-IsCache linux empty empty-IsConfig empty-IsCache 0x1234 cache_write

new_cache-IsCache_example : IsCache (new_cache config i_cache)
new_cache-IsCache_example = new_cache-IsCache config i_cache (omega arith) (omega arith)

tag_of-set_index_example :
    (set_index linux config 0x1234 < 2)
    × (tag_of linux config 0x1234 * 2 + set_index linux config 0x1234 ≡ 0x123)
tag_of-set_index_example = tag_of-set_index linux config config-IsConfig 0x1234

access-IsCache_example : IsCache (access linux 0x2234 cache_write warm).0
access-IsCache_example = access-IsCache linux warm warm-IsConfig warm-IsCache 0x2234 cache_write

access_hit_iff_example :
    ((access linux 0x1238 cache_read warm).1 ≡ true) ↔ Resident linux 0x1238 warm
access_hit_iff_example = access_hit_iff linux warm warm-IsConfig warm-IsCache 0x1238 cache_read

warm_misses : (access linux 0x2234 cache_read warm).1 ≡ false
unfolding access set_index tag_of new_cache halvings new_ways access_set find_block fill_ways
    find_victim
warm_misses = refl

access_replaces_example :
    let s = set_of linux 0x2234 warm in
    let t = set_of linux 0x2234 (access linux 0x2234 cache_read warm).0 in
    (x : ℕ) × (u : Block) × (n : Block) × At s x u
    × IsVictim s u
    × At t x n
    × (n.is_valid ≡ true)
    × (n.tag ≡ tag_of linux warm.config 0x2234)
    × ((w : ℕ) (b : Block)
        → w ≢ x
        → At t w b
        → (a : Block) × At s w a × (b.is_valid ≡ a.is_valid) × (b.tag ≡ a.tag))
access_replaces_example =
    access_replaces linux warm warm-IsConfig warm-IsCache 0x2234 cache_read warm_misses

access_order_example :
    let s = set_of linux 0x2234 warm in
    let t = set_of linux 0x2234 (access linux 0x2234 cache_read warm).0 in
    (x : ℕ) × (n : Block) × At t x n
    × (n.is_valid ≡ true)
    × (n.tag ≡ tag_of linux warm.config 0x2234)
    × (n.lru ≡ 0)
    × ((v : ℕ) (d : Block) → At t v d → v ≢ x → 0 < d.lru)
    × ((w v : ℕ) (b d b' d' : Block)
        → At s w b
        → At s v d
        → At t w b'
        → At t v d'
        → w ≢ x
        → v ≢ x
        → (b.lru < d.lru) ↔ (b'.lru < d'.lru))
access_order_example = access_order linux warm warm-IsConfig warm-IsCache 0x2234 cache_read

access_elsewhere_example :
    let r = access linux 0x2234 cache_write warm in
    ((j : ℕ)
      → set_index linux warm.config 0x2234 ≢ j
      → get_or r.0.sets j [] ≡ get_or warm.sets j [])
    × (r.0.config ≡ warm.config)
    × ((r.1 ≡ true) × (r.0.hits ≡ u64 (warm.hits + 1)) × (r.0.misses ≡ warm.misses)
        ⊎ (r.1 ≡ false) × (r.0.hits ≡ warm.hits) × (r.0.misses ≡ u64 (warm.misses + 1)))
access_elsewhere_example = access_elsewhere linux warm warm-IsConfig warm-IsCache 0x2234 cache_write

access_twice_example :
    (access linux 0x2234 cache_read (access linux 0x2234 cache_write warm).0).1 ≡ true
access_twice_example =
    access_twice linux warm warm-IsConfig warm-IsCache 0x2234 cache_write cache_read

-- Two blocks of a set, the first again, a third, and the second, which the third has displaced.
abbrev requests : Requests
requests =
    (0x1234, cache_read)
    ∷ (0x2234, cache_write)
    ∷ (0x1238, cache_read)
    ∷ (0x3230, cache_read)
    ∷ (0x2234, cache_read)
    ∷ []

new_cache-ideal_accesses_example :
    (accesses linux requests (new_cache config d_cache)).1
    ≡ (ideal_accesses config requests (replicate 2 [])).1
new_cache-ideal_accesses_example =
    new_cache-ideal_accesses linux config d_cache requests config-IsConfig
