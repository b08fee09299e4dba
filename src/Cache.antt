-- ===== src/Cache.antt =====
-- src/cache.cpp and src/cache.h: a set-associative cache that keeps no data, only which blocks it
-- would hold and their rank in the order of last use.
pub mod Ways
pub mod Ranks
pub mod Replace
pub mod Access
pub mod Recency
pub mod View
pub mod Ideal
use ece375_project.Base.{
  ℕ, zero, suc, ◌+◌, ◌-◌, ◌*◌, ◌/◌, ◌^◌, bit_and, Bool, true, false, ◌&&◌, Option, none, some, List,
  [], ◌∷◌, get_or, set, replicate, ltb, leb, ◌==◌, if◌then◌else◌,
}
use ece375_project.Platform.{Platform}
use ece375_project.Word.{u64, shr}

pub record CacheConfig : Type 0 where
  pub cache_size : ℕ
  pub block_size : ℕ
  pub ways : ℕ
  pub miss_latency : ℕ

pub record Block : Type 0 where
  pub is_valid : Bool
  pub tag : ℕ
  pub lru : ℕ

-- `struct Set`.
abbrev pub CacheSet : Type 0
CacheSet = List Block

pub data CacheDataType : Type 0 where
  i_cache d_cache : CacheDataType

pub data CacheOperation : Type 0 where
  cache_read cache_write : CacheOperation

pub record Cache : Type 0 where
  pub hits : ℕ
  pub misses : ℕ
  pub kind : CacheDataType
  pub sets : List CacheSet
  pub config : CacheConfig
  pub fetch_miss : Bool
  pub fetch_stalls : ℕ

-- Way `j` of a new set, and those from `j` on.
unfoldable pub new_ways : ℕ → ℕ → CacheSet
new_ways zero j = []
new_ways (suc n) j = record { is_valid = false; tag = 0; lru = j } ∷ new_ways n (j + 1)

-- Where the block size or the number of ways is 0 the source divides by zero, which is undefined; the
-- quotient is then 0 here, and the properties of the cache exclude it.
abbrev pub num_sets : CacheConfig → ℕ
num_sets config = config.cache_size / config.block_size / config.ways

-- The constructor.
unfoldable pub new_cache : CacheConfig → CacheDataType → Cache
unfolding new_ways
new_cache config kind = record {
  hits = 0;
  misses = 0;
  kind = kind;
  sets = replicate (num_sets config) (new_ways config.ways 0);
  config = config;
  fetch_miss = false;
  fetch_stalls = 0;
}

-- A way and the rank that a loop found for it.
pub record Found : Type 0 where
  pub way : ℕ
  pub rank : ℕ

-- The search for the tag from way `i` on. Each set has `config.ways` ways, so the loops of the
-- source run over the whole set.
unfoldable pub find_block : ℕ → ℕ → CacheSet → Option Found
find_block tag i [] = none
find_block tag i (b ∷ bs) =
    if b.is_valid && b.tag == tag
    then some (record { way = i; rank = b.lru })
    else find_block tag (i + 1) bs

-- The search for the block to replace: the first invalid one, or the last of the highest rank.
unfoldable pub find_victim : ℕ → Found → CacheSet → Found
find_victim i best [] = best
find_victim i best (b ∷ bs) =
    let here : Found = record { way = i; rank = b.lru } in
    let rest = find_victim (i + 1) (if leb best.rank b.lru then here else best) bs in
    if b.is_valid then rest else here

-- What a block other than the one used becomes.
abbrev pub aged : ℕ → Block → Block
aged rank b = if ltb b.lru rank then record b { lru = b.lru + 1 } else b

-- The loop that updates the ranks after a hit.
unfoldable pub touch_ways : Found → ℕ → CacheSet → CacheSet
touch_ways hit i [] = []
touch_ways hit i (b ∷ bs) =
    (if i == hit.way then record b { lru = 0 } else aged hit.rank b) ∷ touch_ways hit (i + 1) bs

-- The loop that fills the victim and updates the ranks after a miss.
unfoldable pub fill_ways : ℕ → Found → ℕ → CacheSet → CacheSet
fill_ways tag victim i [] = []
fill_ways tag victim i (b ∷ bs) =
    (if i == victim.way then record { is_valid = true; tag = tag; lru = 0 } else aged victim.rank b)
    ∷ fill_ways tag victim (i + 1) bs

-- An access to one set.
unfoldable pub access_set : ℕ → CacheSet → CacheSet × Bool
access_set tag s = elim (find_block tag 0 s) [
  | some hit ↦ (touch_ways hit 0 s, true)
  | none ↦ (fill_ways tag (find_victim 0 (record { way = 0; rank = 0 }) s) 0 s, false)
]

abbrev pub index_bits : Platform → CacheConfig → ℕ
index_bits platform config = platform.log2 (num_sets config)

abbrev pub offset_bits : Platform → CacheConfig → ℕ
offset_bits platform config = platform.log2 config.block_size

unfoldable pub set_index : Platform → CacheConfig → ℕ → ℕ
set_index platform config address =
    bit_and (shr address (offset_bits platform config)) (2 ^ index_bits platform config - 1)

unfoldable pub tag_of : Platform → CacheConfig → ℕ → ℕ
tag_of platform config address =
    shr address (offset_bits platform config + index_bits platform config)

-- `Cache::access`; it takes a read and a write alike.
unfoldable pub access : Platform → ℕ → CacheOperation → Cache → Cache × Bool
access platform address operation c =
    let index = set_index platform c.config address in
    let (s, hit) = access_set (tag_of platform c.config address) (get_or c.sets index []) in
    (
      record c {
        sets = set c.sets index s;
        hits = if hit then u64 (c.hits + 1) else c.hits;
        misses = if hit then c.misses else u64 (c.misses + 1);
      },
      hit,
    )

unfoldable pub increment_hits : Cache → Cache
increment_hits c = record c { hits = u64 (c.hits + 1) }

unfoldable pub increment_misses : Cache → Cache
increment_misses c = record c { misses = u64 (c.misses + 1) }
