-- ===== src/Cache/Recency.antt =====
-- A set of a cache as the manual of an LRU cache has it: the tags that it holds, the last used one
-- first. It is what the sets of src/cache.cpp are measured against.
use ece375_project.Base.{
  ℕ, zero, suc, ◌-◌, ◌≤◌, ◌<◌, ◌≡◌, ◌≢◌, refl, ap, Bool, true, false, ◌||◌, List, [], ◌∷◌, some,
  length, get_elem?, All, All-get_elem?, ltb, ◌==◌, if◌then◌else◌, Bool-cases, inl, inr, ◌⊎◌, subst,
  ==→eq, ==→ne, arith,
}

unfoldable pub contains : ℕ → List ℕ → Bool
contains tag [] = false
contains tag (x ∷ xs) = x == tag || contains tag xs

unfoldable pub erase : ℕ → List ℕ → List ℕ
erase tag [] = []
erase tag (x ∷ xs) = if x == tag then xs else x ∷ erase tag xs

abbrev pub take : ℕ → List ℕ → List ℕ
take zero xs = []
take (suc n) [] = []
take (suc n) (x ∷ xs) = x ∷ take n xs

-- A use of a tag moves it to the front; a new one pushes out the last if all ways are taken.
unfoldable pub use_tag : ℕ → ℕ → List ℕ → List ℕ × Bool
use_tag ways tag tags =
    if contains tag tags then (tag ∷ erase tag tags, true) else (tag ∷ take (ways - 1) tags, false)

-- No tag stands twice.
abbrev pub Lacks : ℕ → List ℕ → Type 0
Lacks tag = All (λ x. x ≢ tag)

abbrev pub Distinct : List ℕ → Type 0
Distinct [] = Unit {0}
Distinct (x ∷ xs) = Lacks x xs × Distinct xs

Lacks-contains : (tag : ℕ) (xs : List ℕ) → contains tag xs ≡ false → Lacks tag xs
unfolding contains
Lacks-contains tag [] h = tt
Lacks-contains tag (x ∷ xs) h = (ground arith, Lacks-contains tag xs (ground arith))

Lacks-erase : (a tag : ℕ) (xs : List ℕ) → Lacks a xs → Lacks a (erase tag xs)
unfolding erase
Lacks-erase a tag [] h = tt
Lacks-erase a tag (x ∷ xs) h = ground (arith, Lacks-erase a tag xs h.1)

Lacks-take : (a n : ℕ) (xs : List ℕ) → Lacks a xs → Lacks a (take n xs)
Lacks-take a zero xs h = tt
Lacks-take a (suc n) [] h = tt
Lacks-take a (suc n) (x ∷ xs) h = (h.0, Lacks-take a n xs h.1)

erase-Distinct :
    (tag : ℕ) (xs : List ℕ) → Distinct xs → Distinct (erase tag xs) × Lacks tag (erase tag xs)
unfolding erase
erase-Distinct tag [] h = (tt, tt)
erase-Distinct tag (x ∷ xs) h = elim (Bool-cases (x == tag)) [
  | inl e ↦ rw e (h.1, subst (λ (a : ℕ). Lacks a xs) (==→eq x tag e) h.0)
  | inr ne ↦
      let (kept, gone) = erase-Distinct tag xs h.1 in
      rw ne ((Lacks-erase x tag xs h.0, kept), (==→ne x tag ne, gone))
]

take-Distinct : (n : ℕ) (xs : List ℕ) → Distinct xs → Distinct (take n xs)
take-Distinct zero xs h = tt
take-Distinct (suc n) [] h = tt
take-Distinct (suc n) (x ∷ xs) h = (Lacks-take x n xs h.0, take-Distinct n xs h.1)

pub use_tag-Distinct :
    (ways tag : ℕ) (tags : List ℕ) → Distinct tags → Distinct (use_tag ways tag tags).0
unfolding use_tag
use_tag-Distinct ways tag tags d = elim (Bool-cases (contains tag tags)) [
  | inl e ↦ rw e (let (kept, gone) = erase-Distinct tag tags d in (gone, kept))
  | inr e ↦
      rw e (
        Lacks-take tag (ways - 1) tags (Lacks-contains tag tags e),
        take-Distinct (ways - 1) tags d,
      )
]

-- A list with the entry of one index left out.
unfoldable pub remove_at : List ℕ → ℕ → List ℕ
remove_at [] i = []
remove_at (x ∷ xs) zero = xs
remove_at (x ∷ xs) (suc i) = x ∷ remove_at xs i

pub get_elem?-remove_at :
    (xs : List ℕ) (r i : ℕ)
    → get_elem? (remove_at xs r) i ≡ (if ltb i r then get_elem? xs i else get_elem? xs (suc i))
unfolding remove_at
get_elem?-remove_at [] r i = ground arith
get_elem?-remove_at (x ∷ xs) zero i = ground arith
get_elem?-remove_at (x ∷ xs) (suc r) zero = ground arith
get_elem?-remove_at (x ∷ xs) (suc r) (suc i) = ground (arith, get_elem?-remove_at xs r i)

pub length-remove_at :
    (xs : List ℕ) (r : ℕ)
    → length (remove_at xs r) ≡ (if ltb r (length xs) then length xs - 1 else length xs)
unfolding remove_at
length-remove_at [] r = ground arith
length-remove_at (x ∷ xs) zero = ground arith
length-remove_at (x ∷ xs) (suc r) = ground (arith, length-remove_at xs r)

erase-eq-remove_at :
    (tag : ℕ) (xs : List ℕ) (r : ℕ)
    → Distinct xs
    → get_elem? xs r ≡ some tag
    → (erase tag xs ≡ remove_at xs r) × (contains tag xs ≡ true)
unfolding erase remove_at contains
erase-eq-remove_at tag [] r d h = absurd (cc)
erase-eq-remove_at tag (x ∷ xs) zero d h = ground arith
erase-eq-remove_at tag (x ∷ xs) (suc r) d h =
    let other = All-get_elem? (λ y. y ≢ x) xs r d.0 h in
    let rest = erase-eq-remove_at tag xs r d.1 h in ground (arith, other, rest)

-- Leaving out index `r` is what `take` does to a list that ends there, or before it.
pub take-eq-remove_at :
    (xs : List ℕ) (n r : ℕ)
    → length xs ≤ suc n
    → r ≤ n
    → (length xs ≤ r) ⊎ (r ≡ n)
    → take n xs ≡ remove_at xs r
unfolding remove_at
take-eq-remove_at [] zero r h k c = refl
take-eq-remove_at [] (suc n) r h k c = refl
take-eq-remove_at (x ∷ []) zero zero h k c = refl
take-eq-remove_at (x ∷ y ∷ xs) zero zero h k c = absurd (omega arith)
take-eq-remove_at (x ∷ xs) zero (suc r) h k c = absurd (omega arith)
take-eq-remove_at (x ∷ xs) (suc n) zero h k c = absurd (ground arith)
take-eq-remove_at (x ∷ xs) (suc n) (suc r) h k c =
    ap (λ (t : List ℕ). x ∷ t) (take-eq-remove_at xs n r (omega arith) (omega arith) (shift c))
  where
    shift : (suc (length xs) ≤ suc r) ⊎ (suc r ≡ suc n) → (length xs ≤ r) ⊎ (r ≡ n)
    shift (inl a) = inl (omega arith)
    shift (inr a) = inr (omega arith)

pub contains-index :
    (tag : ℕ) (xs : List ℕ)
    → contains tag xs ≡ true
    → (i : ℕ) × (i < length xs) × (get_elem? xs i ≡ some tag)
unfolding contains
contains-index tag [] h = absurd (cc)
contains-index tag (x ∷ xs) h = elim (Bool-cases (x == tag)) [
  | inl e ↦ (0, omega arith, ap some (==→eq x tag e))
  | inr ne ↦ let (i, below, at) = contains-index tag xs (ground arith) in (suc i, omega arith, at)
]

pub use_tag-hit :
    (ways tag : ℕ) (tags : List ℕ) (r : ℕ)
    → Distinct tags
    → get_elem? tags r ≡ some tag
    → use_tag ways tag tags ≡ (tag ∷ remove_at tags r, true)
unfolding use_tag
use_tag-hit ways tag tags r d h =
    let (same, there) = erase-eq-remove_at tag tags r d h in rw (there, same) refl

pub use_tag-miss :
    (ways tag : ℕ) (tags rest : List ℕ)
    → contains tag tags ≡ false
    → take (ways - 1) tags ≡ rest
    → use_tag ways tag tags ≡ (tag ∷ rest, false)
unfolding use_tag
use_tag-miss ways tag tags rest none_there e = rw (none_there, e) refl
