-- ===== src/Memory/Print/Returns.antt =====
-- The loops of `printMemArray` of src/MemoryStore.cpp end.
use native.Mathlib.Nat.{mod-eq_of_lt, mod-lt}
use mathlib.Core.Option.{some-ne-none}
use ece375_project.Base.{
  ℕ, zero, suc, ◌+◌, ◌*◌, ◌^◌, ◌≤◌, ◌<◌, ◌≡◌, ◌≢◌, refl, sym, subst, ◌⊎◌, ◌∙◌, arith, true, none,
  some, List, length, get_elem?, get_elem?-ge, Bool-cases, Option-cases, inl, inr, ltb, ltb→lt,
  ltb→le, le→ltb, [], ◌-◌, ◌++◌, if_cases,
}
use ece375_project.Base.Int.{pos}
use ece375_project.Platform.{Platform}
use ece375_project.Word.{u64, add64}
use ece375_project.Memory.{
  MemoryStore, Outcome, finished, out_of_range, valid_size, relative_addr, minus_einval,
}
use ece375_project.Output.{Text, codes, hex, pad_left}
use ece375_project.Memory.Print.{
  byte_width, word_width, Row, next_row, returned, violated, print_bytes, print_row, print_rows,
  print_mem_array,
}

-- Where a print of an entry succeeds, the entry lies in the array.
abbrev Fits : List ℕ → ℕ → Outcome Text → Type 0
Fits arr place (finished text) = place ≤ length arr
Fits arr place (out_of_range text) = Unit

present : (arr : List ℕ) (i b : ℕ) → get_elem? arr i ≡ some b → i < length arr
present arr i b e = elim (Bool-cases (ltb i (length arr))) [
  | inl below ↦ ltb→lt i (length arr) below
  | inr above ↦ absurd (some-ne-none b (sym e ∙ get_elem?-ge arr i (ltb→le i (length arr) above)))
]

abbrev shown : Text → ℕ → Text
shown out b = out ++ pad_left b'0' byte_width (hex b)

module _ (arr : List ℕ) (rel : ℕ) where
  byte_shown :
      (left j b : ℕ) (out : Text)
      → rel + j < 2 ^ 64
      → get_elem? arr (rel + j) ≡ some b
      → print_bytes arr rel (suc left) j out ≡ print_bytes arr rel left (j + 1) (shown out b)
  unfolding print_bytes
  byte_shown left j b out h e = rw (print_bytes, mod-eq_of_lt h, e) refl

  byte_missing :
      (left j : ℕ) (out : Text)
      → rel + j < 2 ^ 64
      → get_elem? arr (rel + j) ≡ none
      → print_bytes arr rel (suc left) j out ≡ out_of_range out
  unfolding print_bytes
  byte_missing left j out h e = rw (print_bytes, mod-eq_of_lt h, e) refl

  print_bytes-Fits :
      (left j : ℕ) (out : Text)
      → rel + j < 2 ^ 64
      → length arr < 2 ^ 64
      → Fits arr (rel + j + suc left) (print_bytes arr rel (suc left) j out)
  print_bytes-Fits zero j out h sized = elim (Option-cases (get_elem? arr (rel + j))) [
    | inl missing ↦ rw (byte_missing zero j out h missing) tt
    | inr (b, found) ↦
        let below = present arr (rel + j) b found in
        rw (byte_shown zero j b out h found) (unfold print_bytes in omega arith)
  ]
  print_bytes-Fits (suc left) j out h sized = elim (Option-cases (get_elem? arr (rel + j))) [
    | inl missing ↦ rw (byte_missing (suc left) j out h missing) tt
    | inr (b, found) ↦
        let below = present arr (rel + j) b found in
        let place : rel + (j + 1) + suc left ≡ rel + j + suc (suc left) = omega arith in
        rw (byte_shown (suc left) j b out h found, sym place)
          (print_bytes-Fits left (j + 1) (shown out b) (omega arith) sized)
  ]

-- A row that does not end the loop moves on, `by` bytes at least, and stays below 2^64.
abbrev MovesOn : ℕ → Row → Type 0
MovesOn place (next_row rel text) = (place ≤ rel) × (rel < 2 ^ 64)
MovesOn place (returned text) = Unit
MovesOn place (violated text) = Unit

MovesOn-le : (near far : ℕ) (row : Row) → near ≤ far → MovesOn far row → MovesOn near row
MovesOn-le near far (next_row rel text) h m = (omega (arith, m.0), m.1)
MovesOn-le near far (returned text) h m = tt
MovesOn-le near far (violated text) h m = tt

Outcome-cases :
    (o : Outcome Text)
    → ((text : Text) × (o ≡ finished text)) ⊎ ((text : Text) × (o ≡ out_of_range text))
Outcome-cases (finished text) = inl (text, refl)
Outcome-cases (out_of_range text) = inr (text, refl)

module _ (arr : List ℕ) (size rel_end : ℕ) (sized : length arr < 2 ^ 64) where
  -- An entry of `size + 1` bytes moves the row on by that many.
  entry-MovesOn :
      (left rel : ℕ) (out : Text)
      → ((place : ℕ) (text : Text)
          → place < 2 ^ 64
          → MovesOn place (print_row arr (suc size) rel_end left place text))
      → ltb rel rel_end ≡ true
      → rel < 2 ^ 64
      → MovesOn (rel + suc size) (print_row arr (suc size) rel_end (suc left) rel out)
  unfolding print_row
  entry-MovesOn left rel out later inside h =
      let o = print_bytes arr rel (suc size) 0 (out ++ codes "0x") in
      let fit = print_bytes-Fits arr rel size 0 (out ++ codes "0x") (omega arith) sized in
      elim (Outcome-cases o) [
        | inl (text, e) ↦
            let below : rel + 0 + suc size ≤ length arr =
              subst (Fits arr (rel + 0 + suc size)) e fit in
            let moved : add64 rel (suc size) ≡ rel + suc size = mod-eq_of_lt (omega arith) in
            rw (print_row, inside, e, moved)
              (later (rel + suc size) (text ++ codes " ") (omega arith))
        | inr (text, e) ↦ rw (print_row, inside, e) tt
      ]

  print_row-MovesOn :
      (left rel : ℕ) (out : Text)
      → rel < 2 ^ 64
      → MovesOn rel (print_row arr (suc size) rel_end left rel out)
  unfolding print_row
  print_row-MovesOn zero rel out h = (omega arith, h)
  print_row-MovesOn (suc left) rel out h = elim (Bool-cases (ltb rel rel_end)) [
    | inl inside ↦
        MovesOn-le rel (rel + suc size) _ (omega arith)
          (entry-MovesOn left rel out (print_row-MovesOn left) inside h)
    | inr past ↦ rw (print_row, past) tt
  ]

  Row-cases :
      (row : Row) (place : ℕ)
      → MovesOn place row
      → ((rel : ℕ) × (text : Text) × (row ≡ next_row rel text) × (place ≤ rel) × (rel < 2 ^ 64))
        ⊎ ((text : Text) × (row ≡ returned text))
        ⊎ ((text : Text) × (row ≡ violated text))
  Row-cases (next_row rel text) place m = inl (rel, text, refl, m.0, m.1)
  Row-cases (returned text) place m = inr (inl (text, refl))
  Row-cases (violated text) place m = inr (inr (text, refl))

  print_rows-returns :
      (platform : Platform) (fuel more rel cur : ℕ) (out : Text)
      → rel < 2 ^ 64
      → rel_end ≤ rel + fuel
      → print_rows platform (suc fuel) arr (suc size) (suc more) rel_end rel cur out ≢ none
  unfolding print_rows
  print_rows-returns platform zero more rel cur out h enough =
      rw (print_rows, le→ltb rel rel_end (omega arith)) (some-ne-none (pos 0, out))
  print_rows-returns platform (suc fuel) more rel cur out h enough =
      let head = out ++ codes "0x" ++ pad_left b'0' word_width (hex cur) ++ codes ": " in
      let row = print_row arr (suc size) rel_end (suc more) rel head in
      elim (Bool-cases (ltb rel rel_end)) [
        | inr past ↦ rw (print_rows, past) (some-ne-none (pos 0, out))
        | inl inside ↦
            elim (Row-cases row (rel + suc size)
              (entry-MovesOn more rel head (print_row-MovesOn more) inside h)) [
                | inl (next, text, e, further, small) ↦
                    rw (print_rows, inside, e)
                      (print_rows-returns platform fuel more next
                        (add64 cur (u64 (suc size * suc more))) text small (omega arith))
                | inr (inl (text, e)) ↦ rw (print_rows, inside, e) (some-ne-none (pos 0, text))
                | inr (inr (text, e)) ↦
                    rw (print_rows, inside, e) (some-ne-none (minus_einval platform, text))
              ]
      ]

-- With at least one entry in a row and an array shorter than 2^64, `printMemArray` returns for all
-- start and end addresses and every entry size, also where it leaves the array.
pub print_mem_array-returns :
    (platform : Platform) (start_addr end_addr entry_size entries_per_row : ℕ) (m : MemoryStore)
    → 0 < entries_per_row
    → length m.mem_arr < 2 ^ 64
    → print_mem_array platform start_addr end_addr entry_size entries_per_row m ≢ none
unfolding print_mem_array
print_mem_array-returns platform start_addr end_addr zero entries m some_entry sized =
    some-ne-none (minus_einval platform, [])
print_mem_array-returns platform start_addr end_addr (suc size) zero m some_entry sized =
    absurd (omega arith)
print_mem_array-returns platform start_addr end_addr (suc size) (suc more) m some_entry sized =
    let rel_end = relative_addr m end_addr in
    let rel = relative_addr m start_addr in
    let small : rel < 2 ^ 64 = mod-lt (start_addr + 2 ^ 64 - m.start_addr) (omega arith) in
    let returns =
      print_rows-returns m.mem_arr size rel_end sized platform rel_end more rel start_addr [] small
        (omega arith) in
    let one : suc rel_end ≡ rel_end + 1 = omega arith in
    if_cases (λ t. t ≢ none) (valid_size (suc size))
      (subst
        (λ fuel.
          print_rows platform fuel m.mem_arr (suc size) (suc more) rel_end rel start_addr [] ≢ none)
        one returns)
      (some-ne-none (minus_einval platform, []))
