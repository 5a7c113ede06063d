-- ===== src/Table.antt =====
-- `std::unordered_map` with `uint64_t` keys, as a list with one entry for each key. The program
-- never relies on the order in which the map is walked.
use coursework_file_system.Prelude.{
  ℕ, ◌≡◌, Option, none, some, List, [], ◌∷◌, arith, ◌==◌, if◌then◌else◌,
}

module _ {Val : Type 0} where
  -- `find`
  unfoldable pub lookup : ℕ → List (ℕ × Val) → Option Val
  lookup addr [] = none
  lookup addr (entry ∷ rest) =
      let further = lookup addr rest in if addr == entry.0 then some entry.1 else further

  -- `erase`
  unfoldable pub erase : ℕ → List (ℕ × Val) → List (ℕ × Val)
  erase addr [] = []
  erase addr (entry ∷ rest) =
      let others = erase addr rest in if addr == entry.0 then others else entry ∷ others

  -- `m[addr] = val`
  unfoldable pub insert : ℕ → Val → List (ℕ × Val) → List (ℕ × Val)
  insert addr val [] = (addr, val) ∷ []
  insert addr val (entry ∷ rest) =
      let others = insert addr val rest in
      if addr == entry.0 then (addr, val) ∷ rest else entry ∷ others

  pub lookup-erase :
      (gone addr : ℕ) (table : List (ℕ × Val))
      → lookup addr (erase gone table) ≡ (if gone == addr then none else lookup addr table)
  unfolding erase lookup
  lookup-erase gone addr [] = ground arith
  lookup-erase gone addr (entry ∷ rest) = ground (arith, lookup-erase gone addr rest)

  pub lookup-insert :
      (new addr : ℕ) (val : Val) (table : List (ℕ × Val))
      → lookup addr (insert new val table) ≡ (if new == addr then some val else lookup addr table)
  unfolding insert lookup
  lookup-insert new addr val [] = ground arith
  lookup-insert new addr val (entry ∷ rest) = ground (arith, lookup-insert new addr val rest)
