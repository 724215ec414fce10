-- ===== src/Write/Sort.antt =====
-- Go's `sort.Slice` as the write buffer uses it. The order in which a `range` meets the entries of a
-- map is free, and the sort is not stable: any function that permutes its list into order will do.
pub mod Insertion
use staravail.Common.{◌≡◌, Bool, true, false, List, [], ◌∷◌, All}
use staravail.Write.Types.{Entry}
use mathlib.Core.List.{Perm}

-- What Go asks of the `less` function: a strict weak ordering.
pub record IsOrder (less : Entry → Entry → Bool) : Type 0 where
  pub asymmetric : (c d : Entry) → less c d ≡ true → less d c ≡ false
  pub negatively_transitive :
      (c d e : Entry) → less c d ≡ false → less d e ≡ false → less c e ≡ false

-- No entry comes before one that stands in front of it.
abbrev pub Sorted : (Entry → Entry → Bool) → List Entry → Type 0
Sorted less [] = Unit
Sorted less (e ∷ es) = All (λ f. less f e ≡ false) es × Sorted less es

pub record SortSlice : Type 0 where
  pub sort : (Entry → Entry → Bool) → List Entry → List Entry
  pub sort_perm : (less : Entry → Entry → Bool) (es : List Entry) → Perm es (sort less es)
  pub sort_sorted :
      (less : Entry → Entry → Bool) → IsOrder less → (es : List Entry) → Sorted less (sort less es)
