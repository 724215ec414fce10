-- ===== src/Write/Sort/Insertion.antt =====
-- A function that `sort.Slice` may be: insertion.
use staravail.Common.{◌≡◌, Bool, false, if◌then◌else◌, Bool-cases, inl, inr, List, [], ◌∷◌, All}
use staravail.Write.Types.{Entry}
use staravail.Write.Sort.{IsOrder, Sorted, SortSlice}
use mathlib.Core.List.{Perm}
use mathlib.Core.List.Perm

module _ (less : Entry → Entry → Bool) where
  abbrev insert : Entry → List Entry → List Entry
  insert e [] = e ∷ []
  insert e (f ∷ fs) = let rest = insert e fs in if less f e then f ∷ rest else e ∷ f ∷ fs

  abbrev pub insertion_sort : List Entry → List Entry
  insertion_sort [] = []
  insertion_sort (e ∷ es) = insert e (insertion_sort es)

  insert-perm : (e : Entry) (es : List Entry) → Perm (e ∷ es) (insert e es)
  insert-perm e [] = Perm.refl (e ∷ [])
  insert-perm e (f ∷ fs) = elim (Bool-cases (less f e)) [
    | inl h ↦ rw h (Perm.trans (Perm.swap f e fs) (Perm.cons f (insert-perm e fs)))
    | inr h ↦ rw h (Perm.refl (e ∷ f ∷ fs))
  ]

  pub insertion_sort-perm : (es : List Entry) → Perm es (insertion_sort es)
  insertion_sort-perm [] = Perm.refl []
  insertion_sort-perm (e ∷ es) =
      Perm.trans (Perm.cons e (insertion_sort-perm es)) (insert-perm e (insertion_sort es))

  module _ (o : IsOrder less) where
    not_before :
        (e f : Entry) (fs : List Entry)
        → less f e ≡ false
        → All (λ g. less g f ≡ false) fs
        → All (λ g. less g e ≡ false) fs
    not_before e f [] h a = tt
    not_before e f (g ∷ gs) h a = (o.negatively_transitive g f e a.0 h, not_before e f gs h a.1)

    insert-All :
        (e f : Entry) (fs : List Entry)
        → less e f ≡ false
        → All (λ g. less g f ≡ false) fs
        → All (λ g. less g f ≡ false) (insert e fs)
    insert-All e f [] h a = (h, tt)
    insert-All e f (g ∷ gs) h a = elim (Bool-cases (less g e)) [
      | inl k ↦ rw k (a.0, insert-All e f gs h a.1)
      | inr k ↦ rw k (h, a)
    ]

    insert-Sorted : (e : Entry) (es : List Entry) → Sorted less es → Sorted less (insert e es)
    insert-Sorted e [] s = (tt, tt)
    insert-Sorted e (f ∷ fs) s = elim (Bool-cases (less f e)) [
      | inl k ↦ rw k (insert-All e f fs (o.asymmetric f e k) s.0, insert-Sorted e fs s.1)
      | inr k ↦ rw k ((k, not_before e f fs k s.0), s)
    ]

    pub insertion_sort-Sorted : (es : List Entry) → Sorted less (insertion_sort es)
    insertion_sort-Sorted [] = tt
    insertion_sort-Sorted (e ∷ es) = insert-Sorted e (insertion_sort es) (insertion_sort-Sorted es)

abbrev pub insertion : SortSlice
insertion = record {
  sort = insertion_sort;
  sort_perm = insertion_sort-perm;
  sort_sorted = insertion_sort-Sorted;
}
