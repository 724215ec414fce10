-- ===== src/Tablet/Collection/Consistency.antt =====
-- entity.go: when the indexes of the tablet collection agree with its map of tablets.
use staravail.Common.{
  ℕ, ◌≡◌, refl, sym, ap, ◌∙◌, arith, List, [], ◌∷◌, Option, none, some, Option-cases,
}
use staravail.Common.{
  Bool, true, false, ◌==◌, if◌then◌else◌, if-true, if-false, Bool-cases, inl, inr,
}
use mathlib.Core.Path.{subst}
use staravail.Tablet.Collection.{
  TabletView, Ref, Index, TabletCollection, new_tablet_collection, find_ref, put_ref, delete_ref,
  slice, append_all, add, remove_from_all, remove_ref, remove,
}
use staravail.Tablet.Collection.Indexes.{
  count, count-append_all, OnlyOne, count-remove_from_all, same_key,
}

pub find-put :
    (j id : ℕ) (r : Ref) (ts : List (ℕ × Ref))
    → find_ref j (put_ref id r ts) ≡ (if id == j then some r else find_ref j ts)
unfolding find_ref put_ref
find-put j id r [] = refl
find-put j id r ((k, q) ∷ ts) = elim (Bool-cases (k == id)) [
  | inl e ↦ ap (find_ref j) (if-true _ _ _ e) ∙ ground arith
  | inr e ↦ ap (find_ref j) (if-false _ _ _ e) ∙ ground (arith, find-put j id r ts)
]

pub find-delete :
    (j id : ℕ) (ts : List (ℕ × Ref))
    → find_ref j (delete_ref id ts) ≡ (if id == j then none else find_ref j ts)
unfolding find_ref delete_ref
find-delete j id [] = ground arith
find-delete j id ((k, q) ∷ ts) = elim (Bool-cases (k == id)) [
  | inl e ↦ ap (find_ref j) (if-true _ _ _ e) ∙ ground (arith, find-delete j id ts)
  | inr e ↦ ap (find_ref j) (if-false _ _ _ e) ∙ ground (arith, find-delete j id ts)
]

abbrev pub matches : Ref → Option Ref → Bool
matches x none = false
matches x (some r) = r == x

some_eq : (r q : Ref) → some r ≡ some q → r ≡ q
some_eq r q h = ap (λ (o : Option Ref). elim o as (λ x. Ref) [ none ↦ r | some x ↦ x ]) h

module _ (heap : Ref → TabletView) where
  -- The map holds this very tablet.
  abbrev pub is_in : Ref → List (ℕ × Ref) → Bool
  is_in x ts = matches x (find_ref (heap x).tablet_id ts)

  -- A tablet stands under a key as often as the key belongs to it, when the map holds it, and a tablet
  -- that the map does not hold stands nowhere.
  abbrev pub Lists : (TabletView → List ℕ) → List (ℕ × Ref) → Index → Type 0
  Lists keys ts i =
      (x k : ℕ) → count x (slice i k) ≡ (if is_in x ts then count k (keys (heap x)) else 0)

  pub record IsIndexed (c : TabletCollection) : Type 0 where
    pub ids : (id r : ℕ) → find_ref id c.tablets ≡ some r → (heap r).tablet_id ≡ id
    pub by_table : Lists (λ t. t.table_id ∷ []) c.tablets c.tablets_by_table
    pub by_partition : Lists (λ t. t.partition_id ∷ []) c.tablets c.tablets_by_partition
    pub by_backend : Lists (λ t. t.backend_ids) c.tablets c.tablets_by_backend
    pub by_database : Lists (λ t. t.database_id ∷ []) c.tablets c.tablets_by_database

  new-IsIndexed : IsIndexed new_tablet_collection
  unfolding new_tablet_collection find_ref
  new-IsIndexed = record {
    ids = λ id r h. absurd (ground arith);
    by_table = λ x k. refl;
    by_partition = λ x k. refl;
    by_backend = λ x k. refl;
    by_database = λ x k. refl;
  }

  other_tablet : (r x : Ref) → (heap r).tablet_id == (heap x).tablet_id ≡ false → r == x ≡ false
  other_tablet r x e = elim (Bool-cases (r == x)) [
    | inl same ↦ absurd (ground (arith, ap (λ (n : Ref). (heap n).tablet_id) (same_key r x same)))
    | inr other ↦ other
  ]

  -- A tablet whose id is not in use comes into the map.
  is_in-put :
      (r x : Ref) (ts : List (ℕ × Ref))
      → find_ref (heap r).tablet_id ts ≡ none
      → (is_in x (put_ref (heap r).tablet_id r ts) ≡ (if r == x then true else is_in x ts))
        × (r == x ≡ true → is_in x ts ≡ false)
  is_in-put r x ts absent =
      let put = find-put (heap x).tablet_id (heap r).tablet_id r ts in
      elim (Bool-cases ((heap r).tablet_id == (heap x).tablet_id)) [
        | inl e ↦
            let now = ap (matches x) (put ∙ if-true _ _ _ e) in
            let before =
              ap (λ (id : ℕ). matches x (find_ref id ts)) (sym (same_key _ _ e))
              ∙ ap (matches x) absent in
            (ground (arith, now, before), λ same. before)
        | inr e ↦
            let now = ap (matches x) (put ∙ if-false _ _ _ e) in
            let differs = other_tablet r x e in
            (ground (arith, now, differs), λ same. absurd (ground (arith, differs)))
      ]

  is_in-delete :
      (id r x : Ref) (ts : List (ℕ × Ref))
      → ((j q : ℕ) → find_ref j ts ≡ some q → (heap q).tablet_id ≡ j)
      → find_ref id ts ≡ some r
      → is_in x (delete_ref id ts) ≡ (if r == x then false else is_in x ts)
  is_in-delete id r x ts ids h =
      let deleted = find-delete (heap x).tablet_id id ts in
      elim (Bool-cases (id == (heap x).tablet_id)) [
        | inl e ↦
            let now = ap (matches x) (deleted ∙ if-true _ _ _ e) in
            let before =
              ap (λ (j : ℕ). matches x (find_ref j ts)) (sym (same_key _ _ e)) ∙ ap (matches x) h in
            ground (arith, now, before)
        | inr e ↦
            let now = ap (matches x) (deleted ∙ if-false _ _ _ e) in
            let differs =
              other_tablet r x (ap (λ (j : ℕ). j == (heap x).tablet_id) (ids id r h) ∙ e) in
            ground (arith, now, differs)
      ]

  append-Lists :
      (keys : TabletView → List ℕ) (r : Ref) (ts : List (ℕ × Ref)) (i : Index)
      → find_ref (heap r).tablet_id ts ≡ none
      → Lists keys ts i
      → Lists keys (put_ref (heap r).tablet_id r ts) (append_all r (keys (heap r)) i)
  append-Lists keys r ts i absent h x k =
      let (held, apart) = is_in-put r x ts absent in
      count-append_all x r k (keys (heap r)) i ∙ elim (Bool-cases (r == x)) [
        | inl same ↦
            let equal = ap (λ (n : Ref). count k (keys (heap n))) (same_key r x same) in
            ground (arith, h x k, held, apart same, equal)
        | inr other ↦ ground (arith, h x k, held)
      ]

  pub only-Lists :
      (keys : TabletView → List ℕ) (id r k : ℕ) (ts : List (ℕ × Ref)) (i : Index)
      → find_ref id ts ≡ some r
      → Lists keys ts i
      → OnlyOne heap id r (slice i k)
  only-Lists keys id r k ts i e h x pos same =
      let held = ap (λ (j : ℕ). matches x (find_ref j ts)) same ∙ ap (matches x) e in
      sym (same_key r x (ground (arith, h x k, held, pos)))

  remove-Lists :
      (keys : TabletView → List ℕ) (id r : Ref) (ts : List (ℕ × Ref)) (i : Index)
      → ((j q : ℕ) → find_ref j ts ≡ some q → (heap q).tablet_id ≡ j)
      → find_ref id ts ≡ some r
      → Lists keys ts i
      → Lists keys (delete_ref id ts) (remove_from_all heap id (keys (heap r)) i)
  remove-Lists keys id r ts i ids e h x k =
      count-remove_from_all heap id k r x (keys (heap r)) i (ids id r e)
        (λ n. only-Lists keys id r n ts i e h)
      ∙ elim (Bool-cases (r == x)) [
        | inl same ↦
            let equal = ap (λ (n : Ref). count k (keys (heap n))) (same_key r x same) in
            ground (arith, h x k, is_in-delete id r x ts ids e, equal)
        | inr other ↦ ground (arith, h x k, is_in-delete id r x ts ids e)
      ]

  -- The map's keys are the ids of its tablets.
  abbrev Keyed : List (ℕ × Ref) → Type 0
  Keyed ts = (j q : ℕ) → find_ref j ts ≡ some q → (heap q).tablet_id ≡ j

  put_ids : (r : Ref) (ts : List (ℕ × Ref)) → Keyed ts → Keyed (put_ref (heap r).tablet_id r ts)
  put_ids r ts h j q e = elim (Bool-cases ((heap r).tablet_id == j)) [
    | inl same ↦
        let r_is_q =
          some_eq r q (sym (find-put j (heap r).tablet_id r ts ∙ if-true _ _ _ same) ∙ e) in
        ap (λ (n : Ref). (heap n).tablet_id) (sym r_is_q) ∙ same_key _ _ same
    | inr other ↦ h j q (sym (find-put j (heap r).tablet_id r ts ∙ if-false _ _ _ other) ∙ e)
  ]

  delete_ids : (id : ℕ) (ts : List (ℕ × Ref)) → Keyed ts → Keyed (delete_ref id ts)
  delete_ids id ts h j q e = elim (Bool-cases (id == j)) [
    | inl same ↦ absurd (ground (arith, sym (find-delete j id ts ∙ if-true _ _ _ same) ∙ e))
    | inr other ↦ h j q (sym (find-delete j id ts ∙ if-false _ _ _ other) ∙ e)
  ]

  add-IsIndexed :
      (r : Ref) (c : TabletCollection)
      → find_ref (heap r).tablet_id c.tablets ≡ none
      → IsIndexed c
      → IsIndexed (add heap r c)
  unfolding add append_all
  add-IsIndexed r c absent v = record {
    ids = put_ids r c.tablets v.ids;
    by_table = append-Lists (λ t. t.table_id ∷ []) r c.tablets c.tablets_by_table absent v.by_table;
    by_partition =
        append-Lists (λ t. t.partition_id ∷ []) r c.tablets c.tablets_by_partition absent
          v.by_partition;
    by_backend =
        append-Lists (λ t. t.backend_ids) r c.tablets c.tablets_by_backend absent v.by_backend;
    by_database =
        append-Lists (λ t. t.database_id ∷ []) r c.tablets c.tablets_by_database absent
          v.by_database;
  }

  remove_ref-IsIndexed :
      (id r : Ref) (c : TabletCollection)
      → find_ref id c.tablets ≡ some r
      → IsIndexed c
      → IsIndexed (remove_ref heap id r c)
  unfolding remove_from_all
  remove_ref-IsIndexed id r c e v = record {
    ids = delete_ids id c.tablets v.ids;
    by_table =
        remove-Lists (λ t. t.table_id ∷ []) id r c.tablets c.tablets_by_table v.ids e v.by_table;
    by_partition =
        remove-Lists (λ t. t.partition_id ∷ []) id r c.tablets c.tablets_by_partition v.ids e
          v.by_partition;
    by_backend =
        remove-Lists (λ t. t.backend_ids) id r c.tablets c.tablets_by_backend v.ids e v.by_backend;
    by_database =
        remove-Lists (λ t. t.database_id ∷ []) id r c.tablets c.tablets_by_database v.ids e
          v.by_database;
  }

  remove-IsIndexed : (id : ℕ) (c : TabletCollection) → IsIndexed c → IsIndexed (remove heap id c).0
  unfolding remove
  remove-IsIndexed id c v = elim (Option-cases (find_ref id c.tablets)) [
    | inl e ↦
        subst
          (λ (o : Option Ref).
            IsIndexed
              (elim o as (λ x. TabletCollection × Bool) [
                | none ↦ (c, false)
                | some r ↦ (remove_ref heap id r c, true)
              ]).0)
          (sym e) v
    | inr (r, e) ↦
        subst
          (λ (o : Option Ref).
            IsIndexed
              (elim o as (λ x. TabletCollection × Bool) [
                | none ↦ (c, false)
                | some r ↦ (remove_ref heap id r c, true)
              ]).0)
          (sym e) (remove_ref-IsIndexed id r c e v)
  ]

pub data CollectionCall : Type 0 where
  adds removes : ℕ → CollectionCall

module _ (heap : Ref → TabletView) where
  unfoldable pub run : List CollectionCall → TabletCollection → TabletCollection
  run [] c = c
  run (adds r ∷ cs) c = run cs (add heap r c)
  run (removes id ∷ cs) c = run cs (remove heap id c).0

  -- No tablet is added while the collection holds one of its id.
  unfoldable pub NoneTwice : List CollectionCall → TabletCollection → Type 0
  NoneTwice [] c = Unit
  NoneTwice (adds r ∷ cs) c =
      (find_ref (heap r).tablet_id c.tablets ≡ none) × NoneTwice cs (add heap r c)
  NoneTwice (removes id ∷ cs) c = NoneTwice cs (remove heap id c).0

  run_from-IsIndexed :
      (cs : List CollectionCall) (c : TabletCollection)
      → NoneTwice cs c
      → IsIndexed heap c
      → IsIndexed heap (run cs c)
  unfolding run NoneTwice
  run_from-IsIndexed [] c h v = v
  run_from-IsIndexed (adds r ∷ cs) c h v =
      run_from-IsIndexed cs (add heap r c) h.1 (add-IsIndexed heap r c h.0 v)
  run_from-IsIndexed (removes id ∷ cs) c h v =
      run_from-IsIndexed cs (remove heap id c).0 h (remove-IsIndexed heap id c v)

  -- After any sequence of additions and removals on a new collection, whose tablets stay as they
  -- are and of which no addition meets a tablet of its id, each index lists a tablet under a key
  -- as often as the key belongs to it when the map holds it, and not at all when not; and the
  -- map's keys are the ids of its tablets.
  pub run-IsIndexed :
      (cs : List CollectionCall)
      → NoneTwice cs new_tablet_collection
      → IsIndexed heap (run cs new_tablet_collection)
  run-IsIndexed cs h = run_from-IsIndexed cs new_tablet_collection h (new-IsIndexed heap)
