-- ===== src/Tablet/Collection/Indexes.antt =====
-- entity.go: the indexes of the tablet collection against its map of tablets.
use staravail.Common.{ℕ, ◌+◌, ◌-◌, ◌<◌, ◌≡◌, refl, ap, ◌∙◌, arith, List, [], ◌∷◌, ◌++◌, Option}
use staravail.Common.{true, false, ◌==◌, if◌then◌else◌, if-true, if-false, Bool-cases, inl, inr}
use staravail.Tablet.Collection.{
  TabletView, Ref, Index, slice_of, slice, append_tablet, append_all, rotate, last_first, nonempty,
  remove_tablet_from_slice, remove_from, remove_from_all,
}

-- How often a number stands in a list.
abbrev pub count : ℕ → List ℕ → ℕ
count x [] = 0
count x (y ∷ ys) = (if y == x then 1 else 0) + count x ys

count-append : (x : ℕ) (ys zs : List ℕ) → count x (ys ++ zs) ≡ count x ys + count x zs
count-append x [] zs = omega arith
count-append x (y ∷ ys) zs = omega (arith, count-append x ys zs)

count-rotate : (x r : ℕ) (ls : List ℕ) → count x (rotate r ls) ≡ count x (r ∷ ls)
count-rotate x r [] = refl
count-rotate x r (l ∷ ls) = omega arith

count-last_first : (x : ℕ) (rs : List ℕ) → count x (last_first rs) ≡ count x rs
count-last_first x [] = refl
count-last_first x (r ∷ rs) = omega (arith, count-rotate x r (last_first rs), count-last_first x rs)

slice-nonempty : (rs : List Ref) → slice_of (nonempty rs) ≡ rs
slice-nonempty [] = refl
slice-nonempty (r ∷ rs) = refl

pub same_key : (j k : ℕ) → j == k ≡ true → j ≡ k
same_key j k h = ground arith

-- One tablet more under a key.
pub count-append_tablet :
    (x r k j : ℕ) (i : Index)
    → count x (slice (append_tablet r k i) j)
      ≡ count x (slice i j) + (if r == x then (if k == j then 1 else 0) else 0)
unfolding append_tablet
count-append_tablet x r k j i = elim (Bool-cases (j == k)) [
  | inl e ↦
      let there = ap (λ (n : ℕ). count x (slice i n)) (same_key j k e) in
      ap (λ (o : Option (List Ref)). count x (slice_of o)) (if-true _ _ (i j) e)
      ∙ count-append x (slice i k) (r ∷ [])
      ∙ ground (arith, there)
  | inr e ↦
      ap (λ (o : Option (List Ref)). count x (slice_of o)) (if-false _ _ (i j) e) ∙ ground arith
]

pub count-append_all :
    (x r j : ℕ) (ks : List ℕ) (i : Index)
    → count x (slice (append_all r ks i) j)
      ≡ count x (slice i j) + (if r == x then count j ks else 0)
unfolding append_all
count-append_all x r j [] i = ground arith
count-append_all x r j (k ∷ ks) i =
    ground (arith, count-append_all x r j ks (append_tablet r k i), count-append_tablet x r k j i)

-- The slice where a tablet of an id was removed, when it is the only one of that id.
module _ (heap : Ref → TabletView) where
  abbrev pub OnlyOne : ℕ → Ref → List Ref → Type 0
  OnlyOne id r rs = (x : Ref) → 0 < count x rs → (heap x).tablet_id ≡ id → x ≡ r

  only-tail : (id : ℕ) (r q : Ref) (rs : List Ref) → OnlyOne id r (q ∷ rs) → OnlyOne id r rs
  only-tail id r q rs h x pos e = h x (omega (arith, pos)) e

  other_ref :
      (id : ℕ) (q r : Ref)
      → (heap r).tablet_id ≡ id
      → (heap q).tablet_id == id ≡ false
      → q == r ≡ false
  other_ref id q r e h = elim (Bool-cases (q == r)) [
    | inl k ↦ absurd (ground (arith, ap (λ (n : Ref). (heap n).tablet_id) (same_key q r k)))
    | inr k ↦ k
  ]

  count-remove :
      (id : ℕ) (r x : Ref) (rs : List Ref)
      → (heap r).tablet_id ≡ id
      → OnlyOne id r rs
      → count x (remove_tablet_from_slice heap id rs) ≡ count x rs - (if r == x then 1 else 0)
  unfolding remove_tablet_from_slice
  count-remove id r x [] e h = omega arith
  count-remove id r x (q ∷ rs) e h = elim (Bool-cases ((heap q).tablet_id == id)) [
    | inl same ↦
        let q_is_r = h q (ground arith) (same_key _ _ same) in
        ap (count x) (if-true _ _ _ same) ∙ ground (arith, count-last_first x rs, q_is_r)
    | inr other ↦
        let rest = count-remove id r x rs e (only-tail id r q rs h) in
        let differs = other_ref id q r e other in
        ap (count x) (if-false _ _ _ other) ∙ ground (arith, rest, differs)
  ]

  -- The index under a key of the tablet that is removed, and under another.
  pub count-remove_from :
      (id k j : ℕ) (r x : Ref) (i : Index)
      → (heap r).tablet_id ≡ id
      → OnlyOne id r (slice i k)
      → count x (slice (remove_from heap id k i) j)
        ≡ count x (slice i j) - (if r == x then (if k == j then 1 else 0) else 0)
  unfolding remove_from
  count-remove_from id k j r x i e h = elim (Bool-cases (j == k)) [
    | inl same ↦
        let there = ap (λ (n : ℕ). count x (slice i n)) (same_key j k same) in
        ap (λ (o : Option (List Ref)). count x (slice_of o)) (if-true _ _ (i j) same)
        ∙ ap (count x) (slice-nonempty (remove_tablet_from_slice heap id (slice i k)))
        ∙ count-remove id r x (slice i k) e h
        ∙ ground (arith, there)
    | inr other ↦
        ap (λ (o : Option (List Ref)). count x (slice_of o)) (if-false _ _ (i j) other)
        ∙ ground arith
  ]

  pub count-remove_from_all :
      (id j : ℕ) (r x : Ref) (ks : List ℕ) (i : Index)
      → (heap r).tablet_id ≡ id
      → ((k : ℕ) → OnlyOne id r (slice i k))
      → count x (slice (remove_from_all heap id ks i) j)
        ≡ count x (slice i j) - (if r == x then count j ks else 0)
  unfolding remove_from_all
  count-remove_from_all id j r x [] i e h = ground arith
  count-remove_from_all id j r x (k ∷ ks) i e h =
      let one = count-remove_from id k j r x i e (h k) in
      let rest =
        count-remove_from_all id j r x ks (remove_from heap id k i) e
          (λ n y pos. h n y (ground (arith, pos, count-remove_from id k n r y i e (h k)))) in
      ground (arith, one, rest)
