-- ===== src/Tablet/Removal.antt =====
-- entity.go: `RemoveReplica`, which puts the last replica in the place of the removed one.
use staravail.Common.{ℕ, zero, suc, ◌-◌, ◌≡◌, refl, arith, List, [], ◌∷◌, length, take}
use staravail.Common.{get_elem?, true, false, none, some, Option-cases, ◌⊎◌, inl, inr}
use staravail.Tablet.{ReplicaModel, Tablet, set_at, swap_remove, find_index, remove_replica}
use staravail.Tablet.Replicas.{find_index-some}
use mathlib.Core.Path.{subst}
use mathlib.Core.List.{Perm}
use mathlib.Core.List.Perm

module _ {A : Type 0} where
  last_first :
      (y : A) (zs : List A)
      → (l : A) × (get_elem? (y ∷ zs) (length zs) ≡ some l)
        × Perm (y ∷ zs) (l ∷ take (length zs) (y ∷ zs))
  last_first y [] = (y, refl, Perm.refl (y ∷ []))
  last_first y (z ∷ zs) =
      let (l, there, p) = last_first z zs in
      (l, there, Perm.trans (Perm.cons y p) (Perm.swap l y (take (length zs) (z ∷ zs))))

  swapped-perm :
      (i : ℕ) (r l x : A) (xs : List A)
      → get_elem? (x ∷ xs) (length xs) ≡ some l
      → get_elem? (x ∷ xs) i ≡ some r
      → Perm (x ∷ xs) (r ∷ take (length xs) (set_at i (λ s. l) (x ∷ xs)))
  swapped-perm zero r l x [] e h =
      subst (λ (s : A). Perm (x ∷ []) (s ∷ [])) (ground (arith, h)) (Perm.refl (x ∷ []))
  swapped-perm zero r l x (y ∷ ys) e h =
      let (k, there, p) = last_first y ys in
      let same : x ≡ r = ground (arith, h) in
      let same_last : k ≡ l = ground (arith, e, there) in
      subst (λ (s : A). Perm (x ∷ y ∷ ys) (s ∷ l ∷ take (length ys) (y ∷ ys))) same
        (subst (λ (s : A). Perm (x ∷ y ∷ ys) (x ∷ s ∷ take (length ys) (y ∷ ys))) same_last
          (Perm.cons x p))
  swapped-perm (suc i) r l x [] e h = absurd (ground (arith, h))
  swapped-perm (suc i) r l x (y ∷ ys) e h =
      Perm.trans (Perm.cons x (swapped-perm i r l y ys e h)) (Perm.swap r x _)

  swap_remove-perm :
      (i : ℕ) (r : A) (rs : List A) → get_elem? rs i ≡ some r → Perm rs (r ∷ swap_remove i rs)
  swap_remove-perm i r [] h = absurd (ground (arith, h))
  swap_remove-perm i r (x ∷ xs) h =
      let (l, there, p) = last_first x xs in
      let before : suc (length xs) - 1 ≡ length xs = omega arith in
      rw (swap_remove, before, there, before) (swapped-perm i r l x xs there h)

-- A removal either finds no replica with the id and changes nothing, or it succeeds, and the
-- replicas before are one with that id and the replicas that are left, in some order.
pub remove_replica_lem :
    (m : ReplicaModel) (now id : ℕ) (t : Tablet m.Replica)
    → ((find_index m id t.replicas ≡ none) × (remove_replica m now id t ≡ (t, false)))
      ⊎ ((r : m.Replica) × ((remove_replica m now id t).1 ≡ true)
          × (m.replica_id r ≡ id)
          × Perm t.replicas (r ∷ (remove_replica m now id t).0.replicas))
unfolding remove_replica
remove_replica_lem m now id t = elim (Option-cases (find_index m id t.replicas)) [
  | inl k ↦ inl (k, rw (k, remove_replica) refl)
  | inr (i, k) ↦
      let (r, there, same) = find_index-some m id i t.replicas k in
      inr (
        r,
        rw (k, remove_replica) refl,
        same,
        rw (k, remove_replica) (swap_remove-perm i r t.replicas there),
      )
]
