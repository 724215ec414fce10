-- ===== src/Tablet/Replicas.antt =====
-- entity.go: which replicas a promotion and a removal leave.
use staravail.Common.{ℕ, zero, suc, ◌≡◌, refl, ap, ◌∙◌, arith, List, [], ◌∷◌}
use staravail.Common.{
  get_elem?, true, false, ◌==◌, if◌then◌else◌, none, some, Bool-cases, Option-cases, ◌⊎◌, inl, inr,
}
use staravail.Tablet.{ReplicaModel, Tablet, set_at, find_index, demote, demote_all, promote_replica}

module _ (m : ReplicaModel) where
  abbrev pub count_primaries : List m.Replica → ℕ
  count_primaries [] = 0
  count_primaries (r ∷ rs) =
      let rest = count_primaries rs in if m.is_primary r then suc rest else rest

  abbrev pub ids : List m.Replica → List ℕ
  ids [] = []
  ids (r ∷ rs) = m.replica_id r ∷ ids rs

  demote_lem :
      (r : m.Replica)
      → (m.is_primary (demote m r) ≡ false) × (m.replica_id (demote m r) ≡ m.replica_id r)
  demote_lem r = elim (Bool-cases (m.is_primary r)) [
    | inl h ↦ rw h (m.follower_set r, m.follower_id r)
    | inr h ↦ rw h (h, refl)
  ]

  demote_all-count : (rs : List m.Replica) → count_primaries (demote_all m rs) ≡ 0
  demote_all-count [] = refl
  demote_all-count (r ∷ rs) = rw ((demote_lem r).0) (demote_all-count rs)

  demote_all-ids : (rs : List m.Replica) → ids (demote_all m rs) ≡ ids rs
  demote_all-ids [] = refl
  demote_all-ids (r ∷ rs) = cc ((demote_lem r).1, demote_all-ids rs)

  pub find_index-some :
      (id i : ℕ) (rs : List m.Replica)
      → find_index m id rs ≡ some i
      → (r : m.Replica) × (get_elem? rs i ≡ some r) × (m.replica_id r ≡ id)
  unfolding find_index
  find_index-some id i [] h = absurd (ground (arith, h))
  find_index-some id zero (r ∷ rs) h = elim (Bool-cases (m.replica_id r == id)) [
    | inl e ↦ (r, refl, ground (arith, e))
    | inr e ↦ absurd (elim (Option-cases (find_index m id rs)) [
      | inl k ↦ ground (arith, h, e, k)
      | inr (j, k) ↦ ground (arith, h, e, k)
    ])
  ]
  find_index-some id (suc i) (r ∷ rs) h = elim (Bool-cases (m.replica_id r == id)) [
    | inl e ↦ absurd (ground (arith, h, e))
    | inr e ↦ elim (Option-cases (find_index m id rs)) [
      | inl k ↦ absurd (ground (arith, h, e, k))
      | inr (j, k) ↦ find_index-some id i rs (ground (arith, h, e, k))
    ]
  ]

  -- Promoting one of the demoted replicas.
  promoted :
      (i : ℕ) (r : m.Replica) (rs : List m.Replica)
      → get_elem? rs i ≡ some r
      → (count_primaries (set_at i m.as_primary (demote_all m rs)) ≡ 1)
        × (get_elem? (set_at i m.as_primary (demote_all m rs)) i ≡ some (m.as_primary (demote m r)))
        × (ids (set_at i m.as_primary (demote_all m rs)) ≡ ids rs)
  promoted i r [] h = absurd (ground (arith, h))
  promoted zero r (s ∷ rs) h =
      let same : s ≡ r = ground (arith, h) in
      (
        rw (m.primary_set (demote m s)) (ap suc (demote_all-count rs)),
        ap (λ (x : m.Replica). some (m.as_primary (demote m x))) same,
        cc (m.primary_id (demote m s), (demote_lem s).1, demote_all-ids rs),
      )
  promoted (suc i) r (s ∷ rs) h =
      let (count, there, same) = promoted i r rs h in
      (rw ((demote_lem s).0) count, there, cc ((demote_lem s).1, same))

  -- A promotion either finds no replica with the id and changes nothing, or it succeeds, leaves
  -- exactly one primary, which has that id, and keeps the identifiers of the replicas in their
  -- order.
  pub promote_replica_lem :
      (now id : ℕ) (t : Tablet m.Replica)
      → ((find_index m id t.replicas ≡ none) × (promote_replica m now id t ≡ (t, false)))
        ⊎ ((i : ℕ) × (r : m.Replica) × ((promote_replica m now id t).1 ≡ true)
            × (count_primaries (promote_replica m now id t).0.replicas ≡ 1)
            × (get_elem? (promote_replica m now id t).0.replicas i ≡ some r)
            × (m.is_primary r ≡ true)
            × (m.replica_id r ≡ id)
            × (ids (promote_replica m now id t).0.replicas ≡ ids t.replicas))
  unfolding promote_replica
  promote_replica_lem now id t = elim (Option-cases (find_index m id t.replicas)) [
    | inl k ↦ inl (k, rw (k, promote_replica) refl)
    | inr (i, k) ↦
        let (r, there, same) = find_index-some id i t.replicas k in
        let (count, kept, all_ids) = promoted i r t.replicas there in
        inr (
          i,
          m.as_primary (demote m r),
          rw (k, promote_replica) refl,
          rw (k, promote_replica) count,
          rw (k, promote_replica) kept,
          m.primary_set (demote m r),
          m.primary_id (demote m r) ∙ (demote_lem r).1 ∙ same,
          rw (k, promote_replica) all_ids,
        )
  ]
