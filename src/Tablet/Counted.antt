-- ===== src/Tablet/Counted.antt =====
-- entity.go: the number of replicas that a tablet reports, over any sequence of calls.
use staravail.Common.{ℕ, zero, suc, ◌≡◌, refl, sym, ap, ◌∙◌, List, [], ◌∷◌, length, Text}
use staravail.Common.{Option, Option-cases, inl, inr}
use staravail.Tablet.{
  ReplicaModel, TabletState, Tablet, new_tablet, mark_unavailable, mark_available, mark,
  add_replica, set_at, find_index, remove_replica, update_replica, demote_all, promote_replica,
}

-- The calls that change a tablet, with the time of the call.
pub data Call (A : Type 0) : Type 0 where
  marks_unavailable : ℕ → Option Text → Call A
  marks_available : ℕ → Call A
  marks : TabletState → ℕ → Call A
  adds : ℕ → A → Call A
  removes_id : ℕ → ℕ → Call A
  replaces : ℕ → A → Call A
  promotes : ℕ → ℕ → Call A

abbrev pub IsCounted : {A : Type 0} → Tablet A → Type 0
IsCounted t = t.replica_count ≡ length t.replicas

length-set_at : {A : Type 0} (i : ℕ) (f : A → A) (rs : List A) → length (set_at i f rs) ≡ length rs
length-set_at i f [] = refl
length-set_at zero f (r ∷ rs) = refl
length-set_at (suc i) f (r ∷ rs) = ap suc (length-set_at i f rs)

module _ (m : ReplicaModel) where
  length-demote_all : (rs : List m.Replica) → length (demote_all m rs) ≡ length rs
  length-demote_all [] = refl
  length-demote_all (r ∷ rs) = ap suc (length-demote_all rs)

  unfoldable pub call : Call m.Replica → Tablet m.Replica → Tablet m.Replica
  call (marks_unavailable now reason) t = mark_unavailable now reason t
  call (marks_available now) t = mark_available now t
  call (marks state now) t = mark state now t
  call (adds now r) t = add_replica now r t
  call (removes_id now id) t = (remove_replica m now id t).0
  call (replaces now r) t = (update_replica m now r t).0
  call (promotes now id) t = (promote_replica m now id t).0

  unfoldable pub call_all : List (Call m.Replica) → Tablet m.Replica → Tablet m.Replica
  call_all [] t = t
  call_all (c ∷ cs) t = call_all cs (call c t)

  remove-IsCounted :
      (now id : ℕ) (t : Tablet m.Replica) → IsCounted t → IsCounted (remove_replica m now id t).0
  unfolding remove_replica
  remove-IsCounted now id t h = elim (Option-cases (find_index m id t.replicas)) [
    | inl k ↦ rw (k, remove_replica) h
    | inr (i, k) ↦ rw (k, remove_replica) refl
  ]

  update-IsCounted :
      (now : ℕ) (r : m.Replica) (t : Tablet m.Replica)
      → IsCounted t
      → IsCounted (update_replica m now r t).0
  unfolding update_replica
  update-IsCounted now r t h = elim (Option-cases (find_index m (m.replica_id r) t.replicas)) [
    | inl k ↦ rw (k, update_replica) h
    | inr (i, k) ↦ rw (k, update_replica) (h ∙ sym (length-set_at i (λ s. r) t.replicas))
  ]

  promote-IsCounted :
      (now id : ℕ) (t : Tablet m.Replica) → IsCounted t → IsCounted (promote_replica m now id t).0
  unfolding promote_replica
  promote-IsCounted now id t h = elim (Option-cases (find_index m id t.replicas)) [
    | inl k ↦ rw (k, promote_replica) h
    | inr (i, k) ↦
        rw (k, promote_replica)
          (h
            ∙ sym (
                length-set_at i m.as_primary (demote_all m t.replicas)
                ∙ length-demote_all t.replicas))
  ]

  call-IsCounted : (c : Call m.Replica) (t : Tablet m.Replica) → IsCounted t → IsCounted (call c t)
  unfolding call mark_unavailable mark_available mark add_replica
  call-IsCounted (marks_unavailable now reason) t h = h
  call-IsCounted (marks_available now) t h = h
  call-IsCounted (marks state now) t h = h
  call-IsCounted (adds now r) t h = refl
  call-IsCounted (removes_id now id) t h = remove-IsCounted now id t h
  call-IsCounted (replaces now r) t h = update-IsCounted now r t h
  call-IsCounted (promotes now id) t h = promote-IsCounted now id t h

  calls-IsCounted :
      (cs : List (Call m.Replica)) (t : Tablet m.Replica) → IsCounted t → IsCounted (call_all cs t)
  unfolding call_all
  calls-IsCounted [] t h = h
  calls-IsCounted (c ∷ cs) t h = calls-IsCounted cs (call c t) (call-IsCounted c t h)

  -- After any sequence of calls on a new tablet, the number of replicas that it reports is the
  -- number that it has.
  pub new_tablet-IsCounted :
      (now : ℕ) (rs : List m.Replica) (cs : List (Call m.Replica))
      → IsCounted (call_all cs (new_tablet now rs))
  unfolding new_tablet
  new_tablet-IsCounted now rs cs = calls-IsCounted cs (new_tablet now rs) refl
