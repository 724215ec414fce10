-- ===== src/Tablet/Tests.antt =====
-- Runs of a tablet's calls, and its theorems at concrete inputs.
use staravail.Common.{ℕ, ◌≡◌, refl, [], ◌∷◌, Bool, true, false, none, some, ◌⊎◌, get_elem?}
use staravail.Tablet.{
  ReplicaModel, normal, Tablet, new_tablet, find_index, remove_replica, promote_replica,
}
use staravail.Tablet.Replicas.{count_primaries, ids, promote_replica_lem}
use staravail.Tablet.Removal.{remove_replica_lem}
use staravail.Tablet.Counted.{
  adds, removes_id, promotes, marks_available, IsCounted, call_all, new_tablet-IsCounted,
}
use mathlib.Core.List.{Perm}

-- An id, and whether the replica is the primary.
abbrev simple : ReplicaModel
simple = record {
  Replica = ℕ × Bool;
  replica_id = λ r. r.0;
  is_primary = λ r. r.1;
  as_primary = λ r. (r.0, true);
  as_follower = λ r. (r.0, false);
  primary_set = λ r. refl;
  follower_set = λ r. refl;
  primary_id = λ r. refl;
  follower_id = λ r. refl;
}

abbrev three : Tablet (ℕ × Bool)
three = record {
  replicas = (1, true) ∷ (2, false) ∷ (3, false) ∷ [];
  state = normal;
  last_error = none;
  last_error_time = 0;
  error_count = 0;
  replica_count = 3;
  target_replica_count = 3;
  created_at = 1;
  updated_at = 1;
}

promotes_second :
    (promote_replica simple 9 2 three).0.replicas ≡ (1, false) ∷ (2, true) ∷ (3, false) ∷ []
unfolding promote_replica find_index
promotes_second = refl

removes_first : (remove_replica simple 9 1 three).0.replicas ≡ (3, false) ∷ (2, false) ∷ []
unfolding remove_replica find_index
removes_first = refl

promote_replica_lem_example :
    ((find_index simple 2 three.replicas ≡ none)
      × (promote_replica simple 9 2 three ≡ (three, false)))
    ⊎ ((i : ℕ) × (r : ℕ × Bool) × ((promote_replica simple 9 2 three).1 ≡ true)
        × (count_primaries simple (promote_replica simple 9 2 three).0.replicas ≡ 1)
        × (get_elem? (promote_replica simple 9 2 three).0.replicas i ≡ some r)
        × (r.1 ≡ true)
        × (r.0 ≡ 2)
        × (ids simple (promote_replica simple 9 2 three).0.replicas ≡ ids simple three.replicas))
promote_replica_lem_example = promote_replica_lem simple 9 2 three

remove_replica_lem_example :
    ((find_index simple 1 three.replicas ≡ none)
      × (remove_replica simple 9 1 three ≡ (three, false)))
    ⊎ ((r : ℕ × Bool) × ((remove_replica simple 9 1 three).1 ≡ true)
        × (r.0 ≡ 1)
        × Perm three.replicas (r ∷ (remove_replica simple 9 1 three).0.replicas))
remove_replica_lem_example = remove_replica_lem simple 9 1 three

new_tablet-IsCounted_example : IsCounted (
    call_all simple
      (adds 2 (4, false) ∷ removes_id 3 1 ∷ promotes 4 4 ∷ marks_available 5 ∷ [])
      (new_tablet 1 three.replicas))
new_tablet-IsCounted_example =
    new_tablet-IsCounted simple 1 three.replicas
      (adds 2 (4, false) ∷ removes_id 3 1 ∷ promotes 4 4 ∷ marks_available 5 ∷ [])
