-- ===== src/Tablet.antt =====
-- internal/domain/tablet/entity.go: `Tablet`, its state and its replicas. A call holds the tablet's
-- mutex, so each is one step; `now` is what the clock reads in it. The fields that these operations
-- neither read nor change are left out.
pub mod Collection
pub mod Replicas
pub mod Removal
pub mod Counted
mod Tests
use staravail.Common.{
  ℕ, zero, suc, ◌+◌, ◌-◌, ◌≡◌, List, [], ◌∷◌, ◌++◌, map, length, take, get_elem?, Text,
}
use staravail.Common.{Bool, true, false, ◌==◌, if◌then◌else◌, Option, none, some}

-- A replica is what the package `model` declares it to be, which the repository does not hold: its
-- identifiers, and a role that is set to primary or to follower.
pub record ReplicaModel : Type 1 where
  pub Replica : Type 0
  pub replica_id : Replica → ℕ
  pub is_primary : Replica → Bool
  pub as_primary : Replica → Replica
  pub as_follower : Replica → Replica
  pub primary_set : (r : Replica) → is_primary (as_primary r) ≡ true
  pub follower_set : (r : Replica) → is_primary (as_follower r) ≡ false
  pub primary_id : (r : Replica) → replica_id (as_primary r) ≡ replica_id r
  pub follower_id : (r : Replica) → replica_id (as_follower r) ≡ replica_id r

pub data TabletState : Type 0 where
  unknown normal unavailable moving cloning restoring : TabletState

pub record Tablet (A : Type 0) : Type 0 where
  pub replicas : List A
  pub state : TabletState
  pub last_error : Option Text
  pub last_error_time : ℕ
  pub error_count : ℕ
  pub replica_count : ℕ
  pub target_replica_count : ℕ
  pub created_at : ℕ
  pub updated_at : ℕ

module _ {A : Type 0} where
  unfoldable pub new_tablet : ℕ → List A → Tablet A
  new_tablet now replicas = record {
    replicas = replicas;
    state = normal;
    last_error = none;
    last_error_time = 0;
    error_count = 0;
    replica_count = length replicas;
    target_replica_count = length replicas;
    created_at = now;
    updated_at = now;
  }

  unfoldable pub mark_unavailable : ℕ → Option Text → Tablet A → Tablet A
  mark_unavailable now reason t = record t {
    state = unavailable;
    last_error = reason;
    last_error_time = now;
    error_count = t.error_count + 1;
    updated_at = now;
  }

  unfoldable pub mark_available : ℕ → Tablet A → Tablet A
  mark_available now t = record t { state = normal; error_count = 0; updated_at = now }

  -- `MarkMoving`, `MarkCloning` and `MarkRestoring`, which differ in the state.
  unfoldable pub mark : TabletState → ℕ → Tablet A → Tablet A
  mark state now t = record t { state = state; updated_at = now }

  unfoldable pub add_replica : ℕ → A → Tablet A → Tablet A
  add_replica now replica t = record t {
    replicas = t.replicas ++ (replica ∷ []);
    replica_count = length (t.replicas ++ (replica ∷ []));
    updated_at = now;
  }

  -- `replicas[i] = f(replicas[i])`
  abbrev pub set_at : ℕ → (A → A) → List A → List A
  set_at i f [] = []
  set_at zero f (r ∷ rs) = f r ∷ rs
  set_at (suc i) f (r ∷ rs) = r ∷ set_at i f rs

  -- "Remove the replica by replacing it with the last element and truncating the slice"
  abbrev pub swap_remove : ℕ → List A → List A
  swap_remove i rs = elim (get_elem? rs (length rs - 1)) [
    | none ↦ rs
    | some last ↦ take (length rs - 1) (set_at i (λ r. last) rs)
  ]

module _ (m : ReplicaModel) where
  -- The index of the first replica with the id.
  unfoldable pub find_index : ℕ → List m.Replica → Option ℕ
  find_index id [] = none
  find_index id (r ∷ rs) =
      let rest = find_index id rs in
      if m.replica_id r == id then some 0 else elim rest [ none ↦ none | some i ↦ some (suc i) ]

  unfoldable pub remove_replica : ℕ → ℕ → Tablet m.Replica → Tablet m.Replica × Bool
  remove_replica now id t = elim (find_index id t.replicas) [
    | none ↦ (t, false)
    | some i ↦ (
      record t {
        replicas = swap_remove i t.replicas;
        replica_count = length (swap_remove i t.replicas);
        updated_at = now;
      },
      true,
    )
  ]

  unfoldable pub update_replica : ℕ → m.Replica → Tablet m.Replica → Tablet m.Replica × Bool
  update_replica now replica t = elim (find_index (m.replica_id replica) t.replicas) [
    | none ↦ (t, false)
    | some i ↦ (record t { replicas = set_at i (λ r. replica) t.replicas; updated_at = now }, true)
  ]

  -- "Demote the current primary if there is one"
  abbrev pub demote : m.Replica → m.Replica
  demote r = if m.is_primary r then m.as_follower r else r

  abbrev pub demote_all : List m.Replica → List m.Replica
  demote_all [] = []
  demote_all (r ∷ rs) = demote r ∷ demote_all rs

  unfoldable pub promote_replica : ℕ → ℕ → Tablet m.Replica → Tablet m.Replica × Bool
  promote_replica now id t = elim (find_index id t.replicas) [
    | none ↦ (t, false)
    | some i ↦ (
      record t { replicas = set_at i m.as_primary (demote_all t.replicas); updated_at = now },
      true,
    )
  ]
