-- ===== src/Tablet/Collection.antt =====
-- entity.go: `TabletCollection`. Tablets are pointers: the collection holds references, and `heap`
-- is what the references point to while a call runs. A map of slices is a function from the keys to
-- the slices that it holds.
pub mod Indexes
pub mod Consistency
pub mod Stale
mod Tests
use staravail.Common.{ℕ, ◌+◌, List, [], ◌∷◌, ◌++◌, length, Option, none, some}
use staravail.Common.{Bool, true, false, not, ◌&&◌, ◌==◌, if◌then◌else◌}

-- What the collection asks of a tablet.
pub record TabletView : Type 0 where
  pub tablet_id : ℕ
  pub table_id : ℕ
  pub partition_id : ℕ
  pub database_id : ℕ
  pub backend_ids : List ℕ

abbrev pub Ref : Type 0
Ref = ℕ

abbrev pub Index : Type 0
Index = ℕ → Option (List Ref)

pub record TabletCollection : Type 0 where
  pub tablets : List (ℕ × Ref)
  pub tablets_by_table : Index
  pub tablets_by_partition : Index
  pub tablets_by_backend : Index
  pub tablets_by_database : Index

unfoldable pub new_tablet_collection : TabletCollection
new_tablet_collection = record {
  tablets = [];
  tablets_by_table = λ k. none;
  tablets_by_partition = λ k. none;
  tablets_by_backend = λ k. none;
  tablets_by_database = λ k. none;
}

unfoldable pub find_ref : ℕ → List (ℕ × Ref) → Option Ref
find_ref id [] = none
find_ref id ((k, r) ∷ ts) = let rest = find_ref id ts in if k == id then some r else rest

unfoldable pub put_ref : ℕ → Ref → List (ℕ × Ref) → List (ℕ × Ref)
put_ref id r [] = (id, r) ∷ []
put_ref id r ((k, q) ∷ ts) =
    let rest = put_ref id r ts in if k == id then (id, r) ∷ ts else (k, q) ∷ rest

unfoldable pub delete_ref : ℕ → List (ℕ × Ref) → List (ℕ × Ref)
delete_ref id [] = []
delete_ref id ((k, q) ∷ ts) = let rest = delete_ref id ts in if k == id then rest else (k, q) ∷ rest

-- A key that is missing reads as the empty slice.
abbrev pub slice_of : Option (List Ref) → List Ref
slice_of none = []
slice_of (some rs) = rs

abbrev pub slice : Index → ℕ → List Ref
slice i k = slice_of (i k)

abbrev pub set_slice : ℕ → Option (List Ref) → Index → Index
set_slice k rs i j = if j == k then rs else i j

unfoldable pub append_tablet : Ref → ℕ → Index → Index
append_tablet r k i = set_slice k (some (slice i k ++ (r ∷ []))) i

-- The loop over the backends of a tablet.
unfoldable pub append_all : Ref → List ℕ → Index → Index
append_all r [] i = i
append_all r (k ∷ ks) i = append_all r ks (append_tablet r k i)

abbrev pub rotate : Ref → List Ref → List Ref
rotate r [] = r ∷ []
rotate r (l ∷ ls) = l ∷ r ∷ ls

-- The last element comes first, in the place of the one that is removed.
abbrev pub last_first : List Ref → List Ref
last_first [] = []
last_first (r ∷ rs) = rotate r (last_first rs)

abbrev pub nonempty : List Ref → Option (List Ref)
nonempty [] = none
nonempty (r ∷ rs) = some (r ∷ rs)

module _ (heap : Ref → TabletView) where
  unfoldable pub add : Ref → TabletCollection → TabletCollection
  add r c =
      let t = heap r in
      record {
        tablets = put_ref t.tablet_id r c.tablets;
        tablets_by_table = append_tablet r t.table_id c.tablets_by_table;
        tablets_by_partition = append_tablet r t.partition_id c.tablets_by_partition;
        tablets_by_backend = append_all r t.backend_ids c.tablets_by_backend;
        tablets_by_database = append_tablet r t.database_id c.tablets_by_database;
      }

  unfoldable pub remove_tablet_from_slice : ℕ → List Ref → List Ref
  remove_tablet_from_slice id [] = []
  remove_tablet_from_slice id (r ∷ rs) =
      let rest = remove_tablet_from_slice id rs in
      if (heap r).tablet_id == id then last_first rs else r ∷ rest

  unfoldable pub remove_from : ℕ → ℕ → Index → Index
  remove_from id k i = set_slice k (nonempty (remove_tablet_from_slice id (slice i k))) i

  unfoldable pub remove_from_all : ℕ → List ℕ → Index → Index
  remove_from_all id [] i = i
  remove_from_all id (k ∷ ks) i = remove_from_all id ks (remove_from id k i)

  abbrev pub remove_ref : ℕ → Ref → TabletCollection → TabletCollection
  remove_ref id r c =
      let t = heap r in
      record {
        tablets = delete_ref id c.tablets;
        tablets_by_table = remove_from id t.table_id c.tablets_by_table;
        tablets_by_partition = remove_from id t.partition_id c.tablets_by_partition;
        tablets_by_backend = remove_from_all id t.backend_ids c.tablets_by_backend;
        tablets_by_database = remove_from id t.database_id c.tablets_by_database;
      }

  unfoldable pub remove : ℕ → TabletCollection → TabletCollection × Bool
  remove id c = elim (find_ref id c.tablets) [
    | none ↦ (c, false)
    | some r ↦ (remove_ref id r c, true)
  ]

  -- The indexes keep what they hold.
  unfoldable pub update : Ref → TabletCollection → TabletCollection × Bool
  update r c =
      let id = (heap r).tablet_id in
      elim (find_ref id c.tablets) [
        | none ↦ (c, false)
        | some q ↦ (record c { tablets = put_ref id r c.tablets }, true)
      ]

  unfoldable pub select : (TabletView → Bool) → List Ref → List Ref
  select p [] = []
  select p (r ∷ rs) = let rest = select p rs in if p (heap r) then r ∷ rest else rest

  unfoldable pub find_by_table_and_partition : ℕ → ℕ → TabletCollection → List Ref
  find_by_table_and_partition table partition c =
      select (λ t. t.partition_id == partition) (slice c.tablets_by_table table)

  unfoldable pub find_by_database_and_table : ℕ → ℕ → TabletCollection → List Ref
  find_by_database_and_table database table c =
      select (λ t. t.table_id == table) (slice c.tablets_by_database database)

unfoldable pub get : ℕ → TabletCollection → Option Ref
get id c = find_ref id c.tablets

unfoldable pub size : TabletCollection → ℕ
size c = length c.tablets

unfoldable pub find_by_table : ℕ → TabletCollection → List Ref
find_by_table table c = slice c.tablets_by_table table

unfoldable pub find_by_partition : ℕ → TabletCollection → List Ref
find_by_partition partition c = slice c.tablets_by_partition partition

unfoldable pub find_by_database : ℕ → TabletCollection → List Ref
find_by_database database c = slice c.tablets_by_database database

unfoldable pub find_by_backend : ℕ → TabletCollection → List Ref
find_by_backend backend c = slice c.tablets_by_backend backend
