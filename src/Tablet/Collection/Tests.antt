-- ===== src/Tablet/Collection/Tests.antt =====
-- A collection of three tablets, two of which share an id.
use staravail.Common.{ℕ, ◌≡◌, refl, List, [], ◌∷◌, none, some, ◌==◌, if◌then◌else◌}
use staravail.Tablet.Collection.{
  TabletView, Ref, TabletCollection, new_tablet_collection, find_ref, put_ref, delete_ref,
  append_tablet, append_all, add, remove, update, get, find_by_table, find_by_backend,
}
use staravail.Tablet.Collection.Indexes.{count}
use staravail.Tablet.Collection.Consistency.{
  IsIndexed, CollectionCall, adds, removes, run, NoneTwice, run-IsIndexed,
}
use staravail.Tablet.Collection.Stale.{stale_indexes}

abbrev view : ℕ → ℕ → List ℕ → TabletView
view id table backends = record {
  tablet_id = id;
  table_id = table;
  partition_id = 1;
  database_id = 1;
  backend_ids = backends;
}

abbrev three_tablets : Ref → TabletView
three_tablets r =
    if r == 1
    then view 10 5 (100 ∷ 101 ∷ [])
    else if r == 2
    then view 10 6 (100 ∷ [])
    else view 11 5 (101 ∷ 101 ∷ [])

abbrev calls : List CollectionCall
calls = adds 1 ∷ adds 3 ∷ removes 10 ∷ adds 2 ∷ []

calls-NoneTwice : NoneTwice three_tablets calls new_tablet_collection
unfolding NoneTwice new_tablet_collection add remove find_ref put_ref delete_ref
calls-NoneTwice = (refl, (refl, (refl, tt)))

run-IsIndexed_example : IsIndexed three_tablets (run three_tablets calls new_tablet_collection)
run-IsIndexed_example = run-IsIndexed three_tablets calls calls-NoneTwice

-- Two replicas on one backend list the tablet twice.
on_backends :
    find_by_backend 101 (run three_tablets (adds 1 ∷ adds 3 ∷ []) new_tablet_collection)
    ≡ 1 ∷ 3 ∷ 3 ∷ []
unfolding run new_tablet_collection add append_all append_tablet find_by_backend
on_backends = refl

abbrev two_tablets : TabletCollection
two_tablets = run three_tablets (adds 1 ∷ adds 3 ∷ []) new_tablet_collection

two-NoneTwice : NoneTwice three_tablets (adds 1 ∷ adds 3 ∷ []) new_tablet_collection
unfolding NoneTwice new_tablet_collection add find_ref put_ref
two-NoneTwice = (refl, (refl, tt))

two_held : find_ref 10 two_tablets.tablets ≡ some 1
unfolding run new_tablet_collection add find_ref put_ref
two_held = refl

stale_indexes_example :
    (get 10 (update three_tablets 2 two_tablets).0 ≡ some 2)
    × (count 2 (find_by_table 6 (update three_tablets 2 two_tablets).0) ≡ 0)
    × (get 10 (remove three_tablets 10 (add three_tablets 1 two_tablets)).0 ≡ none)
    × (count 1 (find_by_table 5 (remove three_tablets 10 (add three_tablets 1 two_tablets)).0) ≡ 1)
stale_indexes_example =
    stale_indexes three_tablets two_tablets 10 1 2
      (run-IsIndexed three_tablets (adds 1 ∷ adds 3 ∷ []) two-NoneTwice) two_held refl refl
