-- ===== src/Tablet/Collection/Stale.antt =====
-- entity.go: the tablet collection behind an update, and behind a second `Add` of a tablet.
use staravail.Common.{ℕ, ◌≡◌, sym, ap, ◌∙◌, arith, List, [], ◌∷◌, Option, none, some}
use staravail.Common.{Bool, true, false, ◌==◌, ==_refl, if-true, Bool-cases, inl, inr}
use staravail.Tablet.Collection.{
  TabletView, Ref, TabletCollection, find_ref, put_ref, slice, add, remove_ref, remove, update, get,
  find_by_table,
}
use staravail.Tablet.Collection.Indexes.{
  count, count-append_tablet, OnlyOne, count-remove_from, same_key,
}
use staravail.Tablet.Collection.Consistency.{find-put, find-delete, matches, IsIndexed, only-Lists}

module _ (heap : Ref → TabletView) where
  remove-found :
      (id r : Ref) (c : TabletCollection)
      → find_ref id c.tablets ≡ some r
      → (remove heap id c).0 ≡ remove_ref heap id r c
  unfolding remove
  remove-found id r c e =
      ap
        (λ (o : Option Ref).
          (elim o as (λ x. TabletCollection × Bool) [
            | none ↦ (c, false)
            | some q ↦ (remove_ref heap id q c, true)
          ]).0)
        e

  update-found :
      (r q : Ref) (c : TabletCollection)
      → find_ref (heap r).tablet_id c.tablets ≡ some q
      → (update heap r c).0 ≡ record c { tablets = put_ref (heap r).tablet_id r c.tablets }
  unfolding update
  update-found r q c e =
      ap
        (λ (o : Option Ref).
          (elim o as (λ x. TabletCollection × Bool) [
            | none ↦ (c, false)
            | some q ↦ (record c { tablets = put_ref (heap r).tablet_id r c.tablets }, true)
          ]).0)
        e

  put-found :
      (r : Ref) (id : ℕ) (ts : List (ℕ × Ref))
      → (heap r).tablet_id ≡ id
      → find_ref id (put_ref (heap r).tablet_id r ts) ≡ some r
  put-found r id ts same =
      find-put id (heap r).tablet_id r ts
      ∙ if-true ((heap r).tablet_id == id) _ _ (ground (arith, same))

  module _ (c : TabletCollection) (v : IsIndexed heap c) (id old : Ref)
      (e : find_ref id c.tablets ≡ some old) where
    old_once : count old (find_by_table (heap old).table_id c) ≡ 1
    unfolding find_by_table
    old_once =
        let there =
          ap (λ (j : ℕ). matches old (find_ref j c.tablets)) (v.ids id old e)
          ∙ ap (matches old) e in
        ground (arith, v.by_table old (heap old).table_id, there)

    old_twice : count old (slice (add heap old c).tablets_by_table (heap old).table_id) ≡ 2
    unfolding add find_by_table
    old_twice = ground (
      arith,
      old_once,
      count-append_tablet old old (heap old).table_id (heap old).table_id c.tablets_by_table,
    )

    only_old : OnlyOne heap id old (slice (add heap old c).tablets_by_table (heap old).table_id)
    unfolding add
    only_old x pos same =
        let t = (heap old).table_id in
        elim (Bool-cases (old == x)) [
          | inl k ↦ sym (same_key old x k)
          | inr k ↦
              only-Lists heap (λ t. t.table_id ∷ []) id old t c.tablets c.tablets_by_table e
                v.by_table x (ground (arith, pos, count-append_tablet x old t t c.tablets_by_table))
                same
        ]

    pub add_again :
        let removed = (remove heap id (add heap old c)).0 in
        (get id removed ≡ none) × (count old (find_by_table (heap old).table_id removed) ≡ 1)
    unfolding get find_by_table add
    add_again =
        let t = (heap old).table_id in
        let twice = add heap old c in
        let found = remove-found id old twice (put-found old id c.tablets (v.ids id old e)) in
        (
          ap (λ (d : TabletCollection). find_ref id d.tablets) found
              ∙ find-delete id id twice.tablets
              ∙ if-true _ _ _ (==_refl id),
          ap (λ (d : TabletCollection). count old (slice d.tablets_by_table t)) found
              ∙ count-remove_from heap id t t old old twice.tablets_by_table (v.ids id old e)
                  only_old
              ∙ ground (arith, old_twice),
        )

    pub update_again :
        (young : Ref)
        → (heap young).tablet_id ≡ id
        → old == young ≡ false
        → let updated = (update heap young c).0 in
          (get id updated ≡ some young)
          × (count young (find_by_table (heap young).table_id updated) ≡ 0)
    unfolding get find_by_table
    update_again young same differs =
        let found = update-found young old c (ap (λ (j : ℕ). find_ref j c.tablets) same ∙ e) in
        let absent =
          ap (λ (j : ℕ). matches young (find_ref j c.tablets)) same
          ∙ ap (matches young) e
          ∙ differs in
        (
          ap (λ (d : TabletCollection). find_ref id d.tablets) found
              ∙ put-found young id c.tablets same,
          ap
                (λ (d : TabletCollection).
                  count young (slice d.tablets_by_table (heap young).table_id))
                found
              ∙ ground (arith, v.by_table young (heap young).table_id, absent),
        )

  -- In a collection whose indexes agree with its map, which holds a tablet of an id: an update to
  -- another tablet of that id is what the id then gives, yet no index of tables lists it; and when
  -- the same tablet is added again and its id removed, the id gives nothing, yet the index of
  -- tables still lists the tablet.
  pub stale_indexes :
      (c : TabletCollection) (id old young : Ref)
      → IsIndexed heap c
      → find_ref id c.tablets ≡ some old
      → (heap young).tablet_id ≡ id
      → old == young ≡ false
      → let updated = (update heap young c).0 in
        let removed = (remove heap id (add heap old c)).0 in
        (get id updated ≡ some young)
        × (count young (find_by_table (heap young).table_id updated) ≡ 0)
        × (get id removed ≡ none)
        × (count old (find_by_table (heap old).table_id removed) ≡ 1)
  stale_indexes c id old young v e same differs =
      let (held, unlisted) = update_again c v id old e young same differs in
      let (gone, listed) = add_again c v id old e in (held, unlisted, gone, listed)
