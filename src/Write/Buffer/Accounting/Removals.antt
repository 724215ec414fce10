-- ===== src/Write/Buffer/Accounting/Removals.antt =====
-- The account behind the operations that take writes out or change their status.
use staravail.Common.{ℕ, ◌+◌, ◌≡◌, refl, ap, ◌∙◌, arith}
use staravail.Common.{List, [], ◌∷◌, length, Text, text_eq, text_eq→eq, Bool, true, false}
use staravail.Common.{Bool-cases, Option-cases, Option, some, inl, inr}
use staravail.Write.Types.{
  WriteBuffer, Entry, BufferedWrite, BufferedWriteStatus, BufferKey, write_size,
}
use staravail.Write.Entries.{stored, Distinct, matches, matches_of_eq, has, delete_entry}
use staravail.Write.Entries.Permutations.{delete_entry-absent}
use staravail.Write.Entries.Sizes.{stored-reject, Distinct-reject, matches_same}
use staravail.Write.Buffer.{
  HealthChecker, drop_where, flush_keys, flush_buffer, keys_to_flush, clean_expired_writes, find_id,
  remove_buffered_write, with_status, update_id, update_buffered_write_status, under, flushable,
  is_tablet_healthy,
}
use staravail.Write.Buffer.Accounting.{IsCovered}

drop_where-IsCovered :
    (test : Entry → Bool) (b : WriteBuffer) (n : ℕ)
    → IsCovered b
    → IsCovered (drop_where test (b, n)).0
unfolding drop_where
drop_where-IsCovered test b n v = record {
  distinct = Distinct-reject test b.entries v.distinct;
  covered = omega (arith, stored-reject test b.entries, v.covered);
}

flush_keys-IsCovered :
    (h : HealthChecker) (ks : List BufferKey) (b : WriteBuffer) (n : ℕ)
    → IsCovered b
    → IsCovered (flush_keys h ks (b, n)).0
unfolding flush_keys
flush_keys-IsCovered h [] b n v = v
flush_keys-IsCovered h (k ∷ ks) b n v = elim (Bool-cases (flushable (is_tablet_healthy h k))) [
  | inl yes_healthy ↦
      rw (yes_healthy, flush_keys)
        (flush_keys-IsCovered h ks (drop_where (under k) (b, n)).0 (drop_where (under k) (b, n)).1
          (drop_where-IsCovered (under k) b n v))
  | inr unhealthy ↦ rw (unhealthy, flush_keys) (flush_keys-IsCovered h ks b n v)
]

pub flush_buffer-IsCovered :
    (h : HealthChecker) (key : Option BufferKey) (b : WriteBuffer)
    → IsCovered b
    → IsCovered (flush_buffer h key b).0
unfolding flush_buffer
flush_buffer-IsCovered h key b v = flush_keys-IsCovered h (keys_to_flush key b.entries) b 0 v

pub clean_expired_writes-IsCovered :
    (now : ℕ) (b : WriteBuffer) → IsCovered b → IsCovered (clean_expired_writes now b).0
unfolding clean_expired_writes
clean_expired_writes-IsCovered now b v = drop_where-IsCovered _ b 0 v

matches_other :
    (key : BufferKey) (id : Text) (e : Entry)
    → text_eq e.write.id id ≡ false
    → matches key id e ≡ false
unfolding matches
matches_other key id e h = ground (arith, h)

-- Deleting the entry that was found takes just that entry.
pub delete_found :
    (id : Text) (e : Entry) (es : List Entry)
    → Distinct es
    → find_id id es ≡ some e
    → (stored (delete_entry e.key id es) + write_size e.write ≡ stored es)
      × (length (delete_entry e.key id es) + 1 ≡ length es)
unfolding find_id
delete_found id e [] d h = cc
delete_found id e (f ∷ es) d h = elim (Bool-cases (text_eq f.write.id id)) [
  | inl same ↦
      let i : f.write.id ≡ id = text_eq→eq f.write.id id same in
      let first : f ≡ e = ground (arith, same, h) in
      let k : f.key ≡ e.key = ap Entry.key first in
      let size : write_size f.write ≡ write_size e.write =
        ap (λ (x : Entry). write_size x.write) first in
      let hit : matches e.key id f ≡ true = matches_of_eq e.key id f k i in
      let gone : delete_entry e.key id es ≡ es =
        delete_entry-absent e.key id es (rw (k, i) at d.0) in
      rw (hit, gone) (omega (arith, size), omega arith)
  | inr differs ↦
      let (sizes, count) = delete_found id e es d.1 (rw differs at h) in
      rw (matches_other e.key id f differs) (omega (arith, sizes), omega (arith, count))
]

pub remove_buffered_write-IsCovered :
    (id : Text) (b : WriteBuffer) → IsCovered b → IsCovered (remove_buffered_write id b).0
unfolding remove_buffered_write
remove_buffered_write-IsCovered id b v = elim (Option-cases (find_id id b.entries)) [
  | inl missing ↦ rw (missing, remove_buffered_write) v
  | inr (e, found) ↦
      rw (found, remove_buffered_write)
        (record {
          distinct = Distinct-reject (matches e.key id) b.entries v.distinct;
          covered = omega (arith, delete_found id e b.entries v.distinct found, v.covered);
        })
]

module _ (id : Text) (f : BufferedWrite → BufferedWrite)
    (same_id : (w : BufferedWrite) → (f w).id ≡ w.id)
    (same_size : (w : BufferedWrite) → write_size (f w) ≡ write_size w) where
  has-update_id :
      (key : BufferKey) (j : Text) (es : List Entry) → has key j (update_id id f es) ≡ has key j es
  unfolding update_id
  has-update_id key j [] = refl
  has-update_id key j (e ∷ es) = ground (
    arith,
    matches_same key j (record e { write = f e.write }) e refl (same_id e.write),
    has-update_id key j es,
  )

  stored-update_id : (es : List Entry) → stored (update_id id f es) ≡ stored es
  unfolding update_id
  stored-update_id [] = refl
  stored-update_id (e ∷ es) = ground (arith, same_size e.write, stored-update_id es)

  Distinct-update_id : (es : List Entry) → Distinct es → Distinct (update_id id f es)
  unfolding update_id
  Distinct-update_id [] d = tt
  Distinct-update_id (e ∷ es) d = elim (Bool-cases (text_eq e.write.id id)) [
    | inl hit ↦ rw hit (ap (λ (i : Text). has e.key i es) (same_id e.write) ∙ d.0, d.1)
    | inr miss ↦ rw miss (has-update_id e.key e.write.id es ∙ d.0, Distinct-update_id es d.1)
  ]

with_status_same :
    (now : ℕ) (status : BufferedWriteStatus) (err : Option Text) (w : BufferedWrite)
    → ((with_status now status err w).id ≡ w.id)
      × (write_size (with_status now status err w) ≡ write_size w)
unfolding with_status write_size
with_status_same now status err w = ground arith

pub update_buffered_write_status-IsCovered :
    (now : ℕ) (id : Text) (status : BufferedWriteStatus) (err : Option Text) (b : WriteBuffer)
    → IsCovered b
    → IsCovered (update_buffered_write_status now id status err b).0
unfolding update_buffered_write_status
update_buffered_write_status-IsCovered now id status err b v = record {
  distinct =
      Distinct-update_id id (with_status now status err)
        (λ w. (with_status_same now status err w).0) (λ w. (with_status_same now status err w).1)
        b.entries v.distinct;
  covered = omega (
    arith,
    stored-update_id id (with_status now status err) (λ w. (with_status_same now status err w).0)
        (λ w. (with_status_same now status err w).1) b.entries,
    v.covered,
  );
}
