-- ===== src/Write/Buffer/Accounting.antt =====
-- The account of bytes against what the buffer stores.
pub mod Removals
pub mod Steps
use staravail.Common.{ℕ, zero, suc, ◌+◌, ◌-◌, ◌≤◌, ◌<◌, ◌≡◌, refl, sym, ap, ◌∙◌, arith}
use staravail.Common.{
  List, [], ◌∷◌, ◌++◌, length, Text, text_eq, text_eq→eq, Bool, true, false, ◌||◌, ◌&&◌,
  if◌then◌else◌, ltb, leb, ◌==◌,
}
use staravail.Common.{Bool-cases, Option-cases, Option, none, some, inl, inr}
use staravail.Write.Types.{
  WriteBuffer, Entry, BufferedWrite, BufferedWriteStatus, BufferKey, write_size, key_of,
}
use staravail.Write.Entries.{
  stored, Distinct, matches, matches_of_eq, has, reject, delete_entry, put_entry,
}
use staravail.Write.Entries.Permutations.{stored-perm, Distinct-perm, delete_entry-absent}
use staravail.Write.Entries.Sizes.{
  accept, stored-reject, Distinct-reject, stored-put_new, stored-put_entry, Distinct-put_entry,
  matches_same, find, stored-put_old,
}
use staravail.Write.Sort.{SortSlice}
use staravail.Write.Evict.{evict_writes}
use staravail.Write.Evict.Order.{Drops, evict_writes-Drops}
use staravail.Write.Buffer.{
  HealthChecker, limit_writes, limit_bytes, add_write, fill_defaults, buffer_write, drop_where,
  flush_keys, flush_buffer, keys_to_flush, clean_expired_writes, find_id, remove_buffered_write,
  with_status, update_id, update_buffered_write_status, under, flushable, is_tablet_healthy,
}
use mathlib.Core.List.{Perm}
use mathlib.Core.List.Perm

-- A nested map has one entry for a key and id, and the account covers what is stored, so that no
-- subtraction from it goes below zero.
pub record IsCovered (b : WriteBuffer) : Type 0 where
  pub distinct : Distinct b.entries
  pub covered : stored b.entries ≤ b.current_buffer_size_bytes

-- The account is what is stored.
pub record IsExact (b : WriteBuffer) : Type 0 where
  pub distinct : Distinct b.entries
  pub exact : b.current_buffer_size_bytes ≡ stored b.entries

pub stored-append : (es fs : List Entry) → stored (es ++ fs) ≡ stored es + stored fs
stored-append [] fs = omega arith
stored-append (e ∷ es) fs = omega (arith, stored-append es fs)

Distinct-append_right : (es fs : List Entry) → Distinct (es ++ fs) → Distinct fs
Distinct-append_right [] fs d = d
Distinct-append_right (e ∷ es) fs d = Distinct-append_right es fs d.1

module _ (s : SortSlice) (count bytes : ℕ) where
  pub evict_writes-IsCovered :
      (b : WriteBuffer) → IsCovered b → IsCovered (evict_writes s count bytes b)
  evict_writes-IsCovered b v =
      let b' = evict_writes s count bytes b in
      let (gone, d) = evict_writes-Drops s count bytes b v.distinct in
      record {
        distinct = Distinct-append_right gone b'.entries (Distinct-perm d.all_accounted v.distinct);
        covered = omega (
          arith,
          stored-perm d.all_accounted,
          stored-append gone b'.entries,
          d.account,
          v.covered,
        );
      }

  pub evict_writes-IsExact : (b : WriteBuffer) → IsExact b → IsExact (evict_writes s count bytes b)
  evict_writes-IsExact b v =
      let b' = evict_writes s count bytes b in
      let (gone, d) = evict_writes-Drops s count bytes b v.distinct in
      record {
        distinct = Distinct-append_right gone b'.entries (Distinct-perm d.all_accounted v.distinct);
        exact =
            omega (
              arith,
              stored-perm d.all_accounted,
              stored-append gone b'.entries,
              d.account,
              v.exact,
            );
      }

-- What eviction keeps, the two tests for room keep.
module _ (P : WriteBuffer → Type 0) (s : SortSlice) (size : ℕ)
    (keep : (count bytes : ℕ) (b : WriteBuffer) → P b → P (evict_writes s count bytes b)) where
  if_keeps : (c : Bool) (x y : WriteBuffer) → P x → P y → P (if c then x else y)
  if_keeps true x y p q = p
  if_keeps false x y p q = q

  pub limits_keep : (b : WriteBuffer) → P b → P (limit_bytes s size (limit_writes s size b))
  unfolding limit_bytes limit_writes
  limits_keep b p =
      let q = if_keeps _ (evict_writes s 1 size b) b (keep 1 size b p) p in
      if_keeps _ (evict_writes s 0 _ (limit_writes s size b)) (limit_writes s size b)
        (keep 0 _ (limit_writes s size b) q) q

add_write-IsCovered :
    (w : BufferedWrite) (b : WriteBuffer) → IsCovered b → IsCovered (add_write w b)
unfolding add_write
add_write-IsCovered w b v = record {
  distinct = Distinct-put_entry (key_of w) w b.entries v.distinct;
  covered = omega (arith, stored-put_entry (key_of w) w b.entries, v.covered);
}

-- A write under a new key and id is accounted for exactly.
add_write-IsExact :
    (w : BufferedWrite) (b : WriteBuffer)
    → has (key_of w) w.id b.entries ≡ false
    → IsExact b
    → IsExact (add_write w b)
unfolding add_write
add_write-IsExact w b new v = record {
  distinct = Distinct-put_entry (key_of w) w b.entries v.distinct;
  exact = omega (arith, stored-put_new (key_of w) w b.entries new, v.exact);
}

pub buffer_write-IsCovered :
    (s : SortSlice) (equal_fold : Text → Text → Bool) (now : ℕ) (fresh_id : Text)
    (w : BufferedWrite) (b : WriteBuffer)
    → IsCovered b
    → IsCovered (buffer_write s equal_fold now fresh_id w b)
unfolding buffer_write
buffer_write-IsCovered s equal_fold now fresh_id w b v =
    add_write-IsCovered _ _ (limits_keep IsCovered s _ (evict_writes-IsCovered s) b v)
