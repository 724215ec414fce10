-- ===== src/Write/Buffer/Stats.antt =====
-- buffer.go: `GetBufferStats`. `BufferUtilizationPercent`, a float, is left out.
pub mod Totals
use staravail.Common.{
  ℕ, ◌+◌, ◌≤◌, ◌≡◌, refl, sym, ap, ◌∙◌, arith, List, [], ◌∷◌, ◌++◌, length, All, Text, text_eq,
}
use staravail.Common.{true, ◌==◌, ltb, if◌then◌else◌, Bool-cases, Option, none, some, ◌⊎◌, inl, inr}
use mathlib.Core.Path.{subst}
use staravail.Write.Types.{
  BufferedWriteStatus, unset, pending, retrying, failed, BufferKey, Entry, WriteBuffer,
}
use staravail.Write.Entries.Permutations.{any}

pub record BufferStats : Type 0 where
  pub total_buffered_writes : ℕ
  pub total_buffer_size_bytes : ℕ
  pub pending_writes : ℕ
  pub retrying_writes : ℕ
  pub failed_writes : ℕ
  pub oldest_write_time : ℕ
  pub partition_stats : List (Text × ℕ)
  pub table_stats : List (Text × ℕ)

-- `m[key]++`
unfoldable pub increment : Text → List (Text × ℕ) → List (Text × ℕ)
increment key [] = (key, 1) ∷ []
increment key ((k, n) ∷ m) =
    let rest = increment key m in if text_eq k key then (k, n + 1) ∷ m else (k, n) ∷ rest

-- `fmt.Sprintf("%s.%s", …)`: 46 is the dot.
unfoldable pub table_key : BufferKey → Text
table_key k = k.database_name ++ (46 ∷ k.table_name)

unfoldable pub partition_key : BufferKey → Text
partition_key k = k.database_name ++ (46 ∷ k.table_name ++ (46 ∷ k.partition_name))

unfoldable pub count_status : BufferedWriteStatus → BufferStats → BufferStats
count_status pending s = record s { pending_writes = s.pending_writes + 1 }
count_status retrying s = record s { retrying_writes = s.retrying_writes + 1 }
count_status failed s = record s { failed_writes = s.failed_writes + 1 }
count_status unset s = s

-- `oldestTime`, once `oldestFound`.
unfoldable pub older : ℕ → Option ℕ → Option ℕ
older t none = some t
older t (some oldest) = some (if ltb t oldest then t else oldest)

-- The body of the loop.
unfoldable pub count_write : Entry → BufferStats × Option ℕ → BufferStats × Option ℕ
count_write e (s, oldest) =
    let s' =
      count_status e.write.status
        (record s { total_buffered_writes = s.total_buffered_writes + 1 }) in
    (
      record s' {
        partition_stats = increment (partition_key e.key) s'.partition_stats;
        table_stats = increment (table_key e.key) s'.table_stats;
      },
      older e.write.created_at oldest,
    )

unfoldable pub count_writes : List Entry → BufferStats × Option ℕ → BufferStats × Option ℕ
count_writes [] state = state
count_writes (e ∷ es) state = count_writes es (count_write e state)

abbrev pub no_stats : BufferStats
no_stats = record {
  total_buffered_writes = 0;
  total_buffer_size_bytes = 0;
  pending_writes = 0;
  retrying_writes = 0;
  failed_writes = 0;
  oldest_write_time = 0;
  partition_stats = [];
  table_stats = [];
}

unfoldable pub get_buffer_stats : WriteBuffer → BufferStats
get_buffer_stats b =
    let (s, oldest) = count_writes b.entries (no_stats, none) in
    record s {
      oldest_write_time = elim oldest [ none ↦ 0 | some t ↦ t ];
      total_buffer_size_bytes = b.current_buffer_size_bytes;
    }
