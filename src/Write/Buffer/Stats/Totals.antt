-- ===== src/Write/Buffer/Stats/Totals.antt =====
-- The statistics against the writes that the buffer holds.
use staravail.Common.{
  ℕ, ◌+◌, ◌≤◌, ◌≡◌, refl, sym, ap, ◌∙◌, arith, List, [], ◌∷◌, length, All, Text, text_eq,
}
use staravail.Common.{true, ◌==◌, ltb, Bool-cases, Option, none, some, ◌⊎◌, inl, inr}
use mathlib.Core.Path.{subst}
use staravail.Write.Types.{
  BufferedWriteStatus, unset, pending, retrying, failed, Entry, WriteBuffer,
}
use staravail.Write.Entries.Permutations.{any}
use staravail.Write.Buffer.Stats.{
  BufferStats, increment, table_key, partition_key, count_status, older, count_write, count_writes,
  no_stats, get_buffer_stats,
}

-- The numbers of a map together.
abbrev pub sum : List (Text × ℕ) → ℕ
sum [] = 0
sum ((k, n) ∷ m) = n + sum m

sum-increment : (key : Text) (m : List (Text × ℕ)) → sum (increment key m) ≡ sum m + 1
unfolding increment
sum-increment key [] = omega arith
sum-increment key ((k, n) ∷ m) = elim (Bool-cases (text_eq k key)) [
  | inl h ↦ rw h (omega arith)
  | inr h ↦ rw h (omega (arith, sum-increment key m))
]

-- What some rounds of the loop add.
record Counted (n : ℕ) (s s' : BufferStats) : Type 0 where
  total : s'.total_buffered_writes ≡ s.total_buffered_writes + n
  partitions : sum s'.partition_stats ≡ sum s.partition_stats + n
  tables : sum s'.table_stats ≡ sum s.table_stats + n
  statuses :
      s'.pending_writes + s'.retrying_writes + s'.failed_writes
      ≤ s.pending_writes + s.retrying_writes + s.failed_writes + n

record Status (s s' : BufferStats) : Type 0 where
  total : s'.total_buffered_writes ≡ s.total_buffered_writes
  partitions : s'.partition_stats ≡ s.partition_stats
  tables : s'.table_stats ≡ s.table_stats
  statuses :
      s'.pending_writes + s'.retrying_writes + s'.failed_writes
      ≤ s.pending_writes + s.retrying_writes + s.failed_writes + 1

count_status-Status :
    (status : BufferedWriteStatus) (s : BufferStats) → Status s (count_status status s)
unfolding count_status
count_status-Status pending s = record {
  total = refl;
  partitions = refl;
  tables = refl;
  statuses = omega arith;
}
count_status-Status retrying s = record {
  total = refl;
  partitions = refl;
  tables = refl;
  statuses = omega arith;
}
count_status-Status failed s = record {
  total = refl;
  partitions = refl;
  tables = refl;
  statuses = omega arith;
}
count_status-Status unset s = record {
  total = refl;
  partitions = refl;
  tables = refl;
  statuses = omega arith;
}

count_write-Counted :
    (e : Entry) (s : BufferStats) (o : Option ℕ) → Counted 1 s (count_write e (s, o)).0
unfolding count_write
count_write-Counted e s o =
    let s₀ : BufferStats = record s { total_buffered_writes = s.total_buffered_writes + 1 } in
    let c = count_status-Status e.write.status s₀ in
    let s' = count_status e.write.status s₀ in
    record {
      total = c.total;
      partitions =
          sum-increment (partition_key e.key) s'.partition_stats
          ∙ ap (λ (m : List (Text × ℕ)). sum m + 1) c.partitions;
      tables =
          sum-increment (table_key e.key) s'.table_stats
          ∙ ap (λ (m : List (Text × ℕ)). sum m + 1) c.tables;
      statuses = c.statuses;
    }

count_writes-Counted :
    (es : List Entry) (s : BufferStats) (o : Option ℕ)
    → Counted (length es) s (count_writes es (s, o)).0
unfolding count_writes
count_writes-Counted [] s o = record {
  total = omega arith;
  partitions = omega arith;
  tables = omega arith;
  statuses = omega arith;
}
count_writes-Counted (e ∷ es) s o =
    let one = count_write-Counted e s o in
    let rest = count_writes-Counted es (count_write e (s, o)).0 (count_write e (s, o)).1 in
    record {
      total = omega (arith, one.total, rest.total);
      partitions = omega (arith, one.partitions, rest.partitions);
      tables = omega (arith, one.tables, rest.tables);
      statuses = omega (arith, one.statuses, rest.statuses);
    }

-- The oldest time so far is passed through the loop beside the numbers.
unfoldable oldest_of : List Entry → Option ℕ → Option ℕ
oldest_of [] o = o
oldest_of (e ∷ es) o = oldest_of es (older e.write.created_at o)

count_writes-oldest :
    (es : List Entry) (s : BufferStats) (o : Option ℕ) → (count_writes es (s, o)).1 ≡ oldest_of es o
unfolding count_writes count_write oldest_of
count_writes-oldest [] s o = refl
count_writes-oldest (e ∷ es) s o =
    count_writes-oldest es (count_write e (s, o)).0 (older e.write.created_at o)

oldest_of_lem :
    (es : List Entry) (t : ℕ)
    → (u : ℕ) × (oldest_of es (some t) ≡ some u)
      × (u ≤ t)
      × All (λ e. u ≤ e.write.created_at) es
      × ((u ≡ t) ⊎ (any (λ e. e.write.created_at == u) es ≡ true))
unfolding oldest_of older
oldest_of_lem [] t = (t, refl, omega arith, tt, inl refl)
oldest_of_lem (e ∷ es) t = elim (Bool-cases (ltb e.write.created_at t)) [
  | inl h ↦
      let (u, found, low, below, attained) = oldest_of_lem es e.write.created_at in
      (
        u,
        rw h found,
        ground (arith, low, h),
        (low, below),
        inr (elim attained [ inl same ↦ ground (arith, same) | inr there ↦ ground (arith, there) ]),
      )
  | inr h ↦
      let (u, found, low, below, attained) = oldest_of_lem es t in
      (
        u,
        rw h found,
        low,
        (ground (arith, low, h), below),
        elim attained [ inl same ↦ inl same | inr there ↦ inr (ground (arith, there)) ],
      )
]

oldest_lem :
    (es : List Entry)
    → (es ≡ [])
      ⊎ ((u : ℕ) × (oldest_of es none ≡ some u)
          × All (λ e. u ≤ e.write.created_at) es
          × (any (λ e. e.write.created_at == u) es ≡ true))
unfolding oldest_of older
oldest_lem [] = inl refl
oldest_lem (e ∷ es) =
    let (u, found, low, below, attained) = oldest_of_lem es e.write.created_at in
    inr (
      u,
      found,
      (low, below),
      elim attained [ inl same ↦ ground (arith, same) | inr there ↦ ground (arith, there) ],
    )

-- In the statistics of a buffer the total, the sum over the partitions and the sum over the tables
-- are each the number of writes, the counts of the three statuses make at most that, and unless
-- the buffer is empty the oldest time is the creation time of a write and no write is older.
pub get_buffer_stats_lem :
    (b : WriteBuffer)
    → let s = get_buffer_stats b in
      (s.total_buffered_writes ≡ length b.entries)
      × (sum s.partition_stats ≡ length b.entries)
      × (sum s.table_stats ≡ length b.entries)
      × (s.pending_writes + s.retrying_writes + s.failed_writes ≤ length b.entries)
      × ((b.entries ≡ [])
          ⊎ (All (λ e. s.oldest_write_time ≤ e.write.created_at) b.entries
              × (any (λ e. e.write.created_at == s.oldest_write_time) b.entries ≡ true)))
unfolding get_buffer_stats
get_buffer_stats_lem b =
    let c = count_writes-Counted b.entries no_stats none in
    (
      omega (arith, c.total),
      omega (arith, c.partitions),
      omega (arith, c.tables),
      omega (arith, c.statuses),
      elim (oldest_lem b.entries) [
        | inl empty ↦ inl empty
        | inr (u, found, below, attained) ↦
            let e = count_writes-oldest b.entries no_stats none ∙ found in
            let same : (get_buffer_stats b).oldest_write_time ≡ u =
              ap (λ (o : Option ℕ). elim o [ none ↦ 0 | some t ↦ t ]) e in
            inr (
              subst (λ (t : ℕ). All (λ e'. t ≤ e'.write.created_at) b.entries) (sym same) below,
              subst (λ (t : ℕ). any (λ e'. e'.write.created_at == t) b.entries ≡ true) (sym same)
                  attained,
            )
      ],
    )
