-- ===== src/Write/Types.antt =====
-- internal/domain/write/buffer.go: the types of the write buffer.
-- Texts are lists of bytes. A time is the number of its nanoseconds, with 0 for the zero time.
-- Counts, priorities and bucket ids are numbers that are not negative. `Metadata`, the map that the
-- buffer carries along without reading, is left out.
use staravail.Common.{ℕ, ◌+◌, ◌≡◌, arith, List, length, Bool, true, ◌&&◌, ◌==◌}
use staravail.Common.{Text, text_eq, text_eq→eq, text_eq_refl, text_eq_sym}

pub data BufferedWriteStatus : Type 0 where
  unset pending retrying failed : BufferedWriteStatus

pub record BufferedWrite : Type 0 where
  pub id : Text
  pub database_name : Text
  pub table_name : Text
  pub partition_name : Text
  pub bucket_id : ℕ
  pub sql : Text
  pub status : BufferedWriteStatus
  pub created_at : ℕ
  pub last_retry_at : ℕ
  pub retry_count : ℕ
  pub error : Text
  pub priority : ℕ
  pub expires_at : ℕ
  pub payload : List ℕ

pub record BufferKey : Type 0 where
  pub database_name : Text
  pub table_name : Text
  pub partition_name : Text
  pub bucket_id : ℕ

unfoldable pub key_eq : BufferKey → BufferKey → Bool
key_eq j k =
    text_eq j.database_name k.database_name
    && text_eq j.table_name k.table_name
    && text_eq j.partition_name k.partition_name
    && j.bucket_id == k.bucket_id

pub key_eq_refl : (k : BufferKey) → key_eq k k ≡ true
unfolding key_eq
key_eq_refl k =
    ground (
      arith,
      text_eq_refl k.database_name,
      text_eq_refl k.table_name,
      text_eq_refl k.partition_name,
    )

pub key_eq→eq : (j k : BufferKey) → key_eq j k ≡ true → j ≡ k
unfolding key_eq
key_eq→eq j k h = ground (
  arith,
  text_eq→eq j.database_name k.database_name,
  text_eq→eq j.table_name k.table_name,
  text_eq→eq j.partition_name k.partition_name,
)

pub key_eq_sym : (j k : BufferKey) → key_eq j k ≡ key_eq k j
unfolding key_eq
key_eq_sym j k = ground (
  arith,
  text_eq_sym j.database_name k.database_name,
  text_eq_sym j.table_name k.table_name,
  text_eq_sym j.partition_name k.partition_name,
)

unfoldable pub key_of : BufferedWrite → BufferKey
key_of w = record {
  database_name = w.database_name;
  table_name = w.table_name;
  partition_name = w.partition_name;
  bucket_id = w.bucket_id;
}

-- `len(write.SQL) + len(write.Payload)`
unfoldable pub write_size : BufferedWrite → ℕ
write_size w = length w.sql + length w.payload

-- A policy of another name sorts by age, as `oldest` does.
pub data EvictionPolicy : Type 0 where
  oldest least_retried lowest_priority other : EvictionPolicy

pub record WriteBufferConfig : Type 0 where
  pub max_buffer_size_bytes : ℕ
  pub max_buffered_writes : ℕ
  pub eviction_policy : EvictionPolicy
  pub write_expiration_hours : ℕ
  pub default_write_priority : ℕ
  pub high_priority_tables : List Text

-- One write of `buffer[key]`, under its id. The nested map is the list of its entries, in an order
-- of which nothing is assumed: it holds an inner map exactly for the keys of entries.
pub record Entry : Type 0 where
  pub key : BufferKey
  pub write : BufferedWrite

pub record WriteBuffer : Type 0 where
  pub config : WriteBufferConfig
  pub entries : List Entry
  pub current_buffer_size_bytes : ℕ
