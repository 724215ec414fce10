-- ===== src/Write/Entries.antt =====
-- The nested map of buffer.go as a list of entries: removal, insertion, number and size of entries.
pub mod Permutations
pub mod Sizes
use staravail.Common.{ℕ, zero, suc, ◌+◌, ◌-◌, ◌≤◌, ◌<◌, ◌≡◌, refl, sym, ap, ◌∙◌, arith}
use staravail.Common.{
  List, [], ◌∷◌, ◌++◌, length, Bool, true, false, ◌&&◌, ◌||◌, not, if◌then◌else◌,
}
use mathlib.Core.Path.{subst}
use staravail.Common.{text_eq, text_eq→eq, text_eq_refl, text_eq_sym, Bool-cases, ◌⊎◌, inl, inr}
use staravail.Write.Types.{
  BufferedWrite, BufferKey, key_eq, key_eq_refl, key_eq_sym, key_eq→eq, write_size, Entry,
}
use mathlib.Core.List.{Perm, Permᴰ}
use mathlib.Core.List.Permᴰ
use mathlib.Core.Logic.{∥∥₁_elim, ∥∥₁_map}
use native.Mathlib.Nat.{ℕ_set}

-- Is this the entry of `buffer[key][id]`?
unfoldable pub matches : BufferKey → List ℕ → Entry → Bool
matches key id e = key_eq e.key key && text_eq e.write.id id

-- Does `buffer[key]` hold `id`?
abbrev pub has : BufferKey → List ℕ → List Entry → Bool
has key id [] = false
has key id (e ∷ es) = matches key id e || has key id es

-- The entries for which the test fails: those that stay behind a `delete` in a loop.
abbrev pub reject : (Entry → Bool) → List Entry → List Entry
reject test [] = []
reject test (e ∷ es) = let rest = reject test es in if test e then rest else e ∷ rest

-- `delete(buffer[key], id)`, and of the key when nothing is left under it.
abbrev pub delete_entry : BufferKey → List ℕ → List Entry → List Entry
delete_entry key id = reject (matches key id)

-- `buffer[key][write.ID] = &write`
abbrev pub put_entry : BufferKey → BufferedWrite → List Entry → List Entry
put_entry key w [] = record { key = key; write = w } ∷ []
put_entry key w (e ∷ es) =
    let rest = put_entry key w es in
    if matches key w.id e then record { key = key; write = w } ∷ es else e ∷ rest

-- The sizes of the writes of the buffer together.
abbrev pub stored : List Entry → ℕ
stored [] = 0
stored (e ∷ es) = write_size e.write + stored es

-- No two entries stand under one key and id: what a nested map gives.
abbrev pub Distinct : List Entry → Type 0
Distinct [] = Unit
Distinct (e ∷ es) = (has e.key e.write.id es ≡ false) × Distinct es

pub matches_eq :
    (key : BufferKey) (id : List ℕ) (e : Entry)
    → matches key id e ≡ true
    → (e.key ≡ key) × (e.write.id ≡ id)
unfolding matches
matches_eq key id e h =
    (key_eq→eq e.key key (ground arith), text_eq→eq e.write.id id (ground arith))

pub matches_of_eq :
    (key : BufferKey) (id : List ℕ) (e : Entry)
    → e.key ≡ key
    → e.write.id ≡ id
    → matches key id e ≡ true
unfolding matches
matches_of_eq key id e k i = rw (k, i, key_eq_refl key, text_eq_refl id)

pub matches_refl : (e : Entry) → matches e.key e.write.id e ≡ true
unfolding matches
matches_refl e = rw (key_eq_refl e.key, text_eq_refl e.write.id)

pub matches_sym : (e f : Entry) → matches e.key e.write.id f ≡ matches f.key f.write.id e
unfolding matches
matches_sym e f = rw (key_eq_sym f.key e.key, text_eq_sym f.write.id e.write.id)
