-- ===== src/Write/Entries/Sizes.antt =====
-- Number and size of the entries behind an insertion or a removal.
use staravail.Common.{ℕ, ◌+◌, ◌≤◌, ◌≡◌, refl, arith}
use staravail.Common.{
  Option, none, some, List, [], ◌∷◌, length, Bool, false, ◌||◌, not, if◌then◌else◌, Bool-cases, inl,
  inr,
}
use staravail.Write.Types.{BufferedWrite, BufferKey, write_size, Entry}
use staravail.Write.Entries.{
  matches, matches_eq, matches_sym, has, reject, put_entry, stored, Distinct,
}

-- What a test accepts and what it rejects make up the whole.
abbrev pub accept : (Entry → Bool) → List Entry → List Entry
accept test = reject (λ e. not (test e))

pub length-reject :
    (test : Entry → Bool) (es : List Entry)
    → length (reject test es) + length (accept test es) ≡ length es
length-reject test [] = omega arith
length-reject test (e ∷ es) = ground (arith, length-reject test es)

pub stored-reject :
    (test : Entry → Bool) (es : List Entry)
    → stored (reject test es) + stored (accept test es) ≡ stored es
stored-reject test [] = omega arith
stored-reject test (e ∷ es) = ground (arith, stored-reject test es)

pub has-reject :
    (test : Entry → Bool) (key : BufferKey) (id : List ℕ) (es : List Entry)
    → has key id es ≡ false
    → has key id (reject test es) ≡ false
has-reject test key id [] h = refl
has-reject test key id (e ∷ es) h = ground (arith, has-reject test key id es)

pub Distinct-reject :
    (test : Entry → Bool) (es : List Entry) → Distinct es → Distinct (reject test es)
Distinct-reject test [] d = tt
Distinct-reject test (e ∷ es) d =
    ground (arith, has-reject test e.key e.write.id es d.0, Distinct-reject test es d.1)

-- An insertion under a new key and id.
pub length-put_new :
    (key : BufferKey) (w : BufferedWrite) (es : List Entry)
    → has key w.id es ≡ false
    → length (put_entry key w es) ≡ length es + 1
length-put_new key w [] h = omega arith
length-put_new key w (e ∷ es) h = ground (arith, length-put_new key w es)

pub stored-put_new :
    (key : BufferKey) (w : BufferedWrite) (es : List Entry)
    → has key w.id es ≡ false
    → stored (put_entry key w es) ≡ stored es + write_size w
stored-put_new key w [] h = omega arith
stored-put_new key w (e ∷ es) h = ground (arith, stored-put_new key w es)

-- An insertion never adds more than the write itself.
pub length-put_entry :
    (key : BufferKey) (w : BufferedWrite) (es : List Entry)
    → length (put_entry key w es) ≤ length es + 1
length-put_entry key w [] = omega arith
length-put_entry key w (e ∷ es) = ground (arith, length-put_entry key w es)

pub stored-put_entry :
    (key : BufferKey) (w : BufferedWrite) (es : List Entry)
    → stored (put_entry key w es) ≤ stored es + write_size w
stored-put_entry key w [] = omega arith
stored-put_entry key w (e ∷ es) = ground (arith, stored-put_entry key w es)

-- The entry that an insertion replaces is the one under the same key and id.
abbrev pub find : BufferKey → List ℕ → List Entry → Option BufferedWrite
find key id [] = none
find key id (e ∷ es) = let rest = find key id es in if matches key id e then some e.write else rest

pub stored-put_old :
    (key : BufferKey) (w old : BufferedWrite) (es : List Entry)
    → find key w.id es ≡ some old
    → stored (put_entry key w es) + write_size old ≡ stored es + write_size w
stored-put_old key w old [] h = ground arith
stored-put_old key w old (e ∷ es) h = ground (arith, stored-put_old key w old es)

pub matches_same :
    (j : BufferKey) (id : List ℕ) (e f : Entry)
    → e.key ≡ f.key
    → e.write.id ≡ f.write.id
    → matches j id e ≡ matches j id f
unfolding matches
matches_same j id e f k i = rw (k, i)

pub has-put_entry :
    (key j : BufferKey) (id : List ℕ) (w : BufferedWrite) (es : List Entry)
    → has j id (put_entry key w es)
      ≡ (matches j id (record { key = key; write = w }) || has j id es)
has-put_entry key j id w [] = refl
has-put_entry key j id w (e ∷ es) = elim (Bool-cases (matches key w.id e)) [
  | inl h ↦
      let (k, i) = matches_eq key w.id e h in
      rw h (ground (arith, matches_same j id e (record { key = key; write = w }) k i))
  | inr h ↦ rw h (ground (arith, has-put_entry key j id w es))
]

-- The insertion keeps one entry for a key and id.
pub Distinct-put_entry :
    (key : BufferKey) (w : BufferedWrite) (es : List Entry)
    → Distinct es
    → Distinct (put_entry key w es)
Distinct-put_entry key w [] d = (refl, tt)
Distinct-put_entry key w (e ∷ es) d = elim (Bool-cases (matches key w.id e)) [
  | inl h ↦ let (k, i) = matches_eq key w.id e h in rw h (rw (k, i) at d.0, d.1)
  | inr h ↦ rw h (
    rw (has-put_entry key e.key e.write.id w es, matches_sym e (record { key = key; write = w }), h)
        d.0,
    Distinct-put_entry key w es d.1,
  )
]
