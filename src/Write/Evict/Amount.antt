-- ===== src/Write/Evict/Amount.antt =====
-- How much an eviction drops.
use staravail.Common.{ℕ, zero, suc, ◌+◌, ◌≤◌, ◌<◌, ◌≡◌, ◌⊎◌, refl, ap, ◌∙◌, arith}
use staravail.Common.{List, [], ◌∷◌, length, take, drop, false, ◌==◌}
use staravail.Common.{Bool-cases, inl, inr}
use staravail.Write.Types.{WriteBuffer, Entry, write_size}
use staravail.Write.Entries.{stored, Distinct}
use staravail.Write.Entries.Permutations.{stored-perm, length-perm}
use staravail.Write.Sort.{SortSlice}
use staravail.Write.Evict.{less, evict_writes, enough}
use staravail.Write.Evict.Loop.{evict_count, evict_loop-Evicted}

-- A request for one write drops one, if there is one.
evict_count_one : (bytes : ℕ) (c : Entry) (cs : List Entry) → evict_count 1 bytes 0 0 (c ∷ cs) ≡ 1
unfolding evict_count
evict_count_one bytes c cs = refl

-- A request for bytes drops the shortest prefix that frees them, or everything.
evict_count_bytes :
    (bytes evicted freed : ℕ) (cs : List Entry)
    → 0 < bytes
    → freed < bytes
    → let n = evict_count 0 bytes evicted freed cs in
      ((bytes ≤ freed + stored (take n cs)) ⊎ (drop n cs ≡ []))
      × ((m : ℕ) → m < n → freed + stored (take m cs) < bytes)
unfolding evict_count
evict_count_bytes bytes evicted freed [] pos h = (inr refl, λ m lt. absurd (omega arith))
evict_count_bytes bytes evicted freed (c ∷ cs) pos h =
    elim (Bool-cases (enough 0 bytes (evicted + 1) (freed + write_size c.write))) [
      | inl done ↦ rw done (inl (ground arith), first)
      | inr more ↦
          let still : freed + write_size c.write < bytes = ground arith in
          let (reaches, before) =
            evict_count_bytes bytes (evicted + 1) (freed + write_size c.write) cs pos still in
          rw more ((elim reaches [ inl r ↦ inl (omega arith) | inr r ↦ inr r ]), later before)
    ]
  where
    first : (m : ℕ) → m < 1 → freed + stored (take m (c ∷ cs)) < bytes
    first zero lt = omega arith
    first (suc m) lt = absurd (omega arith)

    later :
        {n : ℕ}
        → ((m : ℕ) → m < n → freed + write_size c.write + stored (take m cs) < bytes)
        → (m : ℕ) → m < suc n
        → freed + stored (take m (c ∷ cs)) < bytes
    later before zero lt = omega arith
    later before (suc m) lt = omega (arith, before m (omega arith))

one_less :
    (bytes : ℕ) (cs : List Entry)
    → 0 < length cs
    → length (drop (evict_count 1 bytes 0 0 cs) cs) + 1 ≡ length cs
one_less bytes [] h = absurd (omega arith)
one_less bytes (c ∷ cs) h = rw (evict_count_one bytes c cs) (omega arith)

stored-take-drop : (n : ℕ) (es : List Entry) → stored (take n es) + stored (drop n es) ≡ stored es
stored-take-drop zero es = omega arith
stored-take-drop (suc n) [] = omega arith
stored-take-drop (suc n) (e ∷ es) = omega (arith, stored-take-drop n es)

nil_of_length : (es : List Entry) → length es ≡ 0 → es ≡ []
nil_of_length [] h = refl
nil_of_length (e ∷ es) h = absurd (omega arith)

module _ (s : SortSlice) (b : WriteBuffer) (d : Distinct b.entries) where
  -- An eviction of one write, whatever the bytes asked for, from a buffer that is not empty and
  -- has one write for a key and id, drops exactly one.
  pub evict_one_write :
      (bytes : ℕ)
      → 0 < length b.entries
      → length (evict_writes s 1 bytes b).entries + 1 ≡ length b.entries
  unfolding evict_writes
  evict_one_write bytes h =
      let cs = s.sort (less b.config.eviction_policy) b.entries in
      let sorted_perm = s.sort_perm (less b.config.eviction_policy) b.entries in
      let e = evict_loop-Evicted 1 bytes 0 0 cs b sorted_perm d in
      omega (
        arith,
        length-perm e.left,
        length-perm sorted_perm,
        one_less bytes cs (omega (arith, length-perm sorted_perm)),
      )

  -- An eviction of a positive number of bytes from a buffer with one write for a key and id frees
  -- at least as many, or leaves no write.
  pub evict_bytes :
      (bytes : ℕ)
      → 0 < bytes
      → let b' = evict_writes s 0 bytes b in
        (stored b'.entries + bytes ≤ stored b.entries) ⊎ (b'.entries ≡ [])
  unfolding evict_writes
  evict_bytes bytes pos =
      let cs = s.sort (less b.config.eviction_policy) b.entries in
      let sorted_perm = s.sort_perm (less b.config.eviction_policy) b.entries in
      let e = evict_loop-Evicted 0 bytes 0 0 cs b sorted_perm d in
      let n = evict_count 0 bytes 0 0 cs in
      rw nonzero (elim (evict_count_bytes bytes 0 0 cs pos pos).0 [
        | inl frees ↦ inl (
            omega
              (arith, stored-perm e.left, stored-perm sorted_perm, stored-take-drop n cs, frees))
        | inr all ↦ inr (nil_of_length _ (length-perm e.left ∙ ap (length {A = Entry}) all))
      ])
    where
      nonzero : (bytes == 0) ≡ false
      nonzero = ground arith
