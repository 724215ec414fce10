-- ===== src/Write/Buffer/Flush.antt =====
-- What a flush takes out of the buffer.
use staravail.Common.{All-map, All-of}
use staravail.Common.{ℕ, ◌+◌, ◌-◌, ◌≡◌, refl, sym, ap, ◌∙◌, arith}
use staravail.Common.{List, [], ◌∷◌, length, All, Bool, true, false, ◌&&◌, ◌||◌}
use staravail.Common.{Bool-cases, Option, none, some, inl, inr}
use staravail.Write.Types.{WriteBuffer, Entry, BufferKey, key_eq_refl, key_eq→eq}
use staravail.Write.Entries.{stored, reject}
use staravail.Write.Entries.Sizes.{accept, length-reject, stored-reject}
use staravail.Write.Buffer.{
  HealthChecker, is_tablet_healthy, flushable, under, drop_where, flush_keys, in_keys, keys_of,
  flush_buffer,
}

reject-reject :
    (p q : Entry → Bool) (es : List Entry) → reject q (reject p es) ≡ reject (λ e. p e || q e) es
reject-reject p q [] = refl
reject-reject p q (e ∷ es) = ground (arith, reject-reject p q es)

-- Two tests that agree on the entries reject the same ones.
reject-eq :
    (p q : Entry → Bool) (es : List Entry) → All (λ e. p e ≡ q e) es → reject p es ≡ reject q es
reject-eq p q [] h = refl
reject-eq p q (e ∷ es) h = ground (arith, h.0, reject-eq p q es h.1)

-- The entries that pass the test left the buffer, their sizes left the account, and they are counted.
abbrev pub TakesOut : (Entry → Bool) → WriteBuffer → ℕ → WriteBuffer × ℕ → Type 0
TakesOut test b n out =
    (out.0.entries ≡ reject test b.entries)
    × (out.0.current_buffer_size_bytes
        ≡ b.current_buffer_size_bytes - stored (accept test b.entries))
    × (out.1 ≡ n + length (accept test b.entries))
    × (out.0.config ≡ b.config)

accept-eq :
    (p q : Entry → Bool) (es : List Entry)
    → reject p es ≡ reject q es
    → (stored (accept p es) ≡ stored (accept q es)) × (length (accept p es) ≡ length (accept q es))
accept-eq p q es h = omega (
  arith,
  stored-reject p es,
  stored-reject q es,
  length-reject p es,
  length-reject q es,
  ap stored h,
  ap (length {A = Entry}) h,
)

TakesOut-eq :
    (p q : Entry → Bool) (b : WriteBuffer) (n : ℕ) (out : WriteBuffer × ℕ)
    → All (λ e. p e ≡ q e) b.entries
    → TakesOut p b n out
    → TakesOut q b n out
TakesOut-eq p q b n out h t =
    let same = reject-eq p q b.entries h in
    let (sizes, counts) = accept-eq p q b.entries same in
    (t.0 ∙ same, omega (arith, t.1, sizes), omega (arith, t.2, counts), t.3)

-- One more key.
TakesOut-drop :
    (p q : Entry → Bool) (b : WriteBuffer) (n : ℕ) (out : WriteBuffer × ℕ)
    → TakesOut q (drop_where p (b, n)).0 (drop_where p (b, n)).1 out
    → TakesOut (λ e. p e || q e) b n out
unfolding drop_where
TakesOut-drop p q b n out t =
    let two = reject-reject p q b.entries in
    (
      t.0 ∙ two,
      omega (
        arith,
        t.1,
        ap stored two,
        stored-reject p b.entries,
        stored-reject q (reject p b.entries),
        stored-reject (λ e. p e || q e) b.entries,
      ),
      omega (
        arith,
        t.2,
        ap (length {A = Entry}) two,
        length-reject p b.entries,
        length-reject q (reject p b.entries),
        length-reject (λ e. p e || q e) b.entries,
      ),
      t.3,
    )

reject_nothing : (es : List Entry) → reject (λ e. false) es ≡ es
reject_nothing [] = refl
reject_nothing (e ∷ es) = ap (λ (t : List Entry). e ∷ t) (reject_nothing es)

accept_nothing : (es : List Entry) → accept (λ e. false) es ≡ []
accept_nothing [] = refl
accept_nothing (e ∷ es) = accept_nothing es

key_covered : (e : Entry) (es : List Entry) → in_keys e.key (keys_of (e ∷ es)) ≡ true
unfolding keys_of
key_covered e es = elim (Bool-cases (in_keys e.key (keys_of es))) [
  | inl h ↦ ground (arith, h)
  | inr h ↦ ground (arith, h, key_eq_refl e.key)
]

keys_grow :
    (j : BufferKey) (e : Entry) (es : List Entry)
    → in_keys j (keys_of es) ≡ true
    → in_keys j (keys_of (e ∷ es)) ≡ true
unfolding keys_of
keys_grow j e es h = elim (Bool-cases (in_keys e.key (keys_of es))) [
  | inl t ↦ ground (arith, h, t)
  | inr t ↦ ground (arith, h, t)
]

-- Every entry is under one of the keys.
covers : (es : List Entry) → All (λ e. in_keys e.key (keys_of es) ≡ true) es
covers [] = tt
covers (e ∷ es) = (key_covered e es, All-map _ _ (λ f. keys_grow f.key e es) es (covers es))

-- A key of no entry is not looked up.
none_under :
    (k : BufferKey) (es : List Entry)
    → in_keys k (keys_of es) ≡ false
    → All (λ e. under k e ≡ false) es
none_under k [] h = tt
none_under k (e ∷ es) h = (
  elim (Bool-cases (under k e)) [
    | inl u ↦ ground (arith, h, key_covered e es, sym (key_eq→eq e.key k u))
    | inr u ↦ u
  ],
  none_under k es (elim (Bool-cases (in_keys k (keys_of es))) [
    | inl u ↦ ground (arith, h, keys_grow k e es u)
    | inr u ↦ u
  ]),
)

module _ (h : HealthChecker) where
  abbrev healthy : BufferKey → Bool
  healthy k = flushable (is_tablet_healthy h k)

  abbrev goes : List BufferKey → Entry → Bool
  goes ks e = in_keys e.key ks && healthy e.key

  healthy_at : (k : BufferKey) (e : Entry) → under k e ≡ true → healthy e.key ≡ healthy k
  healthy_at k e u = ap healthy (key_eq→eq e.key k u)

  goes_more :
      (k : BufferKey) (ks : List BufferKey) (e : Entry)
      → healthy k ≡ true
      → (under k e || goes ks e) ≡ goes (k ∷ ks) e
  goes_more k ks e hk = elim (Bool-cases (under k e)) [
    | inl u ↦ rw (u, healthy_at k e u, hk) refl
    | inr u ↦ rw u refl
  ]

  goes_skip :
      (k : BufferKey) (ks : List BufferKey) (e : Entry)
      → healthy k ≡ false
      → goes ks e ≡ goes (k ∷ ks) e
  goes_skip k ks e hk = elim (Bool-cases (under k e)) [
    | inl u ↦ ground (arith, u, healthy_at k e u, hk)
    | inr u ↦ rw u refl
  ]

  flush_keys-TakesOut :
      (ks : List BufferKey) (b : WriteBuffer) (n : ℕ)
      → TakesOut (goes ks) b n (flush_keys h ks (b, n))
  unfolding flush_keys
  flush_keys-TakesOut [] b n =
      let nothing = accept_nothing b.entries in
      (sym (reject_nothing b.entries), ground (arith, nothing), ground (arith, nothing), refl)
  flush_keys-TakesOut (k ∷ ks) b n = elim (Bool-cases (healthy k)) [
    | inl hk ↦
        rw (hk, flush_keys)
          (TakesOut-eq _ (goes (k ∷ ks)) b n _ (All-of _ (λ e. goes_more k ks e hk) b.entries) (
            TakesOut-drop (under k) (goes ks) b n _ (
              flush_keys-TakesOut ks (drop_where (under k) (b, n)).0
                (drop_where (under k) (b, n)).1)))
    | inr hk ↦
        rw (hk, flush_keys)
          (TakesOut-eq (goes ks) (goes (k ∷ ks)) b n _
            (All-of _ (λ e. goes_skip k ks e hk) b.entries) (flush_keys-TakesOut ks b n))
  ]

  -- Which entries a flush takes.
  abbrev pub flushed : Option BufferKey → Entry → Bool
  flushed none e = flushable (is_tablet_healthy h e.key)
  flushed (some k) e = under k e && flushable (is_tablet_healthy h e.key)

  -- A flush takes out exactly the writes whose tablet is healthy, of the given key or of all keys,
  -- with their sizes from the account, returns their number, and keeps the configuration.
  pub flush_buffer_lem :
      (key : Option BufferKey) (b : WriteBuffer) → TakesOut (flushed key) b 0 (flush_buffer h key b)
  unfolding flush_buffer
  flush_buffer_lem none b =
      TakesOut-eq (goes (keys_of b.entries)) (flushed none) b 0 _
        (All-map _ _ (λ e u. rw u refl) b.entries (covers b.entries))
        (flush_keys-TakesOut (keys_of b.entries) b 0)
  flush_buffer_lem (some k) b = elim (Bool-cases (in_keys k (keys_of b.entries))) [
    | inl i ↦ rw i (
        TakesOut-eq (goes (k ∷ [])) (flushed (some k)) b 0 _
          (All-of _ (λ e. ground arith) b.entries) (flush_keys-TakesOut (k ∷ []) b 0))
    | inr i ↦ rw i (
        TakesOut-eq (goes []) (flushed (some k)) b 0 _
          (All-map _ _ (λ e u. ground (arith, u)) b.entries (none_under k b.entries i))
          (flush_keys-TakesOut [] b 0))
  ]
