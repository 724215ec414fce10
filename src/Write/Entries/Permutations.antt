-- ===== src/Write/Entries/Permutations.antt =====
-- The entries of the buffer in another order.
use staravail.Common.{ℕ, suc, ◌≡◌, refl, sym, ap, ◌∙◌, arith}
use staravail.Common.{List, [], ◌∷◌, length, Bool, true, false, ◌||◌}
use mathlib.Core.Path.{subst}
use staravail.Common.{Bool-cases, ◌⊎◌, inl, inr}
use staravail.Write.Types.{BufferKey, write_size, Entry}
use mathlib.Core.List.{Perm, Permᴰ}
use mathlib.Core.List.Permᴰ
use mathlib.Core.Logic.{∥∥₁_elim, ∥∥₁_map}
use native.Mathlib.Nat.{ℕ_set}
use staravail.Write.Entries.{
  matches, matches_refl, matches_sym, has, reject, delete_entry, stored, Distinct,
}

-- Facts about permutations go through the family of derivations, into propositions.
module _ (key : BufferKey) (id : List ℕ) where
  has-Permᴰ : {es fs : List Entry} → Permᴰ es fs → has key id es ≡ has key id fs
  has-Permᴰ Permᴰ.nil = refl
  has-Permᴰ (Permᴰ.cons e p) = cc (ap (matches key id) e, has-Permᴰ p)
  has-Permᴰ (Permᴰ.swap {l = l} e f) =
      ground (arith, ap (matches key id) e, ap (matches key id) f, has key id l)
  has-Permᴰ (Permᴰ.trans p q) = has-Permᴰ p ∙ has-Permᴰ q

stored-Permᴰ : {es fs : List Entry} → Permᴰ es fs → stored es ≡ stored fs
stored-Permᴰ Permᴰ.nil = refl
stored-Permᴰ (Permᴰ.cons e p) =
    omega (arith, ap (λ (x : Entry). write_size x.write) e, stored-Permᴰ p)
stored-Permᴰ (Permᴰ.swap {l = l} e f) =
    omega
      (arith, ap (λ (x : Entry). write_size x.write) e, ap (λ (x : Entry). write_size x.write) f)
stored-Permᴰ (Permᴰ.trans p q) = stored-Permᴰ p ∙ stored-Permᴰ q

length-Permᴰ : {es fs : List Entry} → Permᴰ es fs → length es ≡ length fs
length-Permᴰ Permᴰ.nil = refl
length-Permᴰ (Permᴰ.cons e p) = ap suc (length-Permᴰ p)
length-Permᴰ (Permᴰ.swap e f) = refl
length-Permᴰ (Permᴰ.trans p q) = length-Permᴰ p ∙ length-Permᴰ q

has_at : {e f : Entry} (es : List Entry) → e ≡ f → has e.key e.write.id es ≡ has f.key f.write.id es
has_at es p = ap (λ (x : Entry). has x.key x.write.id es) p

Distinct-Permᴰ : {es fs : List Entry} → Permᴰ es fs → Distinct es → Distinct fs
Distinct-Permᴰ Permᴰ.nil d = d
Distinct-Permᴰ (Permᴰ.cons {a = a} {b = b} {l₂ = l₂} e p) d =
    (sym (has_at l₂ e) ∙ sym (has-Permᴰ a.key a.write.id p) ∙ d.0, Distinct-Permᴰ p d.1)
Distinct-Permᴰ (Permᴰ.swap {a = a} {b = b} {a' = a'} {b' = b'} {l = l} e f) d =
    ground (arith, has_at l e, has_at l f, matches_sym a b, e, f)
Distinct-Permᴰ (Permᴰ.trans p q) d = Distinct-Permᴰ q (Distinct-Permᴰ p d)

module _ (test : Entry → Bool) where
  reject-Permᴰ : {es fs : List Entry} → Permᴰ es fs → Permᴰ (reject test es) (reject test fs)
  reject-Permᴰ Permᴰ.nil = Permᴰ.nil
  reject-Permᴰ (Permᴰ.cons {a = a} {b = b} e p) = elim (Bool-cases (test b)) [
    | inl h ↦ rw (e, h) (reject-Permᴰ p)
    | inr h ↦ rw (e, h) (Permᴰ.cons refl (reject-Permᴰ p))
  ]
  reject-Permᴰ (Permᴰ.swap {a = a} {b = b} {a' = a'} {b' = b'} {l = l} e f) =
      rw (e, f) (both (Bool-cases (test a')) (Bool-cases (test b')))
    where
      both :
          (test a' ≡ true) ⊎ (test a' ≡ false)
          → (test b' ≡ true) ⊎ (test b' ≡ false)
          → Permᴰ (reject test (b' ∷ a' ∷ l)) (reject test (a' ∷ b' ∷ l))
      both (inl h) (inl k) = rw (h, k) (Permᴰ.refl (reject test l))
      both (inl h) (inr k) = rw (h, k) (Permᴰ.refl (b' ∷ reject test l))
      both (inr h) (inl k) = rw (h, k) (Permᴰ.refl (a' ∷ reject test l))
      both (inr h) (inr k) = rw (h, k) (Permᴰ.swap refl refl)
  reject-Permᴰ (Permᴰ.trans p q) = Permᴰ.trans (reject-Permᴰ p) (reject-Permᴰ q)

abbrev pub any : (Entry → Bool) → List Entry → Bool
any test [] = false
any test (e ∷ es) = test e || any test es

any-Permᴰ : (test : Entry → Bool) {es fs : List Entry} → Permᴰ es fs → any test es ≡ any test fs
any-Permᴰ test Permᴰ.nil = refl
any-Permᴰ test (Permᴰ.cons e p) = cc (ap test e, any-Permᴰ test p)
any-Permᴰ test (Permᴰ.swap {l = l} e f) = ground (arith, ap test e, ap test f, any test l)
any-Permᴰ test (Permᴰ.trans p q) = any-Permᴰ test p ∙ any-Permᴰ test q

-- The same in the library's relation, into propositions.
pub any-perm : (test : Entry → Bool) {es fs : List Entry} → Perm es fs → any test es ≡ any test fs
any-perm test p = ∥∥₁_elim p (hlevel) (any-Permᴰ test)

pub has-perm :
    (key : BufferKey) (id : List ℕ) {es fs : List Entry}
    → Perm es fs
    → has key id es ≡ has key id fs
has-perm key id p = ∥∥₁_elim p (hlevel) (has-Permᴰ key id)

pub stored-perm : {es fs : List Entry} → Perm es fs → stored es ≡ stored fs
stored-perm p = ∥∥₁_elim p (ℕ_set _ _) stored-Permᴰ

pub length-perm : {es fs : List Entry} → Perm es fs → length es ≡ length fs
length-perm p = ∥∥₁_elim p (ℕ_set _ _) length-Permᴰ

Distinct-prop : (es : List Entry) → IsProp (Distinct es)
Distinct-prop [] = hlevel
Distinct-prop (e ∷ es) = hlevel (Distinct-prop es)

pub Distinct-perm : {es fs : List Entry} → Perm es fs → Distinct es → Distinct fs
Distinct-perm {es} {fs} p d = ∥∥₁_elim p (Distinct-prop fs) (λ q. Distinct-Permᴰ q d)

pub reject-perm :
    (test : Entry → Bool) {es fs : List Entry} → Perm es fs → Perm (reject test es) (reject test fs)
reject-perm test p = ∥∥₁_map p (reject-Permᴰ test)

-- What is not there is not deleted.
pub delete_entry-absent :
    (key : BufferKey) (id : List ℕ) (es : List Entry)
    → has key id es ≡ false
    → delete_entry key id es ≡ es
delete_entry-absent key id [] h = refl
delete_entry-absent key id (e ∷ es) h = ground (arith, delete_entry-absent key id es)

-- Deleting one of the entries leaves the others.
pub delete_entry-perm :
    (c : Entry) (cs es : List Entry)
    → Perm es (c ∷ cs)
    → Distinct es
    → Perm (delete_entry c.key c.write.id es) cs
delete_entry-perm c cs es p d =
    let d' = Distinct-perm p d in
    subst (λ (l : List Entry). Perm (delete_entry c.key c.write.id es) l) rest
      (reject-perm (matches c.key c.write.id) p)
  where
    rest : delete_entry c.key c.write.id (c ∷ cs) ≡ cs
    rest = rw (matches_refl c) (delete_entry-absent c.key c.write.id cs (Distinct-perm p d).0)
