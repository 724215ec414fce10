-- ===== src/Write/Evict/Order.antt =====
-- Eviction follows the order of the policy.
use staravail.Common.{All-map}
use staravail.Common.{ℕ, zero, suc, ◌-◌, ◌≡◌, refl, sym, arith}
use staravail.Common.{
  List, [], ◌∷◌, ◌++◌, All, take, drop, take-append-drop, Bool, false, ◌&&◌, ◌==◌,
}
use staravail.Common.{Bool-cases, inl, inr}
use staravail.Write.Types.{
  WriteBuffer, Entry, EvictionPolicy, oldest, least_retried, lowest_priority, other,
}
use staravail.Write.Entries.{stored, Distinct}
use staravail.Write.Sort.{IsOrder, Sorted, SortSlice}
use staravail.Write.Evict.{less, evict_loop, evict_writes}
use staravail.Write.Evict.Loop.{evict_count, evict_loop-Evicted}
use mathlib.Core.List.Perm
use mathlib.Core.List.{Perm, Permᴰ}
use mathlib.Core.Logic.{∥∥₁_elim}
use mathlib.Core.Path.{subst}

pub less-IsOrder : (p : EvictionPolicy) → IsOrder (less p)
unfolding less
less-IsOrder oldest = record {
  asymmetric = λ c d h. ground arith;
  negatively_transitive = λ c d e h k. ground arith;
}
less-IsOrder least_retried = record {
  asymmetric = λ c d h. ground arith;
  negatively_transitive = λ c d e h k. ground arith;
}
less-IsOrder lowest_priority = record {
  asymmetric = λ c d h. ground arith;
  negatively_transitive = λ c d e h k. ground arith;
}
less-IsOrder other = record {
  asymmetric = λ c d h. ground arith;
  negatively_transitive = λ c d e h k. ground arith;
}

module _ (P : Entry → Type 0) (P_prop : (e : Entry) → IsProp (P e)) where
  All-Permᴰ : {es fs : List Entry} → Permᴰ es fs → All P es → All P fs
  All-Permᴰ Permᴰ.nil a = a
  All-Permᴰ (Permᴰ.cons e p) a = (subst P e a.0, All-Permᴰ p a.1)
  All-Permᴰ (Permᴰ.swap e f) a = (subst P f a.1.0, (subst P e a.0, a.1.1))
  All-Permᴰ (Permᴰ.trans p q) a = All-Permᴰ q (All-Permᴰ p a)

  All-prop : (es : List Entry) → IsProp (All P es)
  All-prop [] = hlevel
  All-prop (e ∷ es) = hlevel (P_prop e, All-prop es)

  All-perm : {es fs : List Entry} → Perm es fs → All P es → All P fs
  All-perm {es} {fs} p a = ∥∥₁_elim p (All-prop fs) (λ q. All-Permᴰ q a)

All-drop : (P : Entry → Type 0) (n : ℕ) (es : List Entry) → All P es → All P (drop n es)
All-drop P zero es a = a
All-drop P (suc n) [] a = a
All-drop P (suc n) (e ∷ es) a = All-drop P n es a.1

-- In a sorted list nothing of a suffix comes before anything of the prefix.
Sorted-split :
    (lt : Entry → Entry → Bool) (n : ℕ) (es : List Entry)
    → Sorted lt es
    → All (λ e. All (λ f. lt f e ≡ false) (drop n es)) (take n es)
Sorted-split lt zero es s = tt
Sorted-split lt (suc n) [] s = tt
Sorted-split lt (suc n) (e ∷ es) s = (All-drop _ n es s.0, Sorted-split lt n es s.1)

-- What an eviction of at least something does: `gone` are the writes that it dropped.
pub record Drops (count bytes : ℕ) (b b' : WriteBuffer) (gone : List Entry) : Type 0 where
  pub all_accounted : Perm b.entries (gone ++ b'.entries)
  pub account : b'.current_buffer_size_bytes ≡ b.current_buffer_size_bytes - stored gone
  pub in_order : All (λ e. All (λ f. less b.config.eviction_policy f e ≡ false) b'.entries) gone
  pub config_kept : b'.config ≡ b.config

module _ (s : SortSlice) (count bytes : ℕ) (b : WriteBuffer) (d : Distinct b.entries) where
  abbrev candidates : List Entry
  candidates = s.sort (less b.config.eviction_policy) b.entries

  -- A policy that has to drop something drops the first candidates in its order.
  loop_Drops :
      Drops count bytes b
        (evict_loop count bytes 0 0 candidates b)
        (take (evict_count count bytes 0 0 candidates) candidates)
  loop_Drops =
      let n = evict_count count bytes 0 0 candidates in
      let sorted_perm = s.sort_perm (less b.config.eviction_policy) b.entries in
      let e = evict_loop-Evicted count bytes 0 0 candidates b sorted_perm d in
      record {
        all_accounted =
            Perm.trans
              (subst (λ (l : List Entry). Perm b.entries l) (sym (take-append-drop n candidates))
                sorted_perm)
              (Perm.append_left (take n candidates) (Perm.symm e.left));
        account = e.account;
        in_order =
            All-map _ _
              (λ f.
                All-perm (λ g. less b.config.eviction_policy g f ≡ false) (λ g. hlevel)
                  (Perm.symm e.left))
              (take n candidates)
              (Sorted-split (less b.config.eviction_policy) n candidates
                (s.sort_sorted _ (less-IsOrder b.config.eviction_policy) b.entries));
        config_kept = e.config_kept;
      }

  -- An eviction from a buffer with one write for a key and id splits its writes into those that
  -- are gone and those that stay: the account lost the size of those that are gone, none that
  -- stays comes before one that is gone in the order of the policy, and the configuration is the
  -- same.
  pub evict_writes-Drops :
      (gone : List Entry) × Drops count bytes b (evict_writes s count bytes b) gone
  unfolding evict_writes
  evict_writes-Drops = elim (Bool-cases (count == 0 && bytes == 0)) [
    | inl nothing ↦ rw nothing (
      [],
      record {
        all_accounted = Perm.refl b.entries;
        account = omega arith;
        in_order = tt;
        config_kept = refl;
      },
    )
    | inr something ↦
        rw something (take (evict_count count bytes 0 0 candidates) candidates, loop_Drops)
  ]
