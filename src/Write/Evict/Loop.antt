-- ===== src/Write/Evict/Loop.antt =====
-- What eviction leaves: a suffix of the candidates, and the account less what was dropped.
use staravail.Common.{ℕ, suc, ◌+◌, ◌-◌, ◌≡◌, refl, ◌∙◌, arith}
use staravail.Common.{List, [], ◌∷◌, take, drop, if◌then◌else◌}
use staravail.Common.{Bool-cases, inl, inr}
use staravail.Write.Types.{WriteBuffer, Entry, write_size}
use staravail.Write.Entries.{stored, Distinct}
use staravail.Write.Entries.Permutations.{delete_entry-perm, Distinct-perm}
use staravail.Write.Evict.{evict_one, evict_loop, enough}
use mathlib.Core.List.Perm
use mathlib.Core.List.{Perm}

-- How many candidates the loop takes.
unfoldable pub evict_count : ℕ → ℕ → ℕ → ℕ → List Entry → ℕ
evict_count count bytes evicted freed [] = 0
evict_count count bytes evicted freed (c ∷ cs) =
    let rest = evict_count count bytes (evicted + 1) (freed + write_size c.write) cs in
    if enough count bytes (evicted + 1) (freed + write_size c.write) then 1 else suc rest

-- The buffer without the first `n` candidates: the account lost their sizes, the configuration
-- stayed, and the entries are the other candidates in some order.
pub record Evicted (n : ℕ) (cs : List Entry) (b b' : WriteBuffer) : Type 0 where
  pub left : Perm b'.entries (drop n cs)
  pub account : b'.current_buffer_size_bytes ≡ b.current_buffer_size_bytes - stored (take n cs)
  pub config_kept : b'.config ≡ b.config

evict_one-Evicted :
    (c : Entry) (cs : List Entry) (b : WriteBuffer)
    → Perm b.entries (c ∷ cs)
    → Distinct b.entries
    → Evicted 1 (c ∷ cs) b (evict_one c b)
unfolding evict_one
evict_one-Evicted c cs b p d = record {
  left = delete_entry-perm c cs b.entries p d;
  account = omega arith;
  config_kept = refl;
}

pub evict_loop-Evicted :
    (count bytes evicted freed : ℕ) (cs : List Entry) (b : WriteBuffer)
    → Perm b.entries cs
    → Distinct b.entries
    → Evicted
        (evict_count count bytes evicted freed cs)
        cs
        b
        (evict_loop count bytes evicted freed cs b)
unfolding evict_loop evict_count
evict_loop-Evicted count bytes evicted freed [] b p d = record {
  left = p;
  account = omega arith;
  config_kept = refl;
}
evict_loop-Evicted count bytes evicted freed (c ∷ cs) b p d =
    elim (Bool-cases (enough count bytes (evicted + 1) (freed + write_size c.write))) [
      | inl done ↦ rw done (evict_one-Evicted c cs b p d)
      | inr more ↦
          let one = evict_one-Evicted c cs b p d in
          let rest =
            evict_loop-Evicted count bytes (evicted + 1) (freed + write_size c.write) cs
              (evict_one c b) one.left (Distinct-perm (Perm.symm one.left) (Distinct-perm p d).1) in
          rw more (record {
            left = rest.left;
            account = omega (arith, rest.account, one.account);
            config_kept = rest.config_kept ∙ one.config_kept;
          })
    ]
