-- ===== src/Write/Retry/Store.antt =====
-- retry.go: the map of retries, looked up and stored into.
use staravail.Common.{◌≡◌, ap, ◌∙◌, arith}
use staravail.Common.{List, [], ◌∷◌, Text, text_eq, text_eq_refl, text_eq→eq}
use staravail.Common.{true, false, some}
use staravail.Common.{Bool-cases, inl, inr}
use staravail.Write.Retry.{RetryInfo, lookup, store}

pub lookup-store :
    (info : RetryInfo) (rs : List RetryInfo) → lookup info.id (store info rs) ≡ some info
unfolding lookup store
lookup-store info [] = ground (arith, text_eq_refl info.id)
lookup-store info (r ∷ rs) = elim (Bool-cases (text_eq r.id info.id)) [
  | inl h ↦ ground (arith, h, text_eq_refl info.id)
  | inr h ↦ ground (arith, h, lookup-store info rs)
]

pub lookup_id :
    (id : Text) (rs : List RetryInfo) (info : RetryInfo)
    → lookup id rs ≡ some info
    → text_eq info.id id ≡ true
unfolding lookup
lookup_id id [] info h = absurd (ground arith)
lookup_id id (r ∷ rs) info h = elim (Bool-cases (text_eq r.id id)) [
  | inl t ↦ ground (arith, h, t)
  | inr t ↦ lookup_id id rs info (ground (arith, h, t))
]

pub store-store :
    (old new : RetryInfo) (rs : List RetryInfo)
    → old.id ≡ new.id
    → store new (store old rs) ≡ store new rs
unfolding store
store-store old new [] h = ground (arith, h, text_eq_refl new.id)
store-store old new (r ∷ rs) h = elim (Bool-cases (text_eq r.id new.id)) [
  | inl t ↦ ground (arith, h, t, text_eq_refl new.id)
  | inr t ↦ ground (arith, h, t, store-store old new rs h)
]

pub lookup_other-store :
    (id : Text) (info : RetryInfo) (rs : List RetryInfo)
    → text_eq info.id id ≡ false
    → lookup id (store info rs) ≡ lookup id rs
unfolding lookup store
lookup_other-store id info [] differs = ground (arith, differs)
lookup_other-store id info (r ∷ rs) differs = elim (Bool-cases (text_eq r.id info.id)) [
  | inl h ↦
      let other : text_eq r.id id ≡ false =
        ap (λ (i : Text). text_eq i id) (text_eq→eq r.id info.id h) ∙ differs in
      ground (arith, h, other, differs)
  | inr h ↦ ground (arith, h, lookup_other-store id info rs differs)
]
