-- ===== src/Base/Map.antt =====
-- `std::map` and `std::multimap` with text keys, as association lists in the order of the keys.
-- Two keys are one if their folded forms are the same: `fold_case` for CaseInsensitiveCmp, the
-- identity for the default order.
pub mod Repair
use Prim.Native.Nat.{Ordering}
use mathlib.Core.Bool.{Bool, true, false}
use mathlib.Core.List.{List, [], ◌∷◌, map}
use mathlib.Core.Logic.{inl, inr}
use mathlib.Core.Option.{Option, none, some}
use mathlib.Core.Path.{◌≡◌, refl, sym, subst}
use native.Mathlib.Omega.{arith}
use jabberoo.Base.Lists.{All}
use jabberoo.Base.Logic.{if◌then◌else◌, is_lt, Bool-cases, Option-cases}
use jabberoo.Base.Strings.{Str, ◌==◌, ==_iff, ==_refl, str_compare}

-- The two keys are equivalent: neither is less.
abbrev pub same_key : (Str → Str) → Str → Str → Bool
same_key fold a b = fold a == fold b

pub same_key_comm :
    (fold : Str → Str) (a b : Str) → same_key fold a b ≡ true → same_key fold b a ≡ true
same_key_comm fold a b h = (==_iff (fold b) (fold a)).1 (sym ((==_iff (fold a) (fold b)).0 h))

-- Every entry has the property.
abbrev pub Entries {ℓ κ} : {V : Type ℓ} → (Str → V → Type κ) → List (Str × V) → Type κ
Entries P [] = Unit
Entries P ((j, v) ∷ m) = P j v × Entries P m

module _ {ℓ} {V : Type ℓ} (fold : Str → Str) where
  unfoldable pub lookup : Str → List (Str × V) → Option V
  lookup k [] = none
  lookup k ((j, v) ∷ m) = if same_key fold j k then some v else lookup k m

  unfoldable pub erase : Str → List (Str × V) → List (Str × V)
  erase k [] = []
  erase k ((j, v) ∷ m) = if same_key fold j k then erase k m else (j, v) ∷ erase k m

  -- A new entry stands before the first greater key.
  unfoldable pub place : Str → V → List (Str × V) → List (Str × V)
  place k v [] = (k, v) ∷ []
  place k v ((j, w) ∷ m) =
      if is_lt (str_compare (fold k) (fold j)) then (k, v) ∷ (j, w) ∷ m else (j, w) ∷ place k v m

  -- The entry keeps its key and takes the value.
  unfoldable pub update : Str → V → List (Str × V) → List (Str × V)
  update k v [] = []
  update k v ((j, w) ∷ m) = (j, if same_key fold j k then v else w) ∷ update k v m

  -- `m[k] = v`.
  unfoldable pub assign : Str → V → List (Str × V) → List (Str × V)
  unfolding lookup place update
  assign k v m = elim (lookup k m) [ none ↦ place k v m | some w ↦ update k v m ]

  lookup-place :
      (k j : Str) (v : V) (m : List (Str × V))
      → lookup k m ≡ none
      → lookup j (place k v m) ≡ (if same_key fold k j then some v else lookup j m)
  unfolding lookup place
  lookup-place k j v [] h = refl
  lookup-place k j v ((i, w) ∷ m) h = ground (
    arith,
    ==_iff (fold i) (fold k),
    ==_iff (fold k) (fold j),
    ==_iff (fold i) (fold j),
    lookup-place k j v m,
  )

  pub lookup-update :
      (k j : Str) (v : V) (m : List (Str × V))
      → lookup j (update k v m) ≡ (
          if same_key fold k j
          then elim (lookup j m) [ none ↦ none | some w ↦ some v ]
          else lookup j m)
  unfolding lookup update
  lookup-update k j v [] = ground arith
  lookup-update k j v ((i, w) ∷ m) = ground (
    arith,
    ==_iff (fold i) (fold k),
    ==_iff (fold k) (fold j),
    ==_iff (fold i) (fold j),
    lookup-update k j v m,
  )

  pub lookup_congr :
      (k j : Str) (m : List (Str × V)) → same_key fold k j ≡ true → lookup k m ≡ lookup j m
  unfolding lookup
  lookup_congr k j [] h = refl
  lookup_congr k j ((i, w) ∷ m) h = ground (
    arith,
    ==_iff (fold i) (fold k),
    ==_iff (fold k) (fold j),
    ==_iff (fold i) (fold j),
    lookup_congr k j m h,
  )

  pub lookup-assign :
      (k j : Str) (v : V) (m : List (Str × V))
      → lookup j (assign k v m) ≡ (if same_key fold k j then some v else lookup j m)
  unfolding assign
  lookup-assign k j v m =
      ground (arith, lookup-place k j v m, lookup-update k j v m, lookup_congr k j m)

  pub lookup-erase :
      (k j : Str) (m : List (Str × V))
      → lookup j (erase k m) ≡ (if same_key fold k j then none else lookup j m)
  unfolding lookup erase
  lookup-erase k j [] = ground arith
  lookup-erase k j ((i, w) ∷ m) = ground (
    arith,
    ==_iff (fold i) (fold k),
    ==_iff (fold k) (fold j),
    ==_iff (fold i) (fold j),
    lookup-erase k j m,
  )

  pub Entries-erase {κ} :
      (P : Str → V → Type κ) (k : Str) (m : List (Str × V)) → Entries P m → Entries P (erase k m)
  unfolding erase
  Entries-erase P k [] h = tt
  Entries-erase P k ((j, v) ∷ m) h = elim (Bool-cases (same_key fold j k)) [
    | inl e ↦ rw (e, erase) (Entries-erase P k m h.1)
    | inr e ↦ rw (e, erase) (h.0, Entries-erase P k m h.1)
  ]

  pub Entries-place {κ} :
      (P : Str → V → Type κ) (k : Str) (v : V) (m : List (Str × V))
      → P k v
      → Entries P m
      → Entries P (place k v m)
  unfolding place
  Entries-place P k v [] p h = (p, tt)
  Entries-place P k v ((j, w) ∷ m) p h = elim (Bool-cases (is_lt (str_compare (fold k) (fold j)))) [
    | inl e ↦ rw (e, place) (p, h)
    | inr e ↦ rw (e, place) (h.0, Entries-place P k v m p h.1)
  ]

  Entries-update {κ} :
      (P : Str → V → Type κ) (k : Str) (v : V) (m : List (Str × V))
      → ((j : Str) → same_key fold j k ≡ true → P j v)
      → Entries P m
      → Entries P (update k v m)
  unfolding update
  Entries-update P k v [] p h = tt
  Entries-update P k v ((j, w) ∷ m) p h = elim (Bool-cases (same_key fold j k)) [
    | inl e ↦ (rw e (p j e), Entries-update P k v m p h.1)
    | inr e ↦ (rw e h.0, Entries-update P k v m p h.1)
  ]

  pub Entries-assign {κ} :
      (P : Str → V → Type κ) (k : Str) (v : V) (m : List (Str × V))
      → ((j : Str) → same_key fold j k ≡ true → P j v)
      → Entries P m
      → Entries P (assign k v m)
  unfolding assign
  Entries-assign P k v m p h = elim (Option-cases (lookup k m)) [
    | inl e ↦ rw (e, assign) (Entries-place P k v m (p k (==_refl (fold k))) h)
    | inr (w, e) ↦ rw (e, assign) (Entries-update P k v m p h)
  ]

  pub Entries-lookup {κ} :
      (P : Str → V → Type κ) (k : Str) (v : V) (m : List (Str × V))
      → lookup k m ≡ some v
      → Entries P m
      → (j : Str) × P j v × (same_key fold j k ≡ true)
  unfolding lookup
  Entries-lookup P k v [] e h = cc
  Entries-lookup P k v ((j, w) ∷ m) e h = elim (Bool-cases (same_key fold j k)) [
    | inl hit ↦ (j, subst (P j) (ground arith) h.0, hit)
    | inr miss ↦ Entries-lookup P k v m (rw miss at e) h.1
  ]
