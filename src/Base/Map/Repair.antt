-- ===== src/Base/Map/Repair.antt =====
-- A property of the entries of a map that holds but for one key, and the writes that restore it.
use mathlib.Core.Bool.{true, false}
use mathlib.Core.List.{List, [], ◌∷◌}
use mathlib.Core.Logic.{◌⊎◌, inl, inr}
use mathlib.Core.Option.{none}
use mathlib.Core.Path.{◌≡◌}
use native.Mathlib.Omega.{arith}
use jabberoo.Base.Logic.{Bool-cases, Option-cases}
use jabberoo.Base.Map.{lookup, update, assign, erase, same_key, Entries, Entries-assign}
use jabberoo.Base.Strings.{Str}

module _ {ℓ κ} {V : Type ℓ} (fold : Str → Str) (P : Str → V → Type κ) (k : Str) where
  -- The property holds of the entries of all other keys.
  abbrev pub Elsewhere : List (Str × V) → Type κ
  Elsewhere = Entries (λ j v. P j v ⊎ (same_key fold j k ≡ true))

  pub Elsewhere-of_Entries : (m : List (Str × V)) → Entries P m → Elsewhere m
  Elsewhere-of_Entries [] h = tt
  Elsewhere-of_Entries ((j, v) ∷ m) h = (inl h.0, Elsewhere-of_Entries m h.1)

  settled :
      {j : Str} {v : V} → P j v ⊎ (same_key fold j k ≡ true) → same_key fold j k ≡ false → P j v
  settled (inl p) e = p
  settled (inr s) e = cc

  pub erase-Entries : (m : List (Str × V)) → Elsewhere m → Entries P (erase fold k m)
  unfolding erase
  erase-Entries [] h = tt
  erase-Entries ((j, v) ∷ m) h = elim (Bool-cases (same_key fold j k)) [
    | inl e ↦ rw (e, erase) (erase-Entries m h.1)
    | inr e ↦ rw (e, erase) (settled h.0 e, erase-Entries m h.1)
  ]

  Entries-of_none : (m : List (Str × V)) → lookup fold k m ≡ none → Elsewhere m → Entries P m
  unfolding lookup
  Entries-of_none [] e h = tt
  Entries-of_none ((j, v) ∷ m) e h =
      (settled h.0 (ground arith), Entries-of_none m (ground arith) h.1)

  Entries-update :
      (v : V) (m : List (Str × V))
      → ((j : Str) → same_key fold j k ≡ true → P j v)
      → Elsewhere m
      → Entries P (update fold k v m)
  unfolding update
  Entries-update v [] p h = tt
  Entries-update v ((j, w) ∷ m) p h = elim (Bool-cases (same_key fold j k)) [
    | inl e ↦ (rw e (p j e), Entries-update v m p h.1)
    | inr e ↦ (rw e (settled h.0 e), Entries-update v m p h.1)
  ]

  pub assign-Entries :
      (v : V) (m : List (Str × V))
      → ((j : Str) → same_key fold j k ≡ true → P j v)
      → Elsewhere m
      → Entries P (assign fold k v m)
  unfolding assign
  assign-Entries v m p h = elim (Option-cases (lookup fold k m)) [
    | inl e ↦ Entries-assign fold P k v m p (Entries-of_none m e h)
    | inr (w, e) ↦ rw (e, assign) (Entries-update v m p h)
  ]

  pub assign-Elsewhere : (v : V) (m : List (Str × V)) → Elsewhere m → Elsewhere (assign fold k v m)
  assign-Elsewhere v m h = Entries-assign fold _ k v m (λ j e. inr e) h
