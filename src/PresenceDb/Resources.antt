-- ===== src/PresenceDb/Resources.antt =====
-- The list of presences of one user, of src/jabberoo-presencedb.cc: the best priority first, one
-- presence for each JID. Generic in what a presence is; `from` and `priority` read one.
pub mod Sorted
pub mod Distinct
use jabberoo.Base.{
  Str, Bool, true, false, Option, none, some, List, [], ◌∷◌, if◌then◌else◌, is_eq, find_if,
  erase_if,
}
use jabberoo.Base.Int.{ℤ, leℤ, eqℤ}
use jabberoo.Jid.{compare}

module _ {ℓ} {A : Type ℓ} where
  abbrev pub is_empty : List A → Bool
  is_empty [] = true
  is_empty (x ∷ xs) = false

  abbrev pub head_of : List A → Option A
  head_of [] = none
  head_of (x ∷ xs) = some x

  -- `*it = x` at the place that `find_if` found.
  unfoldable pub replace_if : (A → Bool) → A → List A → List A
  replace_if p x [] = []
  replace_if p x (y ∷ ys) = if p y then x ∷ ys else y ∷ replace_if p x ys

  -- `l.insert(it, x)` before the place that `find_if` found, which may be the end.
  unfoldable pub insert_before : (A → Bool) → A → List A → List A
  insert_before p x [] = x ∷ []
  insert_before p x (y ∷ ys) = if p y then x ∷ y ∷ ys else y ∷ insert_before p x ys

  -- pred_presence_jid
  unfoldable pub same_jid : (A → Str) → Str → A → Bool
  same_jid from jid q = is_eq (compare jid (from q))

  -- pred_presence_priority
  unfoldable pub not_above : (A → ℤ) → A → A → Bool
  not_above priority p q = leℤ (priority q) (priority p)

  -- The branch of `insert` for a presence that is kept.
  unfoldable pub insert_resource : (A → Str) → (A → ℤ) → A → List A → List A
  unfolding replace_if insert_before not_above
  insert_resource from priority p l =
      if is_empty l then p ∷ [] else elim (find_if (same_jid from (from p)) l) [
        | some it ↦
            if eqℤ (priority it) (priority p)
            then replace_if (same_jid from (from p)) p l
            else insert_before (not_above priority p) p (erase_if (same_jid from (from p)) l)
        | none ↦ insert_before (not_above priority p) p l
      ]
