-- ===== src/Roster/Groups/Ascending.antt =====
-- Sets as ascending lists: an insertion keeps the order, so no text stands twice.
use jabberoo.Base.{
  Str, false, List, [], ◌∷◌, ◌≡◌, refl, ==_iff, arith, All, Ordering, Ordering-cases, inl, inr,
  str_compare, str_compare_trans, str_compare-flip, str_compare_refl, flip, ◌∙◌, ap,
}
use jabberoo.Roster.Groups.{set_insert, member}
use jabberoo.Roster.Groups.Merge.{IsNodup}

abbrev pub Above : Str → List Str → Type 0
Above x = All (λ y. str_compare x y ≡ Ordering.lt)

abbrev pub IsAscending : List Str → Type 0
IsAscending [] = Unit
IsAscending (x ∷ xs) = Above x xs × IsAscending xs

Above-trans : (x y : Str) (ys : List Str) → str_compare x y ≡ Ordering.lt → Above y ys → Above x ys
Above-trans x y [] h a = tt
Above-trans x y (z ∷ ys) h a = (str_compare_trans x y z h a.0, Above-trans x y ys h a.1)

Above-set_insert :
    (y x : Str) (s : List Str)
    → str_compare y x ≡ Ordering.lt
    → Above y s
    → Above y (set_insert x s)
unfolding set_insert
Above-set_insert y x [] h a = (h, tt)
Above-set_insert y x (z ∷ s) h a = elim (Ordering-cases (str_compare x z)) [
  | inl lt ↦ rw (lt, set_insert) (h, a)
  | inr (inl eq) ↦ rw (eq, set_insert) a
  | inr (inr gt) ↦ rw (gt, set_insert) (a.0, Above-set_insert y x s h a.1)
]

pub set_insert-IsAscending : (x : Str) (s : List Str) → IsAscending s → IsAscending (set_insert x s)
unfolding set_insert
set_insert-IsAscending x [] h = (tt, tt)
set_insert-IsAscending x (z ∷ s) h = elim (Ordering-cases (str_compare x z)) [
  | inl lt ↦ rw (lt, set_insert) ((lt, Above-trans x z s lt h.0), h)
  | inr (inl eq) ↦ rw (eq, set_insert) h
  | inr (inr gt) ↦
      rw (gt, set_insert)
        (
          Above-set_insert z x s (str_compare-flip x z ∙ ap flip gt) h.0,
          set_insert-IsAscending x s h.1,
        )
]

member-false_of_Above : (x : Str) (s : List Str) → Above x s → member x s ≡ false
unfolding member
member-false_of_Above x [] a = refl
member-false_of_Above x (y ∷ s) a =
    ground (arith, member-false_of_Above x s a.1, ==_iff y x, str_compare_refl x, a.0)

pub IsAscending-IsNodup : (s : List Str) → IsAscending s → IsNodup s
IsAscending-IsNodup [] h = tt
IsAscending-IsNodup (x ∷ s) h = (member-false_of_Above x s h.0, IsAscending-IsNodup s h.1)
