-- ===== src/VCards/Fields.antt =====
-- The map of entries of src/jabberoox-vcard.cc: one for each field at most.
use jabberoo.Base.{
  Str, false, none, some, List, [], ◌∷◌, ◌≡◌, refl, ◌∙◌, if◌then◌else◌, nat_eq, nat_eq_iff, ltb,
  arith, Bool-cases, inl, inr,
}
use jabberoo.Base.Compare.{nat_eq_flip}
use jabberoo.VCards.{Field, Entry, number, find, place, write_text}

-- Each field has one entry at most.
abbrev pub IsDistinct : List (Field × Entry) → Type 0
IsDistinct [] = Unit
IsDistinct ((f, x) ∷ l) = (find f l ≡ none) × IsDistinct l

pub find-place_other :
    (f g : Field) (x : Entry) (l : List (Field × Entry))
    → nat_eq (number f) (number g) ≡ false
    → find g (place f x l) ≡ find g l
unfolding find place
find-place_other f g x [] apart = rw (apart, find) refl
find-place_other f g x ((h, y) ∷ l) apart = ground (arith, find-place_other f g x l apart)

pub find_congr :
    (f g : Field) (l : List (Field × Entry)) → number f ≡ number g → find f l ≡ find g l
unfolding find
find_congr f g [] same = refl
find_congr f g ((h, y) ∷ l) same = ground (arith, find_congr f g l same)

pub not_found :
    (f g : Field) (y : Entry) (l : List (Field × Entry))
    → find f ((g, y) ∷ l) ≡ none
    → (nat_eq (number g) (number f) ≡ false) × (find f l ≡ none)
unfolding find
not_found f g y l h = elim (Bool-cases (nat_eq (number g) (number f))) [
  | inl same ↦ let wrong : some y ≡ none = rw (same, find) at h in cc
  | inr other ↦ (other, rw (other, find) at h)
]

pub IsDistinct-place :
    (f : Field) (x : Entry) (l : List (Field × Entry))
    → find f l ≡ none
    → IsDistinct l
    → IsDistinct (place f x l)
unfolding find place
IsDistinct-place f x [] new h = (refl, tt)
IsDistinct-place f x ((g, y) ∷ l) new (apart, h) = elim (Bool-cases (ltb (number f) (number g))) [
  | inl front ↦ rw (front, place) (new, (apart, h))
  | inr behind ↦
      let (other, new') = not_found f g y l new in
      rw (behind, place)
        (
          find-place_other f g x l (nat_eq_flip (number g) (number f) other) ∙ apart,
          IsDistinct-place f x l new' h,
        )
]

pub find-write_text :
    (f g : Field) (v : Str) (l : List (Field × Entry))
    → find g (write_text f v l) ≡ elim (find g l) [
      | none ↦ none
      | some x ↦ some (if nat_eq (number g) (number f) then record x { text = v } else x)
    ]
unfolding find write_text
find-write_text f g v [] = refl
find-write_text f g v ((h, y) ∷ l) = ground (arith, find-write_text f g v l)

pub IsDistinct-write_text :
    (f : Field) (v : Str) (l : List (Field × Entry)) → IsDistinct l → IsDistinct (write_text f v l)
unfolding write_text
IsDistinct-write_text f v [] h = tt
IsDistinct-write_text f v ((g, y) ∷ l) (apart, h) =
    (find-write_text f g v l ∙ rw apart refl, IsDistinct-write_text f v l h)

pub find-place_same :
    (f : Field) (x : Entry) (l : List (Field × Entry))
    → find f l ≡ none
    → find f (place f x l) ≡ some x
unfolding find place
find-place_same f x [] new = rw ((nat_eq_iff (number f) (number f)).1 refl, find) refl
find-place_same f x ((g, y) ∷ l) new = elim (Bool-cases (ltb (number f) (number g))) [
  | inl front ↦ rw (front, (nat_eq_iff (number f) (number f)).1 refl, find) refl
  | inr behind ↦
      let (other, new') = not_found f g y l new in
      rw (behind, other, find) (find-place_same f x l new')
]
