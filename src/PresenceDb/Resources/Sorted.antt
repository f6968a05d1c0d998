-- ===== src/PresenceDb/Resources/Sorted.antt =====
-- The list of one user's presences stays in order of priority, the best first.
use jabberoo.Base.{
  Str, Bool, true, false, some, List, [], ◌∷◌, ◌≡◌, refl, arith, All, find_if, erase_if, Bool-cases,
  Option-cases, inl, inr, subst,
}
use jabberoo.Base.Int.{ℤ, leℤ, eqℤ, leℤ-trans, leℤ-total, eqℤ_iff}
use jabberoo.PresenceDb.Resources.{
  replace_if, insert_before, same_jid, not_above, insert_resource, is_empty,
}

module _ {ℓ} {A : Type ℓ} where
  pub All-erase_if {κ} :
      (P : A → Type κ) (p : A → Bool) (l : List A) → All P l → All P (erase_if p l)
  unfolding erase_if
  All-erase_if P p [] h = tt
  All-erase_if P p (y ∷ ys) h = elim (Bool-cases (p y)) [
    | inl e ↦ rw (e, erase_if) h.1
    | inr e ↦ rw (e, erase_if) (h.0, All-erase_if P p ys h.1)
  ]

  pub All-insert_before {κ} :
      (P : A → Type κ) (p : A → Bool) (x : A) (l : List A)
      → P x
      → All P l
      → All P (insert_before p x l)
  unfolding insert_before
  All-insert_before P p x [] px h = (px, tt)
  All-insert_before P p x (y ∷ ys) px h = elim (Bool-cases (p y)) [
    | inl e ↦ rw (e, insert_before) (px, h)
    | inr e ↦ rw (e, insert_before) (h.0, All-insert_before P p x ys px h.1)
  ]

  pub All-replace_if {κ} :
      (P : A → Type κ) (p : A → Bool) (x : A) (l : List A)
      → P x
      → All P l
      → All P (replace_if p x l)
  unfolding replace_if
  All-replace_if P p x [] px h = tt
  All-replace_if P p x (y ∷ ys) px h = elim (Bool-cases (p y)) [
    | inl e ↦ rw (e, replace_if) (px, h.1)
    | inr e ↦ rw (e, replace_if) (h.0, All-replace_if P p x ys px h.1)
  ]

  pub All-find_if {κ} :
      (P : A → Type κ) (p : A → Bool) (x : A) (l : List A) → All P l → find_if p l ≡ some x → P x
  unfolding find_if
  All-find_if P p x [] h e = cc
  All-find_if P p x (y ∷ ys) h e = elim (Bool-cases (p y)) [
    | inl hit ↦ subst P (ground arith) h.0
    | inr miss ↦ All-find_if P p x ys h.1 (ground arith)
  ]

  pub All-weaken {κ ι} :
      (P : A → Type κ) (Q : A → Type ι) (l : List A) → ((x : A) → P x → Q x) → All P l → All Q l
  All-weaken P Q [] f h = tt
  All-weaken P Q (y ∷ ys) f h = (f y h.0, All-weaken P Q ys f h.1)

  -- What holds of the new presence and of the list holds of the result.
  pub insert_resource-All {κ} :
      (P : A → Type κ) (from : A → Str) (priority : A → ℤ) (x : A) (l : List A)
      → P x
      → All P l
      → All P (insert_resource from priority x l)
  unfolding insert_resource
  insert_resource-All P from priority x [] px h = (px, tt)
  insert_resource-All P from priority x (y ∷ ys) px h =
      elim (Option-cases (find_if (same_jid from (from x)) (y ∷ ys))) [
        | inl e ↦
            rw (e, insert_resource) (All-insert_before P (not_above priority x) x (y ∷ ys) px h)
        | inr (it, e) ↦ elim (Bool-cases (eqℤ (priority it) (priority x))) [
          | inl same ↦
              rw (e, insert_resource)
                (rw same (All-replace_if P (same_jid from (from x)) x (y ∷ ys) px h))
          | inr other ↦
              rw (e, insert_resource)
                (rw other (
                  All-insert_before P (not_above priority x) x _ px
                    (All-erase_if P (same_jid from (from x)) (y ∷ ys) h)))
        ]
      ]

  insert_before-is_empty :
      (p : A → Bool) (x : A) (l : List A) → is_empty (insert_before p x l) ≡ false
  unfolding insert_before
  insert_before-is_empty p x [] = refl
  insert_before-is_empty p x (y ∷ ys) = ground arith

  pub insert_resource-is_empty :
      (from : A → Str) (priority : A → ℤ) (x : A) (l : List A)
      → is_empty (insert_resource from priority x l) ≡ false
  unfolding insert_resource
  insert_resource-is_empty from priority x [] = refl
  insert_resource-is_empty from priority x (y ∷ ys) = ground (
    arith,
    insert_before-is_empty (not_above priority x) x (y ∷ ys),
    insert_before-is_empty (not_above priority x) x (erase_if (same_jid from (from x)) (y ∷ ys)),
  )

module _ {ℓ} {A : Type ℓ} (priority : A → ℤ) where
  -- No priority in the list is above `n`.
  abbrev pub Below : ℤ → List A → Type 0
  Below n = All (λ q. leℤ (priority q) n ≡ true)

  abbrev pub IsSorted : List A → Type 0
  IsSorted [] = Unit
  IsSorted (x ∷ xs) = Below (priority x) xs × IsSorted xs

  pub erase_if-IsSorted : (p : A → Bool) (l : List A) → IsSorted l → IsSorted (erase_if p l)
  unfolding erase_if
  erase_if-IsSorted p [] h = tt
  erase_if-IsSorted p (y ∷ ys) h = elim (Bool-cases (p y)) [
    | inl e ↦ rw (e, erase_if) h.1
    | inr e ↦ rw (e, erase_if) (All-erase_if _ p ys h.0, erase_if-IsSorted p ys h.1)
  ]

  insert_before-IsSorted :
      (x : A) (l : List A) → IsSorted l → IsSorted (insert_before (not_above priority x) x l)
  unfolding insert_before not_above
  insert_before-IsSorted x [] h = (tt, tt)
  insert_before-IsSorted x (y ∷ ys) h = elim (Bool-cases (leℤ (priority y) (priority x))) [
    | inl e ↦
        rw (e, insert_before)
          (
            (
              e,
              All-weaken _ _ ys (λ q r. leℤ-trans (priority q) (priority y) (priority x) r e) h.0,
            ),
            h,
          )
    | inr e ↦
        rw (e, insert_before)
          (
            All-insert_before _ _ x ys (leℤ-total (priority y) (priority x) e) h.0,
            insert_before-IsSorted x ys h.1,
          )
  ]

  replace_if-IsSorted :
      (p : A → Bool) (x it : A) (l : List A)
      → find_if p l ≡ some it
      → priority it ≡ priority x
      → IsSorted l
      → IsSorted (replace_if p x l)
  unfolding replace_if find_if
  replace_if-IsSorted p x it [] f e h = tt
  replace_if-IsSorted p x it (y ∷ ys) f e h = elim (Bool-cases (p y)) [
    | inl hit ↦ rw (hit, replace_if) (subst (λ n. Below n ys) (ground arith) h.0, h.1)
    | inr miss ↦
        let later : find_if p ys ≡ some it = ground arith in
        rw (miss, replace_if)
          (
            All-replace_if _ p x ys
                (subst (λ n. leℤ n (priority y) ≡ true) e (All-find_if _ p it ys h.0 later)) h.0,
            replace_if-IsSorted p x it ys later e h.1,
          )
  ]

  -- Inserting a presence keeps the list in order.
  pub insert_resource-IsSorted :
      (from : A → Str) (x : A) (l : List A)
      → IsSorted l
      → IsSorted (insert_resource from priority x l)
  unfolding insert_resource
  insert_resource-IsSorted from x [] h = (tt, tt)
  insert_resource-IsSorted from x (y ∷ ys) h =
      elim (Option-cases (find_if (same_jid from (from x)) (y ∷ ys))) [
        | inl e ↦ rw (e, insert_resource) (insert_before-IsSorted x (y ∷ ys) h)
        | inr (it, e) ↦ elim (Bool-cases (eqℤ (priority it) (priority x))) [
          | inl same ↦
              rw (e, insert_resource)
                (rw same (replace_if-IsSorted _ x it (y ∷ ys) e ((eqℤ_iff _ _).0 same) h))
          | inr other ↦
              rw (e, insert_resource)
                (rw other (insert_before-IsSorted x _ (erase_if-IsSorted _ (y ∷ ys) h)))
        ]
      ]
