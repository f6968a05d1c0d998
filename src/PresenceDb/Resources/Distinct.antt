-- ===== src/PresenceDb/Resources/Distinct.antt =====
-- The list of one user's presences holds one presence for each JID, and an insertion changes what
-- is found for that JID alone.
use jabberoo.Base.{
  Str, Bool, true, false, Option, none, some, List, [], ◌∷◌, ◌≡◌, refl, arith, All, find_if,
  erase_if, Bool-cases, Option-cases, inl, inr, if◌then◌else◌, sym, ◌∙◌,
}
use jabberoo.Base.Int.{ℤ, eqℤ}
use jabberoo.Jid.Order.{same, same_comm, same_congr}
use jabberoo.PresenceDb.Resources.{replace_if, insert_before, same_jid, not_above, insert_resource}
use jabberoo.PresenceDb.Resources.Sorted.{
  All-erase_if, All-insert_before, All-replace_if, All-weaken,
}

module _ {ℓ} {A : Type ℓ} (from : A → Str) where
  -- No presence of the list has this JID.
  abbrev pub Lacks : Str → List A → Type 0
  Lacks j = All (λ q. same j (from q) ≡ false)

  abbrev pub IsDistinct : List A → Type 0
  IsDistinct [] = Unit
  IsDistinct (x ∷ xs) = Lacks (from x) xs × IsDistinct xs

  -- The presence with this JID.
  unfoldable pub resource : Str → List A → Option A
  resource j = find_if (same_jid from j)

  Lacks-congr : (a b : Str) (l : List A) → same a b ≡ true → Lacks a l → Lacks b l
  Lacks-congr a b l e h = All-weaken _ _ l (λ q r. sym (same_congr a b (from q) e) ∙ r) h

  resource-none_of-Lacks : (j : Str) (l : List A) → Lacks j l → resource j l ≡ none
  unfolding resource find_if same_jid
  resource-none_of-Lacks j [] h = refl
  resource-none_of-Lacks j (y ∷ ys) h = ground (arith, resource-none_of-Lacks j ys h.1)

  Lacks-of_none : (j : Str) (l : List A) → resource j l ≡ none → Lacks j l
  unfolding resource find_if same_jid
  Lacks-of_none j [] e = tt
  Lacks-of_none j (y ∷ ys) e = (ground arith, Lacks-of_none j ys (ground arith))

  Lacks-erase_if : (j : Str) (l : List A) → IsDistinct l → Lacks j (erase_if (same_jid from j) l)
  unfolding erase_if same_jid
  Lacks-erase_if j [] d = tt
  Lacks-erase_if j (y ∷ ys) d = elim (Bool-cases (same j (from y))) [
    | inl e ↦ rw (e, erase_if) (Lacks-congr (from y) j ys (same_comm (from y) j ∙ e) d.0)
    | inr e ↦ rw (e, erase_if) (e, Lacks-erase_if j ys d.1)
  ]

  pub erase_if-IsDistinct : (p : A → Bool) (l : List A) → IsDistinct l → IsDistinct (erase_if p l)
  unfolding erase_if
  erase_if-IsDistinct p [] d = tt
  erase_if-IsDistinct p (y ∷ ys) d = elim (Bool-cases (p y)) [
    | inl e ↦ rw (e, erase_if) d.1
    | inr e ↦ rw (e, erase_if) (All-erase_if _ p ys d.0, erase_if-IsDistinct p ys d.1)
  ]

  insert_before-IsDistinct :
      (p : A → Bool) (x : A) (l : List A)
      → Lacks (from x) l
      → IsDistinct l
      → IsDistinct (insert_before p x l)
  unfolding insert_before
  insert_before-IsDistinct p x [] h d = (tt, tt)
  insert_before-IsDistinct p x (y ∷ ys) h d = elim (Bool-cases (p y)) [
    | inl e ↦ rw (e, insert_before) (h, d)
    | inr e ↦
        rw (e, insert_before)
          (
            All-insert_before _ p x ys (same_comm (from y) (from x) ∙ h.0) d.0,
            insert_before-IsDistinct p x ys h.1 d.1,
          )
  ]

  replace_if-IsDistinct :
      (x : A) (l : List A) → IsDistinct l → IsDistinct (replace_if (same_jid from (from x)) x l)
  unfolding replace_if same_jid
  replace_if-IsDistinct x [] d = tt
  replace_if-IsDistinct x (y ∷ ys) d = elim (Bool-cases (same (from x) (from y))) [
    | inl e ↦
        rw (e, replace_if)
          (Lacks-congr (from y) (from x) ys (same_comm (from y) (from x) ∙ e) d.0, d.1)
    | inr e ↦
        rw (e, replace_if)
          (
            All-replace_if _ _ x ys (same_comm (from y) (from x) ∙ e) d.0,
            replace_if-IsDistinct x ys d.1,
          )
  ]

  pub resource-erase_if :
      (j k : Str) (l : List A)
      → IsDistinct l
      → resource j (erase_if (same_jid from k) l) ≡ (if same k j then none else resource j l)
  unfolding resource find_if erase_if same_jid
  resource-erase_if j k [] d = ground arith
  resource-erase_if j k (y ∷ ys) d = elim (Bool-cases (same k j)) [
    | inl e ↦ rw e (
        resource-none_of-Lacks j _
          (Lacks-congr k j _ e (unfold same_jid erase_if in Lacks-erase_if k (y ∷ ys) d)))
    | inr e ↦
        ground (arith, resource-erase_if j k ys d.1, same_congr k (from y) j, same_comm (from y) j)
  ]

  resource-insert_before :
      (p : A → Bool) (j : Str) (x : A) (l : List A)
      → Lacks (from x) l
      → resource j (insert_before p x l) ≡ (if same j (from x) then some x else resource j l)
  unfolding resource find_if insert_before same_jid
  resource-insert_before p j x [] h = ground arith
  resource-insert_before p j x (y ∷ ys) h =
      ground (arith, resource-insert_before p j x ys h.1, same_congr j (from x) (from y))

  resource-replace_if :
      (j : Str) (x it : A) (l : List A)
      → resource (from x) l ≡ some it
      → resource j (replace_if (same_jid from (from x)) x l)
        ≡ (if same j (from x) then some x else resource j l)
  unfolding resource find_if replace_if same_jid
  resource-replace_if j x it [] e = cc
  resource-replace_if j x it (y ∷ ys) e = ground (
    arith,
    resource-replace_if j x it ys,
    same_congr (from x) (from y) j,
    same_congr j (from x) (from y),
    same_comm (from y) j,
    same_comm (from x) j,
  )

  -- Inserting keeps one presence for each JID.
  pub insert_resource-IsDistinct :
      (priority : A → ℤ) (x : A) (l : List A)
      → IsDistinct l
      → IsDistinct (insert_resource from priority x l)
  unfolding insert_resource
  insert_resource-IsDistinct priority x [] d = (tt, tt)
  insert_resource-IsDistinct priority x (y ∷ ys) d =
      elim (Option-cases (find_if (same_jid from (from x)) (y ∷ ys))) [
        | inl e ↦
            rw (e, insert_resource)
              (insert_before-IsDistinct (not_above priority x) x (y ∷ ys)
                (Lacks-of_none (from x) (y ∷ ys) (unfold resource in e)) d)
        | inr (it, e) ↦ elim (Bool-cases (eqℤ (priority it) (priority x))) [
          | inl same_priority ↦
              rw (e, insert_resource) (rw same_priority (replace_if-IsDistinct x (y ∷ ys) d))
          | inr other ↦
              rw (e, insert_resource)
                (rw other (
                  insert_before-IsDistinct (not_above priority x) x _
                    (Lacks-erase_if (from x) (y ∷ ys) d) (erase_if-IsDistinct _ (y ∷ ys) d)))
        ]
      ]

  -- After an insertion its JID finds the presence, and every other JID finds what it found.
  pub resource-insert_resource :
      (priority : A → ℤ) (j : Str) (x : A) (l : List A)
      → IsDistinct l
      → resource j (insert_resource from priority x l)
        ≡ (if same j (from x) then some x else resource j l)
  unfolding insert_resource
  resource-insert_resource priority j x [] d = unfold resource find_if same_jid in refl
  resource-insert_resource priority j x (y ∷ ys) d =
      elim (Option-cases (find_if (same_jid from (from x)) (y ∷ ys))) [
        | inl e ↦
            rw (e, insert_resource)
              (resource-insert_before (not_above priority x) j x (y ∷ ys)
                (Lacks-of_none (from x) (y ∷ ys) (unfold resource in e)))
        | inr (it, e) ↦ elim (Bool-cases (eqℤ (priority it) (priority x))) [
          | inl same_priority ↦
              rw (e, insert_resource)
                (rw same_priority (resource-replace_if j x it (y ∷ ys) (unfold resource in e)))
          | inr other ↦
              rw (e, insert_resource)
                (rw other (
                  ground (
                    arith,
                    resource-insert_before (not_above priority x) j x _
                        (Lacks-erase_if (from x) (y ∷ ys) d),
                    resource-erase_if j (from x) (y ∷ ys) d,
                    same_comm j (from x),
                  )))
        ]
      ]
