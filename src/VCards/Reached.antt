-- ===== src/VCards/Reached.antt =====
-- The cards of src/jabberoox-vcard.cc in every state that their operations lead to.
use jabberoo.Base.{
  Str, true, false, some, List, [], ◌∷◌, ℕ, ◌≡◌, refl, ◌∙◌, ◌≤◌, nat_eq, nat_eq_iff, ltb,
  Bool-cases, Option-cases, inl, inr,
}
use jabberoo.Base.Compare.{nat_eq_flip}
use jabberoo.VCards.{
  Field, Entry, Store, VCard, number, find, place, write_text, new_card, locate, entry_of, assign,
  update_all, get_base_element, card_text,
}
use jabberoo.VCards.Paths.{name_of, IsWhole, locate_lem}
use jabberoo.VCards.Fields.{
  IsDistinct, find-place_other, find-place_same, IsDistinct-place, find-write_text,
  IsDistinct-write_text,
}
use jabberoo.VCards.Texts.{
  Apart, Named, Named-Keeps, Named-find, update_all_lem, update_all-Keeps, update_all-other,
}

module _ (store : Store) where
  open store use {Memory, is_element, get_name, get_cdata, sections, unescape}

  abbrev pub IsSound : VCard store → Type 0
  IsSound s =
      (is_element s.memory s.elem ≡ true)
      × IsWhole store s.memory
      × IsDistinct s.entries
      × Named store s.memory s.entries

  Named-place :
      (m : Memory) (f : Field) (x : Entry) (l : List (Field × Entry))
      → is_element m x.elem ≡ true
      → get_name m x.elem ≡ name_of f
      → Named store m l
      → Named store m (place f x l)
  unfolding place
  Named-place m f x [] there named h = (there, named, tt)
  Named-place m f x ((g, y) ∷ l) there named (there', named', h) =
      elim (Bool-cases (ltb (number f) (number g))) [
        | inl front ↦ rw (front, place) (there, named, (there', named', h))
        | inr behind ↦ rw (behind, place) (there', named', Named-place m f x l there named h)
      ]

  Named-write_text :
      (m : Memory) (f : Field) (v : Str) (l : List (Field × Entry))
      → Named store m l
      → Named store m (write_text f v l)
  unfolding write_text
  Named-write_text m f v [] h = tt
  Named-write_text m f v ((g, y) ∷ l) (there, named, h) =
      elim (Bool-cases (nat_eq (number g) (number f))) [
        | inl same ↦ rw (same, write_text) (there, named, Named-write_text m f v l h)
        | inr other ↦ rw (other, write_text) (there, named, Named-write_text m f v l h)
      ]

  entry_of-IsSound : (f : Field) (s : VCard store) → IsSound s → IsSound (entry_of store f s).1
  unfolding entry_of
  entry_of-IsSound f s (root, whole, distinct, named) = elim (Option-cases (find f s.entries)) [
    | inr (x, known) ↦ rw (known, entry_of) (root, whole, distinct, named)
    | inl missing ↦
        let found = locate store f s in
        let (there, name, keeps, wholes) = locate_lem store f s root in
        let x : Entry = record { elem = found.0; text = get_cdata found.1 found.0 } in
        rw (missing, entry_of)
          (
            (keeps s.elem root).0,
            wholes whole,
            IsDistinct-place f x s.entries missing distinct,
            Named-place found.1 f x s.entries there name
                (Named-Keeps store s.memory found.1 s.entries keeps named),
          )
  ]

  assign-IsSound :
      (f : Field) (v : Str) (s : VCard store) → IsSound s → IsSound (assign store f v s)
  unfolding assign
  assign-IsSound f v s sound =
      let s1 = (entry_of store f s).1 in
      let (root, whole, distinct, named) = entry_of-IsSound f s sound in
      (
        root,
        whole,
        IsDistinct-write_text f v s1.entries distinct,
        Named-write_text s1.memory f v s1.entries named,
      )

  get_base_element-IsSound : (s : VCard store) → IsSound s → IsSound (get_base_element store s).1
  unfolding get_base_element
  get_base_element-IsSound s (root, whole, distinct, named) =
      let (keeps, whole') = update_all-Keeps store s.entries s.memory named whole in
      (
        (keeps s.elem root).0,
        whole',
        distinct,
        Named-Keeps store s.memory (update_all store s.entries s.memory) s.entries keeps named,
      )

  -- The cards that are made, and what is done with them. A card is made of a copy without an element
  -- that has two sections of text.
  pub data Reached : VCard store → Type 0 where
    made :
        (m : Memory) (e : ℕ)
        → is_element m e ≡ true
        → ((o : ℕ) → is_element m o ≡ true → sections m o ≤ 1)
        → Reached (new_card store m e)
    looked_up : (s : VCard store) (f : Field) → Reached s → Reached (entry_of store f s).1
    assigned : (s : VCard store) (f : Field) (v : Str) → Reached s → Reached (assign store f v s)
    updated : (s : VCard store) → Reached s → Reached (get_base_element store s).1
    printed : (s : VCard store) → Reached s → Reached (card_text store s).1

  Reached-IsSound : (s : VCard store) → Reached s → IsSound s
  unfolding new_card card_text get_base_element
  Reached-IsSound _ (made m e there whole) = (there, whole, tt, tt)
  Reached-IsSound _ (looked_up s f r) = entry_of-IsSound f s (Reached-IsSound s r)
  Reached-IsSound _ (assigned s f v r) = assign-IsSound f v s (Reached-IsSound s r)
  Reached-IsSound _ (updated s r) = get_base_element-IsSound s (Reached-IsSound s r)
  Reached-IsSound _ (printed s r) = get_base_element-IsSound s (Reached-IsSound s r)

  -- The entry that operator[] gives is the one in the map.
  find-entry_of :
      (f : Field) (s : VCard store)
      → find f (entry_of store f s).1.entries ≡ some (entry_of store f s).0
  unfolding entry_of
  find-entry_of f s = elim (Option-cases (find f s.entries)) [
    | inr (x, known) ↦ rw (known, entry_of) known
    | inl missing ↦ rw (missing, entry_of) (find-place_same f _ s.entries missing)
  ]

  -- Operator[] changes no other entry.
  find-entry_of_other :
      (f g : Field) (s : VCard store)
      → nat_eq (number f) (number g) ≡ false
      → find g (entry_of store f s).1.entries ≡ find g s.entries
  unfolding entry_of
  find-entry_of_other f g s apart = elim (Option-cases (find f s.entries)) [
    | inr (x, known) ↦ rw (known, entry_of) refl
    | inl missing ↦ rw (missing, entry_of) (find-place_other f g _ s.entries apart)
  ]

  -- In every state that a card is led to by its operations, from a copy in which no element has two
  -- sections of text: after `card[f] = v` and getBaseElement, the entry of the field stands for an
  -- element with the last name of the field's query, and its text is v, with libjudo's escapes
  -- resolved once more. The element of every other entry holds that entry's text, resolved so too,
  -- and an element that no entry stands for keeps its text.
  pub get_base_element-assign :
      (s : VCard store) (f : Field) (v : Str)
      → Reached s
      → let s1 = assign store f v s in
        let m = (get_base_element store s1).1.memory in
        ((x : Entry) × (find f s1.entries ≡ some x)
          × (get_name m x.elem ≡ name_of f)
          × (get_cdata m x.elem ≡ unescape v))
        × ((g : Field) (y : Entry)
            → nat_eq (number f) (number g) ≡ false
            → find g s.entries ≡ some y
            → get_cdata m y.elem ≡ unescape y.text)
        × ((o : ℕ) → Apart o s1.entries → get_cdata m o ≡ get_cdata s1.memory o)
  unfolding get_base_element assign
  get_base_element-assign s f v r =
      let s1 = assign store f v s in
      let t = (entry_of store f s).1 in
      let x = (entry_of store f s).0 in
      let (root, whole, distinct, named) = assign-IsSound f v s (Reached-IsSound s r) in
      let known : find f s1.entries ≡ some (record x { text = v }) =
        find-write_text f f v t.entries
        ∙ rw (find-entry_of f s, (nat_eq_iff (number f) (number f)).1 refl) refl in
      let (keeps, whole') = update_all-Keeps store s1.entries s1.memory named whole in
      let m = update_all store s1.entries s1.memory in
      let named' = Named-Keeps store s1.memory m s1.entries keeps named in
      (
        (
          record x { text = v },
          known,
          (Named-find store m s1.entries f (record x { text = v }) known named').1,
          update_all_lem store s1.entries s1.memory f (record x { text = v }) named distinct whole
              known,
        ),
        λ g y apart there. update_all_lem store s1.entries s1.memory g y named distinct whole (
            find-write_text f g v t.entries
            ∙ rw (find-entry_of_other f g s apart, there, nat_eq_flip (number f) (number g) apart)
                refl),
        λ o apart. update_all-other store s1.entries s1.memory o apart,
      )
