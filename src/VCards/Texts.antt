-- ===== src/VCards/Texts.antt =====
-- What the entries of src/jabberoox-vcard.cc write back into the elements of a card.
use jabberoo.Base.{
  true, false, none, some, List, [], ◌∷◌, ℕ, ◌≡◌, refl, ap, sym, ◌∙◌, ◌≤◌, nat_eq, nat_eq_iff,
  arith, Bool-cases, inl, inr, subst,
}
use jabberoo.VCards.{Field, Entry, Store, number, find, update, update_all}
use jabberoo.VCards.Paths.{name_of, name_of_injective, name_of_congr, Keeps, IsWhole}
use jabberoo.VCards.Fields.{IsDistinct, not_found}

-- No entry stands for the element.
abbrev pub Apart : ℕ → List (Field × Entry) → Type 0
Apart o [] = Unit
Apart o ((f, x) ∷ l) = (nat_eq x.elem o ≡ false) × Apart o l

module _ (store : Store) where
  open store use {
    Memory, is_element, get_name, get_cdata, sections, erase_cdata, add_cdata, unescape,
    get_name-erase_cdata, get_name-add_cdata, is_element-erase_cdata, is_element-add_cdata,
    erase_cdata_other, add_cdata_other, sections-erase_cdata, get_cdata-add_cdata,
  }

  -- Each entry stands for an element with the name of its field.
  abbrev pub Named : Memory → List (Field × Entry) → Type 0
  Named m [] = Unit
  Named m ((f, x) ∷ l) = (is_element m x.elem ≡ true) × (get_name m x.elem ≡ name_of f) × Named m l

  pub Named-Keeps :
      (m m' : Memory) (l : List (Field × Entry)) → Keeps store m m' → Named m l → Named m' l
  Named-Keeps m m' [] keeps h = tt
  Named-Keeps m m' ((f, x) ∷ l) keeps (there, named, h) =
      let (there', same) = keeps x.elem there in (there', same ∙ named, Named-Keeps m m' l keeps h)

  -- Two fields have two elements.
  Apart-Named :
      (m : Memory) (f : Field) (o : ℕ) (l : List (Field × Entry))
      → get_name m o ≡ name_of f
      → find f l ≡ none
      → Named m l
      → Apart o l
  Apart-Named m f o [] named new h = tt
  Apart-Named m f o ((g, x) ∷ l) named new (there, named', h) =
      let (other, new') = not_found f g x l new in
      (
        elim (Bool-cases (nat_eq x.elem o)) [
          | inl same ↦
              let one : name_of g ≡ name_of f =
                sym named' ∙ ap (get_name m) ((nat_eq_iff x.elem o).0 same) ∙ named in
              let equal = (nat_eq_iff (number g) (number f)).1 (name_of_injective g f one) in cc
          | inr apart ↦ apart
        ],
        Apart-Named m f o l named new' h,
      )

  update-Keeps : (x : Entry) (m : Memory) → Keeps store m (update store x m)
  unfolding update
  update-Keeps x m o there = (
    is_element-add_cdata x.elem x.text (erase_cdata x.elem m) o
        ∙ is_element-erase_cdata x.elem m o
        ∙ there,
    get_name-add_cdata x.elem x.text (erase_cdata x.elem m) o ∙ get_name-erase_cdata x.elem m o,
  )

  update_other :
      (x : Entry) (m : Memory) (o : ℕ)
      → nat_eq x.elem o ≡ false
      → (get_cdata (update store x m) o ≡ get_cdata m o)
        × (sections (update store x m) o ≡ sections m o)
  unfolding update
  update_other x m o apart =
      let (text, count) = erase_cdata_other x.elem m o apart in
      let (text', count') = add_cdata_other x.elem x.text (erase_cdata x.elem m) o apart in
      (text' ∙ text, count' ∙ count)

  update_lem :
      (x : Entry) (m : Memory)
      → is_element m x.elem ≡ true
      → sections m x.elem ≤ 1
      → (get_cdata (update store x m) x.elem ≡ unescape x.text)
        × (sections (update store x m) x.elem ≡ 1)
  unfolding update
  update_lem x m there one =
      get_cdata-add_cdata x.elem x.text (erase_cdata x.elem m)
        (is_element-erase_cdata x.elem m x.elem ∙ there) (sections-erase_cdata x.elem m one)

  update-IsWhole :
      (x : Entry) (m : Memory)
      → is_element m x.elem ≡ true
      → IsWhole store m
      → IsWhole store (update store x m)
  unfolding update
  update-IsWhole x m there whole o alive =
      let before : is_element m o ≡ true =
        sym (
          is_element-add_cdata x.elem x.text (erase_cdata x.elem m) o
          ∙ is_element-erase_cdata x.elem m o)
        ∙ alive in
      elim (Bool-cases (nat_eq x.elem o)) [
        | inl same ↦
            let here : x.elem ≡ o = (nat_eq_iff x.elem o).0 same in
            let (text, count) = update_lem x m there (whole x.elem there) in
            subst (λ n. sections (update store x m) n ≤ 1) here (omega (arith, count))
        | inr apart ↦
            let (text, count) = update_other x m o apart in omega (arith, count, whole o before)
      ]

  pub update_all-other :
      (l : List (Field × Entry)) (m : Memory) (o : ℕ)
      → Apart o l
      → get_cdata (update_all store l m) o ≡ get_cdata m o
  unfolding update_all
  update_all-other [] m o apart = refl
  update_all-other ((f, x) ∷ l) m o (apart, rest) =
      update_all-other l (update store x m) o rest ∙ (update_other x m o apart).0

  pub update_all-Keeps :
      (l : List (Field × Entry)) (m : Memory)
      → Named m l
      → IsWhole store m
      → Keeps store m (update_all store l m) × IsWhole store (update_all store l m)
  unfolding update_all
  update_all-Keeps [] m named whole = (λ o h. (h, refl), whole)
  update_all-Keeps ((f, x) ∷ l) m (there, named, rest) whole =
      let m1 = update store x m in
      let (keeps, whole') =
        update_all-Keeps l m1 (Named-Keeps m m1 l (update-Keeps x m) rest)
          (update-IsWhole x m there whole) in
      (
        λ o h.
            (let (s, same) = update-Keeps x m o h in
              let (s', same') = keeps o s in (s', same' ∙ same)),
        whole',
      )

  pub Named-find :
      (m : Memory) (l : List (Field × Entry)) (f : Field) (x : Entry)
      → find f l ≡ some x
      → Named m l
      → (is_element m x.elem ≡ true) × (get_name m x.elem ≡ name_of f)
  unfolding find
  Named-find m [] f x found h = cc
  Named-find m ((g, y) ∷ l) f x found (there, named, h) =
      elim (Bool-cases (nat_eq (number g) (number f))) [
        | inl same ↦
            let this : some y ≡ some x = rw (same, find) at found in
            let name : name_of g ≡ name_of f =
              name_of_congr g f ((nat_eq_iff (number g) (number f)).0 same) in
            let elem : y.elem ≡ x.elem = cc in
            (ap (is_element m) (sym elem) ∙ there, ap (get_name m) (sym elem) ∙ named ∙ name)
        | inr other ↦ Named-find m l f x (rw (other, find) at found) h
      ]

  -- Every entry's text comes into its element.
  pub update_all_lem :
      (l : List (Field × Entry)) (m : Memory) (f : Field) (x : Entry)
      → Named m l
      → IsDistinct l
      → IsWhole store m
      → find f l ≡ some x
      → get_cdata (update_all store l m) x.elem ≡ unescape x.text
  unfolding update_all find
  update_all_lem [] m f x named distinct whole found = cc
  update_all_lem ((g, y) ∷ l) m f x (there, named, rest) (new, distinct) whole found =
      elim (Bool-cases (nat_eq (number g) (number f))) [
        | inl same ↦
            let this : some y ≡ some x = rw (same, find) at found in
            let written : get_cdata (update_all store l (update store y m)) y.elem
                ≡ unescape y.text =
              update_all-other l (update store y m) y.elem (Apart-Named m g y.elem l named new rest)
              ∙ (update_lem y m there (whole y.elem there)).0 in
            cc
        | inr other ↦
            update_all_lem l (update store y m) f x
              (Named-Keeps m (update store y m) l (update-Keeps y m) rest) distinct
              (update-IsWhole y m there whole) (rw (other, find) at found)
      ]
