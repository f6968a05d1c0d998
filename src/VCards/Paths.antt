-- ===== src/VCards/Paths.antt =====
-- The elements that src/jabberoox-vcard.cc finds or builds for the fields of a card.
use jabberoo.Base.{
  Str, true, List, [], ◌∷◌, ℕ, zero, suc, ◌≡◌, refl, ap, sym, ◌∙◌, ◌≤◌, codes, if◌then◌else◌, ◌==◌,
  ==_iff, drop, arith, Bool-cases, Option-cases, inl, inr, subst,
}
use jabberoo.VCards.{
  Field, Store, VCard, query_of, number, last_of, between_slashes, is_location, build_path, locate,
  first_name, middle_name, last_name, full_name, nickname, email, birthday, telephone, url,
  description, street, street2, city, state, pcode, country, org_name, org_unit, personal_title,
  personal_role,
}

-- The name of a field's element.
abbrev pub name_of : Field → Str
name_of f = last_of [] (between_slashes (query_of f))

-- The number of the field whose element has a name.
abbrev number_named : Str → ℕ
unfolding ◌==◌
number_named n =
    if n == codes "GIVEN"
    then 0
    else if n == codes "MIDDLE"
    then 1
    else if n == codes "FAMILY"
    then 2
    else if n == codes "FN"
    then 3
    else if n == codes "NICKNAME"
    then 4
    else if n == codes "EMAIL"
    then 5
    else if n == codes "BDAY"
    then 6
    else if n == codes "TEL"
    then 7
    else if n == codes "URL"
    then 8
    else if n == codes "DESC"
    then 9
    else if n == codes "STREET"
    then 10
    else if n == codes "EXTADD"
    then 11
    else if n == codes "LOCALITY"
    then 12
    else if n == codes "REGION"
    then 13
    else if n == codes "PCODE"
    then 14
    else if n == codes "COUNTRY"
    then 15
    else if n == codes "ORGNAME"
    then 16
    else if n == codes "ORGUNIT"
    then 17
    else if n == codes "TITLE"
    then 18
    else 19

-- The names, by the numbers of their fields.
abbrev nth : ℕ → List Str → Str
nth n [] = []
nth zero (x ∷ xs) = x
nth (suc n) (x ∷ xs) = nth n xs

abbrev names : List Str
names =
    codes "GIVEN"
    ∷ codes "MIDDLE"
    ∷ codes "FAMILY"
    ∷ codes "FN"
    ∷ codes "NICKNAME"
    ∷ codes "EMAIL"
    ∷ codes "BDAY"
    ∷ codes "TEL"
    ∷ codes "URL"
    ∷ codes "DESC"
    ∷ codes "STREET"
    ∷ codes "EXTADD"
    ∷ codes "LOCALITY"
    ∷ codes "REGION"
    ∷ codes "PCODE"
    ∷ codes "COUNTRY"
    ∷ codes "ORGNAME"
    ∷ codes "ORGUNIT"
    ∷ codes "TITLE"
    ∷ codes "ROLE"
    ∷ []

-- What the table of queries holds.
query_of_lem :
    (f : Field)
    → (is_location (query_of f) ≡ true)
      × (number_named (name_of f) ≡ number f)
      × ((k : Str) → last_of k (drop 1 (between_slashes (query_of f))) ≡ name_of f)
      × (nth (number f) names ≡ name_of f)
unfolding query_of number number_named
query_of_lem first_name = (refl, refl, λ k. refl, refl)
query_of_lem middle_name = (refl, refl, λ k. refl, refl)
query_of_lem last_name = (refl, refl, λ k. refl, refl)
query_of_lem full_name = (refl, refl, λ k. refl, refl)
query_of_lem nickname = (refl, refl, λ k. refl, refl)
query_of_lem email = (refl, refl, λ k. refl, refl)
query_of_lem birthday = (refl, refl, λ k. refl, refl)
query_of_lem telephone = (refl, refl, λ k. refl, refl)
query_of_lem url = (refl, refl, λ k. refl, refl)
query_of_lem description = (refl, refl, λ k. refl, refl)
query_of_lem street = (refl, refl, λ k. refl, refl)
query_of_lem street2 = (refl, refl, λ k. refl, refl)
query_of_lem city = (refl, refl, λ k. refl, refl)
query_of_lem state = (refl, refl, λ k. refl, refl)
query_of_lem pcode = (refl, refl, λ k. refl, refl)
query_of_lem country = (refl, refl, λ k. refl, refl)
query_of_lem org_name = (refl, refl, λ k. refl, refl)
query_of_lem org_unit = (refl, refl, λ k. refl, refl)
query_of_lem personal_title = (refl, refl, λ k. refl, refl)
query_of_lem personal_role = (refl, refl, λ k. refl, refl)

-- The names of two fields' elements differ.
pub name_of_injective : (f g : Field) → name_of f ≡ name_of g → number f ≡ number g
name_of_injective f g h = sym (query_of_lem f).1 ∙ ap number_named h ∙ (query_of_lem g).1

pub name_of_congr : (f g : Field) → number f ≡ number g → name_of f ≡ name_of g
name_of_congr f g h = sym (query_of_lem f).3 ∙ ap (λ n. nth n names) h ∙ (query_of_lem g).3

module _ (store : Store) where
  open store use {
    Memory, is_element, get_name, sections, find_element, add_element, query, names_of,
    find_element-get_name, names_of-location, query-get_name, add_element_new, add_element_old,
    add_element_only,
  }

  -- Elements stay, with their names.
  abbrev pub Keeps : Memory → Memory → Type 0
  Keeps m m' =
      (o : ℕ) → is_element m o ≡ true → (is_element m' o ≡ true) × (get_name m' o ≡ get_name m o)

  -- No element has more than one section of text.
  abbrev pub IsWhole : Memory → Type 0
  IsWhole m = (o : ℕ) → is_element m o ≡ true → sections m o ≤ 1

  add_element-Keeps : (e : ℕ) (n : Str) (m : Memory) → Keeps m (add_element e n m).1
  add_element-Keeps e n m o there =
      let (stays, same, text) = add_element_old e n m o there in (stays, same)

  add_element-IsWhole : (e : ℕ) (n : Str) (m : Memory) → IsWhole m → IsWhole (add_element e n m).1
  add_element-IsWhole e n m whole o there = elim (add_element_only e n m o there) [
    | inl new ↦
        let (t, named, none_yet) = add_element_new e n m in
        omega (arith, ap (sections (add_element e n m).1) new, none_yet)
    | inr old ↦
        let (t, named, same) = add_element_old e n m o old in omega (arith, whole o old, same)
  ]

  -- What is found or built has the last name, and changes no element that was there.
  abbrev pub Built : Memory → Str → ℕ × Memory → Type 0
  Built m n (c, m') =
      (is_element m' c ≡ true) × (get_name m' c ≡ n) × Keeps m m' × (IsWhole m → IsWhole m')

  build_path_lem :
      (ns : List Str) (e : ℕ) (m : Memory)
      → is_element m e ≡ true
      → Built m (last_of (get_name m e) ns) (build_path store ns e m)
  unfolding build_path
  build_path_lem [] e m there = (there, refl, λ o h. (h, refl), λ w. w)
  build_path_lem (n ∷ ns) e m there = elim (Bool-cases (n == get_name m e)) [
    | inl here ↦
        rw (here, build_path)
          (subst (λ k. Built m (last_of k ns) (build_path store ns e m))
            (sym ((==_iff n (get_name m e)).0 here)) (build_path_lem ns e m there))
    | inr below ↦ elim (Option-cases (find_element m e n)) [
      | inr (c, found) ↦
          let (there', named) = find_element-get_name m e n c found in
          rw (below, found, build_path)
            (subst (λ k. Built m (last_of k ns) (build_path store ns c m)) named
              (build_path_lem ns c m there'))
      | inl missing ↦
          let (there', named, bare) = add_element_new e n m in
          let m1 = (add_element e n m).1 in
          let c = (add_element e n m).0 in
          let (alive, last, keeps, wholes) = build_path_lem ns c m1 there' in
          rw (below, missing, build_path)
            (
              alive,
              last ∙ ap (λ k. last_of k ns) named,
              λ o h.
                  (let (s, same) = add_element-Keeps e n m o h in
                    let (s', same') = keeps o s in (s', same' ∙ same)),
              λ w. wholes (add_element-IsWhole e n m w),
            )
    ]
  ]

  pub locate_lem :
      (f : Field) (s : VCard store)
      → is_element s.memory s.elem ≡ true
      → Built s.memory (name_of f) (locate store f s)
  unfolding locate
  locate_lem f s there =
      let (location, numbered, last, listed) = query_of_lem f in
      elim (Option-cases (query (query_of f) s.memory s.elem)) [
        | inr (c, found) ↦
            let (alive, named) = query-get_name (query_of f) s.memory s.elem c location found in
            rw (found, locate) (alive, named, λ o h. (h, refl), λ w. w)
        | inl missing ↦
            rw (missing, locate)
              (subst
                (λ n. Built s.memory n (build_path store (names_of (query_of f)) s.elem s.memory))
                (ap (last_of (get_name s.memory s.elem)) (names_of-location (query_of f) location)
                  ∙ last (get_name s.memory s.elem))
                (build_path_lem (names_of (query_of f)) s.elem s.memory there))
      ]
