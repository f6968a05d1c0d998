-- ===== src/VCards.antt =====
-- src/jabberoox-vcard.cc and include/vCard.h: a card whose fields are entries that stand for elements
-- of its tree. The tree is a store of objects by address, with the operations of libjudo that the code
-- calls, a parameter; the elements of a card are copied into the store before the card is made.
pub mod Paths
pub mod Fields
pub mod Texts
pub mod Reached
use jabberoo.Base.{
  Str, Bool, true, false, Option, none, some, List, [], ◌∷◌, ℕ, ◌≡◌, ◌⊎◌, ◌≤◌, codes, if◌then◌else◌,
  ◌==◌, nat_eq, ltb, leb, drop, ◌||◌, ◌&&◌,
}

pub data Field : Type 0 where
  first_name middle_name last_name full_name nickname email birthday telephone url description :
      Field
  street street2 city state pcode country org_name org_unit personal_title personal_role : Field

-- `_queries`
unfoldable pub query_of : Field → Str
query_of first_name = codes "/vCard/N/GIVEN"
query_of middle_name = codes "/vCard/N/MIDDLE"
query_of last_name = codes "/vCard/N/FAMILY"
query_of full_name = codes "/vCard/FN"
query_of nickname = codes "/vCard/NICKNAME"
query_of email = codes "/vCard/EMAIL"
query_of birthday = codes "/vCard/BDAY"
query_of telephone = codes "/vCard/TEL"
query_of url = codes "/vCard/URL"
query_of description = codes "/vCard/DESC"
query_of street = codes "/vCard/ADR/STREET"
query_of street2 = codes "/vCard/ADR/EXTADD"
query_of city = codes "/vCard/ADR/LOCALITY"
query_of state = codes "/vCard/ADR/REGION"
query_of pcode = codes "/vCard/ADR/PCODE"
query_of country = codes "/vCard/ADR/COUNTRY"
query_of org_name = codes "/vCard/ORG/ORGNAME"
query_of org_unit = codes "/vCard/ORG/ORGUNIT"
query_of personal_title = codes "/vCard/TITLE"
query_of personal_role = codes "/vCard/ROLE"

-- The place of a field in the enumeration, by which std::map orders it.
unfoldable pub number : Field → ℕ
number first_name = 0
number middle_name = 1
number last_name = 2
number full_name = 3
number nickname = 4
number email = 5
number birthday = 6
number telephone = 7
number url = 8
number description = 9
number street = 10
number street2 = 11
number city = 12
number state = 13
number pcode = 14
number country = 15
number org_name = 16
number org_unit = 17
number personal_title = 18
number personal_role = 19

-- Entry: the address of its element, and `_data`
pub record Entry : Type 0 where
  pub elem : ℕ
  pub text : Str

-- What lies between the slashes of a text.
abbrev pub between_slashes : Str → List Str
between_slashes [] = [] ∷ []
between_slashes (c ∷ cs) =
    let rest = between_slashes cs in
    elim (nat_eq c b'/') [
      | true ↦ [] ∷ rest
      | false ↦ elim rest [ [] ↦ (c ∷ []) ∷ [] | n ∷ ns ↦ (c ∷ n) ∷ ns ]
    ]

-- Letters and slashes alone.
abbrev pub plain : Str → Bool
plain [] = true
plain (d ∷ ds) =
    (nat_eq d b'/' || (leb b'A' d && leb d b'Z') || (leb b'a' d && leb d b'z')) && plain ds

-- A query of names and slashes, from the root.
abbrev pub is_location : Str → Bool
is_location [] = false
is_location (c ∷ cs) = nat_eq c b'/' && plain cs

abbrev pub last_of : Str → List Str → Str
last_of n [] = n
last_of n (k ∷ ks) = last_of k ks

-- Elements of libjudo as objects, and its XPath queries.
pub record Store : Type 1 where
  pub Memory : Type 0
  pub is_element : Memory → ℕ → Bool
  pub get_name : Memory → ℕ → Str
  -- the text of the first section of text, and the number of sections
  pub get_cdata : Memory → ℕ → Str
  pub sections : Memory → ℕ → ℕ
  pub find_element : Memory → ℕ → Str → Option ℕ
  pub add_element : ℕ → Str → Memory → ℕ × Memory
  -- erase at the place of the first section, if there is one
  pub erase_cdata : ℕ → Memory → Memory
  -- addCDATA of a text that is said to be escaped
  pub add_cdata : ℕ → Str → Memory → Memory
  pub unescape : Str → Str
  pub to_string : Memory → ℕ → Str
  -- the first element that a query finds, and the values of its operations of type OP_NODE
  pub query : Str → Memory → ℕ → Option ℕ
  pub names_of : Str → List Str
  pub find_element-get_name :
      (m : Memory) (e : ℕ) (n : Str) (c : ℕ)
      → find_element m e n ≡ some c
      → (is_element m c ≡ true) × (get_name m c ≡ n)
  -- A query of names and slashes follows the names.
  pub names_of-location : (q : Str) → is_location q ≡ true → names_of q ≡ drop 1 (between_slashes q)
  pub query-get_name :
      (q : Str) (m : Memory) (e c : ℕ)
      → is_location q ≡ true
      → query q m e ≡ some c
      → (is_element m c ≡ true) × (get_name m c ≡ last_of [] (between_slashes q))
  -- A new element has a new address, the name, and no text.
  pub add_element_new :
      (e : ℕ) (n : Str) (m : Memory)
      → (is_element (add_element e n m).1 (add_element e n m).0 ≡ true)
        × (get_name (add_element e n m).1 (add_element e n m).0 ≡ n)
        × (sections (add_element e n m).1 (add_element e n m).0 ≡ 0)
  pub add_element_old :
      (e : ℕ) (n : Str) (m : Memory) (o : ℕ)
      → is_element m o ≡ true
      → (is_element (add_element e n m).1 o ≡ true)
        × (get_name (add_element e n m).1 o ≡ get_name m o)
        × (sections (add_element e n m).1 o ≡ sections m o)
  pub add_element_only :
      (e : ℕ) (n : Str) (m : Memory) (o : ℕ)
      → is_element (add_element e n m).1 o ≡ true
      → (o ≡ (add_element e n m).0) ⊎ (is_element m o ≡ true)
  -- Text changes leave the elements, their names, and the text of other elements.
  pub get_name-erase_cdata :
      (e : ℕ) (m : Memory) (o : ℕ) → get_name (erase_cdata e m) o ≡ get_name m o
  pub get_name-add_cdata :
      (e : ℕ) (d : Str) (m : Memory) (o : ℕ) → get_name (add_cdata e d m) o ≡ get_name m o
  pub is_element-erase_cdata :
      (e : ℕ) (m : Memory) (o : ℕ) → is_element (erase_cdata e m) o ≡ is_element m o
  pub is_element-add_cdata :
      (e : ℕ) (d : Str) (m : Memory) (o : ℕ) → is_element (add_cdata e d m) o ≡ is_element m o
  pub erase_cdata_other :
      (e : ℕ) (m : Memory) (o : ℕ)
      → nat_eq e o ≡ false
      → (get_cdata (erase_cdata e m) o ≡ get_cdata m o)
        × (sections (erase_cdata e m) o ≡ sections m o)
  pub add_cdata_other :
      (e : ℕ) (d : Str) (m : Memory) (o : ℕ)
      → nat_eq e o ≡ false
      → (get_cdata (add_cdata e d m) o ≡ get_cdata m o)
        × (sections (add_cdata e d m) o ≡ sections m o)
  pub sections-erase_cdata :
      (e : ℕ) (m : Memory) → sections m e ≤ 1 → sections (erase_cdata e m) e ≡ 0
  -- Text that is added to an element without a section makes one.
  pub get_cdata-add_cdata :
      (e : ℕ) (d : Str) (m : Memory)
      → is_element m e ≡ true
      → sections m e ≡ 0
      → (get_cdata (add_cdata e d m) e ≡ unescape d) × (sections (add_cdata e d m) e ≡ 1)

module _ {ℓ} {V : Type ℓ} where
  unfoldable pub find : Field → List (Field × V) → Option V
  find f [] = none
  find f ((g, v) ∷ m) = if nat_eq (number g) (number f) then some v else find f m

  -- `m[f] = v` for a field that is not there: before the first field behind it
  unfoldable pub place : Field → V → List (Field × V) → List (Field × V)
  place f v [] = (f, v) ∷ []
  place f v ((g, w) ∷ m) =
      if ltb (number f) (number g) then (f, v) ∷ (g, w) ∷ m else (g, w) ∷ place f v m

-- operator= of the entry of a field
unfoldable pub write_text : Field → Str → List (Field × Entry) → List (Field × Entry)
write_text f v [] = []
write_text f v ((g, x) ∷ m) =
    (g, if nat_eq (number g) (number f) then record x { text = v } else x) ∷ write_text f v m

module _ (store : Store) where
  open store use {
    Memory, get_name, get_cdata, find_element, add_element, erase_cdata, add_cdata, to_string,
    query, names_of,
  }

  pub record VCard : Type 0 where
    pub memory : Memory
    pub elem : ℕ
    pub entries : List (Field × Entry)

  -- vCard(elem), of the copy at an address
  unfoldable pub new_card : Memory → ℕ → VCard
  new_card m e = record { memory = m; elem = e; entries = [] }

  -- The loop over the names of a query that found nothing.
  unfoldable pub build_path : List Str → ℕ → Memory → ℕ × Memory
  build_path [] e m = (e, m)
  build_path (n ∷ ns) e m = elim (n == get_name m e) [
    | true ↦ build_path ns e m
    | false ↦ elim (find_element m e n) [
      | some c ↦ build_path ns c m
      | none ↦ build_path ns (add_element e n m).0 (add_element e n m).1
    ]
  ]

  -- The element of a field, found or built.
  unfoldable pub locate : Field → VCard → ℕ × Memory
  unfolding query_of build_path
  locate f s = elim (query (query_of f) s.memory s.elem) [
    | some e ↦ (e, s.memory)
    | none ↦ build_path (names_of (query_of f)) s.elem s.memory
  ]

  -- operator[]
  unfoldable pub entry_of : Field → VCard → Entry × VCard
  unfolding find place locate
  entry_of f s = elim (find f s.entries) [
    | some x ↦ (x, s)
    | none ↦
        let found = locate f s in
        let x : Entry = record { elem = found.0; text = get_cdata found.1 found.0 } in
        (x, record s { memory = found.1; entries = place f x s.entries })
  ]

  -- card[f] = v
  unfoldable pub assign : Field → Str → VCard → VCard
  unfolding entry_of write_text
  assign f v s = let s1 = (entry_of f s).1 in record s1 { entries = write_text f v s1.entries }

  -- Entry::update
  unfoldable pub update : Entry → Memory → Memory
  update x m = add_cdata x.elem x.text (erase_cdata x.elem m)

  unfoldable pub update_all : List (Field × Entry) → Memory → Memory
  unfolding update
  update_all [] m = m
  update_all ((f, x) ∷ l) m = update_all l (update x m)

  unfoldable pub get_base_element : VCard → ℕ × VCard
  unfolding update_all
  get_base_element s = (s.elem, record s { memory = update_all s.entries s.memory })

  unfoldable pub card_text : VCard → Str × VCard
  unfolding update_all
  card_text s =
      let m = update_all s.entries s.memory in (to_string m s.elem, record s { memory = m })
