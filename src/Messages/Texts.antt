-- ===== src/Messages/Texts.antt =====
-- The texts of a message of src/jabberoo-message.cc, and what its constructors keep.
use jabberoo.Base.{
  Str, true, false, none, some, codes, if◌then◌else◌, ◌==◌, ==_iff, ==_refl, ◌≡◌, refl, ap, sym,
  ◌∙◌, arith, Option-cases, inl, inr, find_if, find_if-map_first, find_if-map_first_other,
}
use jabberoo.Judo.{Judo}
use jabberoo.Judo.Laws
use jabberoo.Judo.Laws.{find_element-append_child}
use jabberoo.Messages.{
  Clock, Message, MessageType, normal, error, chat, groupchat, headline, type_text, type_of_text,
  set_child_text, set_body, get_body, get_subject, get_thread,
}

-- Reading the text of a type gives back the type.
pub type_of_text-type_text : (t : MessageType) → type_of_text (type_text t) ≡ t
unfolding type_of_text type_text ◌==◌
type_of_text-type_text normal = refl
type_of_text-type_text error = refl
type_of_text-type_text chat = refl
type_of_text-type_text groupchat = refl
type_of_text-type_text headline = refl

module _ (judo : Judo) (clock : Clock) where
  open judo use {
    Element, get_attrib, get_attrib-append_child, get_attrib-update_first, text_element,
    append_child, find_element, get_name, get_cdata, has_cdata, set_texts, update_first,
    get_child_cdata, children, children-update_first, find_element-children,
    get_child_cdata-find_element, get_name-set_texts, get_cdata-set_texts, get_name-text_element,
    get_cdata-text_element,
  }

  -- What the child of that name says afterwards.
  pub set_child_text_lem :
      (name text : Str) (e : Element)
      → get_child_cdata (set_child_text judo clock name text e) name ≡ elim (find_element e name) [
        | none ↦ text
        | some c ↦ if has_cdata c then text else get_cdata c
      ]
  unfolding set_child_text
  set_child_text_lem name text e = elim (Option-cases (find_element e name)) [
    | inl missing ↦
        rw (set_child_text, missing)
          (get_child_cdata-find_element (append_child e (text_element name text)) name
            ∙ ground (
              arith,
              find_element-append_child judo e (text_element name text) name,
              get_name-text_element name text,
              get_cdata-text_element name text,
              ==_refl name,
              missing,
            ))
    | inr (c, there) ↦
        let p = λ (c : Element). get_name c == name in
        let f = λ (c : Element). set_texts c text in
        let found =
          find_element-children (update_first p f e) name
          ∙ ap (find_if p) (children-update_first p f e)
          ∙ find_if-map_first p f (children e)
              (λ x h. ap (λ n. n == name) (get_name-set_texts x text) ∙ h)
          ∙ ap (λ o. elim o [ none ↦ none | some x ↦ some (f x) ])
              (sym (find_element-children e name) ∙ there) in
        rw (set_child_text, there)
          (get_child_cdata-find_element (update_first p f e) name
            ∙ rw found (get_cdata-set_texts c text))
  ]

  differs :
      (name text other : Str)
      → (name == other) ≡ false
      → (x : Element) → (get_name x == name) ≡ true
      → ((get_name x == other) ≡ false) × ((get_name (set_texts x text) == other) ≡ false)
  differs name text other apart x h =
      let at = (==_iff (get_name x) name).0 h in
      let no = ap (λ n. n == other) at ∙ apart in
      (no, ap (λ n. n == other) (get_name-set_texts x text) ∙ no)

  pub set_child_text_other :
      (name text other : Str) (e : Element)
      → (name == other) ≡ false
      → get_child_cdata (set_child_text judo clock name text e) other ≡ get_child_cdata e other
  unfolding set_child_text
  set_child_text_other name text other e apart = elim (Option-cases (find_element e name)) [
    | inl missing ↦
        rw (set_child_text, missing) (Laws.get_child_cdata-append_text judo e name text other apart)
    | inr (c, there) ↦
        let p = λ (c : Element). get_name c == name in
        let q = λ (c : Element). get_name c == other in
        let f = λ (c : Element). set_texts c text in
        let found =
          find_element-children (update_first p f e) other
          ∙ ap (find_if q) (children-update_first p f e)
          ∙ find_if-map_first_other p q f (children e) (differs name text other apart)
          ∙ sym (find_element-children e other) in
        rw (set_child_text, there)
          (get_child_cdata-find_element (update_first p f e) other
            ∙ rw found (sym (get_child_cdata-find_element e other)))
  ]

  -- After setBody the body is the new text, where the message had no body or one with text; a body
  -- without text stays as it is. The subject and the thread are as before.
  pub set_body_lem :
      (body : Str) (m : Message judo clock)
      → (get_body judo clock (set_body judo clock body m)
          ≡ elim (find_element m.base (codes "body")) [
            | none ↦ body
            | some c ↦ if has_cdata c then body else get_cdata c
          ])
        × (get_subject judo clock (set_body judo clock body m) ≡ get_subject judo clock m)
        × (get_thread judo clock (set_body judo clock body m) ≡ get_thread judo clock m)
  unfolding get_body get_subject get_thread set_body ◌==◌
  set_body_lem body m = (
    set_child_text_lem (codes "body") body m.base,
    set_child_text_other (codes "body") body (codes "subject") m.base refl,
    set_child_text_other (codes "body") body (codes "thread") m.base refl,
  )

  -- setThread and its kin leave the attributes as they are.
  pub get_attrib-set_child_text :
      (name text key : Str) (e : Element)
      → get_attrib (set_child_text judo clock name text e) key ≡ get_attrib e key
  unfolding set_child_text
  get_attrib-set_child_text name text key e = elim (Option-cases (find_element e name)) [
    | inl missing ↦
        rw (set_child_text, missing) (get_attrib-append_child e (text_element name text) key)
    | inr (c, there) ↦
        rw (set_child_text, there)
          (get_attrib-update_first (λ c. get_name c == name) (λ c. set_texts c text) e key)
  ]
