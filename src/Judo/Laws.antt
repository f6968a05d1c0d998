-- ===== src/Judo/Laws.antt =====
-- Consequences of the laws of libjudo: what a search for a child finds in an element that is
-- being put together.
use jabberoo.Base.{
  Str, true, false, none, some, [], ◌∷◌, ◌≡◌, refl, sym, ap, ◌∙◌, find_if, ◌==◌, find_if-append,
  if◌then◌else◌, arith,
}
use jabberoo.Judo.{Judo}

module _ (judo : Judo) where
  open judo use {
    Element, make, text_element, get_name, get_attrib, put_attrib, append_child, find_element,
    children, get_child_cdata, get_cdata, find_element-children, children-append_child,
    children-put_attrib, children-make, get_name-text_element, get_cdata-text_element,
    get_child_cdata-find_element,
  }

  pub find_element-append_child :
      (e c : Element) (n : Str)
      → find_element (append_child e c) n ≡ elim (find_element e n) [
        | some x ↦ some x
        | none ↦ if get_name c == n then some c else none
      ]
  unfolding find_if
  find_element-append_child e c n =
      rw
        (
          find_element-children (append_child e c) n,
          find_element-children e n,
          children-append_child,
        )
        (find_if-append (λ c. get_name c == n) (children e) (c ∷ []))

  pub find_element-put_attrib :
      (e : Element) (k v n : Str) → find_element (put_attrib e k v) n ≡ find_element e n
  find_element-put_attrib e k v n =
      rw
        (find_element-children (put_attrib e k v) n, find_element-children e n, children-put_attrib)

  pub find_element-make : (m n : Str) → find_element (make m) n ≡ none
  unfolding find_if
  find_element-make m n = rw (find_element-children, children-make)

  -- The text of a child, behind one more child with a text.
  pub get_child_cdata-append_text :
      (e : Element) (m v n : Str)
      → (m == n) ≡ false
      → get_child_cdata (append_child e (text_element m v)) n ≡ get_child_cdata e n
  get_child_cdata-append_text e m v n h = ground (
    arith,
    get_child_cdata-find_element (append_child e (text_element m v)) n,
    get_child_cdata-find_element e n,
    find_element-append_child e (text_element m v) n,
    get_name-text_element m v,
  )

  pub get_child_cdata-append_text_new :
      (e : Element) (m v : Str)
      → (m == m) ≡ true
      → find_element e m ≡ none
      → get_child_cdata (append_child e (text_element m v)) m ≡ v
  get_child_cdata-append_text_new e m v r h = ground (
    arith,
    get_child_cdata-find_element (append_child e (text_element m v)) m,
    find_element-append_child e (text_element m v) m,
    get_name-text_element m v,
    get_cdata-text_element m v,
  )

  pub get_child_cdata-put_attrib :
      (e : Element) (k v n : Str) → get_child_cdata (put_attrib e k v) n ≡ get_child_cdata e n
  get_child_cdata-put_attrib e k v n =
      get_child_cdata-find_element (put_attrib e k v) n
      ∙ ap (λ o. elim o [ none ↦ [] | some c ↦ get_cdata c ]) (find_element-put_attrib e k v n)
      ∙ sym (get_child_cdata-find_element e n)

  pub get_child_cdata-make : (m n : Str) → get_child_cdata (make m) n ≡ []
  get_child_cdata-make m n =
      rw (get_child_cdata-find_element (make m) n, find_element-make m n) refl

  -- The text of a child, behind one more child of another name.
  pub get_child_cdata-append_other :
      (e c : Element) (n : Str)
      → (get_name c == n) ≡ false
      → get_child_cdata (append_child e c) n ≡ get_child_cdata e n
  get_child_cdata-append_other e c n h = ground (
    arith,
    get_child_cdata-find_element (append_child e c) n,
    get_child_cdata-find_element e n,
    find_element-append_child e c n,
  )
