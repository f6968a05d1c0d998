-- ===== src/Messages/Times.antt =====
-- The time of a message of src/jabberoo-message.cc.
use jabberoo.Base.{
  Bool, true, false, none, some, [], ◌∷◌, codes, ◌==◌, empty, c_str, ◌≡◌, refl, ap, sym, ◌∙◌, inl,
  inr, find_if, find_if-append, ◌⊎◌,
}
use jabberoo.Judo.{Judo}
use jabberoo.Packet.{get_from, find_x}
use jabberoo.Messages.{Clock, type_of_text, of_element, stamp_now, delay_format}

module _ (judo : Judo) (clock : Clock) where
  open judo use {
    Element, make, text_element, put_attrib, get_attrib, append_child, find_element, get_name,
    get_cdata, get_child_cdata, children, cmp_attrib, update_first, get_name-text_element,
    get_name-make, get_name-put_attrib, get_name-append_child, get_cdata-text_element,
    get_attrib-make, get_attrib-text_element, get_attrib-put_attrib_same,
    get_attrib-put_attrib_other, get_attrib-append_child, children-append_child, children-make,
    children-put_attrib, cmp_attrib-get_attrib, children-update_first,
  }

  abbrev is_delay : Element → Bool
  is_delay it = cmp_attrib it (codes "xmlns") (codes "jabber:x:delay")

  -- What the constructor makes of an element with a stamp.
  of_element_stamped :
      (t x : Element)
      → find_x judo t (codes "jabber:x:delay") ≡ some x
      → empty (get_attrib x (codes "stamp")) ≡ false
      → of_element judo clock t ≡ record {
        base = t;
        type = type_of_text (get_attrib t (codes "type"));
        timestamp = some (clock.time_of_stamp (c_str (get_attrib x (codes "stamp"))));
      }
  unfolding of_element
  of_element_stamped t x found full = rw (of_element, found, full) refl

  of_element_bare :
      (t : Element)
      → find_x judo t (codes "jabber:x:delay") ≡ none
      → of_element judo clock t
        ≡ stamp_now judo clock (type_of_text (get_attrib t (codes "type"))) t
  unfolding of_element
  of_element_bare t missing = rw (of_element, missing) refl

  -- The extension with the current time.
  abbrev delay : Element → Element
  delay t =
      put_attrib
        (put_attrib (put_attrib (make (codes "x")) (codes "xmlns") (codes "jabber:x:delay"))
          (codes "from") (get_attrib t (codes "from")))
        (codes "stamp") (clock.date_text (delay_format judo clock) clock.now)

  delay_lem :
      (t : Element)
      → find_x judo t (codes "jabber:x:delay") ≡ none
      → (find_x judo (append_child t (delay t)) (codes "jabber:x:delay") ≡ some (delay t))
        × (get_attrib (delay t) (codes "stamp")
            ≡ clock.date_text (delay_format judo clock) clock.now)
  unfolding find_x find_if ◌==◌
  delay_lem t missing =
      let ns = codes "jabber:x:delay" in
      let x0 = put_attrib (make (codes "x")) (codes "xmlns") ns in
      let x1 = put_attrib x0 (codes "from") (get_attrib t (codes "from")) in
      let stamp = clock.date_text (delay_format judo clock) clock.now in
      let is : is_delay (delay t) ≡ true =
        cmp_attrib-get_attrib (delay t) (codes "xmlns") ns refl
        ∙ ap (λ s. s == ns)
            (get_attrib-put_attrib_other x1 (codes "stamp") (codes "xmlns") stamp refl
              ∙ get_attrib-put_attrib_other x0 (codes "from") (codes "xmlns")
                  (get_attrib t (codes "from")) refl
              ∙ get_attrib-put_attrib_same (make (codes "x")) (codes "xmlns") ns) in
      (
        ap (find_if is_delay) (children-append_child t (delay t))
            ∙ find_if-append is_delay (children t) (delay t ∷ [])
            ∙ rw (missing, is) refl,
        get_attrib-put_attrib_same x1 (codes "stamp") stamp,
      )

  -- The element that a message is read from has no delay extension, or one with a stamp.
  abbrev pub IsStamped : Element → Type 0
  IsStamped t =
      (find_x judo t (codes "jabber:x:delay") ≡ none)
      ⊎ (x : Element) × (find_x judo t (codes "jabber:x:delay") ≡ some x)
        × (empty (get_attrib x (codes "stamp")) ≡ false)

  -- A message read from an element tells its time in that element: the element, read once more, is
  -- left as it is and has the same type, and its time is read from the stamp that the delay extension
  -- has now. It is stated for an element without a delay extension or with one that has a stamp, and
  -- for a C library that prints the current time as a text that is not empty.
  pub of_element_again :
      (t : Element)
      → IsStamped t
      → empty (clock.date_text (delay_format judo clock) clock.now) ≡ false
      → ((of_element judo clock (of_element judo clock t).base).base
          ≡ (of_element judo clock t).base)
        × ((of_element judo clock (of_element judo clock t).base).type
            ≡ (of_element judo clock t).type)
        × (x : Element) × (find_x judo (of_element judo clock t).base (codes "jabber:x:delay")
            ≡ some x)
        × ((of_element judo clock (of_element judo clock t).base).timestamp
            ≡ some (clock.time_of_stamp (c_str (get_attrib x (codes "stamp")))))
  unfolding stamp_now get_from
  of_element_again t stamped prints =
      let read = of_element judo clock in
      elim stamped [
        | inr (x, found, full) ↦
            let e = of_element_stamped t x found full in
            let same = ap (λ m. m.base) e in
            (
              ap (λ b. (read b).base) same,
              ap (λ b. (read b).type) same,
              x,
              ap (λ b. find_x judo b (codes "jabber:x:delay")) same ∙ found,
              ap (λ b. (read b).timestamp) same ∙ ap (λ m. m.timestamp) e,
            )
        | inl missing ↦
            let e = of_element_bare t missing in
            let more : (read t).base ≡ append_child t (delay t) = ap (λ m. m.base) e in
            let (found, stamp) = delay_lem t missing in
            let again =
              of_element_stamped (append_child t (delay t)) (delay t) found
                (ap empty stamp ∙ prints) in
            (
              ap (λ b. (read b).base) more ∙ ap (λ m. m.base) again ∙ sym more,
              ap (λ b. (read b).type) more
                  ∙ ap (λ m. m.type) again
                  ∙ ap type_of_text (get_attrib-append_child t (delay t) (codes "type"))
                  ∙ sym (ap (λ m. m.type) e),
              delay t,
              ap (λ b. find_x judo b (codes "jabber:x:delay")) more ∙ found,
              ap (λ b. (read b).timestamp) more ∙ ap (λ m. m.timestamp) again,
            )
      ]
