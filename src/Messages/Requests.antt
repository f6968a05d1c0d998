-- ===== src/Messages/Requests.antt =====
-- The requests for events of src/jabberoo-message.cc.
use jabberoo.Base.{
  Str, true, none, some, [], ◌∷◌, codes, ◌==◌, ==_refl, ◌≡◌, refl, ap, sym, ◌∙◌, Option-cases, inl,
  inr, find_if, find_if-append, find_if-map_first,
}
use jabberoo.Judo.{Judo}
use jabberoo.Packet.{find_x}
use jabberoo.Messages.{Clock, Message, request, is_event}

module _ (judo : Judo) (clock : Clock) where
  open judo use {
    Element, make, text_element, put_attrib, get_attrib, append_child, find_element, get_name,
    get_cdata, get_child_cdata, children, cmp_attrib, update_first, get_name-text_element,
    get_name-make, get_name-put_attrib, get_name-append_child, get_cdata-text_element,
    get_attrib-make, get_attrib-text_element, get_attrib-put_attrib_same,
    get_attrib-put_attrib_other, get_attrib-append_child, children-append_child, children-make,
    children-put_attrib, cmp_attrib-get_attrib, children-update_first,
  }

  -- The extension for a new request.
  abbrev pub new_extension : Element
  new_extension = put_attrib (make (codes "x")) (codes "xmlns") (codes "jabber:x:event")

  is_event-append : (x c : Element) → is_event judo clock (append_child x c) ≡ is_event judo clock x
  unfolding ◌==◌
  is_event-append x c =
      let ns = codes "jabber:x:event" in
      cmp_attrib-get_attrib (append_child x c) (codes "xmlns") ns refl
      ∙ ap (λ s. s == ns) (get_attrib-append_child x c (codes "xmlns"))
      ∙ sym (cmp_attrib-get_attrib x (codes "xmlns") ns refl)

  is_event-new : is_event judo clock new_extension ≡ true
  is_event-new =
      let ns = codes "jabber:x:event" in
      cmp_attrib-get_attrib new_extension (codes "xmlns") ns refl
      ∙ ap (λ s. s == ns) (get_attrib-put_attrib_same (make (codes "x")) (codes "xmlns") ns)
      ∙ ==_refl ns

  -- After a request for an event, delivered, displayed or composing, a search for jabber:x:event finds
  -- what it found before, or else a new extension, with one more child of the event's name behind its
  -- children: requests made before are kept.
  pub find_x-request :
      (name : Str) (m : Message judo clock)
      → find_x judo (request judo clock name m).base (codes "jabber:x:event")
        ≡ elim (find_x judo m.base (codes "jabber:x:event")) [
          | some x ↦ some (append_child x (make name))
          | none ↦ some (append_child new_extension (make name))
        ]
  unfolding request find_x find_if
  find_x-request name m =
      let p = is_event judo clock in
      let f = λ (x : Element). append_child x (make name) in
      let new = append_child new_extension (make name) in
      elim (Option-cases (find_if p (children m.base))) [
        | inl missing ↦
            let base : (request judo clock name m).base ≡ append_child m.base new =
              rw (request, find_x, missing) refl in
            rw missing (
              ap (λ b. find_if p (children b)) base
              ∙ ap (find_if p) (children-append_child m.base new)
              ∙ find_if-append p (children m.base) (new ∷ [])
              ∙ rw (missing, is_event-append new_extension (make name), is_event-new) refl)
        | inr (x, found) ↦
            let base : (request judo clock name m).base ≡ update_first p f m.base =
              rw (request, find_x, found) refl in
            rw found (
              ap (λ b. find_if p (children b)) base
              ∙ ap (find_if p) (children-update_first p f m.base)
              ∙ find_if-map_first p f (children m.base) (λ x h. is_event-append x (make name) ∙ h)
              ∙ rw found refl)
      ]
