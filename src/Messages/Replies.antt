-- ===== src/Messages/Replies.antt =====
-- What the constructors and the answers of src/jabberoo-message.cc keep.
use jabberoo.Base.{
  Str, true, none, [], ◌∷◌, codes, ◌==◌, ==_refl, empty, ◌≡◌, refl, ◌∙◌, Bool-cases, inl, inr,
}
use jabberoo.Judo.{Judo}
use jabberoo.Judo.Laws
use jabberoo.Packet.{get_from, get_to, set_to}
use jabberoo.Messages.{
  Clock, Message, MessageType, type_text, set_type, get_body, get_thread, reply_to,
}

module _ (judo : Judo) (clock : Clock) where
  open judo use {
    Element, make, text_element, put_attrib, get_attrib, append_child, find_element, get_name,
    get_cdata, has_cdata, get_child_cdata, children, cmp_attrib, update_first,
    get_name-text_element, get_name-make, get_name-put_attrib, get_name-append_child,
    get_cdata-text_element, get_attrib-make, get_attrib-put_attrib_same,
    get_attrib-put_attrib_other, get_attrib-append_child, children-append_child, children-make,
    children-put_attrib, cmp_attrib-get_attrib, children-update_first,
  }

  -- A new message, before it has children.
  abbrev pub started : Str → MessageType → Element
  started to t =
      put_attrib (put_attrib (make (codes "message")) (codes "to") to) (codes "type") (type_text t)

  pub started_to : (to : Str) (t : MessageType) → get_attrib (started to t) (codes "to") ≡ to
  unfolding ◌==◌
  started_to to t =
      get_attrib-put_attrib_other (put_attrib (make (codes "message")) (codes "to") to)
        (codes "type") (codes "to") (type_text t) refl
      ∙ get_attrib-put_attrib_same (make (codes "message")) (codes "to") to

  pub started_type :
      (to : Str) (t : MessageType) → get_attrib (started to t) (codes "type") ≡ type_text t
  started_type to t =
      get_attrib-put_attrib_same (put_attrib (make (codes "message")) (codes "to") to)
        (codes "type") (type_text t)

  pub started_find : (to : Str) (t : MessageType) (n : Str) → find_element (started to t) n ≡ none
  started_find to t n =
      Laws.find_element-put_attrib judo (put_attrib (make (codes "message")) (codes "to") to)
        (codes "type") (type_text t) n
      ∙ Laws.find_element-put_attrib judo (make (codes "message")) (codes "to") to n
      ∙ Laws.find_element-make judo (codes "message") n

  pub started_text : (to : Str) (t : MessageType) (n : Str) → get_child_cdata (started to t) n ≡ []
  started_text to t n =
      Laws.get_child_cdata-put_attrib judo (put_attrib (make (codes "message")) (codes "to") to)
        (codes "type") (type_text t) n
      ∙ Laws.get_child_cdata-put_attrib judo (make (codes "message")) (codes "to") to n
      ∙ Laws.get_child_cdata-make judo (codes "message") n

  -- A message with a body.
  abbrev pub embodied : Str → MessageType → Str → Element
  embodied to t body = append_child (started to t) (text_element (codes "body") body)

  pub embodied_lem :
      (to : Str) (t : MessageType) (body : Str)
      → (get_attrib (embodied to t body) (codes "to") ≡ to)
        × (get_attrib (embodied to t body) (codes "type") ≡ type_text t)
        × (get_child_cdata (embodied to t body) (codes "body") ≡ body)
        × (get_child_cdata (embodied to t body) (codes "thread") ≡ [])
        × (find_element (embodied to t body) (codes "thread") ≡ none)
  unfolding ◌==◌
  embodied_lem to t body =
      let c = text_element (codes "body") body in
      let e = started to t in
      (
        get_attrib-append_child e c (codes "to") ∙ started_to to t,
        get_attrib-append_child e c (codes "type") ∙ started_type to t,
        Laws.get_child_cdata-append_text_new judo e (codes "body") body (==_refl (codes "body"))
            (started_find to t (codes "body")),
        Laws.get_child_cdata-append_text judo e (codes "body") body (codes "thread") refl
            ∙ started_text to t (codes "thread"),
        Laws.find_element-append_child judo e c (codes "thread")
            ∙ rw (started_find to t (codes "thread"), get_name-text_element (codes "body") body)
                refl,
      )

  pub empty_iff : (s : Str) → empty s ≡ true → [] ≡ s
  empty_iff [] h = refl
  empty_iff (x ∷ s) h = cc

  -- A reply goes to the sender of the message, has its type and its thread, and the body given.
  pub reply_to_lem :
      (body : Str) (m : Message judo clock)
      → (get_to judo (reply_to judo clock body m).base ≡ get_from judo m.base)
        × ((reply_to judo clock body m).type ≡ m.type)
        × (get_attrib (reply_to judo clock body m).base (codes "type") ≡ type_text m.type)
        × (get_body judo clock (reply_to judo clock body m) ≡ body)
        × (get_thread judo clock (reply_to judo clock body m) ≡ get_thread judo clock m)
  unfolding reply_to get_to get_from set_to get_body get_thread set_type ◌==◌
  reply_to_lem body m =
      let to = get_attrib m.base (codes "from") in
      let thread = get_child_cdata m.base (codes "thread") in
      let e = embodied to m.type body in
      let c = text_element (codes "thread") thread in
      let (h0, h1, h2, h3, h4) = embodied_lem to m.type body in
      elim (Bool-cases (empty thread)) [
        | inl bare ↦ rw bare (h0, refl, h1, h2, h3 ∙ empty_iff thread bare)
        | inr full ↦ rw full (
          get_attrib-append_child e c (codes "to") ∙ h0,
          refl,
          get_attrib-append_child e c (codes "type") ∙ h1,
          Laws.get_child_cdata-append_text judo e (codes "thread") thread (codes "body") refl ∙ h2,
          Laws.get_child_cdata-append_text_new judo e (codes "thread") thread
              (==_refl (codes "thread")) h4,
        )
      ]
