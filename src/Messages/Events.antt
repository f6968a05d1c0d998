-- ===== src/Messages/Events.antt =====
-- The event messages of src/jabberoo-message.cc.
use jabberoo.Base.{
  Str, true, false, none, some, [], ◌∷◌, ◌++◌, codes, if◌then◌else◌, ◌==◌, ==_refl, empty, not, ◌≡◌,
  refl, ap, ◌∙◌, Bool-cases, inl, inr, find_if, find_if-append,
}
use jabberoo.Judo.{Judo}
use jabberoo.Judo.Laws
use jabberoo.Packet.{get_from, get_to, get_id, set_to, find_x}
use jabberoo.Messages.{
  Clock, Message, MessageType, type_text, build, set_type, set_child_text, set_thread, get_body,
  get_thread, event, is_event, delivered, displayed, composing,
}
use jabberoo.Messages.Replies.{started, started_to, started_find, started_text, empty_iff}

module _ (judo : Judo) (clock : Clock) where
  open judo use {
    Element, make, text_element, put_attrib, get_attrib, append_child, find_element, get_name,
    get_cdata, get_child_cdata, children, cmp_attrib, update_first, get_name-text_element,
    get_name-make, get_name-put_attrib, get_name-append_child, get_cdata-text_element,
    get_attrib-make, get_attrib-text_element, get_attrib-put_attrib_same,
    get_attrib-put_attrib_other, get_attrib-append_child, children-append_child, children-make,
    children-put_attrib, cmp_attrib-get_attrib, children-update_first,
  }

  -- The message of an event, before its extension.
  abbrev addressed : Str → MessageType → Str → Element
  addressed to t thread =
      if not (empty thread)
      then append_child (started judo clock to t) (text_element (codes "thread") thread)
      else started judo clock to t

  is_event-text : (n v : Str) → is_event judo clock (text_element n v) ≡ false
  unfolding ◌==◌
  is_event-text n v =
      cmp_attrib-get_attrib (text_element n v) (codes "xmlns") (codes "jabber:x:event") refl
      ∙ ap (λ s. s == codes "jabber:x:event") (get_attrib-text_element n v (codes "xmlns"))

  addressed_lem :
      (to : Str) (t : MessageType) (thread : Str)
      → (get_attrib (addressed to t thread) (codes "to") ≡ to)
        × (get_child_cdata (addressed to t thread) (codes "body") ≡ [])
        × (get_child_cdata (addressed to t thread) (codes "thread") ≡ thread)
        × (find_if (is_event judo clock) (children (addressed to t thread)) ≡ none)
  unfolding ◌==◌ find_if
  addressed_lem to t thread =
      let e = started judo clock to t in
      let c = text_element (codes "thread") thread in
      let none_yet =
        children-put_attrib (put_attrib (make (codes "message")) (codes "to") to) (codes "type")
          (type_text t)
        ∙ children-put_attrib (make (codes "message")) (codes "to") to
        ∙ children-make (codes "message") in
      elim (Bool-cases (empty thread)) [
        | inl bare ↦ rw bare (
          started_to judo clock to t,
          started_text judo clock to t (codes "body"),
          started_text judo clock to t (codes "thread") ∙ empty_iff judo clock thread bare,
          ap (find_if (is_event judo clock)) none_yet,
        )
        | inr full ↦ rw full (
          get_attrib-append_child e c (codes "to") ∙ started_to judo clock to t,
          Laws.get_child_cdata-append_text judo e (codes "thread") thread (codes "body") refl
              ∙ started_text judo clock to t (codes "body"),
          Laws.get_child_cdata-append_text_new judo e (codes "thread") thread
              (==_refl (codes "thread")) (started_find judo clock to t (codes "thread")),
          ap (find_if (is_event judo clock))
                (children-append_child e c ∙ ap (λ xs. xs ++ c ∷ []) none_yet)
              ∙ rw (is_event-text (codes "thread") thread) refl,
        )
      ]

  -- The extension of an event message.
  abbrev extension : Str → Str → Element
  extension name id =
      append_child
        (append_child (put_attrib (make (codes "x")) (codes "xmlns") (codes "jabber:x:event"))
          (make name))
        (text_element (codes "id") id)

  extension_lem :
      (name id : Str)
      → (name == codes "id") ≡ false
      → (is_event judo clock (extension name id) ≡ true)
        × (get_child_cdata (extension name id) (codes "id") ≡ id)
        × (find_element (extension name id) name ≡ some (make name))
  unfolding ◌==◌
  extension_lem name id apart =
      let ns = codes "jabber:x:event" in
      let x0 = put_attrib (make (codes "x")) (codes "xmlns") ns in
      let x1 = append_child x0 (make name) in
      let c = text_element (codes "id") id in
      let bare = λ (n : Str).
        Laws.find_element-put_attrib judo (make (codes "x")) (codes "xmlns") ns n
        ∙ Laws.find_element-make judo (codes "x") n in
      let first = Laws.find_element-append_child judo x0 (make name) in
      (
        cmp_attrib-get_attrib (append_child x1 c) (codes "xmlns") ns refl
            ∙ ap (λ s. s == ns)
                (get_attrib-append_child x1 c (codes "xmlns")
                  ∙ get_attrib-append_child x0 (make name) (codes "xmlns")
                  ∙ get_attrib-put_attrib_same (make (codes "x")) (codes "xmlns") ns),
        Laws.get_child_cdata-append_text_new judo x1 (codes "id") id (==_refl (codes "id"))
            (first (codes "id") ∙ rw (bare (codes "id"), get_name-make name, apart) refl),
        Laws.find_element-append_child judo x1 c name
            ∙ rw (first name, bare name, get_name-make name, ==_refl name) refl,
      )

  extension_name : {name id : Str} → get_name (extension name id) ≡ codes "x"
  extension_name {name} {id} =
      let ns = codes "jabber:x:event" in
      let x0 = put_attrib (make (codes "x")) (codes "xmlns") ns in
      get_name-append_child (append_child x0 (make name)) (text_element (codes "id") id)
      ∙ get_name-append_child x0 (make name)
      ∙ get_name-put_attrib (make (codes "x")) (codes "xmlns") ns
      ∙ get_name-make (codes "x")

  event_parts :
      (name : Str) (m : Message judo clock)
      → ((event judo clock name m).base
          ≡ append_child
              (addressed
                (get_attrib m.base (codes "from"))
                m.type
                (get_child_cdata m.base (codes "thread")))
              (extension name (get_attrib m.base (codes "id"))))
        × ((event judo clock name m).type ≡ m.type)
  unfolding event get_from get_id set_to get_thread set_type set_thread set_child_text build
  event_parts name m =
      let thread = get_child_cdata m.base (codes "thread") in
      let e = started judo clock (get_attrib m.base (codes "from")) m.type in
      let missing =
        started_find judo clock (get_attrib m.base (codes "from")) m.type (codes "thread") in
      let added : set_child_text judo clock (codes "thread") thread e
          ≡ append_child e (text_element (codes "thread") thread) =
        rw (set_child_text, missing) refl in
      elim (Bool-cases (empty thread)) [
        | inl bare ↦ rw bare (refl, refl)
        | inr full ↦
            rw full (
              ap (λ b. append_child b (extension name (get_attrib m.base (codes "id")))) added,
              refl,
            )
      ]

  -- What the message says: that this happened to the other one.
  abbrev pub Tells : Str → Message judo clock → Message judo clock → Type 0
  Tells name m told =
      (get_to judo told.base ≡ get_from judo m.base)
      × (told.type ≡ m.type)
      × (get_body judo clock told ≡ [])
      × (get_thread judo clock told ≡ get_thread judo clock m)
      × (x : Element) × (find_x judo told.base (codes "jabber:x:event") ≡ some x)
      × (find_element x name ≡ some (make name))
      × (get_child_cdata x (codes "id") ≡ get_id judo m.base)

  event-Tells :
      (name : Str) (m : Message judo clock)
      → (name == codes "id") ≡ false
      → Tells name m (event judo clock name m)
  unfolding get_to get_from get_id get_body get_thread find_x find_if ◌==◌
  event-Tells name m apart =
      let to = get_attrib m.base (codes "from") in
      let thread = get_child_cdata m.base (codes "thread") in
      let id = get_attrib m.base (codes "id") in
      let e = addressed to m.type thread in
      let x = extension name id in
      let (base, type) = event_parts name m in
      let (h0, h1, h2, h3) = addressed_lem to m.type thread in
      let (k0, k1, k2) = extension_lem name id apart in
      let behind = λ (n : Str) (no : (codes "x" == n) ≡ false).
        Laws.get_child_cdata-append_other judo e x n (ap (λ s. s == n) extension_name ∙ no) in
      (
        ap (λ b. get_attrib b (codes "to")) base ∙ get_attrib-append_child e x (codes "to") ∙ h0,
        type,
        ap (λ b. get_child_cdata b (codes "body")) base ∙ behind (codes "body") refl ∙ h1,
        ap (λ b. get_child_cdata b (codes "thread")) base ∙ behind (codes "thread") refl ∙ h2,
        x,
        ap (λ b. find_if (is_event judo clock) (children b)) base
            ∙ ap (find_if (is_event judo clock)) (children-append_child e x)
            ∙ find_if-append (is_event judo clock) (children e) (x ∷ [])
            ∙ rw (h3, k0) refl,
        k2,
        k1,
      )

  -- The event messages delivered, displayed and composing go to the sender of the message, have its
  -- type and its thread and no body. The extension that a search for jabber:x:event finds in them has
  -- the id of the message and an empty element: <delivered/>, <displayed/> and <composing/>, each the
  -- name of its function.
  pub event_lem :
      (m : Message judo clock)
      → Tells (codes "delivered") m (delivered judo clock m)
        × Tells (codes "displayed") m (displayed judo clock m)
        × Tells (codes "composing") m (composing judo clock m)
  unfolding delivered displayed composing ◌==◌
  event_lem m = (
    event-Tells (codes "delivered") m refl,
    event-Tells (codes "displayed") m refl,
    event-Tells (codes "composing") m refl,
  )
