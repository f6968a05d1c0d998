-- ===== src/Presence/Build.antt =====
-- A presence packet that was built from its parts, read back. The code is
-- src/jabberoo-presence.cc.
use jabberoo.Base.{
  Str, Bool, false, none, [], codes, if◌then◌else◌, ◌==◌, ==_iff, ==_refl, empty, not, ◌≡◌, refl,
  arith, Bool-cases, inl, inr, sym, ◌∙◌, ap,
}
use jabberoo.Base.Int.{negsuc, atoi}
use jabberoo.Judo.{Judo}
use jabberoo.Judo.Laws.{
  find_element-append_child, find_element-put_attrib, find_element-make,
  get_child_cdata-append_text, get_child_cdata-append_text_new,
}
use jabberoo.Packet.{get_to}
use jabberoo.Presence.{
  PresenceType, Show, Presence, available, build, of_element, set_type, blank, get_status,
  get_priority, type_text, type_of_text, show_text, show_of_text, is_unavailable, above_online,
}
use jabberoo.Presence.Texts.{empty_iff, type_of_text-type_text}

module _ (judo : Judo) where
  open judo use {
    Element, make, text_element, get_attrib, put_attrib, append_child, find_element,
    get_child_cdata, children, get_attrib-make, get_attrib-put_attrib_same,
    get_attrib-put_attrib_other, get_attrib-append_child, get_name-text_element,
    get_child_cdata-find_element,
  }

  -- An element with one more text child, where the condition asks for it.
  abbrev with_text : Bool → Element → Str → Str → Element
  with_text b e n v = if b then append_child e (text_element n v) else e

  get_attrib-with_text :
      (b : Bool) (e : Element) (n v k : Str) → get_attrib (with_text b e n v) k ≡ get_attrib e k
  get_attrib-with_text b e n v k = ground (arith, get_attrib-append_child e (text_element n v) k)

  get_child_cdata-with_text :
      (b : Bool) (e : Element) (m v n : Str)
      → (m == n) ≡ false
      → get_child_cdata (with_text b e m v) n ≡ get_child_cdata e n
  get_child_cdata-with_text b e m v n h = ground (arith, get_child_cdata-append_text judo e m v n h)

  find_element-with_text :
      (b : Bool) (e : Element) (m v n : Str)
      → (m == n) ≡ false
      → find_element (with_text b e m v) n ≡ find_element e n
  find_element-with_text b e m v n h =
      ground
        (arith, find_element-append_child judo e (text_element m v) n, get_name-text_element m v)

  get_child_cdata-with_text_same :
      (b : Bool) (e : Element) (m v : Str)
      → find_element e m ≡ none
      → get_child_cdata (with_text b e m v) m ≡ (if b then v else [])
  get_child_cdata-with_text_same b e m v h = ground (
    arith,
    get_child_cdata-append_text_new judo e m v (==_refl m) h,
    get_child_cdata-find_element e m,
  )

  -- The element once the address and the type are set.
  abbrev start : Str → PresenceType → Element
  start jid t = (set_type judo (blank judo jid) t).base

  find_element-start :
      (jid : Str) (t : PresenceType) (n : Str) → find_element (start jid t) n ≡ none
  unfolding set_type blank
  find_element-start jid t n = ground (
    arith,
    find_element-make judo (codes "presence") n,
    find_element-put_attrib judo (make (codes "presence")) (codes "to") jid n,
    find_element-put_attrib judo (make (codes "presence")) (codes "type") (type_text t) n,
    find_element-put_attrib judo (put_attrib (make (codes "presence")) (codes "to") jid)
        (codes "type") (type_text t) n,
  )

  get_child_cdata-start :
      (jid : Str) (t : PresenceType) (n : Str) → get_child_cdata (start jid t) n ≡ []
  get_child_cdata-start jid t n =
      ground (arith, get_child_cdata-find_element (start jid t) n, find_element-start jid t n)

  start_to : (jid : Str) (t : PresenceType) → get_attrib (start jid t) (codes "to") ≡ jid
  unfolding set_type blank ◌==◌
  start_to jid t =
      let e : Element = (blank judo jid).base in
      let p = make (codes "presence") in
      ground (
        arith,
        get_attrib-put_attrib_other e (codes "type") (codes "to") (type_text t) refl,
        get_attrib-put_attrib_same p (codes "to") jid,
        get_attrib-make (codes "presence") (codes "to"),
        empty_iff jid,
      )

  blank_type : (jid : Str) → get_attrib (blank judo jid).base (codes "type") ≡ []
  unfolding blank ◌==◌
  blank_type jid =
      let p = make (codes "presence") in
      ground (
        arith,
        get_attrib-put_attrib_other p (codes "to") (codes "type") jid refl,
        get_attrib-make (codes "presence") (codes "type"),
      )

  start_type :
      (jid : Str) (t : PresenceType) → get_attrib (start jid t) (codes "type") ≡ type_text t
  unfolding set_type
  start_type jid t =
      let e : Element = (blank judo jid).base in
      ground (arith, blank_type jid, get_attrib-put_attrib_same e (codes "type") (type_text t))

  module _ (jid : Str) (t : PresenceType) (s : Show) (status priority : Str) where
    abbrev after_status : Element
    after_status = with_text (not (empty status)) (start jid t) (codes "status") status

    abbrev after_show : Element
    after_show = with_text (above_online s) after_status (codes "show") (show_text s)

    abbrev finished : Element
    finished = with_text (not (priority == codes "0")) after_show (codes "priority") priority

    build-base : (build judo jid t s status priority).base ≡ finished
    unfolding build
    build-base = refl

    finished_attrib : (k : Str) → get_attrib finished k ≡ get_attrib (start jid t) k
    finished_attrib k =
        get_attrib-with_text _ after_show (codes "priority") priority k
        ∙ get_attrib-with_text _ after_status (codes "show") (show_text s) k
        ∙ get_attrib-with_text _ (start jid t) (codes "status") status k

    -- A child that is neither priority nor show reads as it did after the status.
    finished_early :
        (n : Str)
        → (codes "priority" == n) ≡ false
        → (codes "show" == n) ≡ false
        → get_child_cdata finished n ≡ get_child_cdata after_status n
    finished_early n h k =
        get_child_cdata-with_text _ after_show (codes "priority") priority n h
        ∙ get_child_cdata-with_text _ after_status (codes "show") (show_text s) n k

    finished_status : get_child_cdata finished (codes "status") ≡ status
    unfolding ◌==◌
    finished_status =
        finished_early (codes "status") refl refl
        ∙ get_child_cdata-with_text_same _ (start jid t) (codes "status") status
            (find_element-start jid t (codes "status"))
        ∙ ground (arith, empty_iff status)

    finished_error : get_child_cdata finished (codes "error") ≡ []
    unfolding ◌==◌
    finished_error =
        finished_early (codes "error") refl refl
        ∙ get_child_cdata-with_text _ (start jid t) (codes "status") status (codes "error") refl
        ∙ get_child_cdata-start jid t (codes "error")

    finished_show :
        get_child_cdata finished (codes "show") ≡ (if above_online s then show_text s else [])
    unfolding ◌==◌
    finished_show =
        get_child_cdata-with_text _ after_show (codes "priority") priority (codes "show") refl
        ∙ get_child_cdata-with_text_same _ after_status (codes "show") (show_text s) (
            find_element-with_text _ (start jid t) (codes "status") status (codes "show") refl
            ∙ find_element-start jid t (codes "show"))

    finished_priority :
        get_child_cdata finished (codes "priority")
        ≡ (if not (priority == codes "0") then priority else [])
    unfolding ◌==◌
    finished_priority = get_child_cdata-with_text_same _ after_show (codes "priority") priority (
        find_element-with_text _ after_status (codes "show") (show_text s) (codes "priority") refl
        ∙ find_element-with_text _ (start jid t) (codes "status") status (codes "priority") refl
        ∙ find_element-start jid t (codes "priority"))

    atoi-finished_priority : atoi (get_child_cdata finished (codes "priority")) ≡ atoi priority
    unfolding atoi
    atoi-finished_priority = elim (Bool-cases (priority == codes "0")) [
      | inl e ↦ rw (finished_priority, e) (sym (ap atoi ((==_iff priority (codes "0")).0 e)))
      | inr e ↦ rw (finished_priority, e)
    ]

    pub of_element-build :
        let q = of_element judo (build judo jid t s status priority).base in
        (q.type ≡ t)
        × (get_to judo q.base ≡ jid)
        × (get_status judo q ≡ status)
        × (get_priority judo q ≡ (if is_unavailable t then negsuc 0 else atoi priority))
        × (q.show ≡ show_of_text t (if above_online s then show_text s else []))
    unfolding of_element get_to get_status get_priority
    of_element-build =
        let type_text_read = finished_attrib (codes "type") ∙ start_type jid t in
        let type_read = ap type_of_text type_text_read ∙ type_of_text-type_text t in
        (
          rw build-base type_read,
          rw build-base (finished_attrib (codes "to") ∙ start_to jid t),
          rw (build-base, finished_status, finished_error) (ground (arith, empty_iff status)),
          rw (build-base, type_read, atoi-finished_priority) refl,
          rw (build-base, type_read, finished_show) refl,
        )

  -- setType(ptAvailable) leaves the `type` attribute: a presence whose element says another type
  -- is still read as that type once it is sent, while getType says available.
  pub set_type-available_stale :
      (p : Presence judo) (t : PresenceType)
      → get_attrib p.base (codes "type") ≡ type_text t
      → let q = set_type judo p available in
        (q.type ≡ available) × ((of_element judo q.base).type ≡ t)
  unfolding set_type of_element
  set_type-available_stale p t h = (refl, ap type_of_text h ∙ type_of_text-type_text t)
