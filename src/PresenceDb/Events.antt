-- ===== src/PresenceDb/Events.antt =====
-- What send_unavailable of src/jabberoo-presencedb.cc sends.
use jabberoo.Base.{
  Str, List, [], ◌∷◌, ◌≡◌, refl, if◌then◌else◌, Bool-cases, inl, inr, codes, ◌==◌, ◌∙◌,
}
use mathlib.Core.Path.{ap₂}
use jabberoo.Judo.{Judo}
use jabberoo.Packet.{get_from, get_to, set_from}
use jabberoo.Presence.{Presence, PresenceType, unavailable, invalid, build, of_element}
use jabberoo.Presence.Build.{of_element-build}
use jabberoo.PresenceDb.{
  Db, from_of, head_available, set_from_head, unavailable_events, send_unavailable,
}

module _ (judo : Judo) where
  open judo use {
    Element, get_attrib, put_attrib, get_attrib-put_attrib_same, get_attrib-put_attrib_other,
  }

  -- The senders of the first presences that are available, in the order of the map.
  unfoldable pub available_senders : Db judo → List Str
  unfolding head_available
  available_senders [] = []
  available_senders ((k, []) ∷ db) = available_senders db
  available_senders ((k, p ∷ l) ∷ db) =
      let rest = available_senders db in
      if head_available judo (p ∷ l) then from_of judo p ∷ rest else rest

  -- The sender, the address and the type of each packet.
  abbrev pub summary : Presence judo → Str × Str × PresenceType
  summary p = (from_of judo p, get_to judo p.base, p.type)

  -- One notice from a sender to the given JID.
  abbrev pub notices : Str → List Str → List (Str × Str × PresenceType)
  notices jid [] = []
  notices jid (sender ∷ r) = (sender, jid, unavailable) ∷ notices jid r

  abbrev pub summaries : List (Presence judo) → List (Str × Str × PresenceType)
  summaries [] = []
  summaries (p ∷ r) = summary p ∷ summaries r

  set_from_head-to :
      (p q : Presence judo) (l : List (Presence judo))
      → get_to judo (set_from_head judo p (q ∷ l)).base ≡ get_to judo p.base
  unfolding set_from_head get_to set_from ◌==◌
  set_from_head-to p q l = get_attrib-put_attrib_other p.base (codes "from") (codes "to") _ refl

  set_from_head-from :
      (p q : Presence judo) (l : List (Presence judo))
      → from_of judo (set_from_head judo p (q ∷ l)) ≡ from_of judo q
  unfolding set_from_head get_from set_from
  set_from_head-from p q l = get_attrib-put_attrib_same p.base (codes "from") _

  summary_path :
      (p : Presence judo) {sender jid : Str} {t : PresenceType}
      → from_of judo p ≡ sender
      → get_to judo p.base ≡ jid
      → p.type ≡ t
      → summary p ≡ (sender, jid, t)
  summary_path p f g h = λ i. (f i, g i, h i)

  unavailable_events_lem :
      (p : Presence judo) (jid : Str) (db : Db judo)
      → get_to judo p.base ≡ jid
      → p.type ≡ unavailable
      → summaries (unavailable_events judo p db) ≡ notices jid (available_senders db)
  unfolding unavailable_events available_senders set_from_head
  unavailable_events_lem p jid [] t u = refl
  unavailable_events_lem p jid ((k, []) ∷ db) t u = unavailable_events_lem p jid db t u
  unavailable_events_lem p jid ((k, q ∷ l) ∷ db) t u =
      let sent = set_from_head judo p (q ∷ l) in
      let rest = unavailable_events_lem sent jid db (set_from_head-to p q l ∙ t) u in
      elim (Bool-cases (head_available judo (q ∷ l))) [
        | inl e ↦
            rw (e, available_senders, unavailable_events)
              (ap₂ ◌∷◌ (summary_path sent (set_from_head-from p q l) (set_from_head-to p q l ∙ t) u)
                rest)
        | inr e ↦
            rw (e, available_senders, unavailable_events) (unavailable_events_lem p jid db t u)
      ]

  build-type : (jid : Str) → (build judo jid unavailable invalid [] (codes "0")).type ≡ unavailable
  unfolding build
  build-type jid = refl

  -- send_unavailable fires one event for each user whose first presence is available, in the
  -- order of the map: an unavailable presence from that presence's sender to the given JID.
  pub send_unavailable_lem :
      (jid : Str) (db : Db judo)
      → summaries (send_unavailable judo jid db) ≡ notices jid (available_senders db)
  unfolding send_unavailable build of_element
  send_unavailable_lem jid db =
      let notice = build judo jid unavailable invalid [] (codes "0") in
      unavailable_events_lem notice jid db
        (of_element-build judo jid unavailable invalid [] (codes "0")).1 (build-type jid)
