-- ===== src/Roster/Push/Available.antt =====
-- Presences on the roster, Roster::update(const Presence&, Presence::Type) of
-- src/jabberoo-roster.cc.
use jabberoo.Base.{
  Str, Bool, some, List, [], ◌∷◌, ◌≡◌, if◌then◌else◌, ◌≤◌, ℕ, not, nat_eq, arith, fold_case,
}
use jabberoo.Base.Map.{lookup, assign}
use jabberoo.Judo.{Judo}
use jabberoo.Packet.{get_from}
use jabberoo.Presence.{Presence, PresenceType}
use jabberoo.Roster.{
  Roster, Item, RosterEvent, presence_change, filter_jid, update_presence, count_after,
  is_available,
}

count_after_lem :
    (available : Bool) (n : ℕ) → n ≤ 1 → (count_after available n ≡ (if available then 1 else 0))
unfolding count_after
count_after_lem available n h = ground arith

-- A presence from an item on the roster, whose count is 0 or 1, sets the count to what the presence
-- database says, and fires evtPresence with just that; the index of groups stays.
pub update_presence-available :
    (judo : Judo) (available : Str → Bool) (p : Presence judo) (prev : PresenceType) (r : Roster)
    (i : Item)
    → lookup fold_case (filter_jid judo (get_from judo p.base)) r.items ≡ some i
    → i.rescnt ≤ 1
    → let jid = filter_jid judo (get_from judo p.base) in
      let i' : Item = record i { rescnt = if available jid then 1 else 0 } in
      (update_presence judo available p prev r ≡ (
        record r { items = assign fold_case jid i' r.items },
        presence_change jid (available jid) prev ∷ [],
      ))
      × (is_available i' ≡ available jid)
unfolding update_presence is_available
update_presence-available judo available p prev r i found h =
    let jid = filter_jid judo (get_from judo p.base) in
    (
      rw (found, update_presence, count_after_lem (available jid) i.rescnt h) (fired jid),
      ground arith,
    )
  where
    fired :
        (jid : Str)
        → ◌≡◌ {A = Roster × List RosterEvent}
            (
              record r {
                items =
                    assign fold_case jid
                      (record i { rescnt = if available jid then 1 else 0 })
                      r.items;
              },
              presence_change jid (not (nat_eq (if available jid then 1 else 0) 0)) prev ∷ [],
            )
            (
              record r {
                items =
                    assign fold_case jid
                      (record i { rescnt = if available jid then 1 else 0 })
                      r.items;
              },
              presence_change jid (available jid) prev ∷ [],
            )
    fired jid = ground arith
