-- ===== src/Disco/Reached.antt =====
-- Every state of the cache of src/jabberoo-disco.cpp that its operations lead to, and what `clear` then
-- does.
use jabberoo.Base.{
  Str, Bool, false, Option, none, some, [], ◌∷◌, ℕ, ◌≡◌, refl, ◌∙◌, arith, if◌then◌else◌, length,
  codes, length-append,
}
use jabberoo.Base.Holds.{◌>>=◌, Holds, Holds-bind, Holds-map, Holds-if, Holds-elim, Holds-at}
use jabberoo.Base.Map.{place}
use jabberoo.Judo.{Judo}
use jabberoo.Roster.Groups.{plain}
use jabberoo.Session.{Session}
use jabberoo.Disco.{
  Item, Disco, Slot, initial, item_at, clear, erase, erase_first, cached_item, run_callbacks,
}
use jabberoo.Disco.Queries.{
  cache, cache_node, info_answered, items_answered, browse_answered, read_info, read_items, node_of,
  query_children, browsed_child,
}
use jabberoo.Disco.Sound.{
  held, IsSound, Extends, place-IsSound, held-lt, with_item, with_item-Extends, item_at-last,
}
use jabberoo.Disco.Changes.{
  ExtendsTo, cached_item-Extends, run_callbacks-Extends, read_info-Extends, read_items-Extends,
  read_browsed-Extends,
}
use jabberoo.Disco.Deletes.{
  held-erase_first, erase_first-IsSound, delete_all_lem, erase_lem, clear_lem,
}

module _ (judo : Judo) (check : ℕ → judo.Element → Bool) (number_of : Slot → ℕ) where
  open judo use {Element, get_attrib, find_element, children, cmp_attrib}

  abbrev Sound : Session judo × Disco → Type 0
  Sound r = IsSound r.1

  -- What both answers to a query do with the children that they read in their ways.
  answered-IsSound :
      (jid node : Str) (read : Option ℕ → Disco → Option Disco) (session : Session judo) (s : Disco)
      → ((item : Option ℕ) (t : Disco) → Holds (Extends t) (read item t))
      → IsSound s
      → Holds Sound (
          cached_item jid node s >>= λ found.
          read found.0 found.1 >>= λ s1. run_callbacks jid found.0 s1 >>= λ s2. some (session, s2))
  answered-IsSound jid node read session s kept sound =
      Holds-bind (ExtendsTo s) Sound (cached_item jid node s) _ (cached_item-Extends jid node s)
        (λ found extended.
          Holds-bind (Extends found.1) Sound (read found.0 found.1) _ (kept found.0 found.1)
            (λ s1 grown.
              Holds-bind (Extends s1) Sound (run_callbacks jid found.0 s1) _
                (run_callbacks-Extends jid found.0 s1)
                (λ s2 ran. ran.3 (grown.3 (extended.3 sound)))))

  info_answered-IsSound :
      (e : Element) (session : Session judo) (s : Disco)
      → IsSound s
      → Holds Sound (info_answered judo check number_of e (session, s))
  unfolding info_answered
  info_answered-IsSound e session s sound =
      let query = find_element e (codes "query") in
      Holds-if Sound (cmp_attrib e (codes "type") (codes "error")) _ _ sound (
        answered-IsSound (get_attrib e (codes "from")) (node_of judo check number_of query)
          (read_info judo check number_of (query_children judo check number_of query)) session s
          (read_info-Extends judo check number_of (query_children judo check number_of query))
          sound)

  items_answered-IsSound :
      (e : Element) (session : Session judo) (s : Disco)
      → IsSound s
      → Holds Sound (items_answered judo check number_of e (session, s))
  unfolding items_answered
  items_answered-IsSound e session s sound =
      let query = find_element e (codes "query") in
      Holds-if Sound (cmp_attrib e (codes "type") (codes "error")) _ _ sound (
        answered-IsSound (get_attrib e (codes "from")) (node_of judo check number_of query)
          (read_items judo check number_of (query_children judo check number_of query)) session s
          (read_items-Extends judo check number_of (query_children judo check number_of query))
          sound)

  -- The new item stands behind all others, and nothing points to it before it is entered.
  entered :
      (jid : Str) (i : Item) (s t : Disco)
      → i.jid ≡ jid
      → IsSound s
      → Extends (with_item i (record s { items = erase_first jid s.items })) t
      → IsSound (record t { items = place plain jid (length s.heap) t.items })
  entered jid i s t named sound (grows, long, same, keeps) =
      let n = length s.heap in
      let erased = record s { items = erase_first jid s.items } in
      let before : held n (erase_first jid s.items) ≡ false =
        held-erase_first n jid s.items (held-lt s.heap s.items n sound.0 (omega arith)) in
      let (j, at, jid') = grows n i (item_at-last s.heap i) in
      place-IsSound jid n t
        (keeps ((with_item-Extends i erased).3 (erase_first-IsSound jid s sound)))
        (same n (omega (arith, length-append s.heap (some i ∷ []))) ∙ before) (j, at, jid' ∙ named)

  browse_answered-IsSound :
      (e : Element) (s : Disco)
      → IsSound s
      → Holds IsSound (browse_answered judo check number_of e s)
  unfolding browse_answered
  browse_answered-IsSound e s sound =
      Holds-elim IsSound (browsed_child judo check number_of (children e)) _ _ sound (λ child.
        let jid = get_attrib child (codes "jid") in
        let blank : Item = record {
          jid = jid;
          node = [];
          name = [];
          children = [];
          features = [];
          identities = [];
        } in
        let start = with_item blank (record s { items = erase_first jid s.items }) in
        Holds-bind (Extends start) IsSound _ _
          (read_browsed-Extends judo check number_of (children child) (length s.heap) start)
          (λ s1 read.
            let placed = record s1 { items = place plain jid (length s.heap) s1.items } in
            Holds-map (Extends placed) IsSound _
              (run_callbacks-Extends jid (some (length s.heap)) placed)
              (λ s2 ran. ran.3 (entered jid blank s s1 refl sound read))))

  -- The states that the operations lead to, where they end with one.
  pub data Reached : Disco → Type 0 where
    started : Reached initial
    cached :
        (s : Disco) (jid : Str) (f : ℕ) (get_items : Bool) (session : Session judo)
        → Reached s
        → Reached (cache judo check number_of jid f get_items (session, s)).1
    node_cached :
        (s : Disco) (jid node : Str) (f : ℕ) (get_items : Bool) (session : Session judo)
        → Reached s
        → Reached (cache_node judo check number_of jid node f get_items (session, s)).1
    info_came :
        (s t : Disco) (e : Element) (session session' : Session judo)
        → Reached s
        → info_answered judo check number_of e (session, s) ≡ some (session', t)
        → Reached t
    items_came :
        (s t : Disco) (e : Element) (session session' : Session judo)
        → Reached s
        → items_answered judo check number_of e (session, s) ≡ some (session', t)
        → Reached t
    browse_came :
        (s t : Disco) (e : Element)
        → Reached s
        → browse_answered judo check number_of e s ≡ some t
        → Reached t
    erased : (s t : Disco) (at : ℕ) → Reached s → erase at s ≡ some t → Reached t
    cleared : (s t : Disco) → Reached s → clear s ≡ some t → Reached t

  Reached-IsSound : (s : Disco) → Reached s → IsSound s
  unfolding initial cache cache_node
  Reached-IsSound _ started = (tt, tt)
  Reached-IsSound _ (cached s jid f get_items session r) = Reached-IsSound s r
  Reached-IsSound _ (node_cached s jid node f get_items session r) = Reached-IsSound s r
  Reached-IsSound _ (info_came s t e session session' r came) =
      Holds-at Sound (info_answered judo check number_of e (session, s)) (session', t) came
        (info_answered-IsSound e session s (Reached-IsSound s r))
  Reached-IsSound _ (items_came s t e session session' r came) =
      Holds-at Sound (items_answered judo check number_of e (session, s)) (session', t) came
        (items_answered-IsSound e session s (Reached-IsSound s r))
  Reached-IsSound _ (browse_came s t e r came) =
      Holds-at IsSound (browse_answered judo check number_of e s) t came
        (browse_answered-IsSound e s (Reached-IsSound s r))
  Reached-IsSound _ (erased s t at r done) =
      Holds-at IsSound (erase at s) t done (erase_lem at s (Reached-IsSound s r))
  Reached-IsSound _ (cleared s t r done) =
      Holds-at IsSound (clear s) t done (clear_lem s (Reached-IsSound s r))

  -- In every state that the operations of the cache lead to, each pointer of the cache points to an
  -- item that is not deleted and has the JID that it is cached for, and no two point to the same item.
  -- So clearing the cache is always defined, no item being deleted twice: it leaves no pointer, deletes
  -- every item that was cached, and changes no other.
  pub clear-Reached :
      (s : Disco)
      → Reached s
      → IsSound s
        × ((t : Disco) × (clear s ≡ some t)
            × (t.items ≡ [])
            × ((n : ℕ) → item_at n t.heap ≡ (if held n s.items then none else item_at n s.heap)))
  unfolding clear
  clear-Reached s r =
      let sound = Reached-IsSound s r in
      let (heap, deleted, at) = delete_all_lem s.items s.heap sound.0 sound.1 in
      (sound, (record s { heap = heap; items = [] }, rw deleted refl, refl, at))
