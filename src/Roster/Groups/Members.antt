-- ===== src/Roster/Groups/Members.antt =====
-- Who is in a group after each write of the group index of src/jabberoo-roster.cc.
use jabberoo.Base.{
  Str, Bool, true, none, some, List, [], ◌∷◌, ◌≡◌, refl, if◌then◌else◌, ◌==◌, ==_iff,
  eq_of_str_compare, ◌||◌, ◌&&◌, not, arith, Option-cases, inl, inr,
}
use jabberoo.Base.Map.{lookup, assign, erase, lookup-assign, lookup-erase}
use jabberoo.Roster.Groups.{
  plain, set_insert, set_erase, member, no_members, GroupMap, members_of, add_to_group,
  remove_from_group, remove_from_all,
}

pub member-set_insert :
    (x y : Str) (s : List Str) → member y (set_insert x s) ≡ (x == y || member y s)
unfolding member set_insert
member-set_insert x y [] = refl
member-set_insert x y (z ∷ s) =
    ground (arith, member-set_insert x y s, eq_of_str_compare x z, ==_iff x y, ==_iff z y)

pub member-set_erase :
    (x y : Str) (s : List Str) → member y (set_erase x s) ≡ (not (x == y) && member y s)
unfolding member set_erase
member-set_erase x y [] = ground arith
member-set_erase x y (z ∷ s) =
    ground (arith, member-set_erase x y s, ==_iff x y, ==_iff z y, ==_iff z x)

members_of-assign :
    (h g : Str) (s : List Str) (groups : GroupMap)
    → members_of g (assign plain h s groups) ≡ (if h == g then s else members_of g groups)
unfolding members_of
members_of-assign h g s groups = ground (arith, lookup-assign plain h g s groups)

members_of-erase :
    (h g : Str) (groups : GroupMap)
    → members_of g (erase plain h groups) ≡ (if h == g then [] else members_of g groups)
unfolding members_of
members_of-erase h g groups = ground (arith, lookup-erase plain h g groups)

no_members-eq_nil : (s : List Str) → no_members s ≡ true → s ≡ []
no_members-eq_nil [] h = refl
no_members-eq_nil (x ∷ s) h = cc

members_of-none :
    (h : Str) (groups : GroupMap) → lookup plain h groups ≡ none → members_of h groups ≡ []
unfolding members_of
members_of-none h groups e = ground arith

members_of-some :
    (h : Str) (groups : GroupMap) (s : List Str)
    → lookup plain h groups ≡ some s
    → members_of h groups ≡ s
unfolding members_of
members_of-some h groups s e = ground arith

members_of-remove_from_group :
    (h g : Str) (x : Str) (groups : GroupMap)
    → members_of g (remove_from_group h x groups)
      ≡ (if h == g then set_erase x (members_of h groups) else members_of g groups)
unfolding remove_from_group set_erase
members_of-remove_from_group h g x groups = elim (Option-cases (lookup plain h groups)) [
  | inl e ↦ rw (e, remove_from_group) (ground (arith, members_of-none h groups e, ==_iff h g))
  | inr (s, e) ↦
      rw (e, remove_from_group)
        (ground (
          arith,
          members_of-some h groups s e,
          members_of-erase h g groups,
          members_of-assign h g (set_erase x s) groups,
          no_members-eq_nil (set_erase x s),
        ))
]

members_of-add_to_group :
    (h g : Str) (x : Str) (groups : GroupMap)
    → members_of g (add_to_group h x groups)
      ≡ (if h == g then set_insert x (members_of h groups) else members_of g groups)
unfolding add_to_group
members_of-add_to_group h g x groups =
    members_of-assign h g (set_insert x (members_of h groups)) groups

-- The JID is in the group.
unfoldable pub in_group : GroupMap → Str → Str → Bool
in_group groups g jid = member jid (members_of g groups)

pub in_group-add_to_group :
    (h g : Str) (x y : Str) (groups : GroupMap)
    → in_group (add_to_group h x groups) g y ≡ ((h == g && x == y) || in_group groups g y)
unfolding in_group
in_group-add_to_group h g x y groups = ground (
  arith,
  members_of-add_to_group h g x groups,
  member-set_insert x y (members_of h groups),
  ==_iff h g,
)

pub in_group-remove_from_group :
    (h g : Str) (x y : Str) (groups : GroupMap)
    → in_group (remove_from_group h x groups) g y ≡ (not (h == g && x == y) && in_group groups g y)
unfolding in_group
in_group-remove_from_group h g x y groups = ground (
  arith,
  members_of-remove_from_group h g x groups,
  member-set_erase x y (members_of h groups),
  ==_iff h g,
)

pub in_group-remove_from_all :
    (hs : List Str) (g : Str) (x y : Str) (groups : GroupMap)
    → in_group (remove_from_all hs x groups) g y
      ≡ (not (member g hs && x == y) && in_group groups g y)
unfolding remove_from_all member
in_group-remove_from_all [] g x y groups = refl
in_group-remove_from_all (h ∷ hs) g x y groups = ground (
  arith,
  in_group-remove_from_all hs g x y (remove_from_group h x groups),
  in_group-remove_from_group h g x y groups,
)
