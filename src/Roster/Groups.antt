-- ===== src/Roster/Groups.antt =====
-- The group index of src/jabberoo-roster.cc, `std::map<std::string, std::set<std::string>>`: for
-- each group the JIDs of its members. A set is a list in the order of its texts.
pub mod Members
pub mod Merge
pub mod Ascending
use jabberoo.Base.{
  Str, Bool, true, false, Option, none, some, List, [], ◌∷◌, ◌≡◌, refl, if◌then◌else◌, ◌==◌,
  str_compare, Ordering, ◌||◌,
}
use jabberoo.Base.Map.{lookup, assign, erase}

-- The order of a map keyed by plain texts.
abbrev pub plain : Str → Str
plain s = s

unfoldable pub set_insert : Str → List Str → List Str
set_insert x [] = x ∷ []
set_insert x (y ∷ ys) = elim (str_compare x y) [
  | Ordering.lt ↦ x ∷ y ∷ ys
  | Ordering.eq ↦ y ∷ ys
  | Ordering.gt ↦ y ∷ set_insert x ys
]

unfoldable pub set_erase : Str → List Str → List Str
set_erase x [] = []
set_erase x (y ∷ ys) = if y == x then set_erase x ys else y ∷ set_erase x ys

unfoldable pub member : Str → List Str → Bool
member x [] = false
member x (y ∷ ys) = y == x || member x ys

abbrev pub no_members : List Str → Bool
no_members [] = true
no_members (x ∷ xs) = false

abbrev pub GroupMap : Type 0
GroupMap = List (Str × List Str)

unfoldable pub members_of : Str → GroupMap → List Str
members_of group groups = elim (lookup plain group groups) [ none ↦ [] | some s ↦ s ]

-- `_groups[group].insert(jid)`
unfoldable pub add_to_group : Str → Str → GroupMap → GroupMap
unfolding members_of set_insert
add_to_group group jid groups = assign plain group (set_insert jid (members_of group groups)) groups

-- Roster::removeItemFromGroup
unfoldable pub remove_from_group : Str → Str → GroupMap → GroupMap
unfolding set_erase
remove_from_group group jid groups = elim (lookup plain group groups) [
  | none ↦ groups
  | some s ↦
      if no_members (set_erase jid s)
      then erase plain group groups
      else assign plain group (set_erase jid s) groups
]

-- The loop of Roster::removeItemFromAllGroups
unfoldable pub remove_from_all : List Str → Str → GroupMap → GroupMap
unfolding remove_from_group
remove_from_all [] jid groups = groups
remove_from_all (g ∷ gs) jid groups = remove_from_all gs jid (remove_from_group g jid groups)

-- Roster::mergeItemGroups, the two lists being what is left for the iterators.
unfoldable pub merge_groups : Str → List Str → List Str → GroupMap → GroupMap
unfolding add_to_group remove_from_group
merge_groups jid [] [] groups = groups
merge_groups jid [] (n ∷ ns) groups = merge_groups jid [] ns (add_to_group n jid groups)
merge_groups jid (o ∷ os) [] groups = merge_groups jid os [] (remove_from_group o jid groups)
merge_groups jid (o ∷ os) (n ∷ ns) groups =
    let both = merge_groups jid os ns groups in
    let left = merge_groups jid os (n ∷ ns) (remove_from_group o jid groups) in
    if o == n then both else left
