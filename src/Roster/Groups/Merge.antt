-- ===== src/Roster/Groups/Merge.antt =====
-- Roster::mergeItemGroups of src/jabberoo-roster.cc moves one JID from its old groups to its new.
use jabberoo.Base.{
  Str, true, false, List, [], ◌∷◌, ◌≡◌, if◌then◌else◌, ◌==◌, ==_iff, ◌||◌, ◌&&◌, not, arith, All,
}
use jabberoo.Roster.Groups.{member, GroupMap, add_to_group, remove_from_group, merge_groups}
use jabberoo.Roster.Groups.Members.{in_group, in_group-add_to_group, in_group-remove_from_group}

-- No text stands twice.
abbrev pub IsNodup : List Str → Type 0
IsNodup [] = Unit
IsNodup (x ∷ xs) = (member x xs ≡ false) × IsNodup xs

-- The JID is in each of these groups.
abbrev pub InAll : Str → GroupMap → List Str → Type 0
InAll jid groups = All (λ g. in_group groups g jid ≡ true)

InAll-remove_from_group :
    (jid o : Str) (os : List Str) (groups : GroupMap)
    → member o os ≡ false
    → InAll jid groups os
    → InAll jid (remove_from_group o jid groups) os
unfolding member
InAll-remove_from_group jid o [] groups h a = tt
InAll-remove_from_group jid o (p ∷ os) groups h a = (
  ground (arith, in_group-remove_from_group o p jid jid groups, ==_iff o p, ==_iff p o, a.0),
  InAll-remove_from_group jid o os groups (ground arith) a.1,
)

-- A JID that is in all its old groups, no two of which are the same, is afterwards in its new
-- groups and in those groups where it was that are not among the old. Nobody else moves.
pub in_group-merge_groups :
    (jid : Str) (old new : List Str) (groups : GroupMap) (g j : Str)
    → IsNodup old
    → InAll jid groups old
    → in_group (merge_groups jid old new groups) g j ≡ (
        if jid == j
        then member g new || (in_group groups g j && not (member g old))
        else in_group groups g j)
unfolding merge_groups member
in_group-merge_groups jid [] [] groups g j d a = ground arith
in_group-merge_groups jid [] (n ∷ ns) groups g j d a = ground (
  arith,
  in_group-merge_groups jid [] ns (add_to_group n jid groups) g j tt tt,
  in_group-add_to_group n g jid j groups,
)
in_group-merge_groups jid (o ∷ os) [] groups g j d a = ground (
  arith,
  in_group-merge_groups jid os [] (remove_from_group o jid groups) g j d.1
      (InAll-remove_from_group jid o os groups d.0 a.1),
  in_group-remove_from_group o g jid j groups,
)
in_group-merge_groups jid (o ∷ os) (n ∷ ns) groups g j d a = ground (
  arith,
  in_group-merge_groups jid os ns groups g j d.1 a.1,
  in_group-merge_groups jid os (n ∷ ns) (remove_from_group o jid groups) g j d.1
      (InAll-remove_from_group jid o os groups d.0 a.1),
  in_group-remove_from_group o g jid j groups,
  ==_iff o n,
  ==_iff o g,
  ==_iff jid j,
  d.0,
  a.0,
)
