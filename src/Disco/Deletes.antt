-- ===== src/Disco/Deletes.antt =====
-- What erasing and deleting cached items does to the cache of src/jabberoo-disco.cpp.
use jabberoo.Base.{
  Str, false, Option, none, some, List, [], ◌∷◌, ℕ, zero, suc, ◌≡◌, refl, ◌∙◌, arith, Bool-cases,
  inl, inr, if◌then◌else◌, nat_eq, nat_eq_iff, ◌==◌, ◌||◌,
}
use jabberoo.Base.Holds.{Holds, Holds-bind}
use jabberoo.Base.Map.{Entries}
use jabberoo.Disco.{
  Item, Disco, item_at, delete_at, delete_all, clear, erase, taken_at, erase_first,
}
use jabberoo.Disco.Sound.{Points, held, IsDistinct, IsSound, neither}

pub held-erase_first :
    (n : ℕ) (k : Str) (m : List (Str × ℕ)) → held n m ≡ false → held n (erase_first k m) ≡ false
unfolding held erase_first
held-erase_first n k [] h = refl
held-erase_first n k ((j, v) ∷ m) h = ground (arith, held-erase_first n k m)

Entries-erase_first :
    (P : Str → ℕ → Type 0) (k : Str) (m : List (Str × ℕ))
    → Entries P m
    → Entries P (erase_first k m)
unfolding erase_first
Entries-erase_first P k [] h = tt
Entries-erase_first P k ((j, v) ∷ m) h = elim (Bool-cases (j == k)) [
  | inl e ↦ rw e h.1
  | inr e ↦ rw e (h.0, Entries-erase_first P k m h.1)
]

IsDistinct-erase_first :
    (k : Str) (m : List (Str × ℕ)) → IsDistinct m → IsDistinct (erase_first k m)
unfolding erase_first
IsDistinct-erase_first k [] h = tt
IsDistinct-erase_first k ((j, v) ∷ m) h = elim (Bool-cases (j == k)) [
  | inl e ↦ rw e h.1
  | inr e ↦ rw e (held-erase_first v k m h.0, IsDistinct-erase_first k m h.1)
]

pub erase_first-IsSound :
    (k : Str) (s : Disco) → IsSound s → IsSound (record s { items = erase_first k s.items })
erase_first-IsSound k s (h, apart) =
    (Entries-erase_first (Points s.heap) k s.items h, IsDistinct-erase_first k s.items apart)

-- Only the item at the address is deleted.
delete_at_lem :
    (n : ℕ) (heap : List (Option Item)) (i : Item)
    → item_at n heap ≡ some i
    → (heap' : List (Option Item)) × (delete_at n heap ≡ some heap')
      × ((m : ℕ) → item_at m heap' ≡ (if nat_eq m n then none else item_at m heap))
unfolding delete_at
delete_at_lem n [] i h = cc
delete_at_lem zero (none ∷ heap) i h = cc
delete_at_lem zero (some j ∷ heap) i h = (none ∷ heap, refl, at)
  where
    at :
        (m : ℕ)
        → item_at m (none ∷ heap) ≡ (if nat_eq m zero then none else item_at m (some j ∷ heap))
    at zero = ground arith
    at (suc m) = ground arith
delete_at_lem (suc n) (x ∷ heap) i h =
    let (heap', deleted, at) = delete_at_lem n heap i h in
    (x ∷ heap', rw deleted refl, behind heap' at)
  where
    behind :
        (heap' : List (Option Item))
        → ((m : ℕ) → item_at m heap' ≡ (if nat_eq m n then none else item_at m heap))
        → (m : ℕ)
        → item_at m (x ∷ heap') ≡ (if nat_eq m (suc n) then none else item_at m (x ∷ heap))
    behind heap' at zero = ground arith
    behind heap' at (suc m) = ground (arith, at m)

Entries-deleted :
    (n : ℕ) (heap heap' : List (Option Item)) (m : List (Str × ℕ))
    → ((k : ℕ) → item_at k heap' ≡ (if nat_eq k n then none else item_at k heap))
    → held n m ≡ false
    → Entries (Points heap) m
    → Entries (Points heap') m
unfolding held
Entries-deleted n heap heap' [] at new h = tt
Entries-deleted n heap heap' ((k, v) ∷ m) at new ((i, there, jid), h) =
    let (other, new') = neither (nat_eq n v) (held n m) new in
    ((i, ground (arith, at v), jid), Entries-deleted n heap heap' m at new' h)

-- All items of the list are deleted, and no other.
pub delete_all_lem :
    (m : List (Str × ℕ)) (heap : List (Option Item))
    → Entries (Points heap) m
    → IsDistinct m
    → (heap' : List (Option Item)) × (delete_all m heap ≡ some heap')
      × ((k : ℕ) → item_at k heap' ≡ (if held k m then none else item_at k heap))
unfolding delete_all held
delete_all_lem [] heap h apart = (heap, refl, λ k. refl)
delete_all_lem ((j, n) ∷ m) heap ((i, there, jid), h) (new, apart) =
    let (heap1, first, at) = delete_at_lem n heap i there in
    let (heap2, rest, at') =
      delete_all_lem m heap1 (Entries-deleted n heap heap1 m at new h) apart in
    (heap2, rw (first) rest, λ k. at' k ∙ ground (arith, at k))

-- What erase takes out of a map, and what it leaves.
abbrev IsTaken : List (Option Item) → List (Str × ℕ) → ℕ × List (Str × ℕ) → Type 0
IsTaken heap m r =
    ((i : Item) × (item_at r.0 heap ≡ some i))
    × Entries (Points heap) r.1
    × IsDistinct r.1
    × ((v : ℕ) → held v m ≡ (nat_eq v r.0 || held v r.1))
    × (held r.0 r.1 ≡ false)

taken_at-IsTaken :
    (at : ℕ) (heap : List (Option Item)) (m : List (Str × ℕ))
    → Entries (Points heap) m
    → IsDistinct m
    → Holds (IsTaken heap m) (taken_at at m)
unfolding taken_at held
taken_at-IsTaken at heap [] h apart = tt
taken_at-IsTaken zero heap ((j, v) ∷ m) ((i, there, jid), h) (new, apart) =
    ((i, there), h, apart, (λ w. refl), new)
taken_at-IsTaken (suc at) heap ((j, v) ∷ m) (first, h) (new, apart) =
    Holds-bind (IsTaken heap m) (IsTaken heap ((j, v) ∷ m)) (taken_at at m) _
      (taken_at-IsTaken at heap m h apart)
      (λ r (there, h', apart', at, free). (
        there,
        (first, h'),
        (ground (arith, at v), apart'),
        (λ w. ground (arith, at w)),
        ground (arith, at v, nat_eq_iff r.0 v, nat_eq_iff v r.0),
      ))

pub erase_lem : (at : ℕ) (s : Disco) → IsSound s → Holds IsSound (erase at s)
unfolding erase
erase_lem at s (h, apart) =
    Holds-bind (IsTaken s.heap s.items) IsSound (taken_at at s.items) _
      (taken_at-IsTaken at s.heap s.items h apart)
      (λ r ((i, there), h', apart', old, free).
        let (heap', deleted, others) = delete_at_lem r.0 s.heap i there in
        rw deleted (Entries-deleted r.0 s.heap heap' r.1 others free h', apart'))

pub clear_lem : (s : Disco) → IsSound s → Holds IsSound (clear s)
unfolding clear
clear_lem s (h, apart) =
    let (heap', deleted, others) = delete_all_lem s.items s.heap h apart in rw deleted (tt, tt)
