-- ===== src/Disco/Sound.antt =====
-- The pointers of the cache of src/jabberoo-disco.cpp: each points to an item that is not deleted,
-- whose JID is the key, and no two point to the same. What the changes of the cache keep of that.
use jabberoo.Base.{
  Str, Bool, true, false, Option, none, some, List, [], ◌∷◌, ◌++◌, ℕ, zero, suc, ◌≤◌, ◌<◌, ◌≡◌,
  refl, ap, ◌∙◌, arith, Bool-cases, inl, inr, ◌||◌, nat_eq, length, length-append, is_lt,
  str_compare,
}
use jabberoo.Base.Holds.{◌>>=◌, Holds, Holds-bind, Holds-map}
use jabberoo.Base.Compare.{nat_eq_flip}
use jabberoo.Base.Map.{place, Entries, Entries-place}
use jabberoo.Roster.Groups.{plain}
use jabberoo.Disco.{Item, Disco, item_at, change_at, change, insert_new}

-- The address is that of an item with this JID.
abbrev pub Points : List (Option Item) → Str → ℕ → Type 0
Points heap k n = (i : Item) × (item_at n heap ≡ some i) × (i.jid ≡ k)

unfoldable pub held : ℕ → List (Str × ℕ) → Bool
held n [] = false
held n ((k, v) ∷ m) = nat_eq n v || held n m

abbrev pub IsDistinct : List (Str × ℕ) → Type 0
IsDistinct [] = Unit
IsDistinct ((k, v) ∷ m) = (held v m ≡ false) × IsDistinct m

abbrev pub IsSound : Disco → Type 0
IsSound s = Entries (Points s.heap) s.items × IsDistinct s.items

-- Items stay, with their JIDs.
abbrev pub Grows : List (Option Item) → List (Option Item) → Type 0
Grows heap heap' =
    (n : ℕ) (i : Item)
    → item_at n heap ≡ some i
    → (j : Item) × (item_at n heap' ≡ some j) × (j.jid ≡ i.jid)

pub item_at-lt :
    (n : ℕ) (heap : List (Option Item)) (i : Item) → item_at n heap ≡ some i → n < length heap
item_at-lt n [] i h = cc
item_at-lt zero (x ∷ heap) i h = omega arith
item_at-lt (suc n) (x ∷ heap) i h = omega (arith, item_at-lt n heap i h)

pub item_at-append :
    (n : ℕ) (heap more : List (Option Item)) (i : Item)
    → item_at n heap ≡ some i
    → item_at n (heap ++ more) ≡ some i
item_at-append n [] more i h = cc
item_at-append zero (x ∷ heap) more i h = h
item_at-append (suc n) (x ∷ heap) more i h = item_at-append n heap more i h

change_at_lem :
    (n : ℕ) (f : Item → Item) (heap : List (Option Item))
    → ((i : Item) → (f i).jid ≡ i.jid)
    → Holds (λ heap'. Grows heap heap' × (length heap' ≡ length heap)) (change_at n f heap)
unfolding change_at
change_at_lem n f [] same = tt
change_at_lem zero f (none ∷ heap) same = tt
change_at_lem zero f (some x ∷ heap) same = (kept, refl)
  where
    kept : Grows (some x ∷ heap) (some (f x) ∷ heap)
    kept zero i h = (f x, refl, same x ∙ ap (λ o. elim o [ none ↦ x.jid | some y ↦ y.jid ]) h)
    kept (suc m) i h = (i, h, refl)
change_at_lem (suc n) f (x ∷ heap) same =
    Holds-bind _ _ (change_at n f heap) (λ js. some (x ∷ js)) (change_at_lem n f heap same)
      (λ heap' (grows, long). (behind heap' grows, ap suc long))
  where
    behind : (heap' : List (Option Item)) → Grows heap heap' → Grows (x ∷ heap) (x ∷ heap')
    behind heap' grows zero i h = (i, h, refl)
    behind heap' grows (suc m) i h = grows m i h

Points-Grows :
    (heap heap' : List (Option Item)) (m : List (Str × ℕ))
    → Grows heap heap'
    → Entries (Points heap) m
    → Entries (Points heap') m
Points-Grows heap heap' [] grows h = tt
Points-Grows heap heap' ((k, n) ∷ m) grows ((i, there, jid), h) =
    let (j, there', jid') = grows n i there in
    ((j, there', jid' ∙ jid), Points-Grows heap heap' m grows h)

pub held-lt :
    (heap : List (Option Item)) (m : List (Str × ℕ)) (n : ℕ)
    → Entries (Points heap) m
    → length heap ≤ n
    → held n m ≡ false
unfolding held
held-lt heap [] n h far = refl
held-lt heap ((k, v) ∷ m) n ((i, there, jid), h) far =
    ground (arith, held-lt heap m n h far, item_at-lt v heap i there)

pub held-place :
    (n : ℕ) (k : Str) (v : ℕ) (m : List (Str × ℕ))
    → held n (place plain k v m) ≡ (nat_eq n v || held n m)
unfolding held place
held-place n k v [] = refl
held-place n k v ((j, w) ∷ m) = ground (arith, held-place n k v m)

pub neither : (a b : Bool) → (a || b) ≡ false → (a ≡ false) × (b ≡ false)
neither true b h = cc
neither false b h = (refl, h)

IsDistinct-place :
    (k : Str) (v : ℕ) (m : List (Str × ℕ))
    → held v m ≡ false
    → IsDistinct m
    → IsDistinct (place plain k v m)
unfolding held place
IsDistinct-place k v [] new h = (refl, tt)
IsDistinct-place k v ((j, w) ∷ m) new (apart, h) =
    let (other, new') = neither (nat_eq v w) (held v m) new in
    elim (Bool-cases (is_lt (str_compare (plain k) (plain j)))) [
      | inl front ↦ rw front (new, (apart, h))
      | inr behind ↦ rw behind (
        held-place w k v m ∙ rw (nat_eq_flip v w other, apart) refl,
        IsDistinct-place k v m new' h,
      )
    ]

below_eq : (n m : ℕ) → n < m → nat_eq n m ≡ false
below_eq n m h = ground arith

-- Entering an item that is there and that no entry points to.
pub place-IsSound :
    (k : Str) (n : ℕ) (s : Disco)
    → IsSound s
    → held n s.items ≡ false
    → Points s.heap k n
    → IsSound (record s { items = place plain k n s.items })
place-IsSound k n s (h, apart) new points = (
  Entries-place plain (Points s.heap) k n s.items points h,
  IsDistinct-place k n s.items new apart,
)

-- A change that keeps the items and their JIDs, that makes new ones at new addresses, and that keeps
-- the pointers sound.
abbrev pub Extends : Disco → Disco → Type 0
Extends s t =
    Grows s.heap t.heap
    × (length s.heap ≤ length t.heap)
    × ((n : ℕ) → n < length s.heap → held n t.items ≡ held n s.items)
    × (IsSound s → IsSound t)

pub Extends-refl : (s : Disco) → Extends s s
Extends-refl s = (λ n i h. (i, h, refl), omega arith, λ n h. refl, λ h. h)

pub Extends-trans : (s t u : Disco) → Extends s t → Extends t u → Extends s u
Extends-trans s t u (g, l, h, w) (g', l', h', w') = (
  λ n i there.
      (let (j, at, jid) = g n i there in let (k, at', jid') = g' n j at in (k, at', jid' ∙ jid)),
  omega arith,
  λ n below. h' n (omega arith) ∙ h n below,
  λ sound. w' (w sound),
)

pub Extends-bind :
    (s : Disco) (o : Option Disco) (f : Disco → Option Disco)
    → Holds (Extends s) o
    → ((t : Disco) → Holds (Extends t) (f t))
    → Holds (Extends s) (o >>= f)
Extends-bind s o f h k =
    Holds-bind (Extends s) (Extends s) o f h
      (λ t e. Holds-map (Extends t) (Extends s) (f t) (k t) (λ u e'. Extends-trans s t u e e'))

pub change-Extends :
    (n : ℕ) (f : Item → Item) (s : Disco)
    → ((i : Item) → (f i).jid ≡ i.jid)
    → Holds (Extends s) (change n f s)
unfolding change
change-Extends n f s same =
    Holds-bind _ (Extends s) (change_at n f s.heap) (λ heap. some (record s { heap = heap }))
      (change_at_lem n f s.heap same)
      (λ heap (grows, long). (
        grows,
        omega arith,
        λ n h. refl,
        λ (h, apart). (Points-Grows s.heap heap s.items grows h, apart),
      ))

-- One more item behind the others, which no entry points to yet.
abbrev pub with_item : Item → Disco → Disco
with_item i s = record s { heap = s.heap ++ some i ∷ [] }

pub item_at-last :
    (heap : List (Option Item)) (i : Item) → item_at (length heap) (heap ++ some i ∷ []) ≡ some i
item_at-last [] i = refl
item_at-last (x ∷ heap) i = item_at-last heap i

pub with_item-Extends : (i : Item) (s : Disco) → Extends s (with_item i s)
with_item-Extends i s =
    let grows : Grows s.heap (s.heap ++ some i ∷ []) =
      λ n j h. (j, item_at-append n s.heap (some i ∷ []) j h, refl) in
    (
      grows,
      omega (arith, length-append s.heap (some i ∷ [])),
      λ n h. refl,
      λ (h, apart). (Points-Grows s.heap (s.heap ++ some i ∷ []) s.items grows h, apart),
    )

pub insert_new-Extends : (jid node name : Str) (s : Disco) → Extends s (insert_new jid node name s)
unfolding insert_new
insert_new-Extends jid node name s =
    let i : Item = record {
      jid = jid;
      node = node;
      name = name;
      children = [];
      features = [];
      identities = [];
    } in
    let (grows, long, same, sound) = with_item-Extends i s in
    (
      grows,
      long,
      λ n below.
          held-place n jid (length s.heap) s.items ∙ rw (below_eq n (length s.heap) below) refl,
      λ w.
          place-IsSound jid (length s.heap) (with_item i s) (sound w)
            (held-lt s.heap s.items (length s.heap) w.0 (omega arith))
            (i, item_at-last s.heap i, refl),
    )
