-- ===== src/Tests/VCards.antt =====
-- Cards of src/jabberoox-vcard.cc on a store of elements with one section of text at most.
use jabberoo.Base.{
  Str, Bool, true, false, Option, none, some, List, [], ◌∷◌, ◌++◌, ℕ, zero, suc, ◌≡◌, ◌⊎◌, ◌≤◌,
  refl, ap, sym, ◌∙◌, codes, if◌then◌else◌, nat_eq, nat_eq_iff, ltb, ◌==◌, ==_iff, ◌&&◌, drop,
  find_if, find_if-passes, arith, inl, inr, Bool-cases, Option-cases,
}
use jabberoo.Base.Holds.{◌>>=◌}
use jabberoo.VCards.{
  Field, Entry, Store, VCard, number, find, query_of, new_card, assign, get_base_element,
  between_slashes, last_of, nickname, first_name,
}
use jabberoo.VCards.Texts.{Apart}
use jabberoo.VCards.Reached.{Reached, get_base_element-assign}

record Cells : Type 0 where
  next : ℕ
  name : ℕ → Str
  text : ℕ → Option Str
  children : ℕ → List ℕ

-- "&amp;" is the one escape of this store.
abbrev starts : Str → Str → Bool
starts [] s = true
starts (c ∷ cs) [] = false
starts (c ∷ cs) (d ∷ ds) = nat_eq c d && starts cs ds

abbrev resolve : ℕ → Str → Str
resolve k [] = []
resolve (suc k) (c ∷ cs) = resolve k cs
resolve zero (c ∷ cs) = c ∷ resolve (if starts (codes "&amp;") (c ∷ cs) then 4 else 0) cs

abbrev alive : Cells → ℕ → Bool
alive m e = ltb e m.next

abbrev child : Cells → ℕ → Str → Option ℕ
unfolding find_if ◌==◌
child m e n = find_if (λ c. alive m c && m.name c == n) (m.children e)

abbrev add : ℕ → Str → Cells → ℕ × Cells
add e n m = (
  m.next,
  record {
    next = suc m.next;
    name = λ o. if nat_eq o m.next then n else m.name o;
    text = λ o. if nat_eq o m.next then none else m.text o;
    children = λ o. if nat_eq o e then m.children o ++ m.next ∷ [] else m.children o;
  },
)

abbrev text_at : Option Str → Str
text_at none = []
text_at (some t) = t

abbrev count_at : Option Str → ℕ
count_at none = 0
count_at (some t) = 1

abbrev erase : ℕ → Cells → Cells
erase e m = record m { text = λ o. if nat_eq e o then none else m.text o }

abbrev append : ℕ → Str → Cells → Cells
append e d m = record m {
  text = λ o. if nat_eq e o then some (text_at (m.text o) ++ resolve 0 d) else m.text o;
}

abbrev walk : List Str → Cells → ℕ → Option ℕ
unfolding child
walk [] m e = some e
walk (n ∷ ns) m e = child m e n >>= walk ns m

abbrev look : List Str → Cells → ℕ → Option ℕ
unfolding walk
look [] m e = none
look (n ∷ ns) m e = if alive m e && m.name e == n then walk ns m e else none

both : (a b : Bool) → (a && b) ≡ true → (a ≡ true) × (b ≡ true)
both true b h = (refl, h)
both false b h = cc

child_lem :
    (m : Cells) (e : ℕ) (n : Str) (c : ℕ)
    → child m e n ≡ some c
    → (alive m c ≡ true) × (m.name c ≡ n)
unfolding child
child_lem m e n c h =
    let (here, named) =
      both (alive m c) (m.name c == n)
        (find_if-passes (λ c. alive m c && m.name c == n) (m.children e) c h) in
    (here, (==_iff (m.name c) n).0 named)

walk_lem :
    (ns : List Str) (m : Cells) (e c : ℕ)
    → alive m e ≡ true
    → walk ns m e ≡ some c
    → (alive m c ≡ true) × (m.name c ≡ last_of (m.name e) ns)
unfolding walk
walk_lem [] m e c there h =
    let path : some e ≡ some c = h in
    let same : e ≡ c = cc in (ap (alive m) (sym same) ∙ there, ap (λ o. m.name o) (sym same))
walk_lem (n ∷ ns) m e c there h = elim (Option-cases (child m e n)) [
  | inl missing ↦ let wrong : none ≡ some c = rw (missing, walk) at h in cc
  | inr (d, found) ↦
      let (there', named) = child_lem m e n d found in
      let (here, last) = walk_lem ns m d c there' (rw (found, walk) at h) in
      (here, last ∙ ap (λ k. last_of k ns) named)
]

look_lem :
    (b : List Str) (m : Cells) (e c : ℕ)
    → look (drop 1 b) m e ≡ some c
    → (alive m c ≡ true) × (m.name c ≡ last_of [] b)
unfolding look
look_lem [] m e c h = cc
look_lem (x ∷ []) m e c h = cc
look_lem (x ∷ n ∷ ns) m e c h = elim (Bool-cases (alive m e && m.name e == n)) [
  | inr no_root ↦ let wrong : none ≡ some c = rw (no_root, look) at h in cc
  | inl root ↦
      let (there, named) = both (alive m e) (m.name e == n) root in
      let (here, last) = walk_lem ns m e c there (rw (root, look) at h) in
      (here, last ∙ ap (λ k. last_of k ns) ((==_iff (m.name e) n).0 named))
]

new_lem :
    (e : ℕ) (n : Str) (m : Cells)
    → (alive (add e n m).1 (add e n m).0 ≡ true)
      × ((add e n m).1.name (add e n m).0 ≡ n)
      × (count_at ((add e n m).1.text (add e n m).0) ≡ 0)
new_lem e n m = let it = (nat_eq_iff m.next m.next).1 refl in (ground arith, rw it refl, rw it refl)

old_lem :
    (e : ℕ) (n : Str) (m : Cells) (o : ℕ)
    → alive m o ≡ true
    → (alive (add e n m).1 o ≡ true)
      × ((add e n m).1.name o ≡ m.name o)
      × (count_at ((add e n m).1.text o) ≡ count_at (m.text o))
old_lem e n m o h =
    let other : nat_eq o m.next ≡ false = ground arith in
    (ground arith, rw other refl, rw other refl)

only_lem :
    (e : ℕ) (n : Str) (m : Cells) (o : ℕ)
    → alive (add e n m).1 o ≡ true
    → (o ≡ (add e n m).0) ⊎ (alive m o ≡ true)
only_lem e n m o h = elim (Bool-cases (alive m o)) [
  | inl old ↦ inr old
  | inr new ↦ inl (ground arith)
]

erase_other :
    (e : ℕ) (m : Cells) (o : ℕ)
    → nat_eq e o ≡ false
    → (text_at ((erase e m).text o) ≡ text_at (m.text o))
      × (count_at ((erase e m).text o) ≡ count_at (m.text o))
erase_other e m o apart = (rw apart refl, rw apart refl)

append_other :
    (e : ℕ) (d : Str) (m : Cells) (o : ℕ)
    → nat_eq e o ≡ false
    → (text_at ((append e d m).text o) ≡ text_at (m.text o))
      × (count_at ((append e d m).text o) ≡ count_at (m.text o))
append_other e d m o apart = (rw apart refl, rw apart refl)

erased : (e : ℕ) (m : Cells) → count_at (m.text e) ≤ 1 → count_at ((erase e m).text e) ≡ 0
erased e m h = rw ((nat_eq_iff e e).1 refl) refl

appended :
    (e : ℕ) (d : Str) (m : Cells)
    → alive m e ≡ true
    → count_at (m.text e) ≡ 0
    → (text_at ((append e d m).text e) ≡ resolve 0 d) × (count_at ((append e d m).text e) ≡ 1)
appended e d m there bare = elim (Option-cases (m.text e)) [
  | inl empty ↦ let it = (nat_eq_iff e e).1 refl in (rw (it, empty) refl, rw it refl)
  | inr (t, full) ↦
      let wrong : ◌≡◌ {A = ℕ} 1 0 = ap count_at (sym full) ∙ bare in absurd (omega (arith, wrong))
]

abbrev cells : Store
cells = record {
  Memory = Cells;
  is_element = alive;
  get_name = λ m e. m.name e;
  get_cdata = λ m e. text_at (m.text e);
  sections = λ m e. count_at (m.text e);
  find_element = child;
  add_element = add;
  erase_cdata = erase;
  add_cdata = append;
  unescape = resolve 0;
  to_string = λ m e. m.name e;
  query = λ q m e. look (drop 1 (between_slashes q)) m e;
  names_of = λ q. drop 1 (between_slashes q);
  find_element-get_name = child_lem;
  names_of-location = λ q location. refl;
  query-get_name = λ q m e c location h. look_lem (between_slashes q) m e c h;
  add_element_new = new_lem;
  add_element_old = old_lem;
  add_element_only = only_lem;
  get_name-erase_cdata = λ e m o. refl;
  get_name-add_cdata = λ e d m o. refl;
  is_element-erase_cdata = λ e m o. refl;
  is_element-add_cdata = λ e d m o. refl;
  erase_cdata_other = erase_other;
  add_cdata_other = append_other;
  sections-erase_cdata = erased;
  get_cdata-add_cdata = appended;
}

-- A card with a root and nothing in it.
abbrev blank : Cells
blank = record { next = 1; name = λ e. codes "vCard"; text = λ e. none; children = λ e. [] }

abbrev card : VCard cells
card = assign cells first_name (codes "Julian") (new_card cells blank 0)

get_base_element-assign_example :
    let s1 = assign cells nickname (codes "J&amp;M") card in
    let m = (get_base_element cells s1).1.memory in
    ((x : Entry) × (find nickname s1.entries ≡ some x)
      × (m.name x.elem ≡ codes "NICKNAME")
      × (text_at (m.text x.elem) ≡ codes "J&M"))
    × ((g : Field) (y : Entry)
        → nat_eq (number nickname) (number g) ≡ false
        → find g card.entries ≡ some y
        → text_at (m.text y.elem) ≡ resolve 0 y.text)
    × ((o : ℕ) → Apart o s1.entries → text_at (m.text o) ≡ text_at (s1.memory.text o))
unfolding query_of
get_base_element-assign_example = get_base_element-assign cells card nickname (codes "J&amp;M") (
    Reached.assigned (new_card cells blank 0) first_name (codes "Julian")
      (Reached.made blank 0 refl (λ o there. omega arith)))
