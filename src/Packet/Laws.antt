-- ===== src/Packet/Laws.antt =====
-- Properties of src/jabberoo-packet.cc.
use jabberoo.Base.{
  Str, false, none, some, ◌≡◌, codes, find_if-append, find_if-passes, empty, arith, ◌==◌, ==_iff,
  [], ◌∷◌, if◌then◌else◌,
}
use jabberoo.Judo.{Judo}
use jabberoo.Packet.{add_x, find_x}

module _ (judo : Judo) where
  open judo use {
    Element, make, get_attrib, put_attrib, cmp_attrib, append_child, children,
    children-append_child, cmp_attrib-get_attrib, get_attrib-put_attrib_same,
    get_attrib-put_attrib_other,
  }

  -- For namespaces that are not empty: after addX a search for the namespace succeeds, and finds
  -- the extension that was there before, or else the new one; a search for another namespace finds
  -- what it found before.
  pub find_x-add_x :
      (base : Element) (tnamespace other : Str)
      → empty tnamespace ≡ false
      → empty other ≡ false
      → find_x judo (add_x judo base tnamespace) other ≡ elim (find_x judo base other) [
        | some x ↦ some x
        | none ↦
            if tnamespace == other
            then some (put_attrib (make (codes "x")) (codes "xmlns") tnamespace)
            else none
      ]
  unfolding find_x add_x
  find_x-add_x base tnamespace other h k =
      let x = put_attrib (make (codes "x")) (codes "xmlns") tnamespace in
      ground (
        arith,
        children-append_child base x,
        find_if-append (λ it. cmp_attrib it (codes "xmlns") other) (children base) (x ∷ []),
        cmp_attrib-get_attrib x (codes "xmlns") other k,
        get_attrib-put_attrib_same (make (codes "x")) (codes "xmlns") tnamespace,
      )

  -- What the search for a namespace that is not empty finds carries that namespace.
  pub find_x-namespace :
      (base x : Element) (tnamespace : Str)
      → empty tnamespace ≡ false
      → find_x judo base tnamespace ≡ some x
      → get_attrib x (codes "xmlns") ≡ tnamespace
  unfolding find_x
  find_x-namespace base x tnamespace h found = ground (
    arith,
    find_if-passes (λ it. cmp_attrib it (codes "xmlns") tnamespace) (children base) x,
    cmp_attrib-get_attrib x (codes "xmlns") tnamespace,
    ==_iff (get_attrib x (codes "xmlns")) tnamespace,
  )
