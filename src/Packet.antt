-- ===== src/Packet.antt =====
-- src/jabberoo-packet.cc. A Packet holds one member, `_base`, and is modelled by that Element.
pub mod Laws
use jabberoo.Base.{Str, Option, none, some, codes, find_if}
use jabberoo.Base.Int.{ℤ, pos, atoi}
use jabberoo.Judo.{Judo}

module _ (judo : Judo) where
  open judo use {
    Element, make, get_attrib, put_attrib, cmp_attrib, append_child, children, find_element,
    get_child_cdata,
  }

  unfoldable pub get_from : Element → Str
  get_from base = get_attrib base (codes "from")

  unfoldable pub get_to : Element → Str
  get_to base = get_attrib base (codes "to")

  unfoldable pub get_id : Element → Str
  get_id base = get_attrib base (codes "id")

  unfoldable pub get_error : Element → Str
  get_error base = get_child_cdata base (codes "error")

  unfoldable pub get_error_code : Element → ℤ
  unfolding atoi
  get_error_code base = elim (find_element base (codes "error")) [
    | some error ↦ atoi (get_attrib error (codes "code"))
    | none ↦ pos 0
  ]

  unfoldable pub set_from : Element → Str → Element
  set_from base from = put_attrib base (codes "from") from

  unfoldable pub set_to : Element → Str → Element
  set_to base to = put_attrib base (codes "to") to

  unfoldable pub set_id : Element → Str → Element
  set_id base id = put_attrib base (codes "id") id

  -- The packet with the new child. The caller's further changes of the child are made before.
  unfoldable pub add_x : Element → Str → Element
  add_x base tnamespace =
      append_child base (put_attrib (make (codes "x")) (codes "xmlns") tnamespace)

  -- addX()
  unfoldable pub add_bare_x : Element → Element
  add_bare_x base = append_child base (make (codes "x"))

  unfoldable pub find_x : Element → Str → Option Element
  unfolding find_if
  find_x base tnamespace = find_if (λ it. cmp_attrib it (codes "xmlns") tnamespace) (children base)

  -- `erase` is called on the extension, with the place that it has in the packet: it deletes the
  -- extension and then uses the extension's list, which is undefined behaviour, none here.
  unfoldable pub erase_x : Element → Str → Option Element
  unfolding find_x
  erase_x base tnamespace = elim (find_x base tnamespace) [ none ↦ some base | some x ↦ none ]
