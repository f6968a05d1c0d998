-- ===== src/Files/Collected.antt =====
-- The tree that src/jabberoo-filestream.cc collects from a file, and what an error leaves.
use jabberoo.Base.{
  Str, true, false, Option, none, some, List, [], ◌∷◌, ◌++◌, ◌≡◌, refl, sym, ap, ◌∙◌, append_nil,
  append_assoc,
}
use mathlib.Core.List.{map}
use jabberoo.Judo.{Judo}
use jabberoo.Files.{
  Parsed, Pushed, Parser, document_start, element, document_end, handle_all, FileStream, feed,
  content_of, parse_file, finish, get_root, get_error, ended_push, ran, failed,
}
use jabberoo.Files.Pieces.{ended_push_ran}
use jabberoo.Files.Chunks.{EndsLast, lead, trail, parse_file_lem}

module _ (judo : Judo) where
  open judo use {
    Element, append_child, children, children-append_child, get_name, get_attrib,
    get_name-append_child,
  }

  abbrev with_children : Element → List Element → Element
  with_children r [] = r
  with_children r (e ∷ es) = with_children (append_child r e) es

  children-with_children :
      (r : Element) (es : List Element) → children (with_children r es) ≡ children r ++ es
  children-with_children r [] = sym (append_nil (children r))
  children-with_children r (e ∷ es) =
      children-with_children (append_child r e) es
      ∙ ap (λ l. l ++ es) (children-append_child r e)
      ∙ append_assoc (children r) (e ∷ []) es

  get_name-with_children :
      (r : Element) (es : List Element) → get_name (with_children r es) ≡ get_name r
  get_name-with_children r [] = refl
  get_name-with_children r (e ∷ es) =
      get_name-with_children (append_child r e) es ∙ get_name-append_child r e

  -- The calls for a document with these children of its root.
  abbrev pub document : Element → List Element → List (Parsed judo)
  document r es = document_start r ∷ (map element es ++ document_end ∷ [])

  handle_all-elements :
      (es : List Element) (r : Element)
      → handle_all judo (map element es ++ document_end ∷ []) (some r)
        ≡ some (some (with_children r es))
  unfolding handle_all
  handle_all-elements [] r = refl
  handle_all-elements (e ∷ es) r = handle_all-elements es (append_child r e)

  module _ (parser : Parser judo) where
    open parser use {push_bytes}

    -- All that is pushed into the parser for a file.
    abbrev pub whole : Option Str → Str → Str
    whole file root_name =
        lead judo parser root_name ++ (content_of judo parser file ++ trail judo parser root_name)

    -- The parser finds a document in the text that is pushed for a file, which ends with nothing but
    -- what is pushed last. Then ParseFile succeeds, and getRoot hands over, once, an element with the
    -- name of the document's root, with its children and behind them the elements that the parser
    -- reported, in their order.
    pub get_root-parse_file :
        (file : Option Str) (root_name : Str) (s : FileStream judo parser) (r : Element)
        (es : List Element)
        → EndsLast judo parser (content_of judo parser file) root_name s.stream
        → (push_bytes s.stream (whole file root_name)).events ≡ document r es
        → (push_bytes s.stream (whole file root_name)).error ≡ none
        → (t : FileStream judo parser) × (parse_file judo parser file root_name s ≡ some (true, t))
          × ((root : Element) × ((get_root judo parser t).0 ≡ some root)
              × (get_name root ≡ get_name r)
              × (children root ≡ children r ++ es)
              × ((get_root judo parser (get_root judo parser t).1).0 ≡ none))
    unfolding feed finish handle_all get_root
    get_root-parse_file file root_name s r es last parsed fine = (
      record s {
        stream = (push_bytes s.stream (whole file root_name)).state;
        root = some (with_children r es);
      },
      parse_file_lem judo parser file root_name s last
          ∙ ap (finish judo parser) (
              ap (λ o. ended_push judo parser o (push_bytes s.stream (whole file root_name)) s)
                (ap (λ l. handle_all judo l s.root) parsed ∙ handle_all-elements es r)
              ∙ ended_push_ran judo parser (some (with_children r es))
                  (push_bytes s.stream (whole file root_name)) s fine),
      (with_children r es, refl, get_name-with_children r es, children-with_children r es, refl),
    )

    ended_push_failed :
        (root : Option Element) (p : Pushed judo parser.State) (s : FileStream judo parser)
        (m : Str)
        → p.error ≡ some m
        → finish judo parser (ended_push judo parser (some root) p s)
          ≡ some (false, record s { stream = p.state; root = none; error = m })
    unfolding ended_push finish
    ended_push_failed root p s m bad = λ i. finish judo parser (elim (bad i) [
      | none ↦ ran (record s { stream = p.state; root = root })
      | some m ↦ failed m (record s { stream = p.state; root = root })
    ])

    -- The parser refuses the text that is pushed for a file, after calls that all have a root to act on,
    -- and the document ends with nothing but what is pushed last. Then ParseFile returns false, keeps
    -- the message of the error, and leaves no root, whatever was collected before the error.
    pub parse_file_failed :
        (file : Option Str) (root_name : Str) (s : FileStream judo parser) (root : Option Element)
        (m : Str)
        → EndsLast judo parser (content_of judo parser file) root_name s.stream
        → handle_all judo (push_bytes s.stream (whole file root_name)).events s.root ≡ some root
        → (push_bytes s.stream (whole file root_name)).error ≡ some m
        → (t : FileStream judo parser) × (parse_file judo parser file root_name s ≡ some (false, t))
          × (get_error judo parser t ≡ m)
          × ((get_root judo parser t).0 ≡ none)
    unfolding feed get_root get_error
    parse_file_failed file root_name s root m last handled bad =
        let p = push_bytes s.stream (whole file root_name) in
        (
          record s { stream = p.state; root = none; error = m },
          parse_file_lem judo parser file root_name s last
              ∙ ap (λ o. finish judo parser (ended_push judo parser o p s)) handled
              ∙ ended_push_failed root p s m bad,
          refl,
          refl,
        )
