-- ===== src/Tests/Files.antt =====
-- Files of src/jabberoo-filestream.cc, with a parser of a little language: '<' begins the document,
-- 'e' is an element, '/' ends the document, and '&' is an error.
use jabberoo.Base.{
  Str, Bool, true, false, Option, none, some, List, [], ◌∷◌, ◌++◌, ℕ, ◌≡◌, refl, ap, ◌∙◌, sym, ◌<◌,
  ◌*◌, codes, append_assoc, nat_eq, if◌then◌else◌, arith, Option-cases, inl, inr,
}
use jabberoo.Judo.Tree.{tree, Node}
use jabberoo.Files.{
  Parsed, Pushed, Parser, document_start, element, document_end, handle, handle_all, FileStream,
  parse_file, new_stream, get_root, get_error, content_of, feed, finish, opening, closing,
}
use jabberoo.Files.Chunks.{lead, trail, parse_file_lem}
use jabberoo.Files.Collected.{get_root-parse_file, parse_file_failed}

data Reading : Type 0 where
  waiting inside over : Reading

abbrev read : Reading → ℕ → Option (Reading × List (Parsed tree))
read waiting c =
    if nat_eq c b'<' then some (inside, document_start (tree.make (codes "a")) ∷ []) else none
read inside c =
    if nat_eq c b'e'
    then some (inside, element (tree.make (codes "e")) ∷ [])
    else if nat_eq c b'/'
    then some (over, document_end ∷ [])
    else if nat_eq c b'&'
    then none
    else some (inside, [])
read over c = some (over, [])

abbrev read_all : Reading → Str → Pushed tree Reading
read_all st [] = record { state = st; events = []; error = none }
read_all st (c ∷ cs) = elim (read st c) [
  | none ↦ record { state = st; events = []; error = some (codes "bad") }
  | some (next, es) ↦
      let rest = read_all next cs in
      record { state = rest.state; events = es ++ rest.events; error = rest.error }
]

abbrev is_over : Reading → Bool
is_over waiting = false
is_over inside = false
is_over over = true

abbrev behind : List (Parsed tree) → Pushed tree Reading → Pushed tree Reading
behind es p = record { state = p.state; events = es ++ p.events; error = p.error }

read_all-failed :
    (st : Reading) (a b : Str) (m : Str)
    → (read_all st a).error ≡ some m
    → read_all st (a ++ b) ≡ read_all st a
read_all-failed st [] b m bad = cc
read_all-failed st (c ∷ cs) b m bad = elim (Option-cases (read st c)) [
  | inl refused ↦ rw (refused, read_all) refl
  | inr ((next, es), known) ↦
      rw (known, read_all)
        (ap (behind es) (read_all-failed next cs b m (rw (known, read_all) at bad)))
]

read_all-append :
    (st : Reading) (a b : Str)
    → (read_all st a).error ≡ none
    → is_over (read_all st a).state ≡ false
    → read_all st (a ++ b) ≡ (
        let next = read_all (read_all st a).state b in
        record {
          state = next.state;
          events = (read_all st a).events ++ next.events;
          error = next.error;
        })
read_all-append st [] b fine opens = refl
read_all-append st (c ∷ cs) b fine opens = elim (Option-cases (read st c)) [
  | inl refused ↦ let bad : some (codes "bad") ≡ none = rw (refused, read_all) at fine in cc
  | inr ((next, es), known) ↦
      rw (known, read_all)
        (ap (behind es) (
            read_all-append next cs b (rw (known, read_all) at fine)
              (rw (known, read_all) at opens))
          ∙ (λ i.
              let last = read_all (read_all next cs).state b in
              record {
                state = last.state;
                events = sym (append_assoc es (read_all next cs).events last.events) i;
                error = last.error;
              }))
]

abbrev parser : Parser tree
parser = record {
  State = Reading;
  push_bytes = read_all;
  has_ended = is_over;
  push_bytes-nothing = λ st. refl;
  push_bytes-failed = read_all-failed;
  push_bytes-append = read_all-append;
}

abbrev stream : FileStream tree parser
stream = new_stream tree parser waiting

abbrev file : Str
file = codes "ee"

abbrev bad_file : Str
bad_file = codes "e&"

first_chunk : (k : ℕ) → 1024 * k < 2 → k ≡ 0
first_chunk k short = omega arith

get_root-parse_file_example :
    (t : FileStream tree parser) × (parse_file tree parser (some file) (codes "a") stream
      ≡ some (true, t))
    × ((root : Node) × ((get_root tree parser t).0 ≡ some root)
        × (tree.get_name root ≡ codes "a")
        × (tree.children root ≡ tree.make (codes "e") ∷ tree.make (codes "e") ∷ [])
        × ((get_root tree parser (get_root tree parser t).1).0 ≡ none))
unfolding content_of opening closing new_stream
get_root-parse_file_example =
    get_root-parse_file tree parser (some file) (codes "a") stream (tree.make (codes "a"))
      (tree.make (codes "e") ∷ tree.make (codes "e") ∷ [])
      (refl, refl, λ k short. rw (first_chunk k short) refl, λ named. refl) refl refl

parse_file_failed_example :
    (t : FileStream tree parser) × (parse_file tree parser (some bad_file) (codes "a") stream
      ≡ some (false, t))
    × (get_error tree parser t ≡ codes "bad")
    × ((get_root tree parser t).0 ≡ none)
unfolding content_of opening closing new_stream handle handle_all
parse_file_failed_example =
    parse_file_failed tree parser (some bad_file) (codes "a") stream
      (some (tree.append_child (tree.make (codes "a")) (tree.make (codes "e")))) (codes "bad")
      (refl, refl, λ k short. rw (first_chunk k short) refl, λ named. refl) refl refl

parse_file_lem_example :
    parse_file tree parser (some file) [] stream
    ≡ finish tree parser (
        feed tree parser
          (lead tree parser [] ++ (content_of tree parser (some file) ++ trail tree parser []))
          stream)
unfolding content_of new_stream
parse_file_lem_example =
    parse_file_lem tree parser (some file) [] stream
      (refl, refl, λ k short. rw (first_chunk k short) refl, λ named. cc)
