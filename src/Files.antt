-- ===== src/Files.antt =====
-- src/jabberoo-filestream.cc and include/filestream.hh: a file of XML that is read in chunks and pushed
-- into libjudo's parser, whose events build the tree. The parser is a parameter; a file is the bytes
-- that reading it gives, none where it cannot be opened.
pub mod Pieces
pub mod Chunks
pub mod Collected
use jabberoo.Base.{
  Str, Bool, true, false, Option, none, some, List, [], ◌∷◌, ◌++◌, ℕ, zero, suc, ◌≡◌, if◌then◌else◌,
  codes, empty, length, take, drop, ltb, nat_eq,
}
use jabberoo.Judo.{Judo}

module _ (judo : Judo) where
  open judo use {Element, append_child}

  -- The calls that the parser makes.
  pub data Parsed : Type 0 where
    document_start element : Element → Parsed
    document_end : Parsed

  -- What a push into the parser gives: the calls that it made, and the message of ParserError.
  pub record Pushed (State : Type 0) : Type 0 where
    pub state : State
    pub events : List Parsed
    pub error : Option Str

  -- ElementStream (libjudo/src/ElementStream.cpp), around the parser of expat, which reads what it is
  -- given bit by bit. A push fails an assert where the document has ended.
  pub record Parser : Type 1 where
    pub State : Type 0
    pub push_bytes : State → Str → Pushed State
    pub has_ended : State → Bool
    pub push_bytes-nothing :
        (st : State) → push_bytes st [] ≡ record { state = st; events = []; error = none }
    pub push_bytes-failed :
        (st : State) (a b : Str) (m : Str)
        → (push_bytes st a).error ≡ some m
        → push_bytes st (a ++ b) ≡ push_bytes st a
    pub push_bytes-append :
        (st : State) (a b : Str)
        → (push_bytes st a).error ≡ none
        → has_ended (push_bytes st a).state ≡ false
        → push_bytes st (a ++ b) ≡ (
            let next = push_bytes (push_bytes st a).state b in
            record {
              state = next.state;
              events = (push_bytes st a).events ++ next.events;
              error = next.error;
            })

  -- onDocumentStart, onElement and onDocumentEnd change the root alone; an element with no root to
  -- take it is a call through the null pointer.
  unfoldable pub handle : Parsed → Option Element → Option (Option Element)
  handle (document_start elem) root = some (some elem)
  handle (element elem) none = none
  handle (element elem) (some root) = some (some (append_child root elem))
  handle document_end root = some root

  unfoldable pub handle_all : List Parsed → Option Element → Option (Option Element)
  unfolding handle
  handle_all [] root = some root
  handle_all (e ∷ es) root = elim (handle e root) [ none ↦ none | some next ↦ handle_all es next ]

  module _ (parser : Parser) where
    open parser use {State, push_bytes, has_ended}

    pub record FileStream : Type 0 where
      pub stream : State
      pub root : Option Element
      pub error : Str

    -- How a stretch of ParseFile ends: `failed` is a ParserError with its message, `undefined` a null
    -- pointer or an assert that fails, `exhausted` a loop with too little fuel.
    pub data Outcome : Type 0 where
      ran : FileStream → Outcome
      failed : Str → FileStream → Outcome
      undefined exhausted : Outcome

    unfoldable pub and_then : Outcome → (FileStream → Outcome) → Outcome
    and_then (ran s) f = f s
    and_then (failed m s) f = failed m s
    and_then undefined f = undefined
    and_then exhausted f = exhausted

    unfoldable pub ended_push : Option (Option Element) → Pushed State → FileStream → Outcome
    ended_push none p s = undefined
    ended_push (some root) p s =
        let t = record s { stream = p.state; root = root } in
        elim p.error [ none ↦ ran t | some m ↦ failed m t ]

    -- The parser is given the text, whether the document has ended or not.
    unfoldable pub feed : Str → FileStream → Outcome
    unfolding handle_all ended_push
    feed text s = let p = push_bytes s.stream text in ended_push (handle_all p.events s.root) p s

    unfoldable pub push : Str → FileStream → Outcome
    unfolding feed
    push text s = if has_ended s.stream then undefined else feed text s

    -- The loop over chunks of 1024 bytes: a read that gives fewer sets `eof`.
    unfoldable pub read_chunks : ℕ → Str → FileStream → Outcome
    unfolding push and_then
    read_chunks zero rest s = exhausted
    read_chunks (suc n) rest s =
        let chunk = take 1024 rest in
        elim (nat_eq (length chunk) 0) [
          | true ↦ ran s
          | false ↦ and_then (push chunk s) (λ t. elim (ltb (length chunk) 1024) [
            | true ↦ ran t
            | false ↦ read_chunks n (drop 1024 rest) t
          ])
        ]

    unfoldable pub opening : Str → Str
    opening root_name = codes "<" ++ root_name ++ codes ">"

    unfoldable pub closing : Str → Str
    closing root_name = codes "</" ++ root_name ++ codes ">"

    unfoldable pub content_of : Option Str → Str
    content_of none = []
    content_of (some content) = content

    unfoldable pub push_all : Option Str → Str → FileStream → Outcome
    unfolding push and_then read_chunks opening closing content_of
    push_all file root_name s =
        and_then (if empty root_name then ran s else push (opening root_name) s) (λ s1.
          and_then (read_chunks (suc (length (content_of file))) (content_of file) s1)
            (λ s2. if empty root_name then ran s2 else push (closing root_name) s2))

    -- FileStream(fn), around a parser that is new
    unfoldable pub new_stream : State → FileStream
    new_stream st = record { stream = st; root = none; error = [] }

    unfoldable pub get_error : FileStream → Str
    get_error s = s.error

    unfoldable pub clean_up : FileStream → FileStream
    clean_up s = record s { root = none }

    -- What ParseFile returns; its handler of ParserError keeps the message and deletes the root.
    unfoldable pub finish : Outcome → Option (Bool × FileStream)
    unfolding clean_up
    finish (ran s) = some (true, s)
    finish (failed m s) = some (false, clean_up (record s { error = m }))
    finish undefined = none
    finish exhausted = none

    unfoldable pub parse_file : Option Str → Str → FileStream → Option (Bool × FileStream)
    unfolding push_all finish
    parse_file file root_name s = finish (push_all file root_name s)

    -- The root is the caller's from here on.
    unfoldable pub get_root : FileStream → Option Element × FileStream
    get_root s = (s.root, record s { root = none })
