-- ===== src/Files/Chunks.antt =====
-- The chunks in which src/jabberoo-filestream.cc reads a file: they make no difference to the parser.
use jabberoo.Base.{
  Str, Bool, true, false, Option, none, [], ◌++◌, ℕ, zero, suc, ◌≡◌, refl, sym, ap, ◌∙◌, ◌≤◌, ◌<◌,
  ◌+◌, ◌-◌, ◌*◌, arith, if◌then◌else◌, append_nil, empty, length, take, drop, take-drop,
  length-drop, take_of_length-le, ltb, nat_eq, Bool-cases, inl, inr,
}
use jabberoo.Judo.{Judo}
use jabberoo.Files.{
  Parser, FileStream, Outcome, ran, and_then, feed, push, read_chunks, opening, closing, content_of,
  push_all, finish, parse_file,
}
use jabberoo.Files.Pieces.{after, and_then-feed, and_then_ran, feed-nothing, feed-append}
use jabberoo.Base.Prefixes.{take_add, short_take, length-take-le, nothing_left}
use jabberoo.Base.Compare.{lt_of_ltb, ge_of_ltb, zero_of_nat_eq, positive_of_nat_eq}

module _ (judo : Judo) (parser : Parser judo) where
  open parser use {
    State, push_bytes, has_ended, push_bytes-nothing, push_bytes-failed, push_bytes-append,
  }

  -- The state behind two texts.
  state-append :
      (st : State) (a b : Str)
      → (push_bytes st a).error ≡ none
      → has_ended (push_bytes st a).state ≡ false
      → (push_bytes (push_bytes st a).state b).state ≡ (push_bytes st (a ++ b)).state
  state-append st a b fine open_yet =
      sym (ap (λ p. p.state) (push_bytes-append st a b fine open_yet))

  -- The document has not ended where a chunk begins.
  abbrev StaysOpen : State → Str → Type 0
  StaysOpen st rest =
      (k : ℕ)
      → 1024 * k < length rest
      → has_ended (push_bytes st (take (1024 * k) rest)).state ≡ false

  StaysOpen-drop :
      (st : State) (rest : Str)
      → (push_bytes st (take 1024 rest)).error ≡ none
      → StaysOpen st rest
      → StaysOpen (push_bytes st (take 1024 rest)).state (drop 1024 rest)
  StaysOpen-drop st rest fine opens k inside =
      let long : length (drop 1024 rest) ≡ length rest - 1024 = length-drop 1024 rest in
      let first : 1024 * 1 < length rest = omega arith in
      let further : 1024 * suc k < length rest = omega arith in
      let at : 1024 * suc k ≡ 1024 + 1024 * k = omega arith in
      ap has_ended (
        state-append st (take 1024 rest) (take (1024 * k) (drop 1024 rest)) fine (opens 1 first)
        ∙ ap (λ l. (push_bytes st l).state)
            (sym (take_add 1024 (1024 * k) rest) ∙ ap (λ n. take n rest) (sym at)))
      ∙ opens (suc k) further

  -- A full chunk and what is behind it.
  feed-chunk :
      (rest : Str) (s : FileStream judo parser)
      → StaysOpen s.stream rest
      → and_then judo parser
          (feed judo parser (take 1024 rest) s)
          (feed judo parser (drop 1024 rest))
        ≡ feed judo parser rest s
  feed-chunk rest s opens = elim (Bool-cases (ltb 1024 (length rest))) [
    | inl more ↦
        sym (
          feed-append judo parser (take 1024 rest) (drop 1024 rest) s
            (opens 1 (lt_of_ltb 1024 (length rest) more)))
        ∙ ap (λ l. feed judo parser l s) (take-drop 1024 rest)
    | inr over ↦
        let le : length rest ≤ 1024 = ge_of_ltb 1024 (length rest) over in
        let bare : drop 1024 rest ≡ [] =
          nothing_left (drop 1024 rest) (omega (arith, length-drop 1024 rest)) in
        let whole : take 1024 rest ≡ rest = take_of_length-le 1024 rest le in
        and_then-feed judo parser (take 1024 rest) s (feed judo parser (drop 1024 rest))
          (λ t. ran t)
          (λ root fine.
            ap (λ l. feed judo parser l (after judo parser (take 1024 rest) s root)) bare
            ∙ feed-nothing judo parser (after judo parser (take 1024 rest) s root))
        ∙ and_then_ran judo parser (feed judo parser (take 1024 rest) s)
        ∙ ap (λ l. feed judo parser l s) whole
  ]

  push_open :
      (text : Str) (s : FileStream judo parser)
      → has_ended s.stream ≡ false
      → push judo parser text s ≡ feed judo parser text s
  unfolding push
  push_open text s open_yet = rw (open_yet, push) refl

  read_chunks_lem :
      (n : ℕ) (rest : Str) (s : FileStream judo parser)
      → length rest < n
      → StaysOpen s.stream rest
      → read_chunks judo parser n rest s ≡ feed judo parser rest s
  unfolding read_chunks
  read_chunks_lem zero rest s enough opens = absurd (omega arith)
  read_chunks_lem (suc n) rest s enough opens =
      let chunk = take 1024 rest in
      elim (Bool-cases (nat_eq (length chunk) 0)) [
        | inl none_left ↦
            let bare : rest ≡ [] =
              sym (short_take 1024 rest (omega (arith, zero_of_nat_eq (length chunk) none_left)))
              ∙ nothing_left chunk (zero_of_nat_eq (length chunk) none_left) in
            rw (none_left, read_chunks)
              (sym (feed-nothing judo parser s) ∙ ap (λ l. feed judo parser l s) (sym bare))
        | inr some_left ↦
            let now : has_ended s.stream ≡ false =
              ap (λ p. has_ended p.state) (sym (push_bytes-nothing s.stream))
              ∙ opens 0 (
                  omega (
                    arith,
                    length-take-le 1024 rest,
                    positive_of_nat_eq (length chunk) some_left,
                  )) in
            elim (Bool-cases (ltb (length chunk) 1024)) [
              | inl last ↦
                  rw (some_left, read_chunks, push_open chunk s now, last)
                    (and_then_ran judo parser (feed judo parser chunk s)
                      ∙ ap (λ l. feed judo parser l s)
                          (short_take 1024 rest (lt_of_ltb (length chunk) 1024 last)))
              | inr full ↦
                  rw (some_left, read_chunks, push_open chunk s now, full)
                    (and_then-feed judo parser chunk s (read_chunks judo parser n (drop 1024 rest))
                        (feed judo parser (drop 1024 rest))
                        (λ root fine.
                          read_chunks_lem n (drop 1024 rest) (after judo parser chunk s root)
                            (omega (
                              arith,
                              length-drop 1024 rest,
                              length-take-le 1024 rest,
                              ge_of_ltb (length chunk) 1024 full,
                            ))
                            (StaysOpen-drop s.stream rest fine opens))
                      ∙ feed-chunk rest s opens)
            ]
      ]

  -- The name of the root, written around the file, or nothing.
  abbrev pub lead : Str → Str
  lead root_name = if empty root_name then [] else opening judo parser root_name

  abbrev pub trail : Str → Str
  trail root_name = if empty root_name then [] else closing judo parser root_name

  push_unless :
      (b : Bool) (text : Str) (s : FileStream judo parser)
      → (b ≡ false → has_ended s.stream ≡ false)
      → (if b then ran s else push judo parser text s) ≡ feed judo parser (if b then [] else text) s
  push_unless true text s opens = sym (feed-nothing judo parser s)
  push_unless false text s opens = push_open text s (opens refl)

  feed_unless :
      (b : Bool) (a text : Str) (s : FileStream judo parser)
      → (b ≡ false → has_ended (push_bytes s.stream a).state ≡ false)
      → and_then judo parser (feed judo parser a s) (feed judo parser (if b then [] else text))
        ≡ feed judo parser (a ++ (if b then [] else text)) s
  feed_unless true a text s opens =
      and_then-feed judo parser a s (feed judo parser []) (λ t. ran t)
        (λ root fine. feed-nothing judo parser (after judo parser a s root))
      ∙ and_then_ran judo parser (feed judo parser a s)
      ∙ ap (λ l. feed judo parser l s) (sym (append_nil a))
  feed_unless false a text s opens = sym (feed-append judo parser a text s (opens refl))

  behind :
      (content root_name : Str) (s : FileStream judo parser)
      → StaysOpen s.stream content
      → (empty root_name ≡ false → has_ended (push_bytes s.stream content).state ≡ false)
      → and_then judo parser (read_chunks judo parser (suc (length content)) content s) (λ t.
        if empty root_name then ran t else push judo parser (closing judo parser root_name) t)
        ≡ feed judo parser (content ++ trail root_name) s
  behind content root_name s opens last =
      ap
        (λ o. and_then judo parser o (λ t.
          if empty root_name then ran t else push judo parser (closing judo parser root_name) t))
        (read_chunks_lem (suc (length content)) content s (omega arith) opens)
      ∙ and_then-feed judo parser content s _ (feed judo parser (trail root_name)) (λ root fine.
        push_unless (empty root_name) (closing judo parser root_name)
          (after judo parser content s root) last)
      ∙ feed_unless (empty root_name) content (closing judo parser root_name) s last

  -- The document ends with nothing but what is pushed last: it is open at the start, behind the opening
  -- tag, before each chunk of the file, and before the closing tag.
  abbrev pub EndsLast : Str → Str → State → Type 0
  EndsLast content root_name st =
      (has_ended st ≡ false)
      × (has_ended (push_bytes st (lead root_name)).state ≡ false)
      × ((k : ℕ)
          → 1024 * k < length content
          → has_ended (push_bytes st (lead root_name ++ take (1024 * k) content)).state ≡ false)
      × (empty root_name ≡ false
          → has_ended (push_bytes st (lead root_name ++ content)).state ≡ false)

  -- The document ends with nothing but what is pushed last. Then reading a file in chunks, with the tags
  -- of a root around it, has the outcome of one push of the whole text: the calls of the parser, the
  -- result, the root and the message of an error do not depend on where a chunk ends. A file that cannot
  -- be opened reads as an empty one.
  pub parse_file_lem :
      (file : Option Str) (root_name : Str) (s : FileStream judo parser)
      → EndsLast (content_of judo parser file) root_name s.stream
      → parse_file judo parser file root_name s
        ≡ finish judo parser (
            feed judo parser (lead root_name ++ (content_of judo parser file ++ trail root_name)) s)
  unfolding parse_file push_all
  parse_file_lem file root_name s (now, opened, opens, last) =
      let content = content_of judo parser file in
      let further : FileStream judo parser → Outcome judo parser = λ s1.
        and_then judo parser (read_chunks judo parser (suc (length content)) content s1) (λ t.
          if empty root_name then ran t else push judo parser (closing judo parser root_name) t) in
      ap (finish judo parser) (
        ap (λ o. and_then judo parser o further)
          (push_unless (empty root_name) (opening judo parser root_name) s (λ e. now))
        ∙ and_then-feed judo parser (lead root_name) s further
            (feed judo parser (content ++ trail root_name))
            (λ root fine.
              let same = λ (text : Str).
                ap has_ended (state-append s.stream (lead root_name) text fine opened) in
              behind content root_name (after judo parser (lead root_name) s root)
                (λ k inside. same (take (1024 * k) content) ∙ opens k inside)
                (λ named. same content ∙ last named))
        ∙ sym (feed-append judo parser (lead root_name) (content ++ trail root_name) s opened))
