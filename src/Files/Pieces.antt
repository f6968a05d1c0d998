-- ===== src/Files/Pieces.antt =====
-- Texts that src/jabberoo-filestream.cc pushes in two pieces.
use jabberoo.Base.{
  Str, false, Option, none, some, List, [], ◌∷◌, ◌++◌, ◌≡◌, refl, sym, ap, ◌∙◌, Option-cases, inl,
  inr,
}
use jabberoo.Judo.{Judo}
use jabberoo.Files.{
  Parsed, Pushed, Parser, handle, handle_all, FileStream, Outcome, ran, failed, undefined,
  exhausted, and_then, ended_push, feed,
}

module _ (judo : Judo) (parser : Parser judo) where
  open parser use {
    State, push_bytes, has_ended, push_bytes-nothing, push_bytes-failed, push_bytes-append,
  }

  abbrev pub after : Str → FileStream judo parser → Option judo.Element → FileStream judo parser
  after a s root = record s { stream = (push_bytes s.stream a).state; root = root }

  handle_all-append :
      (es fs : List (Parsed judo)) (root : Option judo.Element)
      → handle_all judo (es ++ fs) root
        ≡ elim (handle_all judo es root) [ none ↦ none | some next ↦ handle_all judo fs next ]
  unfolding handle_all
  handle_all-append [] fs root = refl
  handle_all-append (e ∷ es) fs root = elim (Option-cases (handle judo e root)) [
    | inl dead ↦ rw (dead, handle_all) refl
    | inr (next, alive) ↦ rw (alive, handle_all) (handle_all-append es fs next)
  ]

  -- A chain needs to agree only where the text leads.
  pub and_then-feed :
      (a : Str) (s : FileStream judo parser) (f g : FileStream judo parser → Outcome judo parser)
      → ((root : Option judo.Element)
          → (push_bytes s.stream a).error ≡ none
          → f (after a s root) ≡ g (after a s root))
      → and_then judo parser (feed judo parser a s) f
        ≡ and_then judo parser (feed judo parser a s) g
  unfolding feed ended_push and_then
  and_then-feed a s f g same =
      elim (Option-cases (handle_all judo (push_bytes s.stream a).events s.root)) [
        | inl dead ↦ rw dead refl
        | inr (root, alive) ↦ elim (Option-cases (push_bytes s.stream a).error) [
          | inl fine ↦ rw (alive, fine) (same root fine)
          | inr (m, bad) ↦ rw (alive, bad) refl
        ]
      ]

  pub and_then_ran : (o : Outcome judo parser) → and_then judo parser o (λ t. ran t) ≡ o
  unfolding and_then
  and_then_ran (ran s) = refl
  and_then_ran (failed m s) = refl
  and_then_ran undefined = refl
  and_then_ran exhausted = refl

  and_then_assoc :
      (o : Outcome judo parser) (f g : FileStream judo parser → Outcome judo parser)
      → and_then judo parser (and_then judo parser o f) g
        ≡ and_then judo parser o (λ t. and_then judo parser (f t) g)
  unfolding and_then
  and_then_assoc (ran s) f g = refl
  and_then_assoc (failed m s) f g = refl
  and_then_assoc undefined f g = refl
  and_then_assoc exhausted f g = refl

  pub feed-nothing : (s : FileStream judo parser) → feed judo parser [] s ≡ ran s
  unfolding feed ended_push handle_all
  feed-nothing s = rw (push_bytes-nothing s.stream) refl

  pub ended_push_ran :
      (root : Option judo.Element) (p : Pushed judo State) (s : FileStream judo parser)
      → p.error ≡ none
      → ended_push judo parser (some root) p s ≡ ran (record s { stream = p.state; root = root })
  unfolding ended_push
  ended_push_ran root p s fine = λ i. elim (fine i) [
    | none ↦ ran (record s { stream = p.state; root = root })
    | some m ↦ failed m (record s { stream = p.state; root = root })
  ]

  -- Two pushes, put together.
  ended_push-append :
      (o : Option (Option judo.Element)) (p next : Pushed judo State) (s : FileStream judo parser)
      → p.error ≡ none
      → ended_push judo parser
          (elim o [ none ↦ none | some root ↦ handle_all judo next.events root ])
          (record { state = next.state; events = p.events ++ next.events; error = next.error })
          s
        ≡ and_then judo parser
            (ended_push judo parser o p s)
            (λ t. ended_push judo parser (handle_all judo next.events t.root) next t)
  unfolding ended_push and_then
  ended_push-append none p next s fine = refl
  ended_push-append (some root) p next s fine =
      again (handle_all judo next.events root)
      ∙ ap
          (λ o.
            and_then judo parser o
              (λ t. ended_push judo parser (handle_all judo next.events t.root) next t))
          (sym (ended_push_ran root p s fine))
    where
      again :
          (o : Option (Option judo.Element))
          → ended_push judo parser o
              (record { state = next.state; events = p.events ++ next.events; error = next.error })
              s
            ≡ ended_push judo parser o next (record s { stream = p.state; root = root })
      again none = refl
      again (some other) = refl

  pub feed-append :
      (a b : Str) (s : FileStream judo parser)
      → has_ended (push_bytes s.stream a).state ≡ false
      → feed judo parser (a ++ b) s
        ≡ and_then judo parser (feed judo parser a s) (feed judo parser b)
  unfolding feed ended_push and_then
  feed-append a b s open_yet = elim (Option-cases (push_bytes s.stream a).error) [
    | inr (m, bad) ↦ elim (Option-cases (handle_all judo (push_bytes s.stream a).events s.root)) [
      | inl dead ↦ rw (push_bytes-failed s.stream a b m bad, dead) refl
      | inr (root, alive) ↦ rw (push_bytes-failed s.stream a b m bad, alive, bad) refl
    ]
    | inl fine ↦
        let next = push_bytes (push_bytes s.stream a).state b in
        rw
          (
            push_bytes-append s.stream a b fine open_yet,
            handle_all-append (push_bytes s.stream a).events next.events s.root,
          )
          (ended_push-append (handle_all judo (push_bytes s.stream a).events s.root)
              (push_bytes s.stream a) next s fine
            ∙ and_then-feed a s
                (λ t. ended_push judo parser (handle_all judo next.events t.root) next t)
                (feed judo parser b) (λ root e. refl))
  ]
