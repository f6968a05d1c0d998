-- ===== src/Component/Queries.antt =====
-- The queries of a component (src/jabberoo-component-session.cpp).
use mathlib.Core.List.{reverse-cons}
use jabberoo.Base.{
  append_assoc, Str, Bool, true, false, none, some, List, [], ◌∷◌, ◌++◌, ℕ, codes, length, ◌≡◌,
  refl, sym, ap, ◌∙◌, ◌==◌, ◌⊎◌, inl, inr, All, reverse, arith, if◌then◌else◌, Bool-cases,
  Option-cases, drop-length-append, drop, any,
}
use jabberoo.Judo.{Judo}
use jabberoo.Session.{◌>>=◌}
use jabberoo.Component.{
  ComponentSession, Event, called, has, without, callback_of, is_connected, run_query, run_queries,
  on_element, unregister_xpath, asserted, emit, std_remove, delete_queries, destroy, disconnect,
  erase_callback, is_not_connected, send_text, not_connected,
}

module _ (judo : Judo) (shahash : Str → Str) (check : ℕ → judo.Element → Bool) where
  open judo use {Element, get_name}

  -- The query exists and has a function.
  abbrev pub IsServed : ComponentSession judo → ℕ → Type 0
  IsServed s q = (has q s.alive ≡ true) × (f : ℕ) × (callback_of q s.callbacks ≡ some f)

  -- The calls of the functions of the queries that match, in the order of the list.
  abbrev pub calls : List (ℕ × ℕ) → Element → List ℕ → List (Event judo)
  calls m t [] = []
  calls m t (q ∷ qs) =
      let rest = calls m t qs in
      if check q t
      then elim (callback_of q m) [ none ↦ rest | some f ↦ called f t ∷ rest ]
      else rest

  -- Neither a handshake, nor an element of a login.
  abbrev pub IsRouted : Element → ComponentSession judo → Type 0
  IsRouted t s = (is_connected s.conn_state ≡ true) ⊎ ((get_name t == codes "handshake") ≡ false)

  routed :
      (t : Element) (s : ComponentSession judo)
      → IsRouted t s
      → on_element judo shahash check t s ≡ run_queries judo shahash check s.queries t s
  unfolding on_element
  routed t s h = ground arith

  run_queries-calls :
      (qs : List ℕ) (t : Element) (s : ComponentSession judo)
      → All (IsServed s) qs
      → run_queries judo shahash check qs t s
        ≡ some (record s { events = reverse (calls s.callbacks t qs) ++ s.events })
  unfolding run_queries run_query emit asserted
  run_queries-calls [] t s h = refl
  run_queries-calls (q ∷ qs) t s ((live, f, found), h) = elim (Bool-cases (check q t)) [
    | inl hit ↦
        let s1 = emit judo (called f t) s in
        let rest = run_queries-calls qs t s1 h in
        let front = λ (es : List (Event judo)). record s { events = es } in
        rw (live, hit, found)
          (rest
            ∙ ap (λ es. some (front es))
                (sym (
                  ap (λ es. es ++ s.events) (reverse-cons (called f t) (calls s.callbacks t qs))
                  ∙ append_assoc (reverse (calls s.callbacks t qs)) (called f t ∷ []) s.events)))
    | inr miss ↦ rw (live, miss) (run_queries-calls qs t s h)
  ]

  -- Where each query of the list exists and has a function, an element that is no handshake, or that
  -- arrives when the component is connected, fires the functions of the queries that match, in the
  -- order of the list, and changes nothing else.
  pub on_element-calls :
      (t : Element) (s : ComponentSession judo)
      → IsRouted t s
      → All (IsServed s) s.queries
      → on_element judo shahash check t s
        ≡ some (record s { events = reverse (calls s.callbacks t s.queries) ++ s.events })
  on_element-calls t s r h = routed t s r ∙ run_queries-calls s.queries t s h

  without_absent : (q : ℕ) (ys : List ℕ) → has q ys ≡ false → without q (ys ++ q ∷ []) ≡ ys
  unfolding without has any
  without_absent q [] h = ground arith
  without_absent q (y ∷ ys) h = ground (arith, without_absent q ys)

  has-without : (q : ℕ) (xs : List ℕ) → has q (without q xs) ≡ false
  unfolding without has any
  has-without q [] = refl
  has-without q (x ∷ xs) = ground (arith, has-without q xs)

  run_queries_dead :
      (q : ℕ) (ys : List ℕ) (t : Element) (s : ComponentSession judo)
      → has q s.alive ≡ false
      → run_queries judo shahash check (ys ++ q ∷ []) t s ≡ none
  unfolding run_queries run_query emit asserted
  run_queries_dead q [] t s dead = rw dead refl
  run_queries_dead q (y ∷ ys) t s dead = elim (Bool-cases (has y s.alive)) [
    | inr gone ↦ rw gone refl
    | inl live ↦ elim (Bool-cases (check y t)) [
      | inr miss ↦ rw (live, miss) (run_queries_dead q ys t s dead)
      | inl hit ↦ elim (Option-cases (callback_of y s.callbacks)) [
        | inl missing ↦ rw (live, hit, missing) refl
        | inr (f, found) ↦
            rw (live, hit, found) (run_queries_dead q ys t (emit judo (called f t) s) dead)
      ]
    ]
  ]

  has-without_other : (q y : ℕ) (xs : List ℕ) → has q xs ≡ false → has q (without y xs) ≡ false
  unfolding without has any
  has-without_other q y [] h = refl
  has-without_other q y (x ∷ xs) h = ground (arith, has-without_other q y xs)

  delete_queries_dead :
      (q : ℕ) (ys : List ℕ) (s : ComponentSession judo)
      → has q s.alive ≡ false
      → delete_queries judo (ys ++ q ∷ []) s ≡ none
  unfolding delete_queries asserted
  delete_queries_dead q [] s dead = rw dead refl
  delete_queries_dead q (y ∷ ys) s dead = elim (Bool-cases (has y s.alive)) [
    | inr gone ↦ rw gone refl
    | inl live ↦ rw live (
        delete_queries_dead q ys (record s { queries = ys ++ q ∷ []; alive = without y s.alive })
          (has-without_other q y s.alive dead))
  ]

  destroy_dead :
      (q : ℕ) (ys : List ℕ) (s : ComponentSession judo)
      → s.queries ≡ ys ++ q ∷ []
      → has q s.alive ≡ false
      → destroy judo s ≡ none
  unfolding destroy disconnect asserted
  destroy_dead q ys s last dead = elim (Bool-cases (is_not_connected s.conn_state)) [
    | inl idle ↦
        rw (idle, last) (delete_queries_dead q ys (record s { queries = ys ++ q ∷ [] }) dead)
    | inr busy ↦
        rw (busy, last)
          (delete_queries_dead q ys
            (record (send_text judo (codes "</stream:stream>") s) {
              conn_state = not_connected;
              queries = ys ++ q ∷ [];
            })
            dead)
  ]

  std_remove_last :
      (q : ℕ) (ys : List ℕ) → has q ys ≡ false → std_remove q (ys ++ q ∷ []) ≡ ys ++ q ∷ []
  unfolding std_remove
  std_remove_last q ys absent =
      let same = without_absent q ys absent in
      (λ i. same i ++ drop (length (same i)) (ys ++ q ∷ []))
      ∙ ap (λ zs. ys ++ zs) (drop-length-append ys (q ∷ []))

  -- A query that stands last in the list, and only there, is unregistered. Then the next element
  -- that is not taken as a handshake uses the deleted query, and so does the destructor.
  pub unregister_xpath_last :
      (q : ℕ) (ys : List ℕ) (t : Element) (s : ComponentSession judo)
      → s.queries ≡ ys ++ q ∷ []
      → has q ys ≡ false
      → IsRouted t s
      → ((unregister_xpath judo q s >>= on_element judo shahash check t) ≡ none)
        × ((unregister_xpath judo q s >>= destroy judo) ≡ none)
  unfolding unregister_xpath asserted
  unregister_xpath_last q ys t s last absent r =
      let left = ap (std_remove q) last ∙ std_remove_last q ys absent in
      let s1 = record s {
        queries = std_remove q s.queries;
        alive = without q s.alive;
        callbacks = erase_callback q s.callbacks;
      } in
      let dead = has-without q s.alive in
      let used =
        routed t s1 r
        ∙ ap (λ qs. run_queries judo shahash check qs t s1) left
        ∙ run_queries_dead q ys t s1 dead in
      elim (Bool-cases (has q s.alive)) [
        | inl live ↦ rw live (used, destroy_dead q ys s1 left dead)
        | inr gone ↦ rw gone (refl, refl)
      ]
