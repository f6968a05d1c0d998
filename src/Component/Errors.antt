-- ===== src/Component/Errors.antt =====
-- The end of a component's connection (src/jabberoo-component-session.cpp).
use jabberoo.Base.{
  Str, Bool, true, none, List, [], ◌∷◌, ◌++◌, ℕ, ◌≡◌, refl, Bool-cases, Option-cases, inl, inr,
}
use jabberoo.Judo.{Judo}
use jabberoo.Component.{
  ComponentSession, Parsed, document_end, on_all_parsed, on_document_end, push, is_not_connected,
  asserted, disconnect, on_parsed,
}

module _ (judo : Judo) (shahash : Str → Str) (check : ℕ → judo.Element → Bool) where
  -- Data that ends the document and does not parse behind that end, whatever came before it and in
  -- whatever state, fails an assert: the handler of the error disconnects a second time.
  pub push_junk :
      (ps : List (Parsed judo)) (s : ComponentSession judo)
      → push judo shahash check (ps ++ document_end ∷ []) true s ≡ none
  unfolding push on_all_parsed on_parsed on_document_end disconnect asserted
  push_junk [] s = elim (Bool-cases (is_not_connected s.conn_state)) [
    | inl idle ↦ rw idle refl
    | inr busy ↦ rw busy refl
  ]
  push_junk (p ∷ ps) s = elim (Option-cases (on_parsed judo shahash check p s)) [
    | inl failed ↦ rw failed refl
    | inr (s1, went) ↦ rw went (push_junk ps s1)
  ]
