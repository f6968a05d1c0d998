-- ===== src/Session/Routing/Callbacks.antt =====
-- The callbacks that handleIQ of src/jabberoo-session.cc fires for a reply: the loop ends, fires
-- each function once, in the order of the registrations, and takes them out.
use jabberoo.Base.{
  Str, Bool, Option, none, some, List, [], ◌∷◌, ℕ, zero, suc, ◌≤◌, ◌≡◌, ◌==◌, refl, arith,
  if◌then◌else◌, ap, ◌∙◌, length,
}
use mathlib.Core.List.{reverse_aux}
use jabberoo.Judo.{Judo}
use jabberoo.Session.{Session, Callback, Event, client, called, emit}
use jabberoo.Session.Routing.{Env, run_callback, first_callback, erase_first, fire_callbacks}

-- The functions registered for an id, in order.
unfoldable pub slots : Str → List (Str × Callback) → List Callback
slots id [] = []
slots id ((j, f) ∷ cs) = let rest = slots id cs in if j == id then f ∷ rest else rest

-- The registrations for other ids.
unfoldable pub others : Str → List (Str × Callback) → List (Str × Callback)
others id [] = []
others id ((j, f) ∷ cs) = let rest = others id cs in if j == id then rest else (j, f) ∷ rest

abbrev pub clients : List ℕ → List Callback
clients [] = []
clients (f ∷ fs) = client f ∷ clients fs

module _ (judo : Judo) (shahash : Str → Str) (check : ℕ → judo.Element → Bool) (env : Env) where
  open judo use {Element}

  abbrev pub calls : Element → List ℕ → List (Event judo)
  calls e [] = []
  calls e (f ∷ fs) = called f e ∷ calls e fs

  abbrev first : Str → List (Str × Callback) → Option Callback
  first = first_callback judo shahash check env

  abbrev erased : Str → List (Str × Callback) → List (Str × Callback)
  erased = erase_first judo shahash check env

  first-none :
      (id : Str) (cs : List (Str × Callback))
      → slots id cs ≡ []
      → (first id cs ≡ none) × (others id cs ≡ cs)
  unfolding slots others first_callback
  first-none id [] h = (refl, refl)
  first-none id ((j, f) ∷ cs) h = ground (arith, first-none id cs)

  first-some :
      (id : Str) (f : Callback) (fs : List Callback) (cs : List (Str × Callback))
      → slots id cs ≡ f ∷ fs
      → (first id cs ≡ some f)
        × (slots id (erased id cs) ≡ fs)
        × (others id (erased id cs) ≡ others id cs)
  unfolding slots others first_callback erase_first
  first-some id f fs [] h = cc
  first-some id f fs ((j, g) ∷ cs) h = ground (arith, first-some id f fs cs)

  -- If the functions registered for the id are a client's, and there is fuel for each, the loop
  -- ends: each function was called once with the packet, in the order of the registrations, and
  -- the registrations for the id are gone; nothing else of the session changes.
  pub fire_callbacks-clients :
      (fuel : ℕ) (id : Str) (e : Element) (fs : List ℕ) (s : Session judo)
      → slots id s.callbacks ≡ clients fs
      → length fs ≤ fuel
      → fire_callbacks judo shahash check env fuel id e s
        ≡ some (record s {
          callbacks = others id s.callbacks;
          events = reverse_aux (calls e fs) s.events;
        })
  unfolding fire_callbacks run_callback emit
  fire_callbacks-clients zero id e [] s h k =
      let (none_left, same) = first-none id s.callbacks h in
      rw (none_left, fire_callbacks, same) refl
  fire_callbacks-clients zero id e (f ∷ fs) s h k = absurd (omega arith)
  fire_callbacks-clients (suc fuel) id e [] s h k =
      let (none_left, same) = first-none id s.callbacks h in
      rw (none_left, fire_callbacks, same) refl
  fire_callbacks-clients (suc fuel) id e (f ∷ fs) s h k =
      let (found, rest, same) = first-some id (client f) (clients fs) s.callbacks h in
      let s1 = record s { events = called f e ∷ s.events; callbacks = erased id s.callbacks } in
      rw (found, fire_callbacks)
        (fire_callbacks-clients fuel id e fs s1 rest (omega arith)
          ∙ ap
              (λ cs.
                some (record s1 { callbacks = cs; events = reverse_aux (calls e fs) s1.events }))
              same)
