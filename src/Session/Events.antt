-- ===== src/Session/Events.antt =====
-- What firing signals in a row leaves of a session of src/jabberoo-session.cc.
use jabberoo.Base.{List, [], ◌∷◌, ◌≡◌, refl}
use mathlib.Core.List.{reverse_aux}
use jabberoo.Judo.{Judo}
use jabberoo.Session.{Session, Event, emit, emit_all}

-- The last event fired is the first of the log; nothing else changes.
pub emit_all_lem :
    (judo : Judo) (es : List (Event judo)) (s : Session judo)
    → emit_all judo es s ≡ record s { events = reverse_aux es s.events }
unfolding emit_all emit
emit_all_lem judo [] s = refl
emit_all_lem judo (e ∷ es) s = emit_all_lem judo es (emit judo e s)
