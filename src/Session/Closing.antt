-- ===== src/Session/Closing.antt =====
-- How a connection of src/jabberoo-session.cc ends: disconnect, a parser error, and the end of the
-- stream.
use jabberoo.Base.{Str, Bool, false, ℕ, [], ◌∷◌, ◌≡◌, refl, ap}
use jabberoo.Base.Int.{ℤ}
use jabberoo.Judo.{Judo}
use jabberoo.PresenceDb
use jabberoo.Roster
use jabberoo.Roster.{refresh}
use jabberoo.Session.Events.{emit_all_lem}
use mathlib.Core.List.{reverse_aux}
use jabberoo.Session.{
  Session, not_connected, emit, emit_all, send_text, xml_parser_error, transmit_xml, disconnected,
  roster_event,
}
use jabberoo.Session.Routing.{Env}
use jabberoo.Session.Stream.{
  is_not_connected, closing_tag, disconnect, presences_gone, on_parser_error, on_document_end,
}

module _ (judo : Judo) (shahash : Str → Str) (check : ℕ → judo.Element → Bool) (env : Env) where
  -- A parser error is reported, and the session is then not connected; nothing is sent and no
  -- other signal is fired, whatever the state before.
  pub on_parser_error_lem :
      (code : ℤ) (text : Str) (s : Session judo)
      → on_parser_error judo shahash check env code text s ≡ record s {
        conn_state = not_connected;
        stream_start = false;
        events = xml_parser_error code text ∷ s.events;
      }
  unfolding on_parser_error disconnect emit is_not_connected
  on_parser_error_lem code text s = refl

  -- A second disconnect sends nothing, reports that it sent nothing, and changes nothing.
  pub disconnect-disconnect :
      (s : Session judo)
      → disconnect judo shahash check env (disconnect judo shahash check env s).1
        ≡ (false, (disconnect judo shahash check env s).1)
  unfolding disconnect is_not_connected
  disconnect-disconnect s = refl

  -- At the end of the stream the session is not connected, the roster has no items and the
  -- presence database is empty. Fired are, in this order: the change of the roster, an unavailable
  -- presence for each that send_unavailable makes of the database, the closing tag, and
  -- evtDisconnected; nothing else of the session changes.
  pub on_document_end_lem :
      (s : Session judo)
      → let gone =
          presences_gone judo shahash check env
            (PresenceDb.send_unavailable judo s.local_jid s.pdb) in
        on_document_end judo shahash check env s ≡ record s {
          conn_state = not_connected;
          stream_start = false;
          roster = record s.roster { items = [] };
          pdb = [];
          events =
              disconnected
              ∷ transmit_xml closing_tag
              ∷ reverse_aux gone (roster_event refresh ∷ s.events);
        }
  unfolding on_document_end emit send_text Roster.reset PresenceDb.clear emit_all
  on_document_end_lem s =
      ap
        (λ s2. emit judo disconnected (
          send_text judo closing_tag (record s2 {
            pdb = PresenceDb.clear judo s2.pdb;
            conn_state = not_connected;
            stream_start = false;
          })))
        (emit_all_lem judo
          (presences_gone judo shahash check env
            (PresenceDb.send_unavailable judo s.local_jid s.pdb))
          (emit_all judo (roster_event refresh ∷ [])
            (record s { roster = record s.roster { items = [] } })))
