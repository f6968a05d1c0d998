-- ===== src/Session/Accessors.antt =====
-- The accessors of a session of src/jabberoo-session.cc. Its DiscoDB is the state that stands beside the
-- session in Disco.
use jabberoo.Base.{Str}
use jabberoo.Judo.{Judo}
use jabberoo.PresenceDb.{Db}
use jabberoo.Roster.{Roster}
use jabberoo.Disco.{Disco}
use jabberoo.Session.{Session, AuthType}

module _ (judo : Judo) where
  unfoldable pub roster : Session judo → Roster
  roster s = s.roster

  unfoldable pub presence_db : Session judo → Db judo
  presence_db s = s.pdb

  unfoldable pub get_auth_type : Session judo → AuthType
  get_auth_type s = s.auth_type

  unfoldable pub get_user_name : Session judo → Str
  get_user_name s = s.username

  unfoldable pub disco_db : Session judo × Disco → Disco
  disco_db (session, disco) = disco
