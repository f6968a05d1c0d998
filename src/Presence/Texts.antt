-- ===== src/Presence/Texts.antt =====
-- The texts for the type and the show of a presence, of src/jabberoo-presence.cc.
use jabberoo.Base.{Str, true, false, ◌≡◌, refl, codes, ◌==◌, ==_iff, empty, arith, ◌≢◌, [], ◌∷◌}
use jabberoo.Presence.{
  PresenceType, Show, sub_request, unsub_request, subscribed, unsubscribed, available, unavailable,
  error, invisible, chat, away, xa, dnd, type_text, type_of_text, show_text, show_of_text, is_error,
  above_online,
}

-- Reading the text of a type gives back the type, for all eight.
pub type_of_text-type_text : (t : PresenceType) → type_of_text (type_text t) ≡ t
unfolding type_of_text type_text ◌==◌
type_of_text-type_text sub_request = refl
type_of_text-type_text unsub_request = refl
type_of_text-type_text subscribed = refl
type_of_text-type_text unsubscribed = refl
type_of_text-type_text available = refl
type_of_text-type_text unavailable = refl
type_of_text-type_text error = refl
type_of_text-type_text invisible = refl

pub empty_iff : (s : Str) → empty s ≡ true → s ≡ []
empty_iff [] h = refl
empty_iff (x ∷ s) h = cc

-- A text that is read as a type other than unavailable is that type's own text: only unknown
-- texts and "unavailable" itself are read as unavailable.
pub type_text-type_of_text :
    (s : Str) → type_of_text s ≢ unavailable → type_text (type_of_text s) ≡ s
unfolding type_of_text type_text
type_text-type_of_text s h = ground (
  arith,
  empty_iff s,
  ==_iff s (codes "subscribe"),
  ==_iff s (codes "unsubscribe"),
  ==_iff s (codes "subscribed"),
  ==_iff s (codes "unsubscribed"),
  ==_iff s (codes "error"),
  ==_iff s (codes "invisible"),
)

-- The show of a packet that is no error and writes a show above online is read back.
pub show_of_text-show_text :
    (t : PresenceType) (s : Show)
    → is_error t ≡ false
    → above_online s ≡ true
    → show_of_text t (show_text s) ≡ s
unfolding show_of_text show_text above_online ◌==◌
show_of_text-show_text t chat h k = ground arith
show_of_text-show_text t away h k = ground arith
show_of_text-show_text t xa h k = ground arith
show_of_text-show_text t dnd h k = ground arith
show_of_text-show_text t _ h k = cc
