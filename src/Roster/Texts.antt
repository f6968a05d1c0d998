-- ===== src/Roster/Texts.antt =====
-- The texts of a subscription, of src/jabberoo-roster.cc.
use jabberoo.Base.{Str, ◌≡◌, refl, codes, ◌==◌, ==_iff, arith, ◌⊎◌}
use jabberoo.Roster.{
  Subscription, rs_none, rs_to, rs_from, rs_both, rs_remove, subscription_text,
  subscription_of_text,
}

pub subscription_of_text-subscription_text :
    (s : Subscription) → subscription_of_text (subscription_text s) ≡ s
unfolding subscription_of_text subscription_text ◌==◌
subscription_of_text-subscription_text rs_none = refl
subscription_of_text-subscription_text rs_to = refl
subscription_of_text-subscription_text rs_from = refl
subscription_of_text-subscription_text rs_both = refl
subscription_of_text-subscription_text rs_remove = refl

subscription_text-subscription_of_text :
    (s : Str)
    → (subscription_of_text s ≡ rs_none) ⊎ (subscription_text (subscription_of_text s) ≡ s)
unfolding subscription_of_text subscription_text
subscription_text-subscription_of_text s = ground (
  arith,
  ==_iff s (codes "to"),
  ==_iff s (codes "from"),
  ==_iff s (codes "both"),
  ==_iff s (codes "remove"),
)

-- The text of every subscription is read back as that subscription, and a text that is read as a
-- subscription other than none is the text of that subscription.
pub subscription_texts :
    (s : Subscription) (t : Str)
    → (subscription_of_text (subscription_text s) ≡ s)
      × ((subscription_of_text t ≡ rs_none) ⊎ (subscription_text (subscription_of_text t) ≡ t))
subscription_texts s t =
    (subscription_of_text-subscription_text s, subscription_text-subscription_of_text t)
