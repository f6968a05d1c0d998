-- ===== src/Jid/Order.antt =====
-- JID::compare is an order on JabberIDs. The code is src/jabberoo-JID.cc.
use jabberoo.Base.{
  Str, Bool, true, is_eq, Ordering, ◌≡◌, refl, ◌↔◌, arith, fold_case, strcasecmp, flip,
  str_compare_refl, eq_of_str_compare, str_compare-flip, str_compare_trans,
}
use jabberoo.Jid.{get_resource, get_user_host, compare}

-- Two JabberIDs compare equal exactly when their user@host agree but for case and their
-- resources are the same.
pub compare-eq_iff :
    (a b : Str)
    → (compare a b ≡ Ordering.eq) ↔ (
        (fold_case (get_user_host a) ≡ fold_case (get_user_host b))
        × (get_resource a ≡ get_resource b))
unfolding compare strcasecmp
compare-eq_iff a b =
    let uha = fold_case (get_user_host a) in
    let uhb = fold_case (get_user_host b) in
    (
      λ h.
          ground
            (arith, eq_of_str_compare uha uhb, eq_of_str_compare (get_resource a) (get_resource b)),
      λ h. rw (h.0, h.1, str_compare_refl) (str_compare_refl _),
    )

-- Swapping the arguments turns the result around.
pub compare-flip : (a b : Str) → compare b a ≡ flip (compare a b)
unfolding compare strcasecmp
compare-flip a b = ground (
  arith,
  str_compare-flip (fold_case (get_user_host a)) (fold_case (get_user_host b)),
  str_compare-flip (get_resource a) (get_resource b),
)

-- The order is transitive.
pub compare_trans :
    (a b c : Str)
    → compare a b ≡ Ordering.lt
    → compare b c ≡ Ordering.lt
    → compare a c ≡ Ordering.lt
unfolding compare strcasecmp
compare_trans a b c h k =
    let ua = fold_case (get_user_host a) in
    let ub = fold_case (get_user_host b) in
    let uc = fold_case (get_user_host c) in
    ground (
      arith,
      str_compare_trans ua ub uc,
      eq_of_str_compare ua ub,
      eq_of_str_compare ub uc,
      str_compare_trans (get_resource a) (get_resource b) (get_resource c),
    )

-- Whether two JabberIDs compare equal.
abbrev pub same : Str → Str → Bool
same a b = is_eq (compare a b)

pub same_comm : (a b : Str) → same a b ≡ same b a
same_comm a b = ground (arith, compare-flip a b)

pub same_refl : (a : Str) → same a a ≡ true
same_refl a = ground (arith, (compare-eq_iff a a).1 (refl, refl))

pub eq_of_same : (a b : Str) → same a b ≡ true → compare a b ≡ Ordering.eq
eq_of_same a b h = ground arith

-- A JabberID that compares equal to another may stand for it.
pub same_congr : (a b c : Str) → same a b ≡ true → same a c ≡ same b c
unfolding compare strcasecmp
same_congr a b c h = let (uh, res) = (compare-eq_iff a b).0 (eq_of_same a b h) in rw (uh, res)

pub same-fold_case :
    (a b : Str) → same a b ≡ true → fold_case (get_user_host a) ≡ fold_case (get_user_host b)
same-fold_case a b h = ((compare-eq_iff a b).0 (eq_of_same a b h)).0
