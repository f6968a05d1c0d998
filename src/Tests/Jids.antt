-- ===== src/Tests/Jids.antt =====
-- The theorems on src/jabberoo-JID.cc at concrete JabberIDs.
use jabberoo.Base.{Str, codes, ◌≡◌, refl, find_char, fold_case, ◌++◌, ◌∷◌, Ordering, arith, ◌↔◌}
use jabberoo.Jid.{
  get_user, get_host, get_resource, get_user_host, is_valid_user, is_valid_host, compare,
}
use jabberoo.Jid.Build.{full_jid, parts-full_jid, get_host_misses}
use jabberoo.Jid.Order.{compare-eq_iff}

abbrev home : Str
home = codes "Romeo@montague.net/home"

abbrev work : Str
work = codes "romeo@montague.net/work"

abbrev juliet : Str
juliet = codes "juliet@capulet.com/home"

parts-full_jid_example :
    (get_user (full_jid (codes "romeo") (codes "montague.net") (codes "home")) ≡ codes "romeo")
    × (get_host (full_jid (codes "romeo") (codes "montague.net") (codes "home"))
        ≡ codes "montague.net")
    × (get_resource (full_jid (codes "romeo") (codes "montague.net") (codes "home")) ≡ codes "home")
    × (get_user_host (full_jid (codes "romeo") (codes "montague.net") (codes "home"))
        ≡ codes "romeo" ++ b'@' ∷ codes "montague.net")
unfolding is_valid_user is_valid_host find_char
parts-full_jid_example =
    parts-full_jid (codes "romeo") (codes "montague.net") (codes "home") refl refl (ground arith)

get_host_misses_example :
    get_host (codes "montague.net" ++ b'/' ∷ codes "a" ++ b'@' ∷ codes "b") ≡ codes "b"
unfolding find_char
get_host_misses_example =
    get_host_misses (codes "montague.net") (codes "a") (codes "b") refl refl refl (ground arith)

compare-eq_iff_example : (compare home work ≡ Ordering.eq) ↔ (
    (fold_case (get_user_host home) ≡ fold_case (get_user_host work))
    × (get_resource home ≡ get_resource work))
compare-eq_iff_example = compare-eq_iff home work
