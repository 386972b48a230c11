-- ===== src/CookieJar/Tests.antt =====
-- internal/cookiejar: runs at concrete inputs, and the theorems at inputs that meet their hypotheses.
use cifera.Base.{
  arith, ◌≡◌, refl, ◌↔◌, true, false, Option, none, some, List, [], ◌∷◌, pos, negsuc, seconds,
  sub_time, Text, codes, text_dec, text_eq, text_ltb, lookup, insert, delete, to_lower, trim,
  trim_prefix, has_prefix, has_suffix,
}
use cifera.CookieJar.Matcher.{domain_match, starts_with_slash, path_match, canonical_domain}
use cifera.CookieJar.Matches
use cifera.CookieJar.Matches.{PathMatches, DomainMatches}
use cifera.CookieJar.Entry.{HttpCookie, is_session_cookie, age_is_over, is_expired, cookie_key}
use cifera.CookieJar.Jar.{
  Jar, new_jar, put_back, remove_from, remove_cookie, count_entries, total_count, in_domain, places,
  is_older, oldest_from, oldest_of, evict_if_needed, make_entry, ensure_domain, assign, has_key,
  make_room, put_entry, add_cookie, remove_everywhere, remove_cookie_for_api, applies, matching,
  comes_before, insert_sorted, stable_sort, to_http_cookie, cookies_for, fresh_entries,
  fresh_domains, remove_expired, jar_is_expired, is_persistent, all_cookies, restore_one,
  restore_from, restore_cookies,
}
use cifera.CookieJar.Live.{IsLive, in_time}
use cifera.CookieJar.Find.{find, find_in}
use cifera.CookieJar.Places.{IsValid}
use cifera.CookieJar.Panic.{IsLastOfDomain}
use cifera.CookieJar.AddCookie
use cifera.CookieJar.AddCookie.{IsStored}
use cifera.CookieJar.Sends
use cifera.CookieJar.Sends.{IsAnswer}
use cifera.CookieJar.Reach
use cifera.CookieJar.Reach.{Reach, start, add, IsSound}

program : Unit {0}
unfolding seconds sub_time text_dec text_eq text_ltb lookup insert delete to_lower trim trim_prefix
    has_prefix has_suffix domain_match starts_with_slash path_match canonical_domain
    is_session_cookie age_is_over is_expired cookie_key new_jar put_back remove_from remove_cookie
    count_entries total_count in_domain places is_older oldest_from oldest_of evict_if_needed
    make_entry ensure_domain assign has_key make_room put_entry add_cookie remove_everywhere
    remove_cookie_for_api applies matching comes_before insert_sorted stable_sort to_http_cookie
    cookies_for fresh_entries fresh_domains remove_expired jar_is_expired is_persistent all_cookies
    restore_one restore_from restore_cookies find find_in
program = tt

abbrev cookie : Text → Text → HttpCookie
cookie name path = record {
  name = name;
  value = codes "v";
  path = path;
  domain = [];
  expires = 9;
  max_age = pos 0;
  secure = false;
  http_only = false;
  same_site = 0;
}

abbrev host : Text
host = codes "A.com"

abbrev a : HttpCookie
a = cookie (codes "a") (codes "/x")

abbrev b : HttpCookie
b = cookie (codes "b") []

abbrev gone : HttpCookie
gone = record a { max_age = negsuc 0 }

abbrev jar_of : Option Jar → Jar
jar_of none = new_jar (pos 0)
jar_of (some j) = j

abbrev one : Jar
one = jar_of (add_cookie 1 (new_jar (pos 1)) a host)

abbrev roomy : Jar
roomy = jar_of (add_cookie 1 (new_jar (pos 2)) a host)

abbrev two : Jar
two = jar_of (add_cookie 2 roomy b host)

abbrev names : List HttpCookie → List Text
names [] = []
names (c ∷ cs) = c.name ∷ names cs

runs :
    (total_count two ≡ 2)
    × (names (cookies_for 3 two host (codes "/x/y")) ≡ codes "a" ∷ codes "b" ∷ [])
    × (names (cookies_for 3 two host (codes "/xy")) ≡ codes "b" ∷ [])
    × (cookies_for 10 two host (codes "/x") ≡ [])
    × ((remove_cookie_for_api two (codes "zz") [] []).1 ≡ 1)
    × (path_match (codes "/foo/bar") (codes "/foo/") ≡ false)
unfolding program
runs = (refl, refl, refl, refl, refl, refl)

one-Reach : Reach (pos 1) 0 one
unfolding program
one-Reach = add 1 a host start refl

two-Reach : Reach (pos 2) 0 two
unfolding program
two-Reach = add 2 b host (add 1 a host start refl) refl

one-IsValid : IsValid one
one-IsValid = (Reach.Reach-IsSound (pos 1) 0 one one-Reach).valid

two-IsValid : IsValid two
two-IsValid = (Reach.Reach-IsSound (pos 2) 0 two two-Reach).valid

roomy-IsValid : IsValid roomy
unfolding program
roomy-IsValid = (Reach.Reach-IsSound (pos 2) 0 roomy (add 1 a host start refl)).valid

Reach-IsSound_example : IsSound (pos 2) 0 two
Reach-IsSound_example = Reach.Reach-IsSound (pos 2) 0 two two-Reach

b-IsLive : IsLive 2 (make_entry 2 b host)
unfolding program
b-IsLive = in_time refl (omega arith)

add_cookie_stores_example : IsStored 2 roomy b host two
unfolding program
add_cookie_stores_example =
    AddCookie.add_cookie_stores 2 roomy b host two roomy-IsValid refl b-IsLive refl

add_cookie_panics_iff_example :
    (add_cookie 2 one b host ≡ none)
    ↔ ((false ≡ false) × IsLive 2 (make_entry 2 b host) × IsLastOfDomain one (make_entry 2 b host))
add_cookie_panics_iff_example = AddCookie.add_cookie_panics_iff 2 one b host one-IsValid

panics : add_cookie 2 one b host ≡ none
unfolding program
panics = refl

cookies_for-IsAnswer_example :
    IsAnswer 3 two host (codes "/x/y") (cookies_for 3 two host (codes "/x/y"))
cookies_for-IsAnswer_example = Sends.cookies_for-IsAnswer 3 two host (codes "/x/y") two-IsValid

path_match_iff_example :
    (path_match (codes "/foo/bar") (codes "/foo") ≡ true)
    ↔ PathMatches (codes "/foo/bar") (codes "/foo")
path_match_iff_example = Matches.path_match_iff (codes "/foo/bar") (codes "/foo")

domain_match_iff_example :
    (domain_match (codes "x.a.com") (codes "a.com") ≡ true)
    ↔ DomainMatches (codes "x.a.com") (codes "a.com")
domain_match_iff_example = Matches.domain_match_iff (codes "x.a.com") (codes "a.com")
