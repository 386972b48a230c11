-- ===== src/CookieJar/Jar.antt =====
-- internal/cookiejar/jar.go: the jar of one session and its operations. The reading of the clock is
-- an argument; a panic of Go is `none`.
use cifera.Base.{
  ℕ, zero, suc, ◌+◌, Bool, true, false, not, ◌&&◌, ◌||◌, Option, none, some, List, [], ◌∷◌, ◌++◌,
  map, ltb, ◌==◌, if◌then◌else◌, length, all, keep, ℤ, pos, negsuc, Text, codes, text_eq, text_dec,
  text_ltb, is_empty, to_lower, lookup, insert, delete,
}
use cifera.CookieJar.Matcher.{domain_match, path_match, canonical_domain}
use cifera.CookieJar.Entry.{
  HttpCookie, CookieEntry, is_session_cookie, is_negative, is_expired, cookie_key,
}

abbrev pub Entries : Type 0
Entries = List (Text × CookieEntry)

abbrev pub Cookies : Type 0
Cookies = List (Text × Entries)

pub record Jar : Type 0 where
  pub cookies : Cookies
  pub max_size : ℕ

unfoldable pub new_jar : ℤ → Jar
new_jar (pos zero) = record { cookies = []; max_size = 500 }
new_jar (pos (suc n)) = record { cookies = []; max_size = suc n }
new_jar (negsuc n) = record { cookies = []; max_size = 500 }

-- Store what is left of a domain, or forget the domain.
unfoldable pub put_back : Text → Entries → Cookies → Cookies
put_back domain [] m = delete text_dec domain m
put_back domain (e ∷ es) m = insert text_dec domain (e ∷ es) m

unfoldable pub remove_from : Cookies → Text → Text → Cookies
remove_from m domain key = elim (lookup text_dec domain m) [
  | none ↦ m
  | some es ↦ put_back domain (delete text_dec key es) m
]

-- removeCookie
unfoldable pub remove_cookie : Jar → Text → Text → Jar
remove_cookie j domain key = record j { cookies = remove_from j.cookies domain key }

unfoldable pub count_entries : Cookies → ℕ
count_entries [] = 0
count_entries ((d, es) ∷ m) = length es + count_entries m

unfoldable pub total_count : Jar → ℕ
total_count j = count_entries j.cookies

pub record Place : Type 0 where
  pub domain : Text
  pub key : Text
  pub entry : CookieEntry

unfoldable pub in_domain : Text → Entries → List Place
in_domain d [] = []
in_domain d ((k, e) ∷ es) = record { domain = d; key = k; entry = e } ∷ in_domain d es

-- Every cookie with its place, in the order of the two loops.
unfoldable pub places : Cookies → List Place
places [] = []
places ((d, es) ∷ m) = in_domain d es ++ places m

-- The test by which a cookie takes the place of the oldest one so far.
unfoldable pub is_older : Place → Place → Bool
is_older p q =
    ltb p.entry.created q.entry.created
    || p.entry.created == q.entry.created && text_ltb p.key q.key

unfoldable pub oldest_from : Place → List Place → Place
oldest_from oldest [] = oldest
oldest_from oldest (p ∷ ps) = oldest_from (if is_older p oldest then p else oldest) ps

unfoldable pub oldest_of : List Place → Option Place
oldest_of [] = none
oldest_of (p ∷ ps) = some (oldest_from p ps)

unfoldable pub evict_if_needed : Jar → Jar
evict_if_needed j =
    if ltb (total_count j) j.max_size then j else (elim (oldest_of (places j.cookies)) [
      | none ↦ j
      | some p ↦ remove_cookie j p.domain p.key
    ])

-- The entry that AddCookie builds.
unfoldable pub make_entry : ℕ → HttpCookie → Text → CookieEntry
make_entry now c request_host = record {
  name = c.name;
  value = c.value;
  domain = if is_empty c.domain then canonical_domain request_host else canonical_domain c.domain;
  path = if is_empty c.path then codes "/" else c.path;
  expires = elim c.max_age [ pos zero ↦ c.expires | pos (suc n) ↦ 0 | negsuc n ↦ 0 ];
  max_age = elim c.max_age [ pos n ↦ pos n | negsuc n ↦ pos 0 ];
  secure = c.secure;
  http_only = c.http_only;
  same_site = c.same_site;
  created = now;
  host_only = is_empty c.domain;
}

-- The map of a domain, made if it is missing.
unfoldable pub ensure_domain : Text → Jar → Jar
ensure_domain domain j = elim (lookup text_dec domain j.cookies) [
  | none ↦ record j { cookies = insert text_dec domain [] j.cookies }
  | some _ ↦ j
]

-- A write into the map of a domain; a write into a missing (nil) map panics.
unfoldable pub assign : Text → Text → CookieEntry → Jar → Option Jar
assign domain key entry j = elim (lookup text_dec domain j.cookies) [
  | none ↦ none
  | some es ↦
      some (record j { cookies = insert text_dec domain (insert text_dec key entry es) j.cookies })
]

unfoldable pub has_key : Text → Text → Jar → Bool
has_key domain key j = elim (lookup text_dec domain j.cookies) [
  | none ↦ false
  | some es ↦ elim (lookup text_dec key es) [ none ↦ false | some _ ↦ true ]
]

-- A new cookie may need room.
unfoldable pub make_room : Text → Text → Jar → Jar
make_room domain key j = if has_key domain key j then j else evict_if_needed j

-- The end of AddCookie, for an entry to be kept.
unfoldable pub put_entry : Jar → CookieEntry → Option Jar
put_entry j entry =
    let key = cookie_key entry.name entry.path in
    assign entry.domain key entry (make_room entry.domain key (ensure_domain entry.domain j))

unfoldable pub add_cookie : ℕ → Jar → HttpCookie → Text → Option Jar
add_cookie now j c request_host =
    let entry = make_entry now c request_host in
    if is_negative c.max_age
    then some (remove_cookie j entry.domain (cookie_key entry.name entry.path))
    else if is_expired now entry
    then some j
    else put_entry j entry

-- The loop over the domains that were there when it began.
unfoldable pub remove_everywhere : Jar → Text → Cookies → Jar × ℕ
remove_everywhere j key [] = (j, 0)
remove_everywhere j key ((d, es) ∷ m) =
    let (j', n) = remove_everywhere (remove_cookie j d key) key m in (j', n + 1)

-- RemoveCookie
unfoldable pub remove_cookie_for_api : Jar → Text → Text → Text → Jar × ℕ
remove_cookie_for_api j name domain path =
    let key = cookie_key name (if is_empty path then codes "/" else path) in
    let d = to_lower (canonical_domain domain) in
    if is_empty domain
    then remove_everywhere j key j.cookies
    else (elim (lookup text_dec d j.cookies) [
      | none ↦ (j, 0)
      | some _ ↦ (remove_cookie j d key, 1)
    ])

unfoldable pub applies : ℕ → Text → Text → Place → Bool
applies now host path p =
    if p.entry.host_only && not (text_eq host p.domain)
    then false
    else if is_expired now p.entry
    then false
    else path_match path p.entry.path

unfoldable pub matching : ℕ → Text → Text → Cookies → List CookieEntry
matching now host path [] = []
matching now host path ((d, es) ∷ m) =
    let rest = matching now host path m in
    if domain_match host d
    then map (λ (p : Place). p.entry) (keep (applies now host path) (in_domain d es)) ++ rest
    else rest

-- The comparison of the sort: longer paths first, then the earlier ones.
unfoldable pub comes_before : CookieEntry → CookieEntry → Bool
comes_before a b =
    if length a.path == length b.path
    then ltb a.created b.created
    else ltb (length b.path) (length a.path)

unfoldable pub insert_sorted : CookieEntry → List CookieEntry → List CookieEntry
insert_sorted e [] = e ∷ []
insert_sorted e (x ∷ xs) =
    let later = x ∷ insert_sorted e xs in if comes_before x e then later else e ∷ x ∷ xs

-- sort.SliceStable: an insertion sort that leaves equal elements in their order.
unfoldable pub stable_sort : List CookieEntry → List CookieEntry
stable_sort [] = []
stable_sort (e ∷ es) = insert_sorted e (stable_sort es)

unfoldable pub to_http_cookie : CookieEntry → HttpCookie
to_http_cookie e = record {
  name = e.name;
  value = e.value;
  path = e.path;
  domain = e.domain;
  expires = e.expires;
  max_age = e.max_age;
  secure = e.secure;
  http_only = e.http_only;
  same_site = e.same_site;
}

-- Cookies
unfoldable pub cookies_for : ℕ → Jar → Text → Text → List HttpCookie
cookies_for now j host path =
    map to_http_cookie (stable_sort (matching now (to_lower host) path j.cookies))

unfoldable pub fresh_entries : ℕ → Entries → Entries
fresh_entries now = keep (λ (e : Text × CookieEntry). not (is_expired now e.1))

unfoldable pub fresh_domains : ℕ → Cookies → Cookies
fresh_domains now [] = []
fresh_domains now ((d, es) ∷ m) =
    let rest = fresh_domains now m in
    elim (fresh_entries now es) [ [] ↦ rest | x ∷ xs ↦ (d, x ∷ xs) ∷ rest ]

unfoldable pub remove_expired : ℕ → Jar → Jar
remove_expired now j = record j { cookies = fresh_domains now j.cookies }

-- IsExpired
unfoldable pub jar_is_expired : ℕ → Jar → Bool
jar_is_expired now j = all (λ (p : Place). is_expired now p.entry) (places j.cookies)

unfoldable pub is_persistent : ℕ → CookieEntry → Bool
is_persistent now e =
    if is_expired now e then false else if is_session_cookie e then false else true

unfoldable pub all_cookies : ℕ → Jar → List CookieEntry
all_cookies now j = keep (is_persistent now) (map (λ (p : Place). p.entry) (places j.cookies))

unfoldable pub restore_one : CookieEntry → Cookies → Cookies
restore_one e m = elim (lookup text_dec e.domain m) [
  | none ↦ insert text_dec e.domain ((cookie_key e.name e.path, e) ∷ []) m
  | some es ↦ insert text_dec e.domain (insert text_dec (cookie_key e.name e.path) e es) m
]

unfoldable pub restore_from : ℕ → Cookies → List CookieEntry → Cookies
restore_from now m [] = m
restore_from now m (e ∷ es) = restore_from now (if is_expired now e then m else restore_one e m) es

unfoldable pub restore_cookies : ℕ → Jar → List CookieEntry → Jar
restore_cookies now j entries = record j { cookies = restore_from now j.cookies entries }
