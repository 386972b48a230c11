-- ===== src/CookieJar/Sends.antt =====
-- internal/cookiejar/jar.go: Cookies returns exactly the cookies that apply, the longest paths first.
use cifera.Base.{
  ◌⊎◌, subst, ℕ, ◌<◌, ◌≤◌, length, ◌≡◌, refl, ◌∙◌, ap, sym, ◌↔◌, inl, inr, true, false, List, [],
  ◌∷◌, map, some, All, All-map, IsIn, IsIn-append, append-IsIn_left, append-IsIn_right, IsIn-keep,
  IsIn-map, map-IsIn, keep, Text, text_eq_iff, to_lower, arith, Bool-cases,
}
use cifera.CookieJar.Matcher.{domain_match}
use cifera.CookieJar.Matches.{DomainMatches, PathMatches, domain_match_iff, path_match_iff}
use cifera.CookieJar.Entry.{CookieEntry, HttpCookie}
use cifera.CookieJar.Live.{IsLive, is_expired-IsLive}
use cifera.CookieJar.Jar.{
  Cookies, Jar, Place, applies, matching, places, in_domain, comes_before, insert_sorted,
  stable_sort, to_http_cookie, cookies_for,
}
use cifera.CookieJar.Find.{find}
use cifera.CookieJar.Places.{IsValid, places_sound, places_complete, in_domain_at}

-- The cookie applies to a request of this host and path, at this time.
pub record Applies (now : ℕ) (host path : Text) (p : Place) : Type 0 where
  pub domain : DomainMatches host p.domain
  pub host_only : (p.entry.host_only ≡ false) ⊎ (host ≡ p.domain)
  pub live : IsLive now p.entry
  pub below : PathMatches path p.entry.path

-- A cookie of the map that passes the tests of the loop.
IsMatch : ℕ → Text → Text → Place → Type 0
IsMatch now host path p = (domain_match host p.domain ≡ true) × (applies now host path p ≡ true)

module _ (now : ℕ) (host path : Text) where
  matching_sound :
      (e : CookieEntry) (m : Cookies)
      → IsIn e (matching now host path m)
      → (p : Place) × IsIn p (places m) × IsMatch now host path p × (p.entry ≡ e)
  unfolding matching places IsMatch
  matching_sound e [] i = absurd i
  matching_sound e ((d, es) ∷ m) i = elim (Bool-cases (domain_match host d)) [
    | inr other ↦
        let (p, q, r, s) = matching_sound e m (rw (other, matching) at i) in
        (p, append-IsIn_right p (in_domain d es) (places m) q, r, s)
    | inl here ↦
        elim (IsIn-append e
          (map (λ (p : Place). p.entry) (keep (applies now host path) (in_domain d es)))
          (matching now host path m) (rw (here, matching) at i)) [
            | inl first ↦
                let (p, q, same) =
                  IsIn-map (λ (p : Place). p.entry) e
                    (keep (applies now host path) (in_domain d es)) first in
                let (at, passes) = (IsIn-keep p (applies now host path) (in_domain d es)).0 q in
                (
                  p,
                  append-IsIn_left p (in_domain d es) (places m) at,
                  (ap (domain_match host) (in_domain_at p d es at) ∙ here, passes),
                  same,
                )
            | inr later ↦
                let (p, q, r, s) = matching_sound e m later in
                (p, append-IsIn_right p (in_domain d es) (places m) q, r, s)
          ]
  ]

  matching_complete :
      (p : Place) (m : Cookies)
      → IsIn p (places m)
      → IsMatch now host path p
      → IsIn p.entry (matching now host path m)
  unfolding matching places IsMatch
  matching_complete p [] i h = absurd i
  matching_complete p ((d, es) ∷ m) i (dom, passes) =
      let found = keep (applies now host path) (in_domain d es) in
      let first = map (λ (p : Place). p.entry) found in
      let rest = matching now host path m in
      elim (IsIn-append p (in_domain d es) (places m) i) [
        | inl here ↦
            let same = in_domain_at p d es here in
            rw (sym (ap (domain_match host) same) ∙ dom, matching)
              (append-IsIn_left p.entry first rest (
                map-IsIn (λ (p : Place). p.entry) p.entry p found
                  ((IsIn-keep p (applies now host path) (in_domain d es)).1 (here, passes)) refl))
        | inr there ↦
            let later = matching_complete p m there (dom, passes) in
            elim (Bool-cases (domain_match host d)) [
              | inl b ↦ rw (b, matching) (append-IsIn_right p.entry first rest later)
              | inr b ↦ rw (b, matching) later
            ]
      ]

applies_complete :
    (now : ℕ) (host path : Text) (p : Place)
    → Applies now host path p
    → applies now host path p ≡ true
unfolding applies
applies_complete now host path p w =
    let fits = (path_match_iff path p.entry.path).1 w.below in
    let live = (is_expired-IsLive now p.entry).1 w.live in
    elim w.host_only [
      | inr same ↦ let here = (text_eq_iff host p.domain).1 same in ground (arith, live, fits, here)
      | inl any ↦ ground (arith, live, fits, any)
    ]

Applies-iff :
    (now : ℕ) (host path : Text) (p : Place) → IsMatch now host path p ↔ Applies now host path p
unfolding IsMatch applies
Applies-iff now host path p = (
  λ (d, a). record {
    domain = (domain_match_iff host p.domain).0 d;
    host_only = elim (Bool-cases p.entry.host_only) [
      | inl only ↦ inr ((text_eq_iff host p.domain).0 (ground (arith, only)))
      | inr any ↦ inl any
    ];
    live = (is_expired-IsLive now p.entry).0 (ground arith);
    below = (path_match_iff path p.entry.path).0 (ground arith);
  },
  λ w. ((domain_match_iff host p.domain).1 w.domain, applies_complete now host path p w),
)

IsIn-insert_sorted :
    (x e : CookieEntry) (l : List CookieEntry) → IsIn x (insert_sorted e l) ↔ IsIn x (e ∷ l)
unfolding insert_sorted
IsIn-insert_sorted x e [] = (λ i. i, λ i. i)
IsIn-insert_sorted x e (y ∷ l) = ground (arith, IsIn-insert_sorted x e l)

IsIn-stable_sort : (x : CookieEntry) (l : List CookieEntry) → IsIn x (stable_sort l) ↔ IsIn x l
unfolding stable_sort
IsIn-stable_sort x [] = (λ i. i, λ i. i)
IsIn-stable_sort x (e ∷ l) =
    ground (arith, IsIn-insert_sorted x e (stable_sort l), IsIn-stable_sort x l)

-- No cookie must come before an earlier one.
abbrev IsSorted : List CookieEntry → Type 0
IsSorted [] = Unit
IsSorted (e ∷ l) = All (λ x. comes_before x e ≡ false) l × IsSorted l

-- comes_before is a strict weak order, so a sort by it has a meaning.
comes_before_asym : (a b : CookieEntry) → comes_before a b ≡ true → comes_before b a ≡ false
unfolding comes_before
comes_before_asym a b h = ground arith

comes_before_trans :
    (a b c : CookieEntry)
    → comes_before b a ≡ false
    → comes_before c b ≡ false
    → comes_before c a ≡ false
unfolding comes_before
comes_before_trans a b c h k = ground arith

All-insert_sorted :
    (P : CookieEntry → Type 0) (e : CookieEntry) (l : List CookieEntry)
    → P e
    → All P l
    → All P (insert_sorted e l)
unfolding insert_sorted
All-insert_sorted P e [] p a = (p, tt)
All-insert_sorted P e (x ∷ l) p (q, a) = elim (Bool-cases (comes_before x e)) [
  | inl later ↦ rw (later, insert_sorted, All) (q, All-insert_sorted P e l p a)
  | inr here ↦ rw (here, insert_sorted, All) (p, (q, a))
]

insert_sorted-IsSorted :
    (e : CookieEntry) (l : List CookieEntry) → IsSorted l → IsSorted (insert_sorted e l)
unfolding insert_sorted
insert_sorted-IsSorted e [] s = (tt, tt)
insert_sorted-IsSorted e (x ∷ l) (first, s) = elim (Bool-cases (comes_before x e)) [
  | inl later ↦
      rw (later, insert_sorted, IsSorted)
        (
          All-insert_sorted (λ y. comes_before y x ≡ false) e l (comes_before_asym x e later) first,
          insert_sorted-IsSorted e l s,
        )
  | inr here ↦
      rw (here, insert_sorted, IsSorted)
        (
          (
            here,
            All-map (λ y. comes_before y x ≡ false) (λ y. comes_before y e ≡ false) l
                (λ y h. comes_before_trans e x y here h) first,
          ),
          (first, s),
        )
]

stable_sort-IsSorted : (l : List CookieEntry) → IsSorted (stable_sort l)
unfolding stable_sort
stable_sort-IsSorted [] = tt
stable_sort-IsSorted (e ∷ l) = insert_sorted-IsSorted e (stable_sort l) (stable_sort-IsSorted l)

-- RFC 6265 5.4: a longer path goes first, and of two as long the earlier cookie.
pub data Precedes (a b : CookieEntry) : Type 0 where
  longer : length b.path < length a.path → Precedes a b
  earlier : length a.path ≡ length b.path → a.created ≤ b.created → Precedes a b

abbrev pub IsOrdered : List CookieEntry → Type 0
IsOrdered [] = Unit
IsOrdered (e ∷ l) = All (λ x. Precedes e x) l × IsOrdered l

Precedes-of_order :
    (a b : CookieEntry)
    → (length b.path < length a.path) ⊎ ((length a.path ≡ length b.path) × (a.created ≤ b.created))
    → Precedes a b
Precedes-of_order a b (inl l) = longer l
Precedes-of_order a b (inr (same, e)) = earlier same e

not_before-Precedes : (a b : CookieEntry) → comes_before b a ≡ false → Precedes a b
unfolding comes_before
not_before-Precedes a b h = Precedes-of_order a b (ground arith)

IsSorted-IsOrdered : (l : List CookieEntry) → IsSorted l → IsOrdered l
IsSorted-IsOrdered [] s = tt
IsSorted-IsOrdered (e ∷ l) (first, s) = (
  All-map (λ x. comes_before x e ≡ false) (λ x. Precedes e x) l (λ x h. not_before-Precedes e x h)
      first,
  IsSorted-IsOrdered l s,
)

-- What the jar returns: ordered, and exactly the cookies that apply.
pub record IsAnswer (now : ℕ) (j : Jar) (host path : Text) (cs : List HttpCookie) : Type 0 where
  pub entries : List CookieEntry
  pub printed : cs ≡ map to_http_cookie entries
  pub ordered : IsOrdered entries
  pub exactly :
      (e : CookieEntry)
      → IsIn e entries ↔ (
          (p : Place) × (find j p.domain p.key ≡ some p.entry)
          × Applies now (to_lower host) path p
          × (p.entry ≡ e))

-- Cookies returns the cookies of the jar that apply to the host and the path and are live, no
-- others, longer paths first and earlier cookies first among paths of one length.
pub cookies_for-IsAnswer :
    (now : ℕ) (j : Jar) (host path : Text)
    → IsValid j
    → IsAnswer now j host path (cookies_for now j host path)
unfolding cookies_for
cookies_for-IsAnswer now j host path v =
    let h = to_lower host in
    let found = matching now h path j.cookies in
    record {
      entries = stable_sort found;
      printed = refl;
      ordered = IsSorted-IsOrdered (stable_sort found) (stable_sort-IsSorted found);
      exactly = λ e. (
        λ i.
            let (p, q, m, same) =
              matching_sound now h path e j.cookies ((IsIn-stable_sort e found).0 i) in
            (p, places_sound j p v q, (Applies-iff now h path p).0 m, same),
        λ (p, f, w, same). (IsIn-stable_sort e found).1 (
            subst (λ x. IsIn x found) same
              (matching_complete now h path p j.cookies (places_complete j p.domain p.key p.entry f)
                ((Applies-iff now h path p).1 w))),
      );
    }
