-- ===== src/CookieJar/Expiry.antt =====
-- internal/cookiejar/jar.go: RemoveExpired, RestoreCookies and RemoveCookie keep the jar well formed
-- and say how many cookies it holds.
use cifera.Base.{
  ℕ, ◌+◌, ◌≤◌, ◌≡◌, refl, ◌≢◌, ◌∙◌, ap, subst, inl, inr, Bool, List, [], ◌∷◌, All, keep, length,
  Text, codes, to_lower, is_empty, text_dec, lookup, IsFresh, IsDistinct, arith, Bool-cases,
  Option-cases, List-cases, if◌then◌else◌,
}
use cifera.CookieJar.Matcher.{canonical_domain}
use cifera.CookieJar.Entry.{CookieEntry, cookie_key}
use cifera.CookieJar.Jar.{
  Entries, Cookies, Jar, remove_cookie, total_count, count_entries, remove_everywhere,
  remove_cookie_for_api, fresh_entries, fresh_domains, remove_expired,
}
use cifera.CookieJar.Places.{IsValid, IsGood, IsFiled, remove_cookie-IsValid}
use cifera.CookieJar.Capacity.{total_count-remove_cookie-le}

-- What every operation but AddCookie keeps.
pub record IsKept (j j' : Jar) (more : ℕ) : Type 0 where
  pub valid : IsValid j'
  pub bounded : total_count j' ≤ total_count j + more
  pub capacity : j'.max_size ≡ j.max_size

keep-All {ℓ κ} :
    {A : Type ℓ} (P : A → Type κ) (p : A → Bool) (l : List A) → All P l → All P (keep p l)
keep-All P p [] h = tt
keep-All P p (x ∷ l) (h, hs) = ground (arith, keep-All P p l hs)

keep-IsDistinct {ℓ} :
    {K V : Type ℓ} (p : K × V → Bool) (l : List (K × V)) → IsDistinct l → IsDistinct (keep p l)
keep-IsDistinct p [] h = tt
keep-IsDistinct p ((k, v) ∷ l) (f, h) =
    ground (arith, keep-All (λ e. e.0 ≢ k) p l f, keep-IsDistinct p l h)

length-keep-le {ℓ} : {A : Type ℓ} (p : A → Bool) (l : List A) → length (keep p l) ≤ length l
length-keep-le p [] = omega arith
length-keep-le p (x ∷ l) = ground (arith, length-keep-le p l)

module _ (now : ℕ) where
  fresh_entries-IsGood :
      (d : Text) (es : Entries) → IsGood (d, es) → IsGood (d, fresh_entries now es)
  unfolding fresh_entries
  fresh_entries-IsGood d es (u, a) = (keep-IsDistinct _ es u, keep-All (IsFiled d) _ es a)

  fresh_entries-le : (es : Entries) → length (fresh_entries now es) ≤ length es
  unfolding fresh_entries
  fresh_entries-le es = length-keep-le _ es

  fresh_domains-IsFresh : (d : Text) (m : Cookies) → IsFresh d m → IsFresh d (fresh_domains now m)
  unfolding fresh_domains
  fresh_domains-IsFresh d [] f = tt
  fresh_domains-IsFresh d ((d', es) ∷ m) (n, f) = elim (List-cases (fresh_entries now es)) [
    | inl nil ↦ rw (nil, fresh_domains, All) (fresh_domains-IsFresh d m f)
    | inr (x, xs, cons) ↦ rw (cons, fresh_domains, All) (n, fresh_domains-IsFresh d m f)
  ]

  fresh_domains-IsValid :
      (m : Cookies)
      → IsDistinct m
      → All IsGood m
      → IsDistinct (fresh_domains now m)
        × All IsGood (fresh_domains now m)
        × (count_entries (fresh_domains now m) ≤ count_entries m)
  unfolding fresh_domains count_entries
  fresh_domains-IsValid [] u g = (tt, tt, omega arith)
  fresh_domains-IsValid ((d, es) ∷ m) (f, u) (good, g) =
      let (u', g', le) = fresh_domains-IsValid m u g in
      elim (List-cases (fresh_entries now es)) [
        | inl nil ↦
            rw (nil, fresh_domains, All, IsDistinct, count_entries) (u', g', omega (arith, le))
        | inr (x, xs, cons) ↦
            rw (cons, fresh_domains, All, IsDistinct, count_entries)
              (
                (fresh_domains-IsFresh d m f, u'),
                (subst (λ l. IsGood (d, l)) cons (fresh_entries-IsGood d es good), g'),
                omega (arith, le, fresh_entries-le es, ap (length {A = Text × CookieEntry}) cons),
              )
      ]

  pub remove_expired-IsKept : (j : Jar) → IsValid j → IsKept j (remove_expired now j) 0
  unfolding remove_expired total_count
  remove_expired-IsKept j v =
      let (u, g, le) = fresh_domains-IsValid j.cookies v.domains v.good in
      record {
        valid = record { domains = u; good = g };
        bounded = omega (arith, le);
        capacity = refl;
      }

pub remove_cookie-IsKept : (j : Jar) (d k : Text) → IsValid j → IsKept j (remove_cookie j d k) 0
unfolding remove_cookie
remove_cookie-IsKept j d k v = record {
  valid = remove_cookie-IsValid j d k v;
  bounded = omega (arith, total_count-remove_cookie-le j d k);
  capacity = refl;
}

IsKept-trans : {j j1 j2 : Jar} (m n : ℕ) → IsKept j j1 m → IsKept j1 j2 n → IsKept j j2 (m + n)
IsKept-trans m n a b = record {
  valid = b.valid;
  bounded = omega (arith, a.bounded, b.bounded);
  capacity = b.capacity ∙ a.capacity;
}

pub IsKept-refl : (j : Jar) → IsValid j → IsKept j j 0
IsKept-refl j v = record { valid = v; bounded = omega arith; capacity = refl }

remove_everywhere-IsKept :
    (j : Jar) (key : Text) (m : Cookies) → IsValid j → IsKept j (remove_everywhere j key m).0 0
unfolding remove_everywhere
remove_everywhere-IsKept j key [] v = IsKept-refl j v
remove_everywhere-IsKept j key ((d, es) ∷ m) v =
    let one = remove_cookie-IsKept j d key v in
    IsKept-trans 0 0 one (remove_everywhere-IsKept (remove_cookie j d key) key m one.valid)

pub remove_cookie_for_api-IsKept :
    (j : Jar) (name domain path : Text)
    → IsValid j
    → IsKept j (remove_cookie_for_api j name domain path).0 0
unfolding remove_cookie_for_api
remove_cookie_for_api-IsKept j name domain path v =
    let key = cookie_key name (if is_empty path then codes "/" else path) in
    let d = to_lower (canonical_domain domain) in
    elim (Bool-cases (is_empty domain)) [
      | inl all_of_them ↦ rw all_of_them (remove_everywhere-IsKept j key j.cookies v)
      | inr one ↦ elim (Option-cases (lookup text_dec d j.cookies)) [
        | inl absent ↦ rw (one, absent) (IsKept-refl j v)
        | inr (es, found) ↦ rw (one, found) (remove_cookie-IsKept j d key v)
      ]
    ]
