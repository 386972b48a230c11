-- ===== src/CookieJar/Reach.antt =====
-- internal/cookiejar/jar.go: every jar that can be reached from an empty one. The operations may
-- follow one another in any order, at any times.
use cifera.Base.{
  ℕ, zero, suc, ◌+◌, ◌<◌, ◌≤◌, ◌≡◌, refl, ◌∙◌, sym, subst, inl, inr, some, List, [], ◌∷◌, length,
  Text, text_dec, lookup, insert, lookup-All, All-insert, insert-IsDistinct, IsDistinct, All,
  length-insert-le, ℤ, pos, negsuc, arith, eq_of_some, Bool-cases, Option-cases,
}
use cifera.CookieJar.Entry.{CookieEntry, HttpCookie, cookie_key, is_expired}
use cifera.CookieJar.Jar.{
  Entries, Cookies, Jar, new_jar, total_count, count_entries, make_entry, put_entry, add_cookie,
  remove_cookie_for_api, remove_expired, restore_one, restore_from, restore_cookies,
}
use cifera.CookieJar.Places.{IsValid, IsGood, IsFiled}
use cifera.CookieJar.Capacity.{count-insert_le, count-insert_present}
use cifera.CookieJar.Add.{put_entry-IsValid, put_entry-bounded, put_entry-max_size}
use cifera.CookieJar.Outcome.{key_of, puts, ignores, deletes, add_cookie-Outcome}
use cifera.CookieJar.Expiry.{
  IsKept, remove_cookie-IsKept, remove_expired-IsKept, remove_cookie_for_api-IsKept,
}

IsOk : Cookies → Type 0
IsOk m = IsDistinct m × All IsGood m

restore_one-IsOk :
    (e : CookieEntry) (m : Cookies)
    → IsOk m
    → IsOk (restore_one e m) × (count_entries (restore_one e m) ≤ count_entries m + 1)
unfolding restore_one IsOk
restore_one-IsOk e m (u, g) =
    let k = cookie_key e.name e.path in
    elim (Option-cases (lookup text_dec e.domain m)) [
      | inl absent ↦
          let es : Entries = (k, e) ∷ [] in
          rw (absent, restore_one)
            (
              (
                insert-IsDistinct text_dec e.domain es m u,
                All-insert text_dec IsGood e.domain es m ((tt, tt), ((refl, refl), tt)) g,
              ),
              omega (arith, count-insert_le e.domain es m),
            )
      | inr (es, found) ↦
          let (du, da) = lookup-All text_dec IsGood e.domain es m found g in
          let es' = insert text_dec k e es in
          rw (found, restore_one)
            (
              (
                insert-IsDistinct text_dec e.domain es' m u,
                All-insert text_dec IsGood e.domain es' m
                    (
                      insert-IsDistinct text_dec k e es du,
                      All-insert text_dec (IsFiled e.domain) k e es (refl, refl) da,
                    )
                    g,
              ),
              omega (
                arith,
                count-insert_present e.domain es' es m found,
                length-insert-le text_dec k e es,
              ),
            )
    ]

restore_from-IsOk :
    (now : ℕ) (m : Cookies) (es : List CookieEntry)
    → IsOk m
    → IsOk (restore_from now m es)
      × (count_entries (restore_from now m es) ≤ count_entries m + length es)
unfolding restore_from
restore_from-IsOk now m [] ok = (ok, omega arith)
restore_from-IsOk now m (e ∷ es) ok = elim (Bool-cases (is_expired now e)) [
  | inl old ↦
      let (ok', le) = restore_from-IsOk now m es ok in
      rw (old, restore_from) (ok', omega (arith, le))
  | inr fresh ↦
      let (ok1, le1) = restore_one-IsOk e m ok in
      let (ok', le) = restore_from-IsOk now (restore_one e m) es ok1 in
      rw (fresh, restore_from) (ok', omega (arith, le, le1))
]

pub restore_cookies-IsKept :
    (now : ℕ) (j : Jar) (es : List CookieEntry)
    → IsValid j
    → IsKept j (restore_cookies now j es) (length es)
unfolding restore_cookies total_count IsOk
restore_cookies-IsKept now j es v =
    let (ok, le) = restore_from-IsOk now j.cookies es (v.domains, v.good) in
    record {
      valid = record { domains = ok.0; good = ok.1 };
      bounded = omega (arith, le);
      capacity = refl;
    }

-- The jars that an empty jar becomes, with the number of entries given to RestoreCookies so far.
pub data Reach (size : ℤ) : ℕ → Jar → Type 0 where
  start : Reach size 0 (new_jar size)
  add :
      {n : ℕ} {j j' : Jar} (now : ℕ) (c : HttpCookie) (host : Text)
      → Reach size n j
      → add_cookie now j c host ≡ some j'
      → Reach size n j'
  remove :
      {n : ℕ} {j : Jar} (name domain path : Text)
      → Reach size n j
      → Reach size n (remove_cookie_for_api j name domain path).0
  expire : {n : ℕ} {j : Jar} (now : ℕ) → Reach size n j → Reach size n (remove_expired now j)
  restore :
      {n : ℕ} {j : Jar} (now : ℕ) (es : List CookieEntry)
      → Reach size n j
      → Reach size (n + length es) (restore_cookies now j es)

-- The jar is well formed, its capacity is the configured one, and it holds at most so many cookies.
pub record IsSound (size : ℤ) (n : ℕ) (j : Jar) : Type 0 where
  pub valid : IsValid j
  pub capacity : j.max_size ≡ (new_jar size).max_size
  pub bounded : total_count j ≤ j.max_size + n

pub new_jar-IsSound : (size : ℤ) → IsSound size 0 (new_jar size)
unfolding new_jar total_count count_entries
new_jar-IsSound (pos zero) = record {
  valid = record { domains = tt; good = tt };
  capacity = refl;
  bounded = omega arith;
}
new_jar-IsSound (pos (suc n)) = record {
  valid = record { domains = tt; good = tt };
  capacity = refl;
  bounded = omega arith;
}
new_jar-IsSound (negsuc n) = record {
  valid = record { domains = tt; good = tt };
  capacity = refl;
  bounded = omega arith;
}

new_jar_positive : (size : ℤ) → 0 < (new_jar size).max_size
unfolding new_jar
new_jar_positive (pos zero) = omega arith
new_jar_positive (pos (suc n)) = omega arith
new_jar_positive (negsuc n) = omega arith

IsKept-IsSound_more :
    {size : ℤ} {n : ℕ} {j j' : Jar} (m : ℕ)
    → IsSound size n j
    → IsKept j j' m
    → IsSound size (n + m) j'
IsKept-IsSound_more m s k = record {
  valid = k.valid;
  capacity = k.capacity ∙ s.capacity;
  bounded = omega (arith, s.bounded, k.bounded, k.capacity);
}

IsKept-IsSound :
    {size : ℤ} {n : ℕ} {j j' : Jar} → IsSound size n j → IsKept j j' 0 → IsSound size n j'
IsKept-IsSound {size} {n} {j' = j'} s k =
    let same : n + 0 ≡ n = omega arith in
    subst (λ x. IsSound size x j') same (IsKept-IsSound_more 0 s k)

put_entry-IsSound :
    (size : ℤ) (n : ℕ) (j : Jar) (e : CookieEntry) (j' : Jar)
    → IsSound size n j
    → put_entry j e ≡ some j'
    → IsSound size n j'
put_entry-IsSound size n j e j' s h =
    let most = put_entry-max_size j e j' s.valid h in
    record {
      valid = put_entry-IsValid j e j' s.valid h;
      capacity = most ∙ s.capacity;
      bounded = omega (
        arith,
        put_entry-bounded j e j' (j.max_size + n) s.valid
            (omega (arith, new_jar_positive size, s.capacity)) (omega arith) s.bounded h,
        most,
      );
    }

add_cookie-IsSound :
    (size : ℤ) (n now : ℕ) (j : Jar) (c : HttpCookie) (host : Text) (j' : Jar)
    → IsSound size n j
    → add_cookie now j c host ≡ some j'
    → IsSound size n j'
add_cookie-IsSound size n now j c host j' s h = elim (add_cookie-Outcome now j c host) [
  | puts _ _ e ↦ put_entry-IsSound size n j (make_entry now c host) j' s (sym e ∙ h)
  | ignores _ _ e ↦ subst (IsSound size n) (eq_of_some (sym e ∙ h)) s
  | deletes _ e ↦ subst (IsSound size n) (eq_of_some (sym e ∙ h)) (
      IsKept-IsSound s
        (remove_cookie-IsKept j (make_entry now c host).domain (key_of now c host) s.valid))
]

-- Whatever the order of the operations, no domain or key stands twice, every cookie is filed under
-- its own domain and key, and the jar exceeds its capacity by no more than was restored into it.
pub Reach-IsSound : (size : ℤ) (n : ℕ) (j : Jar) → Reach size n j → IsSound size n j
Reach-IsSound size n j start = new_jar-IsSound size
Reach-IsSound size n j (add now c host r h) =
    add_cookie-IsSound size n now _ c host j (Reach-IsSound size n _ r) h
Reach-IsSound size n j (remove {j = j0} name domain path r) =
    let s = Reach-IsSound size n j0 r in
    IsKept-IsSound s (remove_cookie_for_api-IsKept j0 name domain path s.valid)
Reach-IsSound size n j (expire {j = j0} now r) =
    let s = Reach-IsSound size n j0 r in IsKept-IsSound s (remove_expired-IsKept now j0 s.valid)
Reach-IsSound size n j (restore {n = n0} {j = j0} now es r) =
    let s = Reach-IsSound size n0 j0 r in
    IsKept-IsSound_more (length es) s (restore_cookies-IsKept now j0 es s.valid)
