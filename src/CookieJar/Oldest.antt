-- ===== src/CookieJar/Oldest.antt =====
-- internal/cookiejar/jar.go: the cookie that evictIfNeeded picks was created no later than any other.
use cifera.Base.{
  ◌≤◌, ◌≡◌, subst, inl, inr, some, List, [], ◌∷◌, All, All-IsIn, IsIn, Bool-cases, arith,
  eq_of_some,
}
use cifera.CookieJar.Jar.{Jar, Place, places, is_older, oldest_from, oldest_of}
use cifera.CookieJar.Find.{find}
use cifera.CookieJar.Places.{places_complete}

NoLater : Place → Place → Type 0
NoLater p q = p.entry.created ≤ q.entry.created

oldest_from-NoLater :
    (p x : Place) (l : List Place) → oldest_from p l ≡ x → NoLater x p × All (NoLater x) l
unfolding oldest_from is_older NoLater
oldest_from-NoLater p x [] e =
    (subst (λ (y : Place). y.entry.created ≤ p.entry.created) e (omega arith), tt)
oldest_from-NoLater p x (q ∷ l) e = elim (Bool-cases (is_older q p)) [
  | inl older ↦
      let (h, t) = oldest_from-NoLater q x l (rw (older, oldest_from) at e) in
      (ground (arith, older, h), (h, t))
  | inr newer ↦
      let (h, t) = oldest_from-NoLater p x l (rw (newer, oldest_from) at e) in
      (h, (ground (arith, newer, h), t))
]

-- Of all cookies of the jar, this one was created first.
abbrev pub IsFirstCreated : Jar → Place → Type 0
IsFirstCreated j p =
    (q : Place) → find j q.domain q.key ≡ some q.entry → p.entry.created ≤ q.entry.created

pub oldest_of-IsFirstCreated :
    (j : Jar) (p : Place) → oldest_of (places j.cookies) ≡ some p → IsFirstCreated j p
unfolding oldest_of NoLater
oldest_of-IsFirstCreated j p h q found =
    from_list (places j.cookies) h (places_complete j q.domain q.key q.entry found)
  where
    from_list :
        (l : List Place) → oldest_of l ≡ some p → IsIn q l → p.entry.created ≤ q.entry.created
    from_list [] h i = absurd i
    from_list (x ∷ l) h i =
        All-IsIn q (NoLater p) (x ∷ l) i (oldest_from-NoLater x p l (eq_of_some h))
