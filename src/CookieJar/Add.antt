-- ===== src/CookieJar/Add.antt =====
-- internal/cookiejar/jar.go: AddCookie keeps the jar well formed and within its capacity, and
-- stores the cookie; where it panics.
use cifera.Base.{
  ℕ, ◌+◌, ◌<◌, ◌≤◌, ◌≡◌, refl, ◌≢◌, ◌∙◌, ap, sym, inl, inr, false≢true, Option, none, some, Text,
  arith, Bool-cases,
}
use cifera.CookieJar.Entry.{CookieEntry, cookie_key}
use cifera.CookieJar.Jar.{
  assign, remove_cookie, Jar, total_count, ensure_domain, has_key, make_room, put_entry,
}
use cifera.CookieJar.Find.{assign_inv, find, has_key-find}
use cifera.CookieJar.Places.{IsValid, remove_cookie-IsValid, assign-IsValid, ensure_domain-IsValid}
use cifera.CookieJar.Capacity.{
  total_count-remove_cookie_found, total_count-assign-le, total_count-assign_present,
  total_count-ensure_domain, Eviction, room, empty, victim, evict_if_needed-Eviction,
}

-- The ways of making room.
pub data Room (d k : Text) (j : Jar) : Jar → Type 0 where
  known : {j' : Jar} (e : CookieEntry) → find j d k ≡ some e → j' ≡ j → Room d k j j'
  new : {j' : Jar} → find j d k ≡ none → Eviction j j' → Room d k j j'

Option_some {ℓ} : {A : Type ℓ} (o : Option A) → o ≢ none → (a : A) × (o ≡ some a)
Option_some none h = absurd (h refl)
Option_some (some a) h = (a, refl)

pub make_room-Room : (d k : Text) (j : Jar) → IsValid j → Room d k j (make_room d k j)
unfolding make_room
make_room-Room d k j v = elim (Bool-cases (has_key d k j)) [
  | inl present ↦
      let (e, found) =
        Option_some (find j d k) (λ n. false≢true (sym ((has_key-find j d k).1 n) ∙ present)) in
      known e found (rw present)
  | inr absent ↦ new ((has_key-find j d k).0 absent) (rw absent (evict_if_needed-Eviction j v))
]

Eviction-IsValid : {j j' : Jar} → IsValid j → Eviction j j' → IsValid j'
Eviction-IsValid v (room _ e) = rw e v
Eviction-IsValid v (empty _ e) = rw e v
Eviction-IsValid {j} v (victim p _ _ _ e) = rw e (remove_cookie-IsValid j p.domain p.key v)

make_room-IsValid : (d k : Text) (j : Jar) → IsValid j → IsValid (make_room d k j)
make_room-IsValid d k j v = elim (make_room-Room d k j v) [
  | known _ _ e ↦ rw e v
  | new _ r ↦ Eviction-IsValid v r
]

-- A successful AddCookie keeps the jar well formed.
pub put_entry-IsValid :
    (j : Jar) (e : CookieEntry) (j' : Jar) → IsValid j → put_entry j e ≡ some j' → IsValid j'
unfolding put_entry
put_entry-IsValid j e j' v h =
    let k = cookie_key e.name e.path in
    let v1 = ensure_domain-IsValid j e.domain v in
    assign-IsValid (make_room e.domain k (ensure_domain e.domain j)) e.domain k e j'
      (make_room-IsValid e.domain k (ensure_domain e.domain j) v1) (refl, refl) h

pub ensure_domain-max_size : (j : Jar) (d : Text) → (ensure_domain d j).max_size ≡ j.max_size
unfolding ensure_domain
ensure_domain-max_size j d = ground arith

Eviction-room :
    {j j' : Jar} (b : ℕ)
    → 0 < j.max_size
    → j.max_size ≤ b
    → total_count j ≤ b
    → Eviction j j'
    → total_count j' + 1 ≤ b
Eviction-room b p m c (room less e) = rw e (omega (arith, less, m))
Eviction-room b p m c (empty none_left e) = absurd (omega (arith, p, none_left))
Eviction-room {j} b p m c (victim q full old found e) =
    rw e (omega (arith, total_count-remove_cookie_found j q.domain q.key q.entry found, c))

-- AddCookie keeps the number of cookies within any bound that is not below the capacity.
pub put_entry-bounded :
    (j : Jar) (e : CookieEntry) (j' : Jar) (b : ℕ)
    → IsValid j
    → 0 < j.max_size
    → j.max_size ≤ b
    → total_count j ≤ b
    → put_entry j e ≡ some j'
    → total_count j' ≤ b
unfolding put_entry
put_entry-bounded j e j' b v p m c h =
    let d = e.domain in
    let k = cookie_key e.name e.path in
    let j1 = ensure_domain d j in
    let same = total_count-ensure_domain j d in
    let most = ensure_domain-max_size j d in
    elim (make_room-Room d k j1 (ensure_domain-IsValid j d v)) [
      | known e0 found r ↦ omega (
        arith,
        total_count-assign_present (make_room d k j1) d k e j' h e0 (rw r found),
        ap total_count r,
        same,
        c,
      )
      | new _ r ↦ omega (
        arith,
        total_count-assign-le (make_room d k j1) d k e j' h,
        Eviction-room b (omega (arith, p, most)) (omega (arith, m, most)) (omega (arith, c, same))
            r,
      )
    ]

assign-max_size :
    (j : Jar) (d k : Text) (e : CookieEntry) (j' : Jar)
    → assign d k e j ≡ some j'
    → j'.max_size ≡ j.max_size
assign-max_size j d k e j' h =
    let (es, found, same) = assign_inv j d k e j' h in ap (λ (x : Jar). x.max_size) same

Room-max_size : {j j' : Jar} (d k : Text) → Room d k j j' → j'.max_size ≡ j.max_size
unfolding remove_cookie
Room-max_size d k (known _ _ e) = ap (λ (x : Jar). x.max_size) e
Room-max_size d k (new _ (room _ e)) = ap (λ (x : Jar). x.max_size) e
Room-max_size d k (new _ (empty _ e)) = ap (λ (x : Jar). x.max_size) e
Room-max_size d k (new _ (victim _ _ _ _ e)) = ap (λ (x : Jar). x.max_size) e

pub put_entry-max_size :
    (j : Jar) (e : CookieEntry) (j' : Jar)
    → IsValid j
    → put_entry j e ≡ some j'
    → j'.max_size ≡ j.max_size
unfolding put_entry
put_entry-max_size j e j' v h =
    let d = e.domain in
    let k = cookie_key e.name e.path in
    let j1 = ensure_domain d j in
    assign-max_size (make_room d k j1) d k e j' h
    ∙ Room-max_size d k (make_room-Room d k j1 (ensure_domain-IsValid j d v))
    ∙ ensure_domain-max_size j d
