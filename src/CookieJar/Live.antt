-- ===== src/CookieJar/Live.antt =====
-- internal/cookiejar/jar.go: which cookies are live, by their dates.
use cifera.Base.{
  Bool-cases, pos_part, ltb_ℤ, seconds, sub_time, ℤ, pos, negsuc, ℕ, zero, suc, ◌==◌, ltb, ◌≤◌, ◌≡◌,
  refl, sym, ap, ◌∙◌, ◌↔◌, inl, inr, false, arith, not, ◌&&◌,
}
use cifera.CookieJar.Entry.{CookieEntry, is_session_cookie, age_is_over, is_expired}

-- A positive Max-Age counts from when the cookie was made; without one, the date of Expires counts,
-- if there is one.
pub data IsLive (now : ℕ) (e : CookieEntry) : Type 0 where
  undated : pos_part e.max_age ≡ 0 → e.expires ≡ 0 → IsLive now e
  in_time : pos_part e.max_age ≡ 0 → now ≤ e.expires → IsLive now e
  young :
      (n : ℕ)
      → e.max_age ≡ pos (suc n)
      → ltb_ℤ (seconds (suc n)) (sub_time now e.created) ≡ false
      → IsLive now e

module _ (now : ℕ) (e : CookieEntry) where
  expired_by_age :
      (n : ℕ)
      → e.max_age ≡ pos (suc n)
      → is_expired now e ≡ ltb_ℤ (seconds (suc n)) (sub_time now e.created)
  unfolding is_expired is_session_cookie age_is_over
  expired_by_age n a = rw (a, is_expired) (ground arith)

  expired_by_date :
      (z : ℤ)
      → e.max_age ≡ z
      → pos_part z ≡ 0
      → is_expired now e ≡ (not (e.expires == 0) && ltb e.expires now)
  unfolding is_expired is_session_cookie
  expired_by_date (pos zero) a h = rw (a, is_expired) (ground arith)
  expired_by_date (pos (suc n)) a h = absurd (omega (arith, h))
  expired_by_date (negsuc n) a h = rw (a, is_expired) (ground arith)

  IsLive-by_date :
      pos_part e.max_age ≡ 0 → (not (e.expires == 0) && ltb e.expires now) ≡ false → IsLive now e
  IsLive-by_date no_age d = elim (Bool-cases (e.expires == 0)) [
    | inl none_set ↦ undated no_age (ground (arith, none_set))
    | inr set ↦ in_time no_age (ground (arith, set, d))
  ]

  IsLive-by : (z : ℤ) → e.max_age ≡ z → is_expired now e ≡ false → IsLive now e
  IsLive-by (pos (suc n)) a h = young n a (sym (expired_by_age n a) ∙ h)
  IsLive-by (pos zero) a h =
      IsLive-by_date (ap pos_part a) (sym (expired_by_date (pos zero) a refl) ∙ h)
  IsLive-by (negsuc n) a h =
      IsLive-by_date (ap pos_part a) (sym (expired_by_date (negsuc n) a refl) ∙ h)

  -- A cookie is expired exactly if it is not live.
  pub is_expired-IsLive : (is_expired now e ≡ false) ↔ IsLive now e
  is_expired-IsLive = (IsLive-by e.max_age refl, fresh)
    where
      fresh : IsLive now e → is_expired now e ≡ false
      fresh (undated old d) = expired_by_date e.max_age refl old ∙ ground (arith, d)
      fresh (in_time old d) = expired_by_date e.max_age refl old ∙ ground (arith, d)
      fresh (young n a d) = expired_by_age n a ∙ d
