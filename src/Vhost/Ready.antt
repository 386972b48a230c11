-- ===== src/Vhost/Ready.antt =====
-- internal/vhost/vhost.go: every virtual host that was registered can serve.
use cifera.Base.{
  if◌then◌else◌, Bool-cases, has_prefix_sound, Text, codes, text_eq, text_eq_iff, is_empty,
  has_prefix, join, ◌≡◌, refl, sym, ap, subst, ◌∙◌, ◌⊎◌, inl, inr, Bool, true, false, not, ◌&&◌,
  Option, none, some, [], ◌∷◌, ◌++◌, reverse, arith,
}
use cifera.Vhost.Path.{slash, stack_of, clean, join_path}
use cifera.Vhost.Url.{Url}
use cifera.Vhost.Local.{FileInfo, missing, unreadable, directory, file}
use cifera.Vhost.Host.{
  World, HostConfig, Host, local_type, remote_type, override, fallback, and_then, or_error,
  abs_path, base_dir_of, directory_at, compile_local, checked_remote, no_path, no_working_directory,
  bad_scheme, no_remote_host,
}

-- A path from the root.
abbrev pub IsRooted : Text → Type 0
IsRooted p = (s : Text) × (p ≡ b'/' ∷ s)

module _ (world : World) where
  -- The directory is there, and its path starts at the root.
  pub record IsLocal {R : Type 0} (h : Host R) : Type 0 where
    pub type : h.config.host_type ≡ local_type
    pub rooted : IsRooted h.abs_base_dir
    pub found : world.stat h.abs_base_dir ≡ directory

  -- There is an http or https address with a host.
  pub record IsRemote {R : Type 0} (h : Host R) : Type 0 where
    pub type : h.config.host_type ≡ remote_type
    pub address : Url
    pub found : h.remote_url ≡ some address
    pub scheme : (address.scheme ≡ codes "http") ⊎ (address.scheme ≡ codes "https")
    pub host : is_empty address.host ≡ false

  -- There is a regular expression exactly in the fallback mode.
  abbrev pub IsMode : {R : Type 0} → Host R → Type 0
  IsMode {R} h =
      (h.config.priority ≡ override × (h.fallback_regex ≡ none))
      ⊎ (h.config.priority ≡ fallback × ((re : R) × (h.fallback_regex ≡ some re)))

  pub record IsReady {R : Type 0} (h : Host R) : Type 0 where
    pub named : is_empty h.config.name ≡ false
    pub source : IsLocal h ⊎ IsRemote h
    pub mode : IsMode h

pub and_then_inv :
    {E A B : Type 0} (o : E ⊎ A) (f : A → E ⊎ B) (b : B)
    → and_then o f ≡ inr b
    → (a : A) × (o ≡ inr a) × (f a ≡ inr b)
and_then_inv (inl e) f b h = absurd (cc h)
and_then_inv (inr a) f b h = (a, refl, h)

pub or_error_inv : {E A : Type 0} (e : E) (o : Option A) (a : A) → or_error e o ≡ inr a → o ≡ some a
or_error_inv e none a h = absurd (cc h)
or_error_inv e (some x) a h = cc

-- What is not refused.
pub refuse_inv :
    {E A : Type 0} (b : Bool) (e : E) (o : E ⊎ A) (a : A)
    → (if b then inl e else o) ≡ inr a
    → (b ≡ false) × (o ≡ inr a)
refuse_inv true e o a h = absurd (cc h)
refuse_inv false e o a h = (refl, h)

clean-IsRooted : (s : Text) → IsRooted (clean (b'/' ∷ s))
unfolding clean has_prefix
clean-IsRooted s = (join slash (reverse (stack_of (b'/' ∷ s))), refl)

has_prefix-IsRooted : (p : Text) → has_prefix p slash ≡ true → IsRooted p
has_prefix-IsRooted p h = has_prefix_sound p slash h

join_path-IsRooted : (w p : Text) → IsRooted w → IsRooted (join_path w p)
unfolding join_path
join_path-IsRooted w [] (s, e) = subst (λ x. IsRooted (join_path x [])) (sym e) (clean-IsRooted s)
join_path-IsRooted w (c ∷ p) (s, e) =
    subst (λ x. IsRooted (join_path x (c ∷ p))) (sym e) (clean-IsRooted (s ++ b'/' ∷ c ∷ p))

abs_path-IsRooted :
    (wd : Option Text) (p q : Text)
    → ((w : Text) → wd ≡ some w → IsRooted w)
    → abs_path wd p ≡ inr q
    → IsRooted q
unfolding abs_path
abs_path-IsRooted wd p q rooted h = elim (Bool-cases (has_prefix p slash)) [
  | inl there ↦
      let (s, e) = has_prefix-IsRooted p there in
      let same : clean p ≡ q = cc (rw (there, abs_path) at h) in
      subst IsRooted (ap clean (sym e) ∙ same) (clean-IsRooted s)
  | inr relative ↦
      let (w, found, same) =
        and_then_inv (or_error no_working_directory wd) (λ w. inr (join_path w p)) q
          (rw (relative, abs_path) at h) in
      let e : join_path w p ≡ q = cc same in
      subst IsRooted e
        (join_path-IsRooted w p (rooted w (or_error_inv no_working_directory wd w found)))
]

directory_at_inv :
    (p : Text) (i : FileInfo) (q : Text) → directory_at p i ≡ inr q → (p ≡ q) × (i ≡ directory)
directory_at_inv p missing q h = absurd (cc h)
directory_at_inv p unreadable q h = absurd (cc h)
directory_at_inv p file q h = absurd (cc h)
directory_at_inv p directory q h = (cc h, refl)

module _ (world : World) (rooted : (w : Text) → world.getwd ≡ some w → IsRooted w) where
  pub compile_local-found :
      (hc : HostConfig) (addon_dir dir : Text)
      → compile_local world hc addon_dir ≡ inr dir
      → IsRooted dir × (world.stat dir ≡ directory)
  unfolding compile_local
  compile_local-found hc addon_dir dir h =
      let (ne, more) = refuse_inv (is_empty hc.path) no_path _ dir h in
      let (base_dir, got, next) =
        and_then_inv (base_dir_of world.getwd addon_dir hc.path) _ dir more in
      let (abs_base, absolute, last) = and_then_inv (abs_path world.getwd base_dir) _ dir next in
      let (same, found) = directory_at_inv abs_base (world.stat abs_base) dir last in
      (
        subst IsRooted same (abs_path-IsRooted world.getwd base_dir abs_base rooted absolute),
        ap world.stat (sym same) ∙ found,
      )

  pub checked_remote_inv :
      (u v : Url)
      → checked_remote u ≡ inr v
      → ((v.scheme ≡ codes "http") ⊎ (v.scheme ≡ codes "https")) × (is_empty v.host ≡ false)
  checked_remote_inv u v h =
      let (scheme, more) = refuse_inv _ bad_scheme _ v h in
      let (host, last) = refuse_inv (is_empty u.host) no_remote_host _ v more in
      let same : u ≡ v = cc last in
      subst
        (λ (x : Url).
          ((x.scheme ≡ codes "http") ⊎ (x.scheme ≡ codes "https")) × (is_empty x.host ≡ false))
        same (is_http u scheme, host)
    where
      is_http :
          (u : Url)
          → (not (text_eq u.scheme (codes "http")) && not (text_eq u.scheme (codes "https")))
            ≡ false
          → (u.scheme ≡ codes "http") ⊎ (u.scheme ≡ codes "https")
      is_http u h = elim (Bool-cases (text_eq u.scheme (codes "http"))) [
        | inl yes_http ↦ inl ((text_eq_iff u.scheme (codes "http")).0 yes_http)
        | inr no_http ↦ inr ((text_eq_iff u.scheme (codes "https")).0 (ground (arith, h, no_http)))
      ]
