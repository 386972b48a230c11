-- ===== src/Vhost/Host.antt =====
-- internal/vhost/vhost.go: the virtual hosts and their registry. The package regexp, the file system
-- and the working directory are parameters.
use cifera.Base.{
  ◌==◌, if◌then◌else◌, itoa, drop, any, lookup, insert, Text, codes, text_eq, text_dec, is_empty,
  has_prefix, to_lower, ℕ, ◌⊎◌, inl, inr, Bool, false, not, ◌&&◌, ◌||◌, Option, none, some, List,
  [], ◌∷◌,
}
use cifera.Vhost.Path.{slash, clean, join_path}
use cifera.Vhost.Url.{Url}
use cifera.Vhost.Local.{FileInfo, missing, unreadable, directory, file}

pub record Regexps : Type 1 where
  pub Regex : Type 0
  pub compile : Text → Option Regex
  pub match_string : Regex → Text → Bool

-- What the start of the program sees of its surroundings.
pub record World : Type 0 where
  pub getwd : Option Text
  pub stat : Text → FileInfo
  pub parse : Text → Option Url

pub record HostConfig : Type 0 where
  pub name : Text
  pub host_type : Text
  pub path : Text
  pub remote : Text
  pub priority : Text
  pub fallback_status : Text
  pub pass_meta : Bool

pub record Host (R : Type 0) : Type 0 where
  pub config : HostConfig
  pub fallback_regex : Option R
  pub fallback_negate : Bool
  pub abs_base_dir : Text
  pub remote_url : Option Url
  pub addon_id : Text

pub record Registry (R : Type 0) : Type 0 where
  pub hosts : List (Text × Host R)

pub data HostError : Type 0 where
  no_name : HostError
  name_with_space : HostError
  invalid_type : HostError
  invalid_priority : HostError
  bad_fallback_status : HostError
  no_path : HostError
  no_working_directory : HostError
  no_directory : HostError
  unreadable_directory : HostError
  not_a_directory : HostError
  no_remote : HostError
  bad_remote : HostError
  bad_scheme : HostError
  no_remote_host : HostError

abbrev pub local_type : Text
local_type = codes "local"

abbrev pub remote_type : Text
remote_type = codes "remote"

abbrev pub override : Text
override = codes "override"

abbrev pub fallback : Text
fallback = codes "fallback"

abbrev pub default_fallback_status : Text
default_fallback_status = codes "4..|5.."

-- ContainsAny(name, " \t\n\r")
abbrev pub is_blank : ℕ → Bool
is_blank c = c == 32 || c == 9 || c == 10 || c == 13

abbrev pub and_then : {E A B : Type 0} → E ⊎ A → (A → E ⊎ B) → E ⊎ B
and_then (inl e) f = inl e
and_then (inr x) f = f x

abbrev pub or_error : {E A : Type 0} → E → Option A → E ⊎ A
or_error e none = inl e
or_error e (some x) = inr x

abbrev pub new_registry : {R : Type 0} → Registry R
new_registry = record { hosts = [] }

-- One look into the map; the empty name finds nothing.
unfoldable pub lookup_name : {R : Type 0} → Registry R → Text → Option (Host R)
lookup_name reg name = if is_empty name then none else lookup text_dec (to_lower name) reg.hosts

unfoldable pub lookup_host : {R : Type 0} → Registry R → Text → Text → Option (Host R)
lookup_host reg host_param request_host = elim (lookup_name reg host_param) [
  | some h ↦ some h
  | none ↦ lookup_name reg request_host
]

unfoldable pub register : {R : Type 0} → Registry R → Host R → HostError ⊎ Registry R
register reg h =
    if is_empty h.config.name
    then inl no_name
    else inr (record { hosts = insert text_dec (to_lower h.config.name) h reg.hosts })

-- filepath.Abs
unfoldable pub abs_path : Option Text → Text → HostError ⊎ Text
abs_path wd p =
    if has_prefix p slash
    then inr (clean p)
    else and_then (or_error no_working_directory wd) (λ w. inr (join_path w p))

unfoldable pub base_dir_of : Option Text → Text → Text → HostError ⊎ Text
base_dir_of wd addon_dir path =
    if has_prefix path slash
    then inr path
    else if not (is_empty addon_dir)
    then inr (join_path addon_dir path)
    else and_then (or_error no_working_directory wd) (λ w. inr (join_path w path))

abbrev pub directory_at : Text → FileInfo → HostError ⊎ Text
directory_at p missing = inl no_directory
directory_at p unreadable = inl unreadable_directory
directory_at p file = inl not_a_directory
directory_at p directory = inr p

unfoldable pub compile_local : World → HostConfig → Text → HostError ⊎ Text
compile_local world hc addon_dir =
    if is_empty hc.path
    then inl no_path
    else and_then (base_dir_of world.getwd addon_dir hc.path) (λ base_dir.
      and_then (abs_path world.getwd base_dir)
        (λ abs_base. directory_at abs_base (world.stat abs_base)))

abbrev pub checked_remote : Url → HostError ⊎ Url
checked_remote u =
    if not (text_eq u.scheme (codes "http")) && not (text_eq u.scheme (codes "https"))
    then inl bad_scheme
    else if is_empty u.host
    then inl no_remote_host
    else inr u

unfoldable pub compile_remote : World → HostConfig → HostError ⊎ Url
compile_remote world hc =
    if is_empty hc.remote
    then inl no_remote
    else and_then (or_error bad_remote (world.parse hc.remote)) checked_remote

module _ (regexps : Regexps) where
  -- The regular expression of the status codes, and whether it is negated.
  unfoldable pub compile_fallback : HostConfig → HostError ⊎ (Option regexps.Regex × Bool)
  compile_fallback hc =
      let pattern =
        if is_empty hc.fallback_status then default_fallback_status else hc.fallback_status in
      let negate = has_prefix pattern (codes "!") in
      if text_eq hc.priority fallback
      then and_then
          (or_error bad_fallback_status
            (regexps.compile (if negate then drop 1 pattern else pattern)))
          (λ re. inr (some re, negate))
      else inr (none, false)

  unfoldable pub compile_type :
      World → HostConfig → Text → Option regexps.Regex × Bool → HostError ⊎ Host regexps.Regex
  compile_type world hc addon_dir (re, negate) =
      let h : Host regexps.Regex = record {
        config = hc;
        fallback_regex = re;
        fallback_negate = negate;
        abs_base_dir = [];
        remote_url = none;
        addon_id = [];
      } in
      if text_eq hc.host_type local_type
      then and_then (compile_local world hc addon_dir)
          (λ dir. inr (record h { abs_base_dir = dir }))
      else and_then (compile_remote world hc) (λ u. inr (record h { remote_url = some u }))

  unfoldable pub compile_host : World → HostConfig → Text → HostError ⊎ Host regexps.Regex
  compile_host world hc addon_dir =
      if is_empty hc.name
      then inl no_name
      else if any is_blank hc.name
      then inl name_with_space
      else if not (text_eq hc.host_type local_type) && not (text_eq hc.host_type remote_type)
      then inl invalid_type
      else if not (text_eq hc.priority override) && not (text_eq hc.priority fallback)
      then inl invalid_priority
      else and_then (compile_fallback hc) (compile_type world hc addon_dir)

  -- The loops of LoadFromConfig (with no directory and no addon) and of LoadFromAddonHosts; what
  -- was registered before an error stays.
  unfoldable pub load_hosts :
      World
      → Text
      → Text
      → Registry regexps.Regex
      → List HostConfig
      → Registry regexps.Regex × Option HostError
  load_hosts world addon_dir addon_id reg [] = (reg, none)
  load_hosts world addon_dir addon_id reg (hc ∷ hcs) =
      let compiled =
        and_then (compile_host world hc addon_dir)
          (λ h. register reg (record h { addon_id = addon_id })) in
      elim compiled [
        | inl e ↦ (reg, some e)
        | inr reg' ↦ load_hosts world addon_dir addon_id reg' hcs
      ]

  unfoldable pub load_from_config :
      World → Registry regexps.Regex → List HostConfig → Registry regexps.Regex × Option HostError
  load_from_config world reg hcs = load_hosts world [] [] reg hcs

  unfoldable pub fallback_matches : Host regexps.Regex → ℕ → Bool
  fallback_matches h status_code = elim h.fallback_regex [
    | none ↦ false
    | some re ↦
        let matched = regexps.match_string re (itoa status_code) in
        if h.fallback_negate then not matched else matched
  ]
