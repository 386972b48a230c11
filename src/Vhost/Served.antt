-- ===== src/Vhost/Served.antt =====
-- internal/vhost/vhost.go: Lookup finds hosts that can serve, by their names.
use cifera.Base.{
  Bool-cases, Option-cases, eq_of_some, lookup-All, Text, text_eq, text_dec, is_empty, to_lower,
  ◌≡◌, sym, ap, ◌∙◌, ◌⊎◌, inl, inr, some, List, [],
}
use cifera.Http.{Response}
use cifera.Vhost.Path.{}
use cifera.Vhost.Url.{Urls}
use cifera.Vhost.Local.{Files, Mime, serve_local}
use cifera.Vhost.Host.{
  Regexps, World, HostConfig, Host, Registry, local_type, remote_type, new_registry, lookup_name,
  lookup_host, load_hosts, load_from_config,
}
use cifera.Vhost.Remote.{HostRequest, Network, serve_from, serve_remote, serve}
use cifera.Vhost.Ready.{IsRooted, IsReady}
use cifera.Vhost.Loaded.{IsSound, load_hosts-IsSound}

module _ (regexps : Regexps) (world : World) where
  -- The registries that loading leads to, from the configuration and from addons in any order,
  -- also where a load ends in an error.
  pub data Loads : Registry regexps.Regex → Type 0 where
    start : Loads new_registry
    config :
        {reg : Registry regexps.Regex} (hcs : List HostConfig)
        → Loads reg
        → Loads (load_from_config regexps world reg hcs).0
    addon :
        {reg : Registry regexps.Regex} (addon_dir addon_id : Text) (hcs : List HostConfig)
        → Loads reg
        → Loads (load_hosts regexps world addon_dir addon_id reg hcs).0

  module _ (rooted : (w : Text) → world.getwd ≡ some w → IsRooted w) where
    Loads-IsSound : (reg : Registry regexps.Regex) → Loads reg → IsSound regexps world rooted reg
    unfolding load_from_config
    Loads-IsSound reg start = tt
    Loads-IsSound reg (config {reg = r} hcs l) =
        load_hosts-IsSound regexps world rooted [] [] r hcs (Loads-IsSound r l)
    Loads-IsSound reg (addon {reg = r} addon_dir addon_id hcs l) =
        load_hosts-IsSound regexps world rooted addon_dir addon_id r hcs (Loads-IsSound r l)

    lookup_name-found :
        (reg : Registry regexps.Regex) (name : Text) (h : Host regexps.Regex)
        → IsSound regexps world rooted reg
        → lookup_name reg name ≡ some h
        → IsReady world h × (to_lower h.config.name ≡ to_lower name)
    unfolding lookup_name
    lookup_name-found reg name h s e = elim (Bool-cases (is_empty name)) [
      | inl empty ↦ absurd (cc (rw empty at e))
      | inr ne ↦
          let (ready, key) =
            lookup-All text_dec (λ x. IsReady world x.1 × (x.0 ≡ to_lower x.1.config.name))
              (to_lower name) h reg.hosts (rw ne at e) s in
          (ready, sym key)
    ]

    lookup_host-found :
        (reg : Registry regexps.Regex) (host_param request_host : Text) (h : Host regexps.Regex)
        → IsSound regexps world rooted reg
        → lookup_host reg host_param request_host ≡ some h
        → IsReady world h
          × ((to_lower h.config.name ≡ to_lower host_param)
              ⊎ (to_lower h.config.name ≡ to_lower request_host))
    unfolding lookup_host
    lookup_host-found reg host_param request_host h s e =
        elim (Option-cases (lookup_name reg host_param)) [
          | inl absent ↦
              let (ready, key) =
                lookup_name-found reg request_host h s (rw (absent, lookup_host) at e) in
              (ready, inr key)
          | inr (g, found) ↦
              let same = eq_of_some (rw (found, lookup_host) at e) in
              let (ready, key) = lookup_name-found reg host_param h s (found ∙ ap some same) in
              (ready, inl key)
        ]

  IsReady-serves :
      (urls : Urls) (network : Network) (files : Files) (mime : Mime) (h : Host regexps.Regex)
      (r : HostRequest)
      → IsReady world h
      → (resp : Response) × (serve urls network files mime h r ≡ some resp)
  unfolding serve serve_remote text_eq
  IsReady-serves urls network files mime h r ready = elim ready.source [
    | inl l ↦ (
      serve_local files mime h.abs_base_dir r.request.method r.url.path,
      rw (ap (λ x. text_eq x local_type) l.type),
    )
    | inr m ↦ (
      serve_from urls network h.config.pass_meta r m.address,
      rw (
        ap (λ x. text_eq x local_type) m.type,
        ap (λ x. text_eq x remote_type) m.type,
        m.found,
        serve_remote,
      ),
    )
  ]

  -- In every registry that loading from the configuration and from addons leads to, over a working
  -- directory that is absolute, Lookup finds only hosts whose name is the parameter or the host of
  -- the request up to case, with a directory that was there or an http or https address with a
  -- host, and a regular expression exactly in the fallback mode; such a host answers every request
  -- without a panic.
  pub lookup_host-IsReady :
      (reg : Registry regexps.Regex) (host_param request_host : Text) (h : Host regexps.Regex)
      → ((w : Text) → world.getwd ≡ some w → IsRooted w)
      → Loads reg
      → lookup_host reg host_param request_host ≡ some h
      → IsReady world h
        × ((to_lower h.config.name ≡ to_lower host_param)
            ⊎ (to_lower h.config.name ≡ to_lower request_host))
        × ((urls : Urls) (network : Network) (files : Files) (mime : Mime) (r : HostRequest)
            → (resp : Response) × (serve urls network files mime h r ≡ some resp))
  lookup_host-IsReady reg host_param request_host h rooted l e =
      let (ready, key) =
        lookup_host-found rooted reg host_param request_host h (Loads-IsSound rooted reg l) e in
      (ready, key, λ urls network files mime r. IsReady-serves urls network files mime h r ready)
