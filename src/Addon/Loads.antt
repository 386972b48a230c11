-- ===== src/Addon/Loads.antt =====
-- internal/addon/loader.go: every addon that LoadAddons reports has passed all checks.
use cifera.Base.{
  if◌then◌else◌, Bool-cases, Option-cases, length, length-append, All, All-append, Text, codes,
  is_empty, ℕ, ◌+◌, ◌≤◌, ◌≡◌, refl, subst, ◌⊎◌, inl, inr, Bool, false, not, ◌&&◌, ◌||◌, Option,
  none, some, List, [], ◌∷◌, arith,
}
use cifera.Value.{Value}
use cifera.Addon.Params.{Result, resolve_params, ok, err}
use cifera.Addon.Rules.{Rule, AddonManifest, LoadedAddon}
use cifera.Addon.Loader.{
  AddonError, one_among, validate_params, validate_rules, compile_rules, lift_host, validate_hosts,
  bad_toml, no_id, no_addon_name, no_version, nothing_declared,
}
use cifera.Addon.Load.{
  DirEntries, is_empty_list, Surroundings, LoadReport, refuse_some, check_manifest, content_or,
  parse_manifest, build_addon, add_addon, with_params, globals_of, load_manifest, is_missing,
  load_entries, read_addons, load_addons, no_dir, no_entries, entries,
}
use cifera.Addon.Compiled.{compile_rules-known}
use cifera.Addon.Valid.{IsValidRule, validate_rules_iff}
use cifera.Vhost.Path.{join_path}
use cifera.Vhost.Host.{or_error, HostError, Regexps}
use cifera.Vhost.Ready.{and_then_inv, refuse_inv}
use cifera.Vhost.Loaded.{eq_of_inr}

module _ (regexps : Regexps) (world : Surroundings regexps) (enabled : List Text)
    (global_params : List (Text × List (Text × Value))) where
  -- The addon was asked for, its names are there, its parameters resolve, its rules are valid, and
  -- its hosts were accepted.
  pub record IsChecked (a : LoadedAddon regexps.Regex) : Type 0 where
    pub named : is_empty a.manifest.addon.id ≡ false
    pub wanted :
        (not (is_empty_list enabled) && not (one_among a.manifest.addon.id enabled)) ≡ false
    pub resolved :
        resolve_params a.manifest.params
          (globals_of regexps world global_params a.manifest.addon.id)
        ≡ ok a.params
    pub compiled : List (Rule regexps.Regex)
    pub valid : All IsValidRule compiled
    pub rules : validate_rules compiled ≡ inr a.manifest.rules
    pub hosts : validate_hosts regexps world.parse a.manifest.hosts ≡ inr tt

  check_manifest-named :
      (m m' : AddonManifest regexps.Regex)
      → check_manifest regexps m ≡ inr m'
      → is_empty m'.addon.id ≡ false
  unfolding check_manifest
  check_manifest-named m m' h =
      let (id, h1) = refuse_inv (is_empty m.addon.id) no_id _ m' h in
      let (name, h2) = refuse_inv (is_empty m.addon.name) no_addon_name _ m' h1 in
      let (version, h3) = refuse_inv (is_empty m.addon.version) no_version _ m' h2 in
      let (some_rule, h4) =
        refuse_inv (is_empty_list m.rules && is_empty_list m.hosts) nothing_declared _ m' h3 in
      subst (λ x. is_empty x.addon.id ≡ false) (kept (validate_params m.params) m m' h4) id
    where
      kept :
          (o : Option AddonError) (m m' : AddonManifest regexps.Regex)
          → refuse_some regexps o m ≡ inr m'
          → m ≡ m'
      kept none m m' h = eq_of_inr h
      kept (some e) m m' h = absurd (cc h)

  parse_manifest-named :
      (path : Text) (m : AddonManifest regexps.Regex)
      → parse_manifest regexps world path ≡ inr m
      → is_empty m.addon.id ≡ false
  unfolding parse_manifest
  parse_manifest-named path m h =
      let (content, read, h1) = and_then_inv (content_or regexps (world.read_file path)) _ m h in
      let (m0, decoded, h2) =
        and_then_inv (or_error bad_toml (world.decode_toml content)) (check_manifest regexps) m
          h1 in
      check_manifest-named m0 m h2

  build_addon-IsChecked :
      (dir : Text) (m : AddonManifest regexps.Regex) (params : List (Text × Value))
      (a : LoadedAddon regexps.Regex)
      → is_empty m.addon.id ≡ false
      → (not (is_empty_list enabled) && not (one_among m.addon.id enabled)) ≡ false
      → let overrides = globals_of regexps world global_params m.addon.id in
        resolve_params m.params overrides ≡ ok params
        → build_addon regexps world dir overrides m params ≡ inr a
        → IsChecked a
  unfolding build_addon
  build_addon-IsChecked dir m params a named wanted resolved h =
      let (rs, compiled, h1) =
        and_then_inv (compile_rules regexps world.template world.read_file dir params m.rules) _ a
          h in
      let (checked, valid, h2) = and_then_inv (validate_rules rs) _ a h1 in
      let (u, hosts, h3) =
        and_then_inv (lift_host regexps (validate_hosts regexps world.parse m.hosts)) _ a h2 in
      subst IsChecked (eq_of_inr h3) (record {
        named = named;
        wanted = wanted;
        resolved = resolved;
        compiled = rs;
        valid =
            (validate_rules_iff rs
                (compile_rules-known regexps world dir params m.rules rs compiled)).0
              (checked, valid);
        rules = valid;
        hosts = accepted (validate_hosts regexps world.parse m.hosts) u hosts;
      })
    where
      accepted :
          (o : HostError ⊎ Unit {0}) (u : Unit {0}) → lift_host regexps o ≡ inr u → o ≡ inr tt
      accepted (inl e) u h = absurd (cc h)
      accepted (inr v) u h = refl

  -- Every addon of the report is checked, and no more addons are counted than this.
  abbrev pub IsCounted : ℕ → LoadReport regexps → Type 0
  IsCounted n report = All IsChecked report.addons × (length report.addons + report.failed ≤ n)

  add_addon-IsCounted :
      (n : ℕ) (report : LoadReport regexps) (o : AddonError ⊎ LoadedAddon regexps.Regex)
      → IsCounted n report
      → ((a : LoadedAddon regexps.Regex) → o ≡ inr a → IsChecked a)
      → IsCounted (n + 1) (add_addon regexps world report o)
  add_addon-IsCounted n report (inl e) (ok_all, le) h = (ok_all, omega (arith, le))
  add_addon-IsCounted n report (inr a) (ok_all, le) h = (
    All-append IsChecked report.addons (a ∷ []) ok_all (h a refl, tt),
    omega (arith, le, length-append report.addons (a ∷ [])),
  )

  IsCounted-more :
      (n : ℕ) (report : LoadReport regexps) → IsCounted n report → IsCounted (n + 1) report
  IsCounted-more n report (ok_all, le) = (ok_all, omega (arith, le))

  load_manifest-IsCounted :
      (n : ℕ) (report : LoadReport regexps) (dir : Text)
      (o : AddonError ⊎ AddonManifest regexps.Regex)
      → IsCounted n report
      → ((m : AddonManifest regexps.Regex) → o ≡ inr m → is_empty m.addon.id ≡ false)
      → IsCounted (n + 1) (load_manifest regexps world enabled global_params report dir o)
  unfolding load_manifest
  load_manifest-IsCounted n report dir (inl e) (ok_all, le) h = (ok_all, omega (arith, le))
  load_manifest-IsCounted n report dir (inr m) r h =
      let overrides = globals_of regexps world global_params m.addon.id in
      elim (Bool-cases (not (is_empty_list enabled) && not (one_among m.addon.id enabled))) [
        | inl unwanted ↦ rw unwanted (IsCounted-more n report r)
        | inr wanted ↦ rw wanted (built (resolve_params m.params overrides) (λ p e. e) wanted)
      ]
    where
      built :
          (params : Result (List (Text × Value)))
          → ((p : List (Text × Value))
              → params ≡ ok p
              → resolve_params m.params (globals_of regexps world global_params m.addon.id) ≡ ok p)
          → (not (is_empty_list enabled) && not (one_among m.addon.id enabled)) ≡ false
          → IsCounted (n + 1) (
              with_params regexps world report dir
                (globals_of regexps world global_params m.addon.id)
                m
                params)
      built (err e) same wanted = add_addon-IsCounted n report (inl no_id) r (λ a b. absurd (cc b))
      built (ok p) same wanted =
          let overrides = globals_of regexps world global_params m.addon.id in
          add_addon-IsCounted n report (build_addon regexps world dir overrides m p) r
            (λ a b. build_addon-IsChecked dir m p a (h m refl) wanted (same p refl) b)

  load_entries-IsCounted :
      (n : ℕ) (abs_dir : Text) (report : LoadReport regexps) (es : List (Text × Bool))
      → IsCounted n report
      → IsCounted
          (n + length es)
          (load_entries regexps world enabled global_params abs_dir report es)
  unfolding load_entries
  load_entries-IsCounted n abs_dir report [] (ok_all, le) = (ok_all, omega (arith, le))
  load_entries-IsCounted n abs_dir report ((name, is_dir) ∷ es) r =
      let dir = join_path abs_dir name in
      let path = join_path dir (codes "addon.toml") in
      let skip = not is_dir || is_missing regexps world (world.stat path) in
      let next =
        if skip
        then report
        else load_manifest regexps world enabled global_params report dir
            (parse_manifest regexps world path) in
      let step : IsCounted (n + 1) next = elim (Bool-cases skip) [
        | inl skipped ↦ rw skipped (IsCounted-more n report r)
        | inr tried ↦ rw tried (
            load_manifest-IsCounted n report dir (parse_manifest regexps world path) r
              (λ m e. parse_manifest-named path m e))
      ] in
      let (ok_all, le) = load_entries-IsCounted (n + 1) abs_dir next es step in
      (ok_all, omega (arith, le))

  -- What LoadAddons gives for a directory: none is an error.
  pub data IsReport (dir : Text) : Option (LoadReport regexps) → Type 0 where
    read :
        {r : Option (LoadReport regexps)} (abs_dir : Text) (es : List (Text × Bool))
        (report : LoadReport regexps)
        → world.abs dir ≡ some abs_dir
        → world.read_dir abs_dir ≡ entries es
        → All IsChecked report.addons
        → length report.addons + report.failed ≤ length es
        → r ≡ some report
        → IsReport dir r
    not_there :
        {r : Option (LoadReport regexps)} (abs_dir : Text)
        → world.abs dir ≡ some abs_dir
        → world.read_dir abs_dir ≡ no_dir
        → r ≡ some (record { addons = []; failed = 0 })
        → IsReport dir r
    no_path : {r : Option (LoadReport regexps)} → world.abs dir ≡ none → r ≡ none → IsReport dir r
    not_read :
        {r : Option (LoadReport regexps)} (abs_dir : Text)
        → world.abs dir ≡ some abs_dir
        → world.read_dir abs_dir ≡ no_entries
        → r ≡ none
        → IsReport dir r

  read_addons-IsReport :
      (dir abs_dir : Text) (d : DirEntries)
      → world.abs dir ≡ some abs_dir
      → world.read_dir abs_dir ≡ d
      → IsReport dir (read_addons regexps world abs_dir enabled global_params)
  unfolding read_addons
  read_addons-IsReport dir abs_dir no_dir a e = not_there abs_dir a e (rw (e, read_addons))
  read_addons-IsReport dir abs_dir no_entries a e = not_read abs_dir a e (rw (e, read_addons))
  read_addons-IsReport dir abs_dir (entries es) a e =
      let start : LoadReport regexps = record { addons = []; failed = 0 } in
      let (ok_all, le) = load_entries-IsCounted 0 abs_dir start es (tt, omega arith) in
      read abs_dir es (load_entries regexps world enabled global_params abs_dir start es) a e ok_all
        (omega (arith, le)) (rw (e, read_addons))

  -- LoadAddons reports only addons with an id that is among the enabled ones, if any are named,
  -- whose parameters resolve with the configured values, whose rules are valid with the defaults
  -- filled in, and whose hosts were accepted; addons and failures together are no more than the
  -- entries of the directory, none if it is missing, and it gives an error exactly if the directory
  -- has no absolute path or is there and cannot be read.
  pub load_addons-IsReport :
      (dir : Text) → IsReport dir (load_addons regexps world dir enabled global_params)
  unfolding load_addons
  load_addons-IsReport dir = elim (Option-cases (world.abs dir)) [
    | inl nowhere ↦ no_path nowhere (rw (nowhere, load_addons))
    | inr (abs_dir, a) ↦
        rw (a, load_addons) (read_addons-IsReport dir abs_dir (world.read_dir abs_dir) a refl)
  ]
