-- ===== src/Addon/Load.antt =====
-- internal/addon/loader.go: parseManifest and LoadAddons.
use cifera.Base.{
  if◌then◌else◌, lookup, Text, codes, text_dec, is_empty, ℕ, ◌+◌, ◌⊎◌, inl, inr, Bool, true, false,
  not, ◌&&◌, ◌||◌, Option, none, some, List, [], ◌∷◌, ◌++◌,
}
use cifera.Value.{Value}
use cifera.Addon.Params.{Result, resolve_params, ok, err}
use cifera.Addon.Rules.{Template, AddonManifest, LoadedAddon}
use cifera.Addon.Loader.{
  AddonError, one_among, validate_params, validate_rules, compile_rules, lift_host, validate_hosts,
  unreadable_file, bad_toml, no_id, no_addon_name, no_version, nothing_declared,
}
use cifera.Vhost.Path.{join_path}
use cifera.Vhost.Url.{Url}
use cifera.Vhost.Local.{
  FileInfo, FileData, missing, unreadable, directory, file, no_file, no_access, bytes,
}
use cifera.Vhost.Host.{Regexps, and_then, or_error}

-- os.ReadDir: the directory is missing, cannot be read, or has entries, each a directory or not.
pub data DirEntries : Type 0 where
  no_dir : DirEntries
  no_entries : DirEntries
  entries : List (Text × Bool) → DirEntries

abbrev pub is_empty_list : {A : Type 0} → List A → Bool
is_empty_list [] = true
is_empty_list (_ ∷ _) = false

module _ (regexps : Regexps) where
  -- What the loader reads of its surroundings, filepath.Abs among them; TOML decodes into a manifest without run-time fields.
  pub record Surroundings : Type 0 where
    pub abs : Text → Option Text
    pub read_dir : Text → DirEntries
    pub stat : Text → FileInfo
    pub read_file : Text → FileData
    pub decode_toml : List ℕ → Option (AddonManifest regexps.Regex)
    pub parse : Text → Option Url
    pub template : Template

  pub record LoadReport : Type 0 where
    pub addons : List (LoadedAddon regexps.Regex)
    pub failed : ℕ

  abbrev pub refuse_some : {A : Type 0} → Option AddonError → A → AddonError ⊎ A
  refuse_some none x = inr x
  refuse_some (some e) x = inl e

  unfoldable pub check_manifest :
      AddonManifest regexps.Regex → AddonError ⊎ AddonManifest regexps.Regex
  check_manifest m =
      if is_empty m.addon.id
      then inl no_id
      else if is_empty m.addon.name
      then inl no_addon_name
      else if is_empty m.addon.version
      then inl no_version
      else if is_empty_list m.rules && is_empty_list m.hosts
      then inl nothing_declared
      else refuse_some (validate_params m.params) m

  abbrev pub content_or : FileData → AddonError ⊎ List ℕ
  content_or no_file = inl unreadable_file
  content_or no_access = inl unreadable_file
  content_or (bytes content) = inr content

  module _ (world : Surroundings) where
    unfoldable pub parse_manifest : Text → AddonError ⊎ AddonManifest regexps.Regex
    parse_manifest path =
        and_then (content_or (world.read_file path))
          (λ content. and_then (or_error bad_toml (world.decode_toml content)) check_manifest)

    -- The rules of an addon, compiled and checked, and its hosts checked.
    unfoldable pub build_addon :
        Text
        → List (Text × Value)
        → AddonManifest regexps.Regex
        → List (Text × Value)
        → AddonError ⊎ LoadedAddon regexps.Regex
    build_addon addon_dir overrides m params =
        and_then (compile_rules regexps world.template world.read_file addon_dir params m.rules)
          (λ rs. and_then (validate_rules rs) (λ checked.
            and_then (lift_host regexps (validate_hosts regexps world.parse m.hosts)) (λ u.
              inr (record {
                manifest = record m { rules = checked };
                dir = addon_dir;
                params = params;
                global_overrides = overrides;
              }))))

    abbrev pub add_failure : LoadReport → LoadReport
    add_failure report = record report { failed = report.failed + 1 }

    abbrev pub add_addon : LoadReport → AddonError ⊎ LoadedAddon regexps.Regex → LoadReport
    add_addon report (inl e) = add_failure report
    add_addon report (inr a) = record report { addons = report.addons ++ a ∷ [] }

    abbrev pub with_params :
        LoadReport
        → Text
        → List (Text × Value)
        → AddonManifest regexps.Regex
        → Result (List (Text × Value))
        → LoadReport
    with_params report addon_dir overrides m (err e) = add_failure report
    with_params report addon_dir overrides m (ok params) =
        add_addon report (build_addon addon_dir overrides m params)

    abbrev pub globals_of : List (Text × List (Text × Value)) → Text → List (Text × Value)
    globals_of global_params id = elim (lookup text_dec id global_params) [
      | none ↦ []
      | some values ↦ values
    ]

    unfoldable pub load_manifest :
        List Text
        → List (Text × List (Text × Value))
        → LoadReport
        → Text
        → AddonError ⊎ AddonManifest regexps.Regex
        → LoadReport
    load_manifest enabled global_params report addon_dir (inl e) = add_failure report
    load_manifest enabled global_params report addon_dir (inr m) =
        if not (is_empty_list enabled) && not (one_among m.addon.id enabled)
        then report
        else let overrides = globals_of global_params m.addon.id in
          with_params report addon_dir overrides m (resolve_params m.params overrides)

    abbrev pub is_missing : FileInfo → Bool
    is_missing missing = true
    is_missing unreadable = false
    is_missing directory = false
    is_missing file = false

    -- The loop over the entries of the directory.
    unfoldable pub load_entries :
        List Text
        → List (Text × List (Text × Value))
        → Text
        → LoadReport
        → List (Text × Bool)
        → LoadReport
    load_entries enabled global_params abs_dir report [] = report
    load_entries enabled global_params abs_dir report ((name, is_dir) ∷ rest) =
        let addon_dir = join_path abs_dir name in
        let manifest_path = join_path addon_dir (codes "addon.toml") in
        let next =
          if not is_dir || is_missing (world.stat manifest_path)
          then report
          else load_manifest enabled global_params report addon_dir
              (parse_manifest manifest_path) in
        load_entries enabled global_params abs_dir next rest

    unfoldable pub read_addons :
        Text → List Text → List (Text × List (Text × Value)) → Option LoadReport
    read_addons abs_dir enabled global_params = elim (world.read_dir abs_dir) [
      | no_dir ↦ some (record { addons = []; failed = 0 })
      | no_entries ↦ none
      | entries es ↦
          some (load_entries enabled global_params abs_dir (record { addons = []; failed = 0 }) es)
    ]

    -- None is an error: the directory has no absolute path, or is there and cannot be read.
    unfoldable pub load_addons :
        Text → List Text → List (Text × List (Text × Value)) → Option LoadReport
    load_addons dir enabled global_params = elim (world.abs dir) [
      | none ↦ none
      | some abs_dir ↦ read_addons abs_dir enabled global_params
    ]
