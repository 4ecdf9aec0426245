-- ===== src/Report/Hashes.antt =====
-- The hashes of all inputs of a build, and how they differ from those of the last one.
use pronze.Prelude.{
  String, Option, none, some, List, [], ◌∷◌, ◌==◌, string_eq, ltb, if◌then◌else◌, get_or_else,
}
use pronze.Prelude.Texts.{concat, prefix, count_chars}
use pronze.Prelude.Dict.{Dict, lookup, insert}
use pronze.World.{Env, ◌/◌, Content, hashes, Change}
use pronze.Action.{
  key_error, value_error, ⊤, Action, pure, raise, gets, modify, ◌>>=◌, ◌>>◌, try_except,
}
use pronze.Os.{exists, read}
use pronze.Hashing.{get_file_hash, get_dir_hash}
use pronze.Status.{config_or}

abbrev pub require_key : String → Option String → Action String
require_key key none = raise (key_error key)
require_key key (some v) = pure v

-- `context.config[key]`
unfoldable pub config_at : String → Action String
config_at key = do found ← gets (λ w. lookup key w.context.config); require_key key found

abbrev pub config_get : String → String → Action String
config_get key d = gets (λ w. config_or key w.context.config d)

-- `f"{name}-{version}.{extension}"`
abbrev pub tarball : String → String → String → String
tarball name ver ext = concat (name ∷ "-" ∷ ver ∷ "." ∷ ext ∷ [])

module _ ⦃env : Env⦄ where
  -- `compute_all_hashes(context)`
  unfoldable pub compute_all_hashes : Action (Dict String String)
  compute_all_hashes = do
    linux_ver ← config_at "LINUX_VERSION"
    busybox_ver ← config_at "BUSYBOX_VERSION"
    skalibs_ver ← config_get "SKALIBS_VERSION" "0.0.0.0"
    execline_ver ← config_get "EXECLINE_VERSION" "0.0.0.0"
    s6_ver ← config_get "S6_VERSION" "0.0.0.0"
    c ← gets (λ w. w.context)
    kernel_dir ← get_dir_hash (c.workspace_dir / "kernel")
    sdk_dir ← get_dir_hash (c.workspace_dir / "sdk")
    daemon_dir ← get_dir_hash (c.workspace_dir / "daemon")
    s6_dir ← get_dir_hash (c.workspace_dir / "s6")
    test_dir ← get_dir_hash (c.workspace_dir / "test")
    profiles_dir ← get_dir_hash (c.workspace_dir / "profiles")
    build_pipeline_dir ← get_dir_hash (c.workspace_dir / "build-pipeline")
    config_setup_dir ← get_dir_hash (c.workspace_dir / "configuration_setup")
    pipeline_conf ← get_file_hash (c.workspace_dir / "pipeline.conf")
    linux_tar ← get_file_hash (c.download_dir / tarball "linux" linux_ver "tar.xz")
    busybox_tar ← get_file_hash (c.download_dir / tarball "busybox" busybox_ver "tar.bz2")
    skalibs_tar ← get_file_hash (c.download_dir / tarball "skalibs" skalibs_ver "tar.gz")
    execline_tar ← get_file_hash (c.download_dir / tarball "execline" execline_ver "tar.gz")
    s6_tar ← get_file_hash (c.download_dir / tarball "s6" s6_ver "tar.gz")
    pure (
        ("kernel_dir", kernel_dir)
        ∷ ("sdk_dir", sdk_dir)
        ∷ ("daemon_dir", daemon_dir)
        ∷ ("s6_dir", s6_dir)
        ∷ ("test_dir", test_dir)
        ∷ ("profiles_dir", profiles_dir)
        ∷ ("build_pipeline_dir", build_pipeline_dir)
        ∷ ("config_setup_dir", config_setup_dir)
        ∷ ("pipeline_conf", pipeline_conf)
        ∷ ("linux_ver", linux_ver)
        ∷ ("busybox_ver", busybox_ver)
        ∷ ("skalibs_ver", skalibs_ver)
        ∷ ("execline_ver", execline_ver)
        ∷ ("s6_ver", s6_ver)
        ∷ ("linux_tar", linux_tar)
        ∷ ("busybox_tar", busybox_tar)
        ∷ ("skalibs_tar", skalibs_tar)
        ∷ ("execline_tar", execline_tar)
        ∷ ("s6_tar", s6_tar)
        ∷ [])

-- `v[:8] if len(v) > 12 else v`
unfoldable pub short : String → String
short v = if ltb 12 (count_chars v) then prefix 8 v else v

abbrev pub or_none : String → String
or_none v = if v == "" then "None" else v

-- the inputs that the report names
abbrev pub components : List (String × String)
components =
    ("kernel_dir", "Kernel Directory")
    ∷ ("sdk_dir", "SDK Directory")
    ∷ ("daemon_dir", "Daemon Directory")
    ∷ ("s6_dir", "s6 Directory")
    ∷ ("test_dir", "Test Directory")
    ∷ ("profiles_dir", "Profiles Directory")
    ∷ ("build_pipeline_dir", "Pipeline Directory")
    ∷ ("pipeline_conf", "pipeline.conf")
    ∷ ("linux_ver", "Linux Version")
    ∷ ("busybox_ver", "Busybox Version")
    ∷ ("skalibs_ver", "skalibs Version")
    ∷ ("execline_ver", "execline Version")
    ∷ ("s6_ver", "s6 Version")
    ∷ ("linux_tar", "Linux Tarball")
    ∷ ("busybox_tar", "Busybox Tarball")
    ∷ ("skalibs_tar", "skalibs Tarball")
    ∷ ("execline_tar", "execline Tarball")
    ∷ ("s6_tar", "s6 Tarball")
    ∷ []

abbrev pub hash_of : String → Dict String String → String
hash_of key d = get_or_else (lookup key d) ""

-- The last loop of `generate_diff_report`.
unfoldable pub changes :
    Dict String String → Dict String String → List (String × String) → List Change
changes old new [] = []
changes old new ((key, name) ∷ rest) =
    let more = changes old new rest in
    if hash_of key old == hash_of key new
    then more
    else record {
      component = name;
      old = or_none (short (hash_of key old));
      new = or_none (short (hash_of key new));
    }
      ∷ more

abbrev pub parse_hashes : Content → Action (Dict String String)
parse_hashes (hashes d) = pure d
parse_hashes _ = raise (value_error "hashes.json")

abbrev shorten_all : Dict String String → Dict String String → Dict String String
shorten_all [] acc = acc
shorten_all ((k, v) ∷ d) acc = shorten_all d (insert k (short v) acc)

module _ ⦃env : Env⦄ where
  -- `generate_diff_report(context)`
  unfoldable pub generate_diff_report : Action ⊤
  generate_diff_report = do
    modify (λ w. record w { detected_changes = [] })
    current ← compute_all_hashes
    modify (λ w. record w { current_hashes_prefix = shorten_all current w.current_hashes_prefix })
    c ← gets (λ w. w.context)
    there ← exists (c.nochanges_dir / "hashes.json")
    old ←
        (if there
          then try_except (do d ← read (c.nochanges_dir / "hashes.json"); parse_hashes d)
              (λ _. pure [])
          else pure [])
    modify (λ w. record w { detected_changes = changes old current components })
