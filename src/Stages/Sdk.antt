-- ===== src/Stages/Sdk.antt =====
-- stages/sdk.py.
use pronze.Prelude.{String, ◌<>◌, none, List, [], ◌∷◌, if◌then◌else◌}
use pronze.Prelude.Texts.{concat, join}
use pronze.World.{Env, FilePath, ◌/◌, join_path, show_path, dirname, Context, success}
use pronze.Action.{⊤, Action, ◌>>=◌, ◌>>◌, for_each}
use pronze.Os.{makedirs, copy2}
use pronze.Hashing.{get_file_hash, get_dir_hash}
use pronze.Commands.{run_cmd, run_cmd_in}
use pronze.Modules.{musl_release}
use pronze.Status.{update_node_status}
use pronze.Stages.Cache.{context, is_cached, restore_stage, rebuild_stage}

abbrev pub sdk_binaries : List String
sdk_binaries = "libpronze.so" ∷ "test_alloc" ∷ "test_bounds" ∷ "test_zig" ∷ "test_rust" ∷ []

abbrev pub in_dir : FilePath → List String → List FilePath
in_dir d [] = []
in_dir d (a ∷ names) = d / a ∷ in_dir d names

abbrev rust_binary : Context → FilePath
rust_binary c = join_path (c.workspace_dir / "test" / "test_rust") musl_release / "test_rust"

-- each cached binary into the output directory
abbrev to_output : Context → Action ⊤
to_output c = for_each (in_dir c.nochanges_dir sdk_binaries) (λ cached. copy2 cached c.output_dir)

unfoldable pub restore_sdk : Context → Action ⊤
restore_sdk c = do
  copy2 (c.nochanges_dir / "libpronze.so") (c.workspace_dir / "sdk" / "c" / "src" / "libpronze.so")
  copy2 (c.nochanges_dir / "test_alloc") (c.workspace_dir / "test" / "test_alloc")
  copy2 (c.nochanges_dir / "test_bounds") (c.workspace_dir / "test" / "test_bounds")
  copy2 (c.nochanges_dir / "test_zig") (c.workspace_dir / "test" / "test_zig")
  makedirs (dirname (rust_binary c))
  copy2 (c.nochanges_dir / "test_rust") (rust_binary c)
  to_output c

module _ ⦃env : Env⦄ where
  abbrev include : Context → String
  include c = " -I" <> show_path (c.workspace_dir / "sdk" / "c" / "include")

  unfoldable pub build_sdk : Context → Action ⊤
  build_sdk c = do
    let sdk_c_dir = c.workspace_dir / "sdk" / "c" / "src"
    let test_dir = c.workspace_dir / "test"
    run_cmd (
        concat (
          "musl-gcc -O2 -fPIC -shared -Wl,-soname,libpronze.so"
          ∷ include c
          ∷ " "
          ∷ show_path (sdk_c_dir / "pronze.c")
          ∷ " -o "
          ∷ show_path (sdk_c_dir / "libpronze.so")
          ∷ []))
    run_cmd (
        concat (
          "musl-gcc -O2"
          ∷ include c
          ∷ " "
          ∷ show_path (test_dir / "test_alloc.c")
          ∷ " -L"
          ∷ show_path sdk_c_dir
          ∷ " -lpronze -Wl,-rpath,/usr/lib -o "
          ∷ show_path (test_dir / "test_alloc")
          ∷ []))
    run_cmd (
        concat (
          "zig c++ -target x86_64-linux-musl -O2"
          ∷ include c
          ∷ " -I"
          ∷ show_path (c.workspace_dir / "sdk" / "cpp" / "include")
          ∷ " "
          ∷ show_path (test_dir / "test_bounds.cpp")
          ∷ " -L"
          ∷ show_path sdk_c_dir
          ∷ " -lpronze -Wl,-rpath,/usr/lib -o "
          ∷ show_path (test_dir / "test_bounds")
          ∷ []))
    run_cmd_in test_dir "zig build-exe -target x86_64-linux-musl -O ReleaseSafe test_zig.zig"
    run_cmd_in (test_dir / "test_rust") "cargo build --target x86_64-unknown-linux-musl --release"
    copy2 (sdk_c_dir / "libpronze.so") (c.nochanges_dir / "libpronze.so")
    copy2 (test_dir / "test_alloc") (c.nochanges_dir / "test_alloc")
    copy2 (test_dir / "test_bounds") (c.nochanges_dir / "test_bounds")
    copy2 (test_dir / "test_zig") (c.nochanges_dir / "test_zig")
    copy2 (rust_binary c) (c.nochanges_dir / "test_rust")
    to_output c

  -- `CompileSDKStage.run`
  unfoldable pub compile_sdk : Action ⊤
  compile_sdk = do
    c ← context
    sdk_dir_hash ← get_dir_hash (c.workspace_dir / "sdk")
    test_dir_hash ← get_dir_hash (c.workspace_dir / "test")
    conf_hash ← get_file_hash (c.workspace_dir / "pipeline.conf")
    let hash = env.sha256 (join "-" (sdk_dir_hash ∷ test_dir_hash ∷ conf_hash ∷ []))
    let hash_file = c.nochanges_dir / "CompileSDK.hash"
    let done_file = c.nochanges_dir / "CompileSDK.done"
    valid ← is_cached hash_file done_file hash (in_dir c.nochanges_dir sdk_binaries)
    if valid then restore_stage "CompileSDK" done_file (restore_sdk c) else (do
      rebuild_stage hash_file done_file hash (build_sdk c)
      update_node_status "CompileSDK" success "SDK & Tests Complete" none)
