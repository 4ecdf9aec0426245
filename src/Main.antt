-- ===== src/Main.antt =====
-- build-pipeline/pipeline.py: the stages of the build and their dependencies, as each stage's
-- constructor in build-pipeline/stages gives them.
pub mod Order
pub mod Stages
use pronze.Prelude.{String, Bool, true, false, List, [], ◌∷◌, if◌then◌else◌}
use pronze.Prelude.{string_eq}
use pronze.Prelude.Dict.{insert}
use pronze.Status.{waiting}
use pronze.World.{World, Env, FilePath, root, ◌/◌}
use pronze.Action.{⊤, Action, pure, gets, modify, ◌>>=◌, ◌>>◌, raise, exception}
use pronze.Os.{exists, isdir}
use pronze.Config.{set_runtime_flags, init_context}
use pronze.Graph.{
  PipelineNode, Pipeline, empty_pipeline, add_node, Built, built, refused, build_graph,
}
use pronze.Report.{print_status_table}
use pronze.Execute.{execute}
use pronze.Portal.{enqueue}
use pronze.Stages.Fetch.{download_tarballs, extract_tarballs}
use pronze.Stages.EarlyExit.{check_early_exit}
use pronze.Stages.Kernel.{compile_kernel, compile_kernel_module}
use pronze.Stages.Compile.{compile_busybox, compile_s6, compile_daemon}
use pronze.Stages.Sdk.{compile_sdk}
use pronze.Stages.Rootfs.{assemble_rootfs, copy_configuration_setup}
use pronze.Stages.Image.{package_btrfs_image, package_esp_image, assemble_gpt_image}
use pronze.Stages.Ship.{clean_output, ship_image}

pub record Args : Type 0 where
  pub target : String
  pub no_view : Bool
  pub no_logs : Bool
  pub no_logs_terminal : Bool

abbrev pub node : String → List String → Action ⊤ → PipelineNode
node name dependencies run = record { name = name; dependencies = dependencies; run = run }

unfoldable pub add_nodes : Pipeline → List PipelineNode → Pipeline
unfolding add_node
add_nodes p [] = p
add_nodes p (n ∷ ns) = add_nodes (add_node p n) ns

-- what the constructor of `PipelineNode` enters for each stage
abbrev register : List PipelineNode → World → World
register [] w = w
register (n ∷ ns) w = register ns (record w { node_states = insert n.name waiting w.node_states })

module _ ⦃env : Env⦄ where
  unfoldable pub stages : List PipelineNode
  stages =
      node "DownloadTarballs" [] download_tarballs
      ∷ node "CheckEarlyExit" ("DownloadTarballs" ∷ []) check_early_exit
      ∷ node "ExtractTarballs" ("CheckEarlyExit" ∷ []) extract_tarballs
      ∷ node "CompileKernel" ("ExtractTarballs" ∷ []) compile_kernel
      ∷ node "CompileBusybox" ("CompileKernel" ∷ []) compile_busybox
      ∷ node "CompileS6" ("CompileBusybox" ∷ []) compile_s6
      ∷ node "CompileKernelModule" ("CompileKernel" ∷ []) compile_kernel_module
      ∷ node "CompileSDK" ("CheckEarlyExit" ∷ []) compile_sdk
      ∷ node "CompileDaemon" ("CheckEarlyExit" ∷ []) compile_daemon
      ∷ node "AssembleRootfs"
          ("CompileS6" ∷ "CompileBusybox" ∷ "CompileKernelModule" ∷ "CompileSDK" ∷ "CompileDaemon"
            ∷ [])
          assemble_rootfs
      ∷ node "CopyConfigurationSetup" ("AssembleRootfs" ∷ []) copy_configuration_setup
      ∷ node "PackageBtrfsImage" ("CopyConfigurationSetup" ∷ []) package_btrfs_image
      ∷ node "PackageESPImage" ("CompileKernel" ∷ []) package_esp_image
      ∷ node "AssembleGPTImage" ("PackageBtrfsImage" ∷ "PackageESPImage" ∷ []) assemble_gpt_image
      ∷ node "CleanOutput" ("AssembleGPTImage" ∷ []) clean_output
      ∷ node "ShipImage" ("CleanOutput" ∷ []) ship_image
      ∷ []

  unfoldable pub pipeline : Pipeline
  pipeline = add_nodes empty_pipeline stages

  abbrev start : Bool → Built → Action ⊤
  start no_view (refused e) = raise (exception "build_graph")
  start true (built p) = execute p.execution_order
  start false (built p) = modify (λ w. enqueue (record w { pipeline_ready = true }))

  -- `main()`: the build is run at once, or queued for the worker behind the dashboard.
  unfoldable pub main : FilePath → Args → Action ⊤
  main file_dir args = do
    modify (set_runtime_flags args.no_logs args.no_logs_terminal args.no_view)
    pronkern ← isdir (root / "opt" / "pronkern")
    workspace ← exists (root / "workspace")
    init_context args.target (if workspace then root / "workspace" else file_dir)
        (if pronkern then root / "opt" / "pronkern" else root / "opt" / "pronze")
    _ ← print_status_table
    modify (register stages)
    start args.no_view (build_graph pipeline)
