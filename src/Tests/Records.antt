-- ===== src/Tests/Records.antt =====
-- What is recorded of stages and builds, and the hash of a directory.
use pronze.Prelude.{true, String, ◌+◌, ◌≡◌, refl, [], ◌∷◌, string_eq, some, inl, arith, eq_iff}
use pronze.Prelude.Int.{pos}
use pronze.Prelude.Texts.{show_nat, show_digits}
use pronze.Prelude.Dict.{Dict, lookup, insert}
use pronze.World.{
  StageBuild, stage_builds, World, FilePath, ◌/◌, path_eq, file, text, dir, build_stats, BuildStats,
  success,
}
use pronze.Action.{ok, Ends}
use pronze.Os.{set_fs}
use pronze.Config.{init_build_info}
use pronze.Modules.{next_number}
use pronze.Modules.Numbers.{build_number_back}
use pronze.Archive.{update_build_stats, update_stage_build_info}
use pronze.Archive.Stages.{IsCounted, recorded, update_stage_build_info-IsCounted}
use pronze.Archive.Counts.{IsBalanced, update_build_stats-IsBalanced}
use pronze.Hashing.{Hashed, sort_hashed}
use pronze.Hashing.Order.{IsSorted, same, exchange, sort_hashed-Relisted}
use pronze.Status.{update_node_status}
use pronze.Status.Update.{IsUpdated, update_node_status-Ends}
use pronze.Tests.Sample.{host, sample, workspace, files}

abbrev one_build : BuildStats
one_build = record { total_builds = 1; successful_builds = 0; failed_builds = 1 }

abbrev stats_file : FilePath
stats_file = workspace / ".archive" / "stats.json"

abbrev archived : World
archived = record sample {
  fs = (workspace / ".archive", dir) ∷ (stats_file, file (build_stats one_build)) ∷ files;
}

update_build_stats-IsBalanced_example :
    (new : BuildStats) × (update_build_stats workspace "Complete" archived
      ≡ (ok tt, set_fs (insert stats_file (file (build_stats new))) archived))
    × (new.total_builds ≡ 1 + 1)
    × (new.successful_builds ≡ 0 + 1)
    × (new.failed_builds ≡ 1 + 0)
    × IsBalanced new
unfolding lookup
update_build_stats-IsBalanced_example =
    update_build_stats-IsBalanced workspace archived refl one_build refl "Complete" (inl refl) refl

update_node_status-Ends_example :
    Ends
      (λ _. IsUpdated [] "CompileSDK" success "done" (some (pos 5)))
      (λ _. Unit)
      (update_node_status ⦃env = host⦄ "CompileSDK" success "done" (some (pos 5)) sample)
update_node_status-Ends_example =
    update_node_status-Ends ⦃env = host⦄ "CompileSDK" success "done" (some (pos 5)) sample

abbrev main_c : Hashed
main_c = ("main.c", "1")

abbrev main_h : Hashed
main_h = ("main.h", "2")

sort_hashed-Relisted_example :
    (sort_hashed (main_h ∷ main_c ∷ []) ≡ sort_hashed (main_c ∷ main_h ∷ []))
    × IsSorted (sort_hashed (main_c ∷ main_h ∷ []))
sort_hashed-Relisted_example =
    sort_hashed-Relisted
      (exchange [] main_h main_c [] (λ e. ground (arith, (eq_iff "main.h" "main.c").1 e)) same)

abbrev number_file : FilePath
number_file = workspace / ".archive" / "build_number"

abbrev numbered : World
numbered = record sample {
  fs = (workspace / ".archive", dir) ∷ (number_file, file (text "407")) ∷ files;
}

build_number_back_example :
    (init_build_info workspace numbered ≡ (ok tt, record numbered { build_number = 407 }))
    × (next_number number_file numbered ≡ (ok (407 + 1), numbered))
unfolding lookup show_nat show_digits
build_number_back_example = build_number_back workspace 407 numbered refl

abbrev kernel_built : Dict String StageBuild
kernel_built =
    (
      "CompileKernel",
      record { build_number = 3; uuid = "a1"; status = "Success"; timestamp = pos 7 },
    )
    ∷ []

abbrev builds_file : FilePath
builds_file = workspace / ".archive" / "stage_builds.json"

abbrev with_builds : World
with_builds = record sample {
  fs = (workspace / ".archive", dir) ∷ (builds_file, file (stage_builds kernel_built)) ∷ files;
}

update_stage_build_info-IsCounted_example :
    (new : StageBuild) × (v : World) × (update_stage_build_info ⦃env = host⦄ workspace
        "CompileKernel" "Success" true with_builds
      ≡ (ok tt, v))
    × (v.fs
        ≡ insert builds_file
            (file (stage_builds (insert "CompileKernel" new kernel_built)))
            with_builds.fs)
    × (new.status ≡ "Success")
    × IsCounted true (recorded "CompileKernel" kernel_built) new
unfolding lookup
update_stage_build_info-IsCounted_example =
    update_stage_build_info-IsCounted ⦃env = host⦄ workspace with_builds refl kernel_built refl
      "CompileKernel" "Success" true
