-- ===== src/Tests/Caches.antt =====
-- Compile stages with and without a valid cache.
use pronze.Prelude.{
  ◌≡◌, refl, Bool, true, false, Option, some, [], ◌∷◌, ◌==◌, string_eq, inl, arith, if◌then◌else◌,
}
use pronze.Prelude.Dict.{lookup}
use pronze.World.{
  World, FilePath, root, ◌/◌, path_eq, join_path, path_exists, text, Fs, Node, Target, file, dir,
  symlink, entry_at, target_path, follow,
}
use pronze.Action.{pure, Ends, Triple-pure, ◌>>=◌, gets}
use pronze.Os.{exists}
use pronze.Os.Flags.{IsAbsent}
use pronze.Config.{new_context}
use pronze.Stages.Cache.{cached_stage, restore_stage, all_exist}
use pronze.Stages.Cache.Rebuild.{AreUp}
use pronze.Stages.Cache.Flags.{hash_name, done_name, cached_stage-Ends, cached_stage-AreUp}
use pronze.Stages.Compile.Flags.{IsFinished}
use pronze.Stages.Flags.{daemon, compile_stage, compile_stage-Ends}
use pronze.Os.Links.{IsUnlinked, put}
use pronze.Modules.{musl_release}
use pronze.Tests.Sample.{host, sample, workspace, cache, files}

-- Both flags of the kernel stage are up, and its file is in the cache.
abbrev built_once : World
built_once = record sample {
  fs =
      (cache / "Kernel.hash", file (text "abc\n"))
      ∷ (cache / "Kernel.done", file (text "OK\n"))
      ∷ files;
}

cached_stage-Ends_example :
    Ends
      (λ _. AreUp sample.context.nochanges_dir (hash_name "Kernel") (done_name "Kernel") "abc")
      (IsAbsent (sample.context.nochanges_dir / done_name "Kernel"))
      (cached_stage ⦃env = host⦄ "Kernel" "abc" [] (pure tt) (pure tt) sample)
unfolding lookup new_context
cached_stage-Ends_example =
    cached_stage-Ends ⦃env = host⦄ "Kernel" "abc" [] (pure tt) (pure tt) sample (λ _. Unit)
      (λ p v x. x) (Triple-pure tt (λ v x. x.0)) (inl refl) refl tt

cached_stage-AreUp_example :
    cached_stage ⦃env = host⦄ "Kernel" "abc"
      ((cache / "bzImage") ∷ [])
      (pure tt)
      (pure tt)
      built_once
    ≡ restore_stage ⦃env = host⦄ "Kernel" (cache / done_name "Kernel") (pure tt) built_once
unfolding lookup new_context all_exist exists path_exists follow gets ◌>>=◌ pure
cached_stage-AreUp_example =
    cached_stage-AreUp ⦃env = host⦄ "Kernel" "abc" ((cache / "bzImage") ∷ []) (pure tt) (pure tt)
      built_once (refl, (refl, (refl, tt))) (refl, refl) refl

-- no symbolic link among the files
abbrev no_links : Fs → Bool
no_links [] = true
no_links ((p, file c) ∷ fs) = no_links fs
no_links ((p, dir) ∷ fs) = no_links fs
no_links ((p, symlink t) ∷ fs) = false

past_dir :
    (b : Bool) (o : Option Node) (t : Target)
    → (if b then some dir else o) ≡ some (symlink t)
    → o ≡ some (symlink t)
past_dir true o t h = absurd (ground arith)
past_dir false o t h = h

lookup-no_links :
    (fs : Fs) (p : FilePath) (t : Target) → no_links fs ≡ true → lookup p fs ≡ some (symlink t) → ⊥
unfolding lookup
lookup-no_links [] p t h k = ground arith
lookup-no_links ((r, file c) ∷ fs) p t h k =
    lookup-no_links fs p t h (put (lookup p fs) t (r == p) c k)
lookup-no_links ((r, dir) ∷ fs) p t h k =
    lookup-no_links fs p t h (past_dir (r == p) (lookup p fs) t k)
lookup-no_links ((r, symlink x) ∷ fs) p t h k = ground arith

no_links-IsUnlinked : (q : FilePath) (fs : Fs) → no_links fs ≡ true → IsUnlinked q fs
no_links-IsUnlinked q fs h = record { avoids = avoids }
  where
    avoids :
        (p : FilePath) (t : Target)
        → entry_at fs p ≡ some (symlink t)
        → (target_path p t == q) ≡ false
    avoids root t k = ground arith
    avoids (p / a) t k = absurd (lookup-no_links fs (p / a) t h k)

-- The daemon has been compiled by cargo, and is yet to be copied.
abbrev compiled : World
compiled = record sample {
  fs =
      (workspace / "output", dir)
      ∷ (join_path (workspace / "daemon") musl_release / "pronzed", file (text "elf"))
      ∷ files;
}

compile_stage-Ends_example :
    Ends
      (λ _. IsFinished cache "CompileDaemon")
      (IsAbsent (cache / "CompileDaemon.done"))
      (compile_stage ⦃env = host⦄ daemon compiled)
unfolding lookup new_context
compile_stage-Ends_example =
    compile_stage-Ends ⦃env = host⦄ cache daemon compiled (λ n c fs h. h, λ n c fs h. h)
      (refl, inl refl, refl)
      (
        no_links-IsUnlinked (cache / "CompileDaemon.hash") compiled.fs refl,
        no_links-IsUnlinked (cache / "CompileDaemon.done") compiled.fs refl,
        refl,
        refl,
      )
