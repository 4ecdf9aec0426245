-- ===== src/Stages/Compile/Flags.antt =====
-- The BusyBox and s6 stages, whose work is commands alone: a raise leaves the done flag down.
use pronze.Prelude.{String, ◌≡◌, subst, none, List}
use pronze.Prelude.Dict.{lookup, erase}
use pronze.Os.{set_fs}
use pronze.World.{World, Env, FilePath, ◌/◌, path_eq, Fs}
use pronze.Action.{
  ⊤, Action, Keeps, Triple, Triple-bind, Triple-weaken, Ends, Ends-map, keeps_rules, Keeps-gets,
  ◌>>=◌,
}
use pronze.Os.Flags.{IsAbsent}
use pronze.Hashing.Reads.{get_file_hash-Keeps}
use pronze.Commands.Shell.{Survives, run_command-Keeps}
use pronze.Report.Reads.{config_at-Keeps}
use pronze.Stages.Cache.{context, cached_stage}
use pronze.Stages.Cache.Rebuild.{IsFlag, AreDown, AreUp}
use pronze.Stages.Cache.Flags.{hash_name, done_name, cached_stage-Ends}
use pronze.Stages.Compile.{compile_busybox, build_busybox, compile_s6, build_s6}

module _ {P : World → Type 0} where
  pub context-Keeps : Keeps P context
  context-Keeps = Keeps-gets (λ w. w.context)

-- The two flag files are not there.
abbrev pub NoFlags : FilePath → String → Fs → Type 0
NoFlags d name fs =
    (lookup (d / hash_name name) fs ≡ none) × (lookup (d / done_name name) fs ≡ none)

-- A world in which the stage `name` is yet to be done, with its flags in the directory `d`.
abbrev pub IsPending : FilePath → String → World → Type 0
IsPending d name w =
    (w.context.nochanges_dir ≡ d) × IsFlag (d / hash_name name) w × IsAbsent (d / done_name name) w

-- Both flags of the stage are up, for some hash of its inputs.
abbrev pub IsFinished : FilePath → String → World → Type 0
IsFinished d name w = (hash : String) × AreUp d (hash_name name) (done_name name) hash w

-- Work that makes no flag, where `X` holds.
abbrev pub LeavesFlags : FilePath → (World → Type 0) → String → Action ⊤ → Type 0
LeavesFlags d X name work =
    Triple (λ w. AreDown d (hash_name name) (done_name name) w × X w) work
      (λ _. AreDown d (hash_name name) (done_name name))
      (AreDown d (hash_name name) (done_name name))

-- `X` is what else is known of the state, and the removal of a file does not break it.
module _ ⦃env : Env⦄ (d : FilePath) (name : String) (X : World → Type 0)
    (removal : (p : FilePath) (w : World) → X w → X (set_fs (erase p) w)) where
  abbrev pub Before : World → Type 0
  Before w = IsPending d name w × X w

  abbrev pub Finishes : Action ⊤ → Type 0
  Finishes m = Triple Before m (λ _. IsFinished d name) (IsAbsent (d / done_name name))

  pub finishes :
      (hash : String) (cached : List FilePath) (restore work : Action ⊤)
      → LeavesFlags d X name work
      → Finishes (cached_stage name hash cached restore work)
  finishes hash cached restore work keeps = record {
    at = λ w p.
        Ends-map (λ _. AreUp d (hash_name name) (done_name name) hash) (λ _. IsFinished d name)
          (IsAbsent (d / done_name name)) (cached_stage name hash cached restore work w)
          (λ a v up. (hash, up))
          (subst
            (λ x.
              LeavesFlags x X name work
              → IsFlag (x / hash_name name) w
              → IsAbsent (x / done_name name) w
              → X w
              → Ends (λ _. AreUp x (hash_name name) (done_name name) hash)
                  (IsAbsent (x / done_name name)) (cached_stage name hash cached restore work w))
            p.0.0 (cached_stage-Ends name hash cached restore work w X removal) keeps p.0.1 p.0.2
            p.1);
  }

  -- a read before it changes nothing
  pub behind :
      {A : Type 0} {m : Action A} {f : A → Action ⊤}
      → Keeps Before m
      → ((a : A) → Finishes (f a))
      → Finishes (m >>= f)
  behind {A} {m} {f} km kf = Triple-bind m f (Triple-weaken m (λ w p. p.0.2) km) kf

module _ ⦃env : Env⦄ (Q : Fs → Type 0) (alone : Survives Q) where
  pub build_busybox-Keeps : (tar dir : FilePath) → Keeps (λ w. Q w.fs) (build_busybox tar dir)
  unfolding build_busybox
  build_busybox-Keeps tar dir =
      search (keeps_rules, config_at-Keeps, run_command-Keeps Q alone) depth 30

  pub build_s6-Keeps : (a b c tar : FilePath) → Keeps (λ w. Q w.fs) (build_s6 a b c tar)
  unfolding build_s6
  build_s6-Keeps a b c tar = search (keeps_rules, run_command-Keeps Q alone) depth 30

-- What the two stages read before their cache is looked at changes nothing.
module _ ⦃env : Env⦄ (d : FilePath) (X : World → Type 0)
    (removal : (p : FilePath) (w : World) → X w → X (set_fs (erase p) w)) where
  pub compile_busybox-Triple :
      ((tar dir : FilePath) → LeavesFlags d X "CompileBusybox" (build_busybox tar dir))
      → Finishes d "CompileBusybox" X removal compile_busybox
  unfolding compile_busybox
  compile_busybox-Triple leaves = behind d "CompileBusybox" X removal context-Keeps (λ c.
      behind d "CompileBusybox" X removal (config_at-Keeps _) (λ ver.
        behind d "CompileBusybox" X removal (get_file_hash-Keeps _)
          (λ h. finishes d "CompileBusybox" X removal _ _ _ (build_busybox _ _) (leaves _ _))))

  pub compile_s6-Triple :
      ((a b c tar : FilePath) → LeavesFlags d X "CompileS6" (build_s6 a b c tar))
      → Finishes d "CompileS6" X removal compile_s6
  unfolding compile_s6
  compile_s6-Triple leaves = behind d "CompileS6" X removal context-Keeps (λ c.
      behind d "CompileS6" X removal (config_at-Keeps _) (λ skalibs.
        behind d "CompileS6" X removal (config_at-Keeps _) (λ execline.
          behind d "CompileS6" X removal (config_at-Keeps _) (λ s6.
            behind d "CompileS6" X removal (get_file_hash-Keeps _) (λ h.
              behind d "CompileS6" X removal (get_file_hash-Keeps _) (λ i.
                behind d "CompileS6" X removal (get_file_hash-Keeps _) (λ j.
                  finishes d "CompileS6" X removal _ _ _ (build_s6 _ _ _ _) (leaves _ _ _ _))))))))

module _ ⦃env : Env⦄ (d : FilePath) where
  module _ (w : World) where
    -- Where no command brings back a flag, a BusyBox stage whose done flag is down ends with both flags
    -- up for some hash, or raises with the done flag still down, so that the next run compiles again.
    compile_busybox-Ends :
        Survives (NoFlags d "CompileBusybox")
        → IsPending d "CompileBusybox" w
        → Ends
            (λ _. IsFinished d "CompileBusybox")
            (IsAbsent (d / "CompileBusybox.done"))
            (compile_busybox w)
    compile_busybox-Ends alone p =
        (compile_busybox-Triple d (λ _. Unit) (λ q v x. x)
            (λ tar dir. record {
              at = λ v x. (build_busybox-Keeps (NoFlags d "CompileBusybox") alone tar dir).at v x.0;
            })).at
          w (p, tt)

    -- Where no command brings back a flag, an s6 stage whose done flag is down ends with both flags up
    -- for some hash, or raises with the done flag still down: a build of skalibs, execline or s6 that
    -- fails is never taken for a valid cache.
    compile_s6-Ends :
        Survives (NoFlags d "CompileS6")
        → IsPending d "CompileS6" w
        → Ends (λ _. IsFinished d "CompileS6") (IsAbsent (d / "CompileS6.done")) (compile_s6 w)
    compile_s6-Ends alone p =
        (compile_s6-Triple d (λ _. Unit) (λ q v x. x)
            (λ a b c tar. record {
              at = λ v x. (build_s6-Keeps (NoFlags d "CompileS6") alone a b c tar).at v x.0;
            })).at
          w (p, tt)
