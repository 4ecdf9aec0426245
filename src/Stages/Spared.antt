-- ===== src/Stages/Spared.antt =====
-- Work of stages/kernel.py, kernel_module.py and daemon.py: what they copy does not land on a flag,
-- where no symbolic link leads to one.
use pronze.Prelude.{String, ◌≡◌, false, ◌==◌, string_eq}
use pronze.Prelude.Dict.{erase}
use pronze.World.{World, Env, FilePath, ◌/◌, path_eq, Context, basename}
use pronze.Action.{
  Result, ok, err, ⊤, Action, pure, raise, ◌>>=◌, ◌>>◌, Keeps, ◌⨾◌, Keeps-for_each, Keeps-if,
  Keeps-pure, Keeps-raise, Keeps-gets, keeps_rules, Triple, Triple-bind, Triple-gets, Ends,
}
use pronze.Os.{set_fs, copy2}
use pronze.Os.Flags.{exists-Keeps}
use pronze.Os.Links.{IsUnlinked, IsUnmade, erase-IsUnlinked, copy2-IsUnmade}
use pronze.Commands.Shell.{Survives, run_command-Keeps}
use pronze.Report.Reads.{config_at-Keeps}
use pronze.Stages.Cache.{context}
use pronze.Stages.Cache.Rebuild.{AreDown}
use pronze.Stages.Cache.Flags.{hash_name, done_name}
use pronze.Stages.Fetch.{clone_linux}
use pronze.Stages.Compile.{build_daemon}
use pronze.Stages.Compile.Flags.{LeavesFlags}
use pronze.Stages.Kernel.{build_kernel, build_kernel_module, ensure_headers}

-- The work makes neither a file at `q` nor a link to it, where the output directory is elsewhere.
abbrev pub Spares : FilePath → Action ⊤ → Type 0
Spares q work =
    Triple (λ w. IsUnmade q w.fs × ((w.context.output_dir == q) ≡ false)) work
      (λ _ w. IsUnmade q w.fs) (λ w. IsUnmade q w.fs)

module _ (q : FilePath) where
  pub Keeps-Spares : {work : Action ⊤} → Keeps (λ w. IsUnmade q w.fs) work → Spares q work
  Keeps-Spares k = record { at = λ w p. k.at w p.0 }

  context-Spares :
      (k : Context → Action ⊤)
      → ((c : Context) → (c.output_dir == q) ≡ false → Keeps (λ w. IsUnmade q w.fs) (k c))
      → Spares q (context >>= k)
  context-Spares k keep =
      Triple-bind {R = λ c w. IsUnmade q w.fs × ((c.output_dir == q) ≡ false)} context k
        (Triple-gets (λ w. w.context) (λ w p. p))
        (λ c. record { at = λ w p. (keep c p.1).at w p.0 })

-- No symbolic link leads to a flag of the stage, and the output directory is none.
abbrev pub IsSafe : FilePath → String → World → Type 0
IsSafe d name w =
    IsUnlinked (d / hash_name name) w.fs
    × IsUnlinked (d / done_name name) w.fs
    × ((w.context.output_dir == d / hash_name name) ≡ false)
    × ((w.context.output_dir == d / done_name name) ≡ false)

module _ (d : FilePath) (name : String) where
  pub removal : (p : FilePath) (w : World) → IsSafe d name w → IsSafe d name (set_fs (erase p) w)
  removal p w x = (
    erase-IsUnlinked (d / hash_name name) p w.fs x.0,
    erase-IsUnlinked (d / done_name name) p w.fs x.1,
    x.2,
    x.3,
  )

  both_down :
      (o : Result ⊤ × World)
      → Ends (λ _ v. IsUnmade (d / hash_name name) v.fs) (λ v. IsUnmade (d / hash_name name) v.fs) o
      → Ends (λ _ v. IsUnmade (d / done_name name) v.fs) (λ v. IsUnmade (d / done_name name) v.fs) o
      → Ends
          (λ _. AreDown d (hash_name name) (done_name name))
          (AreDown d (hash_name name) (done_name name))
          o
  both_down (ok _, w) p q = (p.0, q.0)
  both_down (err e, w) p q = (p.0, q.0)

  pub leaves :
      (work : Action ⊤)
      → Spares (d / hash_name name) work
      → Spares (d / done_name name) work
      → LeavesFlags d (IsSafe d name) name work
  leaves work hashes done = record {
    at = λ w p.
        both_down (work w) (hashes.at w ((p.0.0, p.1.0), p.1.2))
          (done.at w ((p.0.1, p.1.1), p.1.3));
  }

module _ ⦃env : Env⦄ (q : FilePath) (alone : Survives (IsUnmade q)) where
  pub build_kernel-Keeps :
      (linux_dir cached : FilePath)
      → (cached == q) ≡ false
      → (cached / "bzImage" == q) ≡ false
      → Keeps (λ w. IsUnmade q w.fs) (build_kernel linux_dir cached)
  unfolding build_kernel
  build_kernel-Keeps linux_dir cached plain inside =
      let run = run_command-Keeps (IsUnmade q) alone in
      run _ ⨾ λ _. Keeps-for_each _ _ (λ cfg. run _) ⨾ λ _. Keeps-for_each _ _ (λ cfg. run _) ⨾ λ _.
      run _ ⨾ λ _. run _ ⨾ λ _. copy2-IsUnmade q _ cached plain inside

  copies_out :
      (a b cached output_dir : FilePath)
      → (cached == q) ≡ false
      → (cached / basename a == q) ≡ false
      → (output_dir == q) ≡ false
      → (output_dir / basename b == q) ≡ false
      → Keeps (λ w. IsUnmade q w.fs) (copy2 a cached >> copy2 b output_dir)
  copies_out a b cached output_dir h i j k =
      copy2-IsUnmade q a cached h i ⨾ λ _. copy2-IsUnmade q b output_dir j k

  ensure_headers-Keeps :
      (ver : String) (dir : FilePath) → Keeps (λ w. IsUnmade q w.fs) (ensure_headers ver dir)
  unfolding ensure_headers clone_linux
  ensure_headers-Keeps ver dir =
      search (keeps_rules, exists-Keeps, run_command-Keeps (IsUnmade q) alone) depth 20

  pub build_daemon-Spares :
      (cached target : FilePath)
      → (cached == q) ≡ false
      → (cached / basename target == q) ≡ false
      → ((p : FilePath) → (p / basename cached == q) ≡ false)
      → Spares q (build_daemon cached target)
  unfolding build_daemon
  build_daemon-Spares cached target h i k = context-Spares q _ (λ c out.
      run_command-Keeps (IsUnmade q) alone _ ⨾ λ _. exists-Keeps target ⨾ λ compiled.
      Keeps-if compiled (pure tt) (raise _) (Keeps-pure tt) (Keeps-raise _) ⨾ λ _.
      copies_out target cached cached c.output_dir h i out (k c.output_dir))

  pub build_kernel_module-Spares :
      (cached target : FilePath)
      → (cached == q) ≡ false
      → (cached / basename target == q) ≡ false
      → ((p : FilePath) → (p / basename target == q) ≡ false)
      → Spares q (build_kernel_module cached target)
  unfolding build_kernel_module
  build_kernel_module-Spares cached target h i k =
      let run = run_command-Keeps (IsUnmade q) alone in
      context-Spares q _ (λ c out. config_at-Keeps _ ⨾ λ ver. Keeps-gets _ ⨾ λ hdr.
      ensure_headers-Keeps hdr _ ⨾ λ _. exists-Keeps _ ⨾ λ configured.
      Keeps-if configured (pure tt) _ (Keeps-pure tt) (run _) ⨾ λ _. exists-Keeps _ ⨾ λ prepared.
      Keeps-if prepared (pure tt) _ (Keeps-pure tt) (run _) ⨾ λ _. run _ ⨾ λ _.
      exists-Keeps _ ⨾ λ compiled.
      Keeps-if compiled (pure tt) (raise _) (Keeps-pure tt) (Keeps-raise _) ⨾ λ _.
      copies_out target target cached c.output_dir h i out (k c.output_dir))
