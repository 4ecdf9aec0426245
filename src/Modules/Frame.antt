-- ===== src/Modules/Frame.antt =====
-- What the archive at the end of a build leaves as it is.
use pronze.Prelude.{ℕ, String, Option, none, some, List, [], ◌∷◌}
use pronze.Prelude.Texts.{parse_nat, strip}
use pronze.Prelude.Dict.{Dict}
use pronze.World.{World, Env, FilePath, ◌/◌, Context, StageBuild}
use pronze.Action.{
  value_error, pure, raise, modify, Keeps, keeps_rules, Keeps-bind, Keeps-pure, Keeps-if,
}
use pronze.Os.Flags.{exists-Keeps, read_text-Keeps}
use pronze.Os.Frame.{
  copy2-Keeps, write_text-Keeps, IsFramed, makedirs-Keeps, write-Keeps, time-Keeps,
}
use pronze.Archive.Frame.{load_stage_builds-Keeps}
use pronze.Config.{read_number}
use pronze.Modules.{
  Module, find_module_file, copy_module_files, number_or, copy_target, next_number, archive_module,
  archive_modules_separately, archive_build,
}

module _ {Q : World → Type 0} where
  number_of_text :
      (t : String) (o : Option ℕ)
      → Keeps {A = ℕ} Q (elim o [ none ↦ raise (value_error t) | some n ↦ pure n ])
  number_of_text t none = search keeps_rules
  number_of_text t (some n) = search keeps_rules

  read_number-Keeps : (p : FilePath) → Keeps Q (read_number p)
  unfolding read_number
  read_number-Keeps p =
      Keeps-bind _ _ (read_text-Keeps p) (λ t. number_of_text t (parse_nat (strip t)))

  number_or-Keeps : (d : ℕ) (p : FilePath) → Keeps Q (number_or d p)
  number_or-Keeps d p = search (keeps_rules, exists-Keeps, read_number-Keeps) depth 12

  next_number-Keeps : (p : FilePath) → Keeps Q (next_number p)
  next_number-Keeps p = search (keeps_rules, exists-Keeps, read_number-Keeps) depth 12

  find_module_file-Keeps : (c : Context) (name : String) → Keeps Q (find_module_file c name)
  unfolding find_module_file
  find_module_file-Keeps c name = search (keeps_rules, exists-Keeps) depth 12

module _ {Q : World → Type 0} (framed : IsFramed Q) where
  copy_module_files-Keeps :
      (c : Context) (d : FilePath) (names : List String) → Keeps Q (copy_module_files c d names)
  unfolding copy_module_files
  copy_module_files-Keeps c d [] = search keeps_rules
  copy_module_files-Keeps c d (name ∷ names) =
      let rest = copy_module_files-Keeps c d names in
      Keeps-bind _ _ (find_module_file-Keeps c name) (λ p. Keeps-bind _ _ (exists-Keeps p) (λ there.
        Keeps-if there _ _
          (Keeps-bind _ _ (makedirs-Keeps framed d) (λ _.
            Keeps-bind _ _ (copy2-Keeps framed p (d / name))
              (λ _. Keeps-bind _ _ rest (λ copied. Keeps-pure _))))
          rest))

  copy_target-Keeps : (c : Context) (d : FilePath) (o : Option String) → Keeps Q (copy_target c d o)
  unfolding copy_target
  copy_target-Keeps c d none = search keeps_rules
  copy_target-Keeps c d (some name) =
      search (keeps_rules, exists-Keeps, copy2-Keeps framed) depth 12

  module _ ⦃env : Env⦄ where
    archive_module-Keeps :
        (c : Context) (n : ℕ) (d : Dict String StageBuild) (item : Module)
        → Keeps Q (archive_module c n d item)
    unfolding archive_module
    archive_module-Keeps c n d item =
        search (keeps_rules, copy_module_files-Keeps, time-Keeps framed, write-Keeps framed) depth
          12

    pub archive_modules_separately-Keeps : Keeps Q archive_modules_separately
    unfolding archive_modules_separately
    archive_modules_separately-Keeps =
        search
          (
            keeps_rules,
            makedirs-Keeps framed,
            number_or-Keeps,
            load_stage_builds-Keeps framed,
            archive_module-Keeps,
          )
          depth 16

    module _ (number : (n : ℕ) (w : World) → Q w → Q (record w { build_number = n })) where
      number-Keeps : (n : ℕ) → Keeps Q (modify (λ w. record w { build_number = n }))
      unfolding modify
      number-Keeps n = record { at = λ w h. number n w h }

      pub archive_build-Keeps : Keeps Q archive_build
      unfolding archive_build
      archive_build-Keeps =
          search
            (
              keeps_rules,
              makedirs-Keeps framed,
              next_number-Keeps,
              number-Keeps,
              write_text-Keeps framed,
              copy_target-Keeps,
              time-Keeps framed,
              write-Keeps framed,
            )
            depth 40
