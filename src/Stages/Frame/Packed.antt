-- ===== src/Stages/Frame/Packed.antt =====
-- The stages behind the compilers: the root file system, the disk image, the output and the shipping.
use pronze.Prelude.{ℕ, zero, suc, String, List, [], ◌∷◌, string_eq}
use pronze.World.{World, Env, FilePath, Context}
use pronze.Action.{
  Keeps, keeps_rules, Keeps-bind, Keeps-if, Keeps-pure, Keeps-raise, Keeps-for_each,
}
use pronze.Os.Flags.{exists-Keeps, isdir-Keeps}
use pronze.Os.Frame.{
  write_text-Keeps, copy2-Keeps, makedirs-Keeps, remove-Keeps, rmtree-Keeps, islink-Keeps,
  make_symlink-Keeps, listdir-Keeps,
}
use pronze.Commands.Frame.{
  IsApart, run_command-Keeps, chmod-Keeps, copy_file_or_symlink-Keeps, copy_dir_contents-Keeps,
  write_text_file-Keeps, write_json_file-Keeps, write_stage_flags-Keeps,
}
use pronze.Status.Frame.{update_node_status-Keeps}
use pronze.Report.Reads.{config_at-Keeps, compute_all_hashes-Keeps}
use pronze.Stages.Cache.Flags.{saved_hash-Keeps, all_exist-Keeps}
use pronze.Stages.Frame.Sources.{copy_if_exists-Keeps, remove_if_exists-Keeps}
use pronze.Stages.Rootfs.{
  Item, copy_target_in, link_loader, assemble_rootfs, copy_recursive, copy_setup_item,
  copy_configuration_setup,
}
use pronze.Stages.Image.{package_btrfs_image, package_esp_image, assemble_gpt_image}
use pronze.Stages.Ship.{
  present, shipped_files, delete_item, clean_dir, clean_output, restore_shipped, ship, ship_image,
}

module _ {P : World → Type 0} where
  present-Keeps : (c : Context) (names : List String) → Keeps P (present c names)
  unfolding present
  present-Keeps c [] = Keeps-pure []
  present-Keeps c (name ∷ names) =
      Keeps-bind _ _ (exists-Keeps _)
        (λ there. Keeps-bind _ _ (present-Keeps c names) (λ rest. Keeps-pure _))

  shipped_files-Keeps : Keeps P shipped_files
  unfolding shipped_files
  shipped_files-Keeps = search (keeps_rules, present-Keeps)

module _ {Q : World → Type 0} (apart : IsApart Q) where
  copy_target_in-Keeps :
      (allowed : List String) (item : Item) → Keeps Q (copy_target_in allowed item)
  unfolding copy_target_in
  copy_target_in-Keeps allowed item =
      search (keeps_rules, exists-Keeps, copy_file_or_symlink-Keeps apart) depth 12

  link_loader-Keeps : (p : FilePath) → Keeps Q (link_loader p)
  unfolding link_loader
  link_loader-Keeps p =
      search
        (
          keeps_rules,
          exists-Keeps,
          islink-Keeps apart.quiet.framed,
          remove-Keeps apart.quiet.framed,
          make_symlink-Keeps apart.quiet.framed,
        )
        depth 12

  pub assemble_rootfs-Keeps : Keeps Q assemble_rootfs
  unfolding assemble_rootfs
  assemble_rootfs-Keeps =
      search
        (
          keeps_rules,
          exists-Keeps,
          rmtree-Keeps apart.quiet.framed,
          makedirs-Keeps apart.quiet.framed,
          config_at-Keeps,
          copy_dir_contents-Keeps apart,
          listdir-Keeps apart.quiet.framed,
          copy_file_or_symlink-Keeps apart,
          chmod-Keeps apart,
          copy_target_in-Keeps,
          link_loader-Keeps,
          write_text_file-Keeps apart,
        )
        depth 60

  copy_recursive-Keeps : (n : ℕ) (src dst : FilePath) → Keeps Q (copy_recursive n src dst)
  unfolding copy_recursive
  copy_recursive-Keeps zero src dst = Keeps-raise _
  copy_recursive-Keeps (suc n) src dst = Keeps-bind _ _ (isdir-Keeps src) (λ directory.
      Keeps-bind _ _ (islink-Keeps apart.quiet.framed src) (λ link.
        Keeps-if _ _ _
          (Keeps-bind _ _ (makedirs-Keeps apart.quiet.framed dst) (λ _.
            Keeps-bind _ _ (listdir-Keeps apart.quiet.framed src)
              (λ items. Keeps-for_each items _ (λ item. copy_recursive-Keeps n _ _))))
          (copy_file_or_symlink-Keeps apart src dst)))

  copy_setup_item-Keeps :
      (src dst : FilePath) (item : String) → Keeps Q (copy_setup_item src dst item)
  copy_setup_item-Keeps src dst item = search (keeps_rules, copy_recursive-Keeps)

  pub copy_configuration_setup-Keeps : Keeps Q copy_configuration_setup
  unfolding copy_configuration_setup
  copy_configuration_setup-Keeps =
      search (keeps_rules, isdir-Keeps, listdir-Keeps apart.quiet.framed, copy_setup_item-Keeps)
        depth 12

  delete_item-Keeps : (d : FilePath) (item : String) → Keeps Q (delete_item d item)
  delete_item-Keeps d item =
      search
        (
          keeps_rules,
          isdir-Keeps,
          islink-Keeps apart.quiet.framed,
          rmtree-Keeps apart.quiet.framed,
          remove-Keeps apart.quiet.framed,
        )
        depth 12

  clean_dir-Keeps : (d : FilePath) → Keeps Q (clean_dir d)
  unfolding clean_dir
  clean_dir-Keeps d =
      search (keeps_rules, isdir-Keeps, listdir-Keeps apart.quiet.framed, delete_item-Keeps) depth
        12

  module _ ⦃env : Env⦄ where
    pub package_btrfs_image-Keeps : Keeps Q package_btrfs_image
    unfolding package_btrfs_image
    package_btrfs_image-Keeps = search (keeps_rules, run_command-Keeps apart)

    pub package_esp_image-Keeps : Keeps Q package_esp_image
    unfolding package_esp_image
    package_esp_image-Keeps =
        search
          (
            keeps_rules,
            run_command-Keeps apart,
            makedirs-Keeps apart.quiet.framed,
            write_text_file-Keeps apart,
            config_at-Keeps,
          )
          depth 50

    pub assemble_gpt_image-Keeps : Keeps Q assemble_gpt_image
    unfolding assemble_gpt_image
    assemble_gpt_image-Keeps = search (keeps_rules, run_command-Keeps apart) depth 12

    pub clean_output-Keeps : Keeps Q clean_output
    unfolding clean_output
    clean_output-Keeps =
        search
          (
            keeps_rules,
            saved_hash-Keeps,
            shipped_files-Keeps,
            all_exist-Keeps,
            exists-Keeps,
            clean_dir-Keeps,
            update_node_status-Keeps apart.quiet,
          )
          depth 20

    restore_shipped-Keeps : (c : Context) (files : List String) → Keeps Q (restore_shipped c files)
    unfolding restore_shipped
    restore_shipped-Keeps c files =
        search (keeps_rules, copy_if_exists-Keeps apart, update_node_status-Keeps apart.quiet)

    ship-Keeps : (c : Context) → Keeps Q (ship c)
    unfolding ship
    ship-Keeps c =
        search
          (
            keeps_rules,
            remove_if_exists-Keeps apart,
            copy2-Keeps apart.quiet.framed,
            copy_if_exists-Keeps apart,
            write_text-Keeps apart.quiet.framed,
            compute_all_hashes-Keeps,
            write_json_file-Keeps apart,
            write_stage_flags-Keeps apart,
          )
          depth 50

    pub ship_image-Keeps : Keeps Q ship_image
    unfolding ship_image
    ship_image-Keeps =
        search
          (
            keeps_rules, saved_hash-Keeps, shipped_files-Keeps, exists-Keeps, all_exist-Keeps,
            restore_shipped-Keeps, ship-Keeps,
          )
          depth 20
