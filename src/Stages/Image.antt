-- ===== src/Stages/Image.antt =====
-- stages/btrfs.py, stages/esp.py and stages/gpt.py: the disk image, made by commands.
use pronze.Prelude.{ℕ, String, ◌<>◌, [], ◌∷◌}
use pronze.Prelude.Texts.{concat, show_nat}
use pronze.World.{Env, FilePath, ◌/◌, show_path}
use pronze.Action.{⊤, Action, ◌>>=◌, ◌>>◌, for_each}
use pronze.Os.{makedirs}
use pronze.Commands.{run_cmd, run_cmd_with, write_text_file}
use pronze.Report.{config_at}
use pronze.Stages.Cache.{context}

-- an empty image of some megabytes, and a copy into the big one behind some megabytes
abbrev dd_zero : FilePath → ℕ → String
dd_zero image megabytes =
    concat ("dd if=/dev/zero of=" ∷ show_path image ∷ " bs=1M count=" ∷ show_nat megabytes ∷ [])

abbrev dd_into : FilePath → FilePath → ℕ → String
dd_into part image seek = concat (
    "dd if="
    ∷ show_path part
    ∷ " of="
    ∷ show_path image
    ∷ " bs=1M seek="
    ∷ show_nat seek
    ∷ " conv=notrunc"
    ∷ [])

-- a partition of the table, in sectors of 512 bytes
pub record Partition : Type 0 where
  pub start : ℕ
  pub size : ℕ
  pub kind : String
  pub label : String

abbrev pub esp_partition : Partition
esp_partition = record {
  start = 2048;
  size = 131072;
  kind = "c12a7328-f81f-11d2-ba4b-00a0c93ec93b";
  label = "ESP";
}

abbrev pub root_partition : Partition
root_partition = record {
  start = 133120;
  size = 524288;
  kind = "0fc63daf-8483-4772-8e79-3d69d8477de4";
  label = "Root";
}

abbrev partition_line : String → Partition → String
partition_line name p = concat (
    name
    ∷ " : start="
    ∷ show_nat p.start
    ∷ ", size="
    ∷ show_nat p.size
    ∷ ", type="
    ∷ p.kind
    ∷ ", name=\""
    ∷ p.label
    ∷ "\"\n"
    ∷ [])

abbrev sfdisk_input : String
sfdisk_input = concat (
    "label: gpt\n"
    ∷ partition_line "part1" esp_partition
    ∷ partition_line "part2" root_partition
    ∷ [])

-- the sizes and places of the images, in megabytes
abbrev pub disk_megabytes : ℕ
disk_megabytes = 325

abbrev pub esp_megabytes : ℕ
esp_megabytes = 64

abbrev pub root_megabytes : ℕ
root_megabytes = 256

abbrev pub esp_seek : ℕ
esp_seek = 1

abbrev pub root_seek : ℕ
root_seek = 65

abbrev loader_entry : String → String → String
loader_entry title consoles = concat (
    "title " ∷ title ∷ "\nlinux /vmlinuz\noptions root=/dev/sda2 rootfstype=btrfs " ∷ consoles
    ∷ " init=/init rw\n" ∷ [])

module _ ⦃env : Env⦄ where
  -- `PackageBtrfsImageStage.run`
  unfoldable pub package_btrfs_image : Action ⊤
  package_btrfs_image = do
    c ← context
    let rootfs_img = c.work_dir / "rootfs.img"
    run_cmd (dd_zero rootfs_img root_megabytes)
    run_cmd (
        concat (
          "mkfs.btrfs -f -b 268435456 -r "
          ∷ show_path c.rootfs_dir
          ∷ " "
          ∷ show_path rootfs_img
          ∷ []))

  -- `PackageESPImageStage.run`
  unfoldable pub package_esp_image : Action ⊤
  package_esp_image = do
    c ← context
    let esp_img = c.work_dir / "esp.img"
    let loader_dir = c.work_dir / "loader"
    let mcopy = λ (src dst : String).
        run_cmd (concat ("mcopy -i " ∷ show_path esp_img ∷ " " ∷ src ∷ " " ∷ dst ∷ []))
    run_cmd (dd_zero esp_img esp_megabytes)
    run_cmd ("mkfs.vfat -F 32 " <> show_path esp_img)
    makedirs (loader_dir / "entries")
    write_text_file (loader_dir / "loader.conf") "default pronze\ntimeout 3\n"
    write_text_file (loader_dir / "entries" / "pronze.conf")
        (loader_entry "Pronze (Serial Console)" "console=tty0 console=ttyS0")
    write_text_file (loader_dir / "entries" / "pronze-gui.conf")
        (loader_entry "Pronze (VGA Graphics)" "console=ttyS0 console=tty0")
    for_each ("::/EFI" ∷ "::/EFI/BOOT" ∷ "::/loader" ∷ "::/loader/entries" ∷ [])
        (λ path. run_cmd (concat ("mmd -i " ∷ show_path esp_img ∷ " " ∷ path ∷ [])))
    linux_ver ← config_at "LINUX_VERSION"
    mcopy "/usr/lib/systemd/boot/efi/systemd-bootx64.efi" "::/EFI/BOOT/BOOTX64.EFI"
    mcopy (show_path (c.src_dir / ("linux-" <> linux_ver) / "arch" / "x86" / "boot" / "bzImage"))
        "::/vmlinuz"
    mcopy (show_path (loader_dir / "loader.conf")) "::/loader/loader.conf"
    mcopy (show_path (loader_dir / "entries" / "pronze.conf")) "::/loader/entries/pronze.conf"
    mcopy (show_path (loader_dir / "entries" / "pronze-gui.conf"))
        "::/loader/entries/pronze-gui.conf"

  -- `AssembleGPTImageStage.run`
  unfoldable pub assemble_gpt_image : Action ⊤
  assemble_gpt_image = do
    c ← context
    let master_img = c.work_dir / "pronzeos.img"
    run_cmd (dd_zero master_img disk_megabytes)
    run_cmd_with sfdisk_input ("sfdisk " <> show_path master_img)
    run_cmd (dd_into (c.work_dir / "esp.img") master_img esp_seek)
    run_cmd (dd_into (c.work_dir / "rootfs.img") master_img root_seek)
