-- ===== src/Stages/Fetch.antt =====
-- stages/download.py and stages/extract.py: the sources that are compiled.
use pronze.Prelude.{
  String, ◌<>◌, Bool, true, false, ◌||◌, none, some, [], ◌∷◌, ◌==◌, string_eq, if◌then◌else◌,
}
use pronze.Prelude.Texts.{concat}
use pronze.World.{Env, FilePath, ◌/◌, show_path}
use pronze.Action.{os_error, ⊤, Action, pure, raise, gets, ◌>>=◌, ◌>>◌, try_except}
use pronze.Os.{exists, isdir, makedirs, write}
use pronze.Commands.{run_cmd}
use pronze.Report.{config_at, config_get, tarball}
use pronze.Stages.Cache.{context, mark_done}

module _ ⦃env : Env⦄ where
  -- the nested `download(url, dest)`
  unfoldable pub download : String → FilePath → Action ⊤
  download url dest = do
    there ← exists dest
    if there then pure tt else (do
      found ← gets (λ w. env.retrieve url w.fs)
      elim found [ none ↦ raise (os_error url dest) | some c ↦ write dest c ])

  abbrev clone_line : String → FilePath → String
  clone_line ver into = concat (
      "git clone --depth 1 --branch v"
      ∷ ver
      ∷ " https://git.kernel.org/pub/scm/linux/kernel/git/stable/linux.git "
      ∷ show_path into
      ∷ [])

  -- a clone of the Linux sources by git, if there is git; whether it worked
  unfoldable pub clone_linux : String → FilePath → Action Bool
  clone_linux ver into = do
    git ← gets (λ w. env.which "git" w.fs)
    if git
        then try_except (do run_cmd (clone_line ver into); pure true) (λ _. pure false)
        else pure false

  -- Linux in one version: a clone, or its archive where there is no clone
  unfoldable pub fetch_linux : String → Action ⊤
  fetch_linux ver = do
    c ← context
    there ← exists (c.src_dir / ("linux-" <> ver))
    git_success ← (if there then pure false else clone_linux ver (c.src_dir / ("linux-" <> ver)))
    let archive = c.download_dir / tarball "linux" ver "tar.xz"
    has_archive ← exists archive
    if git_success || has_archive
        then pure tt
        else download
            (concat ("https://cdn.kernel.org/pub/linux/kernel/v6.x/linux-" ∷ ver ∷ ".tar.xz" ∷ []))
            archive

  -- `DownloadTarballsStage.run`
  unfoldable pub download_tarballs : Action ⊤
  download_tarballs = do
    c ← context
    makedirs c.download_dir
    linux_ver ← config_at "LINUX_VERSION"
    busybox_ver ← config_at "BUSYBOX_VERSION"
    skalibs_ver ← config_at "SKALIBS_VERSION"
    execline_ver ← config_at "EXECLINE_VERSION"
    s6_ver ← config_at "S6_VERSION"
    fetch_linux linux_ver
    download (concat ("https://busybox.net/downloads/busybox-" ∷ busybox_ver ∷ ".tar.bz2" ∷ []))
        (c.download_dir / tarball "busybox" busybox_ver "tar.bz2")
    download
        (concat ("https://skarnet.org/software/skalibs/skalibs-" ∷ skalibs_ver ∷ ".tar.gz" ∷ []))
        (c.download_dir / tarball "skalibs" skalibs_ver "tar.gz")
    download
        (concat ("https://skarnet.org/software/execline/execline-" ∷ execline_ver ∷ ".tar.gz" ∷ []))
        (c.download_dir / tarball "execline" execline_ver "tar.gz")
    download (concat ("https://skarnet.org/software/s6/s6-" ∷ s6_ver ∷ ".tar.gz" ∷ []))
        (c.download_dir / tarball "s6" s6_ver "tar.gz")
    hdr_version ← config_get "LINUX_HEADERS_VERSION" linux_ver
    if hdr_version == linux_ver then pure tt else fetch_linux hdr_version
    mark_done (c.nochanges_dir / "DownloadTarballs.done")

  -- the nested `extract(tarball, subdir_name)`
  unfoldable pub extract : FilePath → String → Action ⊤
  extract archive subdir_name = do
    c ← context
    there ← isdir (c.src_dir / subdir_name)
    if there
        then pure tt
        else run_cmd (concat ("tar -xf " ∷ show_path archive ∷ " -C " ∷ show_path c.src_dir ∷ []))

  unfoldable pub extract_linux : String → Action ⊤
  extract_linux ver = do
    c ← context
    there ← exists (c.src_dir / ("linux-" <> ver))
    if there
        then pure tt
        else extract (c.download_dir / tarball "linux" ver "tar.xz") ("linux-" <> ver)

  -- `ExtractTarballsStage.run`
  unfoldable pub extract_tarballs : Action ⊤
  extract_tarballs = do
    c ← context
    linux_ver ← config_at "LINUX_VERSION"
    busybox_ver ← config_at "BUSYBOX_VERSION"
    skalibs_ver ← config_at "SKALIBS_VERSION"
    execline_ver ← config_at "EXECLINE_VERSION"
    s6_ver ← config_at "S6_VERSION"
    extract_linux linux_ver
    extract (c.download_dir / tarball "busybox" busybox_ver "tar.bz2") ("busybox-" <> busybox_ver)
    extract (c.download_dir / tarball "skalibs" skalibs_ver "tar.gz") ("skalibs-" <> skalibs_ver)
    extract (c.download_dir / tarball "execline" execline_ver "tar.gz")
        ("execline-" <> execline_ver)
    extract (c.download_dir / tarball "s6" s6_ver "tar.gz") ("s6-" <> s6_ver)
    hdr_version ← config_get "LINUX_HEADERS_VERSION" linux_ver
    if hdr_version == linux_ver then pure tt else extract_linux hdr_version
    mark_done (c.nochanges_dir / "ExtractTarballs.done")
