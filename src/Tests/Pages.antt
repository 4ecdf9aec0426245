-- ===== src/Tests/Pages.antt =====
-- Requests, reports, settings, hashes and the console.
use pronze.Prelude.{String, ◌<>◌, ◌≡◌, ◌≢◌, ◌↔◌, refl, true, List, [], ◌∷◌, string_eq, All, arith}
use pronze.Prelude.Texts.{join, concat, count_chars}
use pronze.Prelude.Dict.{Dict, lookup, insert}
use pronze.World.{World, ◌/◌, path_eq, file, text, is_dir, real_path, follow}
use pronze.Config.{new_context}
use pronze.Prelude.Texts.{ends_with}
use pronze.Portal.{is_cache_flag}
use pronze.Portal.Strangers.{Visit, posts, gets_page, IsKept, WithoutImage, browse, browse-IsKept}
use pronze.Portal.Rebuild.{Rebuilds, do_post-rebuilds}
use pronze.Action.{Ends}
use pronze.Config.{read_settings}
use pronze.Config.Settings.{last_value, or_else, lookup-read_settings}
use pronze.Hashing.{content_hash}
use pronze.Hashing.Chunks.{content_hash-eq}
use pronze.Portal.{do_post, is_password}
use pronze.Portal.Access.{do_post-busy}
use pronze.Report.{changes, components, hash_of, table_inputs}
use pronze.Report.Changes.{changes-none, changes-config_setup}
use pronze.Report.Missing.{table_inputs-master_inputs}
use pronze.Stages.EarlyExit.{master_inputs}
use pronze.Status.{is_alive}
use pronze.Qemu.{start_qemu_guest}
use pronze.Qemu.Guest.{start_qemu_guest-Ends}
use pronze.Qemu.Log.{IsConsole, read_all, read_all-IsConsole}
use pronze.Tests.Sample.{host, sample, workspace, cache, files, request}

abbrev building : World
building = record sample { build_active = true }

do_post-busy_example :
    (do_post ⦃env = host⦄ (request "/api/rebuild" "secret") building).1 ≡ building
do_post-busy_example =
    do_post-busy ⦃env = host⦄ (request "/api/rebuild" "secret") building refl refl

-- The daemon's stage has left its flag.
abbrev flagged : World
flagged = record sample { fs = (cache / "CompileDaemon.done", file (text "OK\n")) ∷ files }

do_post-rebuilds_example :
    Ends
      (Rebuilds flagged "CompileDaemon.done")
      (λ _. ⊥)
      (do_post ⦃env = host⦄ (request "/api/rebuild" "secret") flagged)
unfolding is_password is_cache_flag is_dir real_path follow lookup ends_with new_context
do_post-rebuilds_example =
    do_post-rebuilds ⦃env = host⦄ flagged "CompileDaemon.done" refl refl refl tt
      (request "/api/rebuild" "secret") refl refl refl refl

-- a clean and a rebuild without the password, a try at it, and the image and the events
abbrev visits : List Visit
visits =
    posts (request "/api/fclean" "root")
    ∷ posts (request "/api/rebuild" "")
    ∷ posts (request "/api/auth" "guess")
    ∷ gets_page (request "/api/download" "root")
    ∷ gets_page (request "/events" "root")
    ∷ []

browse-IsKept_example :
    IsKept sample (browse ⦃env = host⦄ visits sample).1
    × All WithoutImage (browse ⦃env = host⦄ visits sample).0
browse-IsKept_example =
    browse-IsKept ⦃env = host⦄ visits sample (refl, (refl, (refl, ((refl, tt), ((refl, tt), tt)))))

abbrev old_hashes : Dict String String
old_hashes = ("kernel_dir", "1") ∷ ("config_setup_dir", "2") ∷ []

changes-none_example :
    (changes old_hashes old_hashes components ≡ [])
    ↔ All (λ c. hash_of c.0 old_hashes ≡ hash_of c.0 old_hashes) components
changes-none_example = changes-none old_hashes old_hashes components

changes-config_setup_example :
    changes old_hashes (insert "config_setup_dir" "3" old_hashes) components ≡ []
changes-config_setup_example = changes-config_setup "3" old_hashes

table_inputs-master_inputs_example :
    join "-" (table_inputs old_hashes) ≢ join "-" (master_inputs old_hashes)
table_inputs-master_inputs_example = table_inputs-master_inputs old_hashes

abbrev conf : List String
conf = "# versions" ∷ "LINUX_VERSION=6.6" ∷ "" ∷ "LINUX_VERSION = \"6.7\"" ∷ []

lookup-read_settings_example :
    lookup "LINUX_VERSION" (read_settings conf [])
    ≡ or_else
        (last_value "LINUX_VERSION" conf)
        (lookup {K = String} {V = String} "LINUX_VERSION" [])
lookup-read_settings_example = lookup-read_settings "LINUX_VERSION" conf []

content_hash-eq_example : content_hash ⦃env = host⦄ (text "module") ≡ "module"
content_hash-eq_example = content_hash-eq ⦃env = host⦄ (text "module")

read_all-IsConsole_example :
    IsConsole ("" <> concat ("o" ∷ "k" ∷ [])) (read_all ("o" ∷ "k" ∷ []) sample)
unfolding count_chars
read_all-IsConsole_example =
    read_all-IsConsole ("o" ∷ "k" ∷ []) "" sample
      (record { bounded = omega arith; latest = ("", refl) })

start_qemu_guest-Ends_example :
    Ends
      (λ r v. is_alive v.qemu_process ≡ r.0)
      (λ _. ⊥)
      (start_qemu_guest ⦃env = host⦄ workspace sample)
start_qemu_guest-Ends_example = start_qemu_guest-Ends ⦃env = host⦄ workspace sample
