-- ===== src/Lib.antt =====
-- The build pipeline of PronzeOS (build-pipeline/): a graph of stages that fetches, compiles and
-- packages the system, with a cache of what has not changed, and a portal in the browser that shows
-- the progress, asks for builds and runs the image in QEMU.
--
-- How the parts interact. `main` of pipeline.py registers the stages, orders them by their
-- dependencies and runs them, or leaves that to a worker that takes builds from a queue. A stage is an
-- action on the state; it runs commands, copies files, and keeps a hash and a done flag in
-- .output-nochanges by which the next run skips it. `execute` of common.py runs the stages in order,
-- reports each, records the build and stops at a failure that is not allowed. The portal's handlers
-- read and change the same state.
--
-- The files, and the code that each models (under build-pipeline/):
--   Prelude    texts, lists, dicts and signed numbers as Python has them
--   World      the global variables of common.py, the attributes of PipelineContext, a file system,
--              and `Env`: what is called and not implemented here
--   Action     functions on the state that return or raise, with rules for invariants
--   Os         the calls of os, shutil, open, time and uuid that the code makes
--   Hashing    get_file_hash, get_dir_hash, count_compilable_files, count_tarball_files
--   Commands   append_log, run_cmd, copy_file_or_symlink, copy_dir_contents, write_stage_flags
--   Archive    load_stage_builds to update_build_stats
--   Status     update_node_status, get_state_payload, send_total_report, broadcast_status
--   Config     PipelineContext with the migration of .builthash, load_portal_password,
--              init_build_info, set_runtime_flags
--   Report     compute_all_hashes, generate_diff_report, analyze_compilation_files,
--              print_status_table
--   Modules    archive_modules_separately, and the archive at the end of execute
--   Graph      PipelineNode, Pipeline.add_node, Pipeline.build_graph
--   Execute    Pipeline.execute
--   Stages     stages/*.py; Stages.Cache is the protocol that the six compile stages share
--   Qemu       find_ovmf_firmware, flush_qemu_logs, qemu_reader, start_qemu_guest, stop_qemu_guest
--   Worker     one task of build_worker, one round of status_broadcast_loop
--   Portal     SSEHandler.do_GET and SSEHandler.do_POST
--   Main       main of pipeline.py
--   Scheduler  an abstract specification of the build queue: the accesses of the handlers' threads and
--              of the worker in any order, and how do_POST and build_worker make its steps. Beside
--              build_queue and build_active its state tells where the threads stand.
--   Tests      the theorems at concrete inputs
--
-- Correspondence. A function has the name that it has in the source, a method the name of its class in
-- front where it would be `run`. The state is the record `World`, passed from statement to statement; a
-- Python exception is the value `err`. A time is a whole number of microseconds, with a sign. JSON
-- documents and server-sent events are kept as the values that they encode. A file's content is a text.
--
-- Bounds. `visit` runs on as much fuel as there are stages and two more; `hash_chunks` on a round for
-- each character and one more; both are shown to be enough. The system follows at most 40 symbolic
-- links, as Linux does. `copy_recursive` and `copy_new_tree` (shutil.copytree) go 1000 directories
-- deep, about where Python gives up.
--
-- Threads. A handler's call, a task of the worker and a round of a loop are each one function on the
-- state. A session (Scheduler.Refines.Session) is any sequence of them, one whole call after the other; the worker
-- takes no turn after one that raised, since nothing catches what the `finally` of build_worker raises.
-- The steps of Scheduler are finer: there the handlers' tests of `build_active`, their preparations and
-- their accesses to the queue interleave with the worker's.
--
-- Files. A path's last component is followed where it is a symbolic link, as far as 40 links; the
-- directories on the way are taken as they are written.
--
-- Not modelled: what is printed on the terminal, the page of the dashboard, the locks round single
-- assignments, the start of the threads and of the server, and what the commands do, which `Env.shell`
-- stands for.
pub mod Prelude
pub mod World
pub mod Action
pub mod Os
pub mod Hashing
pub mod Commands
pub mod Archive
pub mod Status
pub mod Config
pub mod Report
pub mod Modules
pub mod Graph
pub mod Execute
pub mod Stages
pub mod Qemu
pub mod Worker
pub mod Portal
pub mod Main
pub mod Scheduler
pub mod Tests
