-- ===== src/Report/Missing.antt =====
-- The master hash as the status table calculates it, against the one that the early exit compares.
use pronze.Prelude.{
  refl, false, ℕ, suc, ◌+◌, String, ◌<>◌, ◌≡◌, ◌≢◌, ap, List, [], ◌∷◌, ◌++◌, arith,
}
use pronze.Prelude.Texts.{join, count_chars}
use pronze.Prelude.Texts.Count.{count_chars-append}
use pronze.Prelude.Dict.{Dict}
use pronze.World.{World, Env}
use pronze.Action.{ok, gets, pure, ◌>>=◌}
use pronze.Os.{exists}
use pronze.Report.Analyzer.{check_stage_cache, expected_hash}
use pronze.Report.Table.{table_inputs}
use pronze.Report.Hashes.{hash_of}
use pronze.Stages.EarlyExit.{master_inputs}

-- One more part in a joined text makes it longer by that part and a separator.
count_chars-join :
    (xs : List String) (c y : String) (ys : List String)
    → count_chars (join "-" (xs ++ (c ∷ y ∷ ys)))
      ≡ count_chars (join "-" (xs ++ (y ∷ ys))) + suc (count_chars c)
unfolding count_chars
count_chars-join [] c y ys = omega (
  arith,
  count_chars-append c ("-" <> join "-" (y ∷ ys)),
  count_chars-append "-" (join "-" (y ∷ ys)),
)
count_chars-join (x ∷ []) c y ys = omega (
  arith,
  count_chars-append x ("-" <> join "-" (c ∷ y ∷ ys)),
  count_chars-append "-" (join "-" (c ∷ y ∷ ys)),
  count_chars-append x ("-" <> join "-" (y ∷ ys)),
  count_chars-append "-" (join "-" (y ∷ ys)),
  count_chars-join [] c y ys,
)
count_chars-join (x ∷ x2 ∷ xs) c y ys = omega (
  arith,
  count_chars-append x ("-" <> join "-" (x2 ∷ (xs ++ (c ∷ y ∷ ys)))),
  count_chars-append "-" (join "-" (x2 ∷ (xs ++ (c ∷ y ∷ ys)))),
  count_chars-append x ("-" <> join "-" (x2 ∷ (xs ++ (y ∷ ys)))),
  count_chars-append "-" (join "-" (x2 ∷ (xs ++ (y ∷ ys)))),
  count_chars-join (x2 ∷ xs) c y ys,
)

-- Whatever the inputs of a build are, the text that the status table hashes for the image is not the
-- one that the early exit hashes and saves: it lacks the hash of configuration_setup.
pub table_inputs-master_inputs :
    (h : Dict String String) → join "-" (table_inputs h) ≢ join "-" (master_inputs h)
unfolding table_inputs master_inputs
table_inputs-master_inputs h same = longer _ _ _ (ap count_chars same) (
    count_chars-join
      (hash_of "kernel_dir" h
        ∷ hash_of "sdk_dir" h
        ∷ hash_of "daemon_dir" h
        ∷ hash_of "s6_dir" h
        ∷ hash_of "test_dir" h
        ∷ hash_of "profiles_dir" h
        ∷ hash_of "build_pipeline_dir" h
        ∷ [])
      (hash_of "config_setup_dir" h) (hash_of "pipeline_conf" h)
      (hash_of "linux_ver" h
        ∷ hash_of "busybox_ver" h
        ∷ hash_of "skalibs_ver" h
        ∷ hash_of "execline_ver" h
        ∷ hash_of "s6_ver" h
        ∷ hash_of "linux_tar" h
        ∷ hash_of "busybox_tar" h
        ∷ hash_of "skalibs_tar" h
        ∷ hash_of "execline_tar" h
        ∷ hash_of "s6_tar" h
        ∷ []))
  where
    longer : (a b c : ℕ) → a ≡ b → b ≡ a + suc c → ⊥
    longer a b c e f = omega arith

-- Where there is no archive of a stage's source, the analyzer never takes the stage's cache for valid,
-- and changes nothing: it looks for the hash "None", which no stage saves.
pub check_stage_cache-none :
    ⦃env : Env⦄ (name ver : String) (w : World)
    → check_stage_cache name (expected_hash ver "") w ≡ (ok false, w)
unfolding check_stage_cache expected_hash exists gets pure ◌>>=◌
check_stage_cache-none name ver w = refl
