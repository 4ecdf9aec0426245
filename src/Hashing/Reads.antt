-- ===== src/Hashing/Reads.antt =====
-- Hashing reads, and changes nothing.
use pronze.Prelude.{List, [], ◌∷◌, string_eq}
use pronze.World.{World, Env, FilePath, Walked}
use pronze.Action.{Keeps, keeps_rules, Keeps-bind, Keeps-if, Keeps-pure}
use pronze.Os.Flags.{read-Keeps, isdir-Keeps, isfile-Keeps}
use pronze.Hashing.{get_file_hash, hash_walked, get_dir_hash, is_hashed}

module _ ⦃env : Env⦄ {P : World → Type 0} where
  pub get_file_hash-Keeps : (p : FilePath) → Keeps P (get_file_hash p)
  unfolding get_file_hash
  get_file_hash-Keeps p = search (keeps_rules, read-Keeps, isfile-Keeps)

  hash_walked-Keeps : (xs : List Walked) → Keeps P (hash_walked xs)
  unfolding hash_walked
  hash_walked-Keeps [] = search keeps_rules
  hash_walked-Keeps (x ∷ xs) =
      let rest = hash_walked-Keeps xs in
      Keeps-if (is_hashed x) _ (hash_walked xs)
        (Keeps-bind (get_file_hash x.path) _ (get_file_hash-Keeps x.path)
          (λ h. Keeps-bind (hash_walked xs) _ rest (λ more. Keeps-pure _)))
        rest

  pub get_dir_hash-Keeps : (d : FilePath) → Keeps P (get_dir_hash d)
  unfolding get_dir_hash
  get_dir_hash-Keeps d = search (keeps_rules, isdir-Keeps, hash_walked-Keeps)
