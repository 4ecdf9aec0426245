-- ===== src/Os/Links.antt =====
-- Files that no symbolic link leads to: what is written or copied to another name is not written there.
use pronze.Prelude.{
  ℕ, zero, suc, Bool, true, false, ◌≡◌, refl, sym, ◌∙◌, Option, none, some, ◌==◌, string_eq, arith,
  if◌then◌else◌,
}
use pronze.Prelude.Dict.{lookup, insert, erase, lookup-insert, lookup-erase}
use pronze.World.{
  World, FilePath, root, ◌/◌, path_eq, basename, Fs, Node, file, dir, symlink, Content, Target,
  entry_at, end_at, real_path, target_path, max_links,
}
use pronze.Action.{Result, ok, err, ⊤, raise, Keeps, Ends, ◌⨾◌, Keeps-if, Keeps-raise}
use pronze.Os.{write, write_at, write_if, can_write, copy2}
use pronze.Os.Flags.{isdir-Keeps, read-Keeps}

-- No symbolic link leads to `q`.
pub record IsUnlinked (q : FilePath) (fs : Fs) : Type 0 where
  pub avoids :
      (p : FilePath) (t : Target)
      → entry_at fs p ≡ some (symlink t)
      → (target_path p t == q) ≡ false

module _ (o : Option Node) (t : Target) where
  pub put :
      (b : Bool) (c : Content)
      → (if b then some (file c) else o) ≡ some (symlink t)
      → o ≡ some (symlink t)
  put true c h = absurd (ground arith)
  put false c h = h

  taken : (b : Bool) → (if b then none else o) ≡ some (symlink t) → o ≡ some (symlink t)
  taken true h = absurd (ground arith)
  taken false h = h

module _ (q : FilePath) where
  -- a path, if there is one, that is not `q`
  abbrev IsElsewhere : Option FilePath → Type 0
  IsElsewhere none = Unit
  IsElsewhere (some r) = (r == q) ≡ false

  end_at-IsElsewhere :
      (deeper : FilePath → Option FilePath) (fs : Fs)
      → IsUnlinked q fs
      → ((p : FilePath) → (p == q) ≡ false → IsElsewhere (deeper p))
      → (p : FilePath) (e : Option Node) → entry_at fs p ≡ e
      → (p == q) ≡ false
      → IsElsewhere (end_at deeper p e)
  end_at-IsElsewhere deeper fs free ih p none h other = other
  end_at-IsElsewhere deeper fs free ih p (some (file c)) h other = other
  end_at-IsElsewhere deeper fs free ih p (some dir) h other = other
  end_at-IsElsewhere deeper fs free ih p (some (symlink t)) h other =
      ih (target_path p t) (free.avoids p t h)

  real_path-IsElsewhere :
      (n : ℕ) (fs : Fs)
      → IsUnlinked q fs
      → (p : FilePath) → (p == q) ≡ false
      → IsElsewhere (real_path n fs p)
  unfolding real_path
  real_path-IsElsewhere zero fs free p other = tt
  real_path-IsElsewhere (suc n) fs free p other =
      end_at-IsElsewhere (real_path n fs) fs free (real_path-IsElsewhere n fs free) p
        (entry_at fs p) refl other

  -- Neither a new file nor the end of an entry makes a link.
  pub insert-IsUnlinked :
      (r : FilePath) (c : Content) (fs : Fs) → IsUnlinked q fs → IsUnlinked q (insert r (file c) fs)
  insert-IsUnlinked r c fs free = record { avoids = avoids }
    where
      avoids :
          (p : FilePath) (t : Target)
          → entry_at (insert r (file c) fs) p ≡ some (symlink t)
          → (target_path p t == q) ≡ false
      avoids root t h = free.avoids root t h
      avoids (p / a) t h =
          free.avoids (p / a) t (
            put (lookup (p / a) fs) t (r == p / a) c
              (sym (lookup-insert r (p / a) (file c) fs) ∙ h))

  pub erase-IsUnlinked : (r : FilePath) (fs : Fs) → IsUnlinked q fs → IsUnlinked q (erase r fs)
  erase-IsUnlinked r fs free = record { avoids = avoids }
    where
      avoids :
          (p : FilePath) (t : Target)
          → entry_at (erase r fs) p ≡ some (symlink t)
          → (target_path p t == q) ≡ false
      avoids root t h = free.avoids root t h
      avoids (p / a) t h =
          free.avoids (p / a) t
            (taken (lookup (p / a) fs) t (r == p / a) (sym (lookup-erase r (p / a) fs) ∙ h))

-- Nothing stands at `q`, and no symbolic link leads there.
abbrev pub IsUnmade : FilePath → Fs → Type 0
IsUnmade q fs = (lookup q fs ≡ none) × IsUnlinked q fs

module _ (q : FilePath) where
  -- A file under another name makes neither.
  insert-IsUnmade :
      (r : FilePath) (c : Content) (fs : Fs)
      → (r == q) ≡ false
      → IsUnmade q fs
      → IsUnmade q (insert r (file c) fs)
  insert-IsUnmade r c fs other h = (rw lookup-insert (rw other h.0), insert-IsUnlinked q r c fs h.1)

  write_if-IsUnmade :
      (r : FilePath) (c : Content) (w : World) (can : Result ⊤)
      → (r == q) ≡ false
      → IsUnmade q w.fs
      → Ends (λ _ v. IsUnmade q v.fs) (λ v. IsUnmade q v.fs) (write_if can r c w)
  write_if-IsUnmade r c w (ok _) other h = insert-IsUnmade r c w.fs other h
  write_if-IsUnmade r c w (err e) other h = h

  write_at-IsUnmade :
      (c : Content) (end : Option FilePath) (p : FilePath) (w : World)
      → IsElsewhere q end
      → IsUnmade q w.fs
      → Ends (λ _ v. IsUnmade q v.fs) (λ v. IsUnmade q v.fs) (write_at c end p w)
  write_at-IsUnmade c none p w other h = h
  write_at-IsUnmade c (some r) p w other h = write_if-IsUnmade r c w (can_write w.fs r) other h

  pub write-IsUnmade :
      (p : FilePath) (c : Content) → (p == q) ≡ false → Keeps (λ w. IsUnmade q w.fs) (write p c)
  unfolding write
  write-IsUnmade p c other = record {
    at = λ w h.
        write_at-IsUnmade c (real_path max_links w.fs p) p w
          (real_path-IsElsewhere q max_links w.fs h.1 p other) h;
  }

  -- Nor does a copy to another name, or into a directory under another name.
  pub copy2-IsUnmade :
      (src dst : FilePath)
      → (dst == q) ≡ false
      → (dst / basename src == q) ≡ false
      → Keeps (λ w. IsUnmade q w.fs) (copy2 src dst)
  unfolding copy2
  copy2-IsUnmade src dst plain inside = isdir-Keeps dst ⨾ λ into. read-Keeps src ⨾ λ c.
      Keeps-if _ (raise _) (write _ c) (Keeps-raise _) (write-IsUnmade _ c (elsewhere into))
    where
      elsewhere : (into : Bool) → ((if into then dst / basename src else dst) == q) ≡ false
      elsewhere true = inside
      elsewhere false = plain
