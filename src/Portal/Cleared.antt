-- ===== src/Portal/Cleared.antt =====
-- The loop of /api/rebuild in `do_POST` that deletes the flags of the cache.
use pronze.Prelude.{
  String, ◌≡◌, refl, subst, sym, ap, ◌∙◌, Bool, true, false, ◌&&◌, ◌||◌, inl, inr, ◌⊎◌, Bool-cases,
  Option, none, some, List, [], ◌∷◌, ◌==◌, string_eq, arith, eq_iff, beq_refl, if◌then◌else◌,
  contains,
}
use pronze.Prelude.Dict.{lookup, erase, lookup-erase}
use pronze.World.{World, FilePath, root, ◌/◌, path_eq, Fs, Node, file, dir, symlink, children}
use pronze.Action.{
  pure, raise, modify, gets, ◌>>=◌, try_except, try_pass, for_each, Ends, Triple, Triple-bind,
  Triple-pure, ok,
}
use pronze.Os.{remove, remove_entry, set_fs}
use pronze.Os.Flags.{IsAbsent}
use pronze.Portal.Post.{is_cache_flag, clear_flag}

-- What `os.remove` can take away: anything but a directory.
abbrev pub IsPlain : Option Node → Type 0
IsPlain none = Unit
IsPlain (some (file c)) = Unit
IsPlain (some dir) = ⊥
IsPlain (some (symlink t)) = Unit

skip :
    (x n : Node) (o : Option Node) (c : Bool)
    → c ≡ false
    → (if c then some x else o) ≡ some n
    → o ≡ some n
skip x n o true h k = absurd (ground arith)
skip x n o false h k = k

-- `os.listdir` lists what stands right below.
pub children-contains :
    (d : FilePath) (a : String) (n : Node) (fs : Fs)
    → lookup (d / a) fs ≡ some n
    → contains a (children fs d) ≡ true
unfolding lookup children
children-contains d a n [] h = ground arith
children-contains d a n ((root, x) ∷ fs) h = children-contains d a n fs h
children-contains d a n ((p / b, x) ∷ fs) h = elim (Bool-cases (p == d)) [
  | inl here ↦ rw here (elim (Bool-cases (b == a)) [
    | inl same ↦ ground (arith, eq_iff a b, eq_iff b a)
    | inr other ↦ ground (
      arith,
      children-contains d a n fs (skip x n (lookup (d / a) fs) (b == a && p == d) (ground arith) h),
    )
  ])
  | inr elsewhere ↦ rw elsewhere (
      children-contains d a n fs (skip x n (lookup (d / a) fs) (b == a && p == d) (ground arith) h))
]

tried_entry :
    (p : FilePath) (w : World) (node : Option Node)
    → ((try_pass (remove_entry p node) w ≡ (ok tt, w)) × (IsPlain node → node ≡ none))
      ⊎ (try_pass (remove_entry p node) w ≡ (ok tt, set_fs (erase p) w))
unfolding try_except raise modify pure
tried_entry p w none = inl (refl, λ x. refl)
tried_entry p w (some (file c)) = inr refl
tried_entry p w (some dir) = inl (refl, λ x. absurd x)
tried_entry p w (some (symlink t)) = inr refl

-- What can be removed is gone when its removal was tried, and nothing else is.
tried :
    (p : FilePath) (w : World)
    → ((try_pass (remove p) w ≡ (ok tt, w)) × (IsPlain (lookup p w.fs) → lookup p w.fs ≡ none))
      ⊎ (try_pass (remove p) w ≡ (ok tt, set_fs (erase p) w))
unfolding remove try_except gets ◌>>=◌
tried p w = tried_entry p w (lookup p w.fs)

IsPlain-if : (c : Bool) (o : Option Node) → IsPlain o → IsPlain (if c then none else o)
IsPlain-if true o h = tt
IsPlain-if false o h = h

none_if : (c : Bool) (o : Option Node) → (c ≡ false → o ≡ none) → (if c then none else o) ≡ none
none_if true o h = refl
none_if false o h = h refl

come :
    (d : FilePath) (a b : String) (rest : Bool)
    → rest ≡ false
    → (d / b == d / a) ≡ false
    → (a == b || rest) ≡ false
come d a b rest gone other = ground (arith, eq_iff a b, eq_iff b a, beq_refl d)

pub contradiction : true ≡ false → ⊥
contradiction h = ground arith

module _ (d : FilePath) (a : String) (flag : is_cache_flag a ≡ true) (Q : World → Type 0)
    (removal : (p : FilePath) (w : World) → Q w → Q (set_fs (erase p) w)) where
  -- `a` is no directory, and gone unless it is still to come.
  abbrev pub Clearing : Bool → World → Type 0
  Clearing to_come w = IsPlain (lookup (d / a) w.fs) × (to_come ≡ false → IsAbsent (d / a) w) × Q w

  erased :
      (b : String) (rest : Bool) (w : World)
      → Clearing (a == b || rest) w
      → Clearing rest (set_fs (erase (d / b)) w)
  erased b rest w h = (
    rw lookup-erase (IsPlain-if (d / b == d / a) (lookup (d / a) w.fs) h.0),
    λ gone. rw lookup-erase (
        none_if (d / b == d / a) (lookup (d / a) w.fs) (λ other. h.1 (come d a b rest gone other))),
    removal (d / b) w h.2,
  )

  kept :
      (b : String) (rest : Bool) (w : World)
      → (a ≡ b → IsAbsent (d / a) w)
      → Clearing (a == b || rest) w
      → Clearing rest w
  kept b rest w here h = (
    h.0,
    λ gone. elim (Bool-cases (a == b)) [
      | inl same ↦ here ((eq_iff a b).0 same)
      | inr other ↦ h.1 (ground arith)
    ],
    h.2,
  )

  cleared :
      (b : String) (rest : Bool) (w : World)
      → Clearing (a == b || rest) w
      → Ends (λ _. Clearing rest) (λ _. ⊥) (clear_flag d b w)
  unfolding pure
  cleared b rest w h = elim (Bool-cases (is_cache_flag b)) [
    | inl is ↦ elim (tried (d / b) w) [
      | inl (e, gone) ↦
          rw (is, e)
            (kept b rest w
              (λ same.
                subst (λ x. IsPlain (lookup (d / x) w.fs) → lookup (d / x) w.fs ≡ none) (sym same)
                  gone h.0)
              h)
      | inr e ↦ rw (is, e) (erased b rest w h)
    ]
    | inr other ↦ rw other (
        kept b rest w (λ same. absurd (contradiction (sym flag ∙ (ap is_cache_flag same ∙ other))))
          h)
  ]

  pub all_cleared :
      (names : List String)
      → Triple
          (Clearing (contains a names))
          (for_each names (clear_flag d))
          (λ _. Clearing false)
          (λ _. ⊥)
  unfolding for_each
  all_cleared [] = Triple-pure tt (λ w h. h)
  all_cleared (b ∷ names) =
      Triple-bind (clear_flag d b) (λ _. for_each names (clear_flag d))
        (record { at = cleared b (contains a names) }) (λ _. all_cleared names)
