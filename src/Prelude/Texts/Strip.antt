-- ===== src/Prelude/Texts/Strip.antt =====
-- `strip` undoes the line end that the pipeline writes behind a hash.
use Prim.Native.String.{String, [] as nil, ◌∷◌ as ◌◂◌, ◌++◌ as ◌<>◌}
use mathlib.Core.Path.{◌≡◌, refl}
use mathlib.Core.Bool.{false}
use text.Mathlib.TextLemmas.{cons-append, nil-append}
use pronze.Prelude.Tests.{string_eq}
use pronze.Prelude.Texts.{is_space, lstrip_by, rstrip_by, strip_by, strip}

-- No white space anywhere, as in a hexadecimal digest.
abbrev pub IsCompact : String → Type 0
IsCompact nil = Unit
IsCompact (c ◂ s) = (is_space c ≡ false) × IsCompact s

rstrip_compact : (s : String) → IsCompact s → rstrip_by is_space (s <> "\n") ≡ s
unfolding rstrip_by
rstrip_compact nil h = refl
rstrip_compact (c ◂ s) h = rw (cons-append c s "\n") (rw (rstrip_compact s h.1, rstrip_by) (rw h.0))

lstrip_compact :
    (s : String) → IsCompact s → rstrip_by is_space (lstrip_by is_space (s <> "\n")) ≡ s
unfolding lstrip_by rstrip_by
lstrip_compact nil h = refl
lstrip_compact (c ◂ s) h =
    rw (cons-append c s "\n") (rw (h.0, lstrip_by) (rw (rstrip_compact s h.1) (rw h.0)))

pub strip-append_newline : (s : String) → IsCompact s → strip (s <> "\n") ≡ s
unfolding strip strip_by
strip-append_newline s h = lstrip_compact s h

pub IsCompact-append : (s t : String) → IsCompact s → IsCompact t → IsCompact (s <> t)
IsCompact-append nil t h k = rw (nil-append t) k
IsCompact-append (c ◂ s) t h k = rw (cons-append c s t) (h.0, IsCompact-append s t h.1 k)

rstrip_tight : (s : String) → IsCompact s → rstrip_by is_space s ≡ s
unfolding rstrip_by
rstrip_tight nil h = refl
rstrip_tight (c ◂ s) h = rw (rstrip_tight s h.1) (rw h.0)

pub strip_compact : (s : String) → IsCompact s → strip s ≡ s
unfolding strip strip_by lstrip_by
strip_compact nil h = rstrip_tight nil tt
strip_compact (c ◂ s) h = rw h.0 (rstrip_tight (c ◂ s) h)
