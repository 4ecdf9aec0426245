-- ===== src/Qemu/Log.antt =====
-- The console's log stays within its bound, and is always the end of what the guest has written.
use pronze.Prelude.{ℕ, ◌-◌, ◌≤◌, String, ◌<>◌, ◌≡◌, List, [], ◌∷◌, inl, inr, arith, ltb, Bool-cases}
use pronze.Prelude.Texts.{count_chars, prefix, concat}
use pronze.Prelude.Texts.Count.{count_chars-suffix_from, prefix-append-suffix_from}
use package.text.Mathlib.TextLemmas.{append_assoc, nil-append, append-nil}
use pronze.World.{World}
use pronze.Qemu.{push_log, last_chars, read_char, max_log, kept_log}

-- `t` is the end of `s`.
abbrev pub IsEnd : String → String → Type 0
IsEnd t s = (front : String) × (front <> t ≡ s)

push_log_le :
    (bound kept : ℕ) (log char : String)
    → kept ≤ bound
    → count_chars (push_log bound kept log char) ≤ bound
unfolding push_log last_chars
push_log_le bound kept log char h =
    ground (arith, count_chars-suffix_from (count_chars (log <> char) - kept) (log <> char))

push_log-IsEnd :
    (bound kept : ℕ) (log char : String) → IsEnd (push_log bound kept log char) (log <> char)
unfolding push_log last_chars
push_log-IsEnd bound kept log char = elim (Bool-cases (ltb bound (count_chars (log <> char)))) [
  | inl long ↦ rw long (
    prefix (count_chars (log <> char) - kept) (log <> char),
    prefix-append-suffix_from (count_chars (log <> char) - kept) (log <> char),
  )
  | inr fits ↦ rw fits ("", nil-append (log <> char))
]

-- The characters that the reader has read, one after the other.
abbrev pub read_all : List String → World → World
read_all [] w = w
read_all (c ∷ cs) w = read_all cs (read_char c w)

pub record IsConsole (written : String) (w : World) : Type 0 where
  pub bounded : count_chars w.qemu_log_buffer ≤ max_log
  pub latest : IsEnd w.qemu_log_buffer written

read_char-IsConsole :
    (written c : String) (w : World)
    → IsConsole written w
    → IsConsole (written <> c) (read_char c w)
unfolding read_char
read_char-IsConsole written c w h = record {
  bounded = push_log_le max_log kept_log w.qemu_log_buffer c (omega arith);
  latest =
      let shorter = push_log-IsEnd max_log kept_log w.qemu_log_buffer c in
      (
        h.latest.0 <> shorter.0,
        rw (
          append_assoc h.latest.0 shorter.0 (push_log max_log kept_log w.qemu_log_buffer c),
          shorter.1,
          ← append_assoc h.latest.0 w.qemu_log_buffer c,
          h.latest.1,
        ),
      );
}

-- However much the guest writes, the log that is kept has at most 200000 characters and is the end
-- of all that was written.
pub read_all-IsConsole :
    (cs : List String) (written : String) (w : World)
    → IsConsole written w
    → IsConsole (written <> concat cs) (read_all cs w)
read_all-IsConsole [] written w h = rw (append-nil written) h
read_all-IsConsole (c ∷ cs) written w h =
    rw (← append_assoc written c (concat cs))
      (read_all-IsConsole cs (written <> c) (read_char c w) (read_char-IsConsole written c w h))
