-- ===== src/Modules/Numbers.antt =====
-- The number of a build: written to .archive/build_number as text, read back by the next build.
use pronze.Prelude.{ℕ, String, Option, none, ◌+◌, ◌≡◌, refl, true, some}
use pronze.Prelude.Texts.{show_nat, strip, parse_nat}
use pronze.Prelude.Texts.Digits.{parse_nat-show_nat}
use pronze.World.{World, FilePath, ◌/◌, text}
use pronze.Action.{Action, value_error, raise, ok, pure, gets, modify, ◌>>=◌, try_except}
use pronze.Os.{exists}
use pronze.Os.Flags.{Holds, exists-Holds, read_text-Holds}
use pronze.Config.{read_number, init_build_info}
use pronze.Modules.{next_number}

module _ (d : FilePath) (a : String) (n : ℕ) (w : World)
    (held : Holds (d / a) (text (show_nat n)) w) where
  read_number-Holds : read_number (d / a) w ≡ (ok n, w)
  unfolding read_number ◌>>=◌ pure
  read_number-Holds =
      rw (read_text-Holds d a (show_nat n) w held)
        (by_value (parse_nat (strip (show_nat n))) (parse_nat-show_nat n))
    where
      by_value :
          (o : Option ℕ)
          → o ≡ some n
          → (elim o as (λ _. Action ℕ) [
            | none ↦ raise (value_error (show_nat n))
            | some m ↦ pure m
          ])
              w
            ≡ (ok n, w)
      by_value o h = rw h refl

  there : exists (d / a) w ≡ (ok true, w)
  unfolding exists gets
  there = rw (exists-Holds d a (text (show_nat n)) w held)

  next_number-Holds : next_number (d / a) w ≡ (ok (n + 1), w)
  unfolding ◌>>=◌ try_except pure
  next_number-Holds = rw there (rw read_number-Holds)

-- Where .archive/build_number holds the text that the end of a build writes there for a number
-- `n`, the start of the next build takes `n` as its build number and changes nothing else, and the
-- end of a build takes the number after `n`.
pub build_number_back :
    (ws : FilePath) (n : ℕ) (w : World)
    → Holds (ws / ".archive" / "build_number") (text (show_nat n)) w
    → (init_build_info ws w ≡ (ok tt, record w { build_number = n }))
      × (next_number (ws / ".archive" / "build_number") w ≡ (ok (n + 1), w))
unfolding init_build_info ◌>>=◌ try_except modify
build_number_back ws n w held = (
  rw (there (ws / ".archive") "build_number" n w held)
      (rw (read_number-Holds (ws / ".archive") "build_number" n w held)),
  next_number-Holds (ws / ".archive") "build_number" n w held,
)
