-- ===== src/Misc/Condition.antt =====
-- The text of an I/O condition in lm-misc.c.
use lm_transport.Base.{
  ℕ, ◌<◌, ◌≡◌, Bool, true, false, Option, none, some, List, [], ◌∷◌, ◌==◌, if◌then◌else◌, length,
  arith,
}
use lm_transport.Classes.{codes}
use lm_transport.Misc.{Flags, io_condition_to_str}

-- The rest of a text behind a name; none where the text does not start with the name.
strip : List ℕ → List ℕ → Option (List ℕ)
strip [] l = some l
strip (c ∷ name) [] = none
strip (c ∷ name) (d ∷ l) = let rest = strip name l in if c == d then rest else none

-- Whether the text starts with a name, and the rest.
accept : List ℕ → List ℕ → Bool × List ℕ
unfolding strip
accept name l = elim (strip name l) [ none ↦ (false, l) | some rest ↦ (true, rest) ]

ended : List ℕ → Flags → Option Flags
ended [] f = some f
ended (_ ∷ _) f = none

-- Reads a list of the five names, each at most once, in their order and followed by a space; none of
-- a text that is anything else.
pub read_flags : List ℕ → Option Flags
unfolding accept ended
read_flags l =
    let (has_err, after_err) = accept (codes "G_IO_ERR ") l in
    let (has_hup, after_hup) = accept (codes "G_IO_HUP ") after_err in
    let (has_nval, after_nval) = accept (codes "G_IO_NVAL ") after_hup in
    let (has_in, after_in) = accept (codes "G_IO_IN ") after_nval in
    let (has_out, after_out) = accept (codes "G_IO_OUT ") after_in in
    ended after_out
      (record { err = has_err; hup = has_hup; nval = has_nval; input = has_in; output = has_out })

-- The text is a list of the exact names of the conditions that are set, and of nothing else, and fits
-- the buffer with its terminator.
pub read_flags-io_condition_to_str :
    (f : Flags)
    → (read_flags (io_condition_to_str f) ≡ some f) × (length (io_condition_to_str f) < 256)
unfolding read_flags io_condition_to_str accept strip ended
read_flags-io_condition_to_str f = ground arith
