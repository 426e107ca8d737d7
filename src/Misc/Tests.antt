-- ===== src/Misc/Tests.antt =====
-- The text of one condition of lm-misc.c.
use lm_transport.Base.{◌≡◌, refl, ◌<◌, true, false, some, length}
use lm_transport.Misc.{Flags, io_condition_to_str}
use lm_transport.Misc.Condition.{read_flags, read_flags-io_condition_to_str}

abbrev broken : Flags
broken = record { err = true; hup = true; nval = false; input = false; output = false }

two_conditions : length (io_condition_to_str broken) ≡ 18
unfolding io_condition_to_str
two_conditions = refl

read_flags-io_condition_to_str_example :
    (read_flags (io_condition_to_str broken) ≡ some broken)
    × (length (io_condition_to_str broken) < 256)
read_flags-io_condition_to_str_example = read_flags-io_condition_to_str broken
