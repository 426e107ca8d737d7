-- ===== src/Misc.antt =====
-- lm-misc.c: sources for the main context, and the text of an I/O condition.
mod Condition
mod Tests
use lm_transport.Base.{
  ℕ, ◌+◌, Bool, true, false, Option, none, some, List, [], ◌∷◌, ◌++◌, is_some, if◌then◌else◌,
}

-- What the three functions make a source of.
pub data SourceKind : Type 0 where
  io_watch : (channel : ℕ) → (condition : ℕ) → SourceKind
  idle : SourceKind
  timeout : (interval : ℕ) → SourceKind

-- The calls that set a source up, latest first; `context` is none for the default context.
pub data SourceCall : Type 0 where
  create : (source : ℕ) → SourceKind → SourceCall
  set_callback : (source : ℕ) → (function : ℕ) → SourceCall
  attach : (source : ℕ) → (context : Option ℕ) → SourceCall
  unref : (source : ℕ) → SourceCall

setup_source : Option ℕ → ℕ → ℕ → List SourceCall → List SourceCall
setup_source context source function made =
    unref source ∷ attach source context ∷ set_callback source function ∷ made

-- `source` is the new source; the result is none where the guard fails.
pub add_io_watch :
    Option ℕ → Option ℕ → ℕ → ℕ → (source : ℕ) → List SourceCall → Option ℕ × List SourceCall
unfolding setup_source
add_io_watch context none condition function source made = (none, made)
add_io_watch context (some channel) condition function source made = (
  some source,
  setup_source context source function (create source (io_watch channel condition) ∷ made),
)

pub add_idle : Option ℕ → Option ℕ → (source : ℕ) → List SourceCall → Option ℕ × List SourceCall
unfolding setup_source
add_idle context none source made = (none, made)
add_idle context (some function) source made =
    (some source, setup_source context source function (create source idle ∷ made))

pub add_timeout :
    Option ℕ → ℕ → Option ℕ → (source : ℕ) → List SourceCall → Option ℕ × List SourceCall
unfolding setup_source
add_timeout context interval none source made = (none, made)
add_timeout context interval (some function) source made =
    (some source, setup_source context source function (create source (timeout interval) ∷ made))

-- The bits of a condition that the text shows.
pub record Flags : Type 0 where
  pub err : Bool
  pub hup : Bool
  pub nval : Bool
  pub input : Bool
  pub output : Bool

-- "G_IO_"
abbrev g_io : List ℕ → List ℕ
g_io l = b'G' ∷ b'_' ∷ b'I' ∷ b'O' ∷ b'_' ∷ l

abbrev err_text : List ℕ
err_text = g_io (b'E' ∷ b'R' ∷ b'R' ∷ 32 ∷ [])

abbrev hup_text : List ℕ
hup_text = g_io (b'H' ∷ b'U' ∷ b'P' ∷ 32 ∷ [])

abbrev nval_text : List ℕ
nval_text = g_io (b'N' ∷ b'V' ∷ b'A' ∷ b'L' ∷ 32 ∷ [])

abbrev in_text : List ℕ
in_text = g_io (b'I' ∷ b'N' ∷ 32 ∷ [])

abbrev out_text : List ℕ
out_text = g_io (b'O' ∷ b'U' ∷ b'T' ∷ 32 ∷ [])

abbrev cat : Bool → List ℕ → List ℕ → List ℕ
cat b text buf = if b then buf ++ text else buf

-- The buffer has 256 bytes.
pub io_condition_to_str : Flags → List ℕ
io_condition_to_str f =
    cat f.output out_text
      (cat f.input in_text (cat f.nval nval_text (cat f.hup hup_text (cat f.err err_text []))))
