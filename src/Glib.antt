-- ===== src/Glib.antt =====
-- The names of GLib's that several files of the source share.
pub data IoStatus : Type 0 where
  error normal eof again : IoStatus

pub data IoCondition : Type 0 where
  io_in io_out io_err io_hup io_nval : IoCondition
