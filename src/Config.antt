-- ===== src/Config.antt =====
-- lib/tconfig.c and lib/tconfig.h: the reader and writer of ini files, and the table behind them.
pub mod Problem
pub mod Table
pub mod Sink
pub mod Reader
pub mod Writer
pub mod RoundTrip
pub mod Interface
