-- ===== src/Shell.antt =====
-- user/eafitos.c: the interactive shell.
pub mod Text
pub mod Words
pub mod History
pub mod Ui
pub mod Loop
mod Tests
