-- ===== src/Cmd.antt =====
-- The command line: cmd/, with what it calls of app/, internal/shell/ and util/.
pub mod Root
mod Tests
mod RootTests
pub mod Serve
pub mod Shell
pub mod Run
