-- ===== src/Http.antt =====
-- The HTTP side: handler/ and internal/server/.
mod Tests
mod ServerTests
mod PreviewTests
pub mod Reply
pub mod Path
pub mod CommandHandler
pub mod MuEdHandler
pub mod Server
pub mod Listen
pub mod Lambda
