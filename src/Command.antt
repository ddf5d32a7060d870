-- ===== src/Command.antt =====
-- internal/command: from a command's definition and its input to a backend call and its response.
pub mod Path
pub mod Number
pub mod Expression
pub mod Mapper
pub mod Response
pub mod Executor
mod Tests
