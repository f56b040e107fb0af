-- ===== src/Legacy.antt =====
-- src/old.c: the handler of the earlier server, which answers requests itself.
pub mod World
pub mod Receive
pub mod Respond
pub mod Handler
pub mod Files
pub mod Memory
pub mod Download
pub mod Decimal
pub mod BodyLength
pub mod Texts
pub mod Lengths
pub mod Headers
pub mod Parsed
pub mod Answered
pub mod Keeps
pub mod Filename
pub mod Frame
pub mod Fetched
pub mod Body
pub mod Posted
pub mod Created
pub mod Empty
mod Tests
