-- ===== src/Commands.antt =====
-- core/commands.ts: from a message to a command, and the commands that change state.
pub mod Words
pub mod Parsing
pub mod Route
pub mod Amounts
pub mod BetText
pub mod MeetupCommand
pub mod MeetupRights
pub mod TcCommand
pub mod TcManagement
