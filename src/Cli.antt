-- ===== src/Cli.antt =====
-- sidecar/cmd/vmux-cli: the client on the command line, with its connection to the sidecar and the
-- terminal that it attaches to a session.
pub mod Client
pub mod Coherent
pub mod Answers
pub mod Attach
pub mod Heard
pub mod Command
mod Tests
