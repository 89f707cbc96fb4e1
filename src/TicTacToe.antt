-- ===== src/TicTacToe.antt =====
-- TicTacToe/Server: the game server and its messages.
pub mod Message
pub mod Board
pub mod State
pub mod Server
pub mod Loop
mod Tests
