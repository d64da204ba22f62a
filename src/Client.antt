-- ===== src/Client.antt =====
-- src/client and the client's messages of src/shared.
pub mod Message
pub mod Input
pub mod Typing
pub mod Commands
pub mod Arrival
pub mod Login
pub mod Session
pub mod Sender
pub mod Receiver
pub mod UserCommand
pub mod Connection
