-- ===== src/Server.antt =====
-- src/server: the managers, the handlers of client messages, and the server's loops.
pub mod Connections
pub mod Notification
pub mod Persistence
pub mod Message
pub mod NotificationManager
pub mod Handler
pub mod Loop
pub mod Disk
pub mod Restart
pub mod Receiver
pub mod Broadcast
pub mod Sender
pub mod Worker
