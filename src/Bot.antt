-- ===== src/Bot.antt =====
-- src/bot.rs: the handlers of messages and taps (Handler), the commands, and what the buttons of a
-- message ask for (Callback). Each handler is a computation of Act.antt.
pub mod Callback
pub mod Buttons
pub mod Replies
pub mod Triage
pub mod FullText
pub mod Settings
pub mod Threads
pub mod Login
pub mod Logout
pub mod Search
pub mod Sharing
pub mod Keyboards
pub mod Handler
