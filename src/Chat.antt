-- ===== src/Chat.antt =====
-- src/modules/chat: channels, direct pairs, members and messages.
pub mod Row
pub mod Repository
pub mod Channel
pub mod Message
pub mod Sequence
pub mod Creation
pub mod Requests
pub mod Resend
pub mod Direct
