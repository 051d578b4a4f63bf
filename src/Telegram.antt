-- ===== src/Telegram.antt =====
-- internal/telegram: the request that a message becomes, and the review of the backlog by buttons.
pub mod Message
pub mod Chat
pub mod Render
pub mod Backlog
pub mod Review
pub mod Still
pub mod Guards
pub mod Trail
pub mod Once
pub mod Buttons
pub mod Wrap
pub mod Desk
pub mod Pending
pub mod Intake
pub mod Writing
pub mod Handling
pub mod Updates
pub mod Kept
