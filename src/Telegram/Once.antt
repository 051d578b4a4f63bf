-- ===== src/Telegram/Once.antt =====
-- The token of a button of the backlog works once.
use project_brain.Telegram.Chat.{Chat}
