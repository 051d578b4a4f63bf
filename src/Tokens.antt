-- ===== src/Tokens.antt =====
-- The buttons of a Telegram review: app/inmem/inmem.go and postgres/telegram_review_actions.go.
pub mod Memory
pub mod Postgres
pub mod Agree
