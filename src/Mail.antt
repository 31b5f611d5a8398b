-- ===== src/Mail.antt =====
-- Mail dispatch: backend/internal/mail. The activity log, and the dispatcher that writes it.
pub mod Activity
pub mod Dispatcher
