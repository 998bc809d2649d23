-- ===== src/Notification.antt =====
-- The Notification service: WhatsApp messages for the other services' events.
pub mod Consumer
mod Tests
