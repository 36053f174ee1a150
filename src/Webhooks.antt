-- ===== src/Webhooks.antt =====
-- app/services/webhook_service.py: the delivery of the outbox, whose `enqueue` is Retention/Worker.
pub mod Delivery
pub mod Attempts
