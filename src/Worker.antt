-- ===== src/Worker.antt =====
-- internal/worker: what each worker takes off its queue and what it tells the broker of it. The
-- deliveries of one channel, until it closes or the worker is stopped, come as a list.
pub mod Messages
pub mod Consume
pub mod Audit
pub mod Notification
