-- ===== src/Api.antt =====
-- apps/api/src: the reader's half, which checks what the worker committed.
pub mod Receipt
