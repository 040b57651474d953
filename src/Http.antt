-- ===== src/Http.antt =====
-- internal/httpapi: the handlers. Defs has responses and what the handlers use of Go's libraries,
-- Handlers the handlers, Routes their registration; Serving is about the handlers on the store in
-- memory.
pub mod Defs
pub mod Handlers
pub mod Serving
pub mod Routes
mod Tests
