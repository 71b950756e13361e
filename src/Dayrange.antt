-- ===== src/Dayrange.antt =====
-- internal/dayrange: the premarket forecasts, of which the delivery of cards and their advice are here.
pub mod Delivery
pub mod Execution
