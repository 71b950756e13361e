-- ===== src/Tests.antt =====
-- The witnesses of the theorems and the tests of the definitions, by component.
mod Notify
mod Chanlun
mod Market
mod Calendar
mod Dayrange
mod History
mod Minutes
mod Selection
mod Strategy
mod Execution
