-- ===== src/Base.antt =====
-- src/base: the entities that the storages hold.
pub mod Method
pub mod Currency
pub mod Balance
pub mod Order
pub mod Market
pub mod Laws
