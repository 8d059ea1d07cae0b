-- ===== src/Types.antt =====
-- src/roborun/types.h and the structs of the other headers: enumerations, their printed names,
-- and the records that the components exchange.
mod Enums
mod Data
pub mod Names
pub use Enums.*
pub use Data.*
