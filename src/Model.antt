-- ===== src/Model.antt =====
-- crates/controller-core/src/model: the identifiers, and macros with their glides.
pub mod Mode
pub mod Slot
pub mod MacroSlot
pub mod Macros
pub mod Glide
mod Tests
