-- ===== src/Model/MacroSlot.antt =====
-- crates/controller-core/src/model/ids.rs: `MacroSlot`, a macro slot from 0 to 3.
use b.Shared.{ℕ, leb, if◌then◌else◌, Result, ok, err, validation}

pub record MacroSlot : Type 0 where
  pub get : ℕ

unfoldable pub new : ℕ → Result MacroSlot
new value = if leb value 3 then ok (record { get = value }) else err validation
