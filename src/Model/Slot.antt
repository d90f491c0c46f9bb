-- ===== src/Model/Slot.antt =====
-- crates/controller-core/src/model/ids.rs: `Slot`, a 1-based profile slot.
use b.Shared.{ℕ, leb, ◌==◌, if◌then◌else◌, Result, ok, err, validation}

pub record Slot : Type 0 where
  pub get : ℕ

unfoldable pub new : ℕ → Result Slot
new value = if value == 0 then err validation else ok (record { get = value })

unfoldable pub check : Slot → ℕ → Result Slot
check s count = if leb s.get count then ok s else err validation
