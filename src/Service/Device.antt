-- ===== src/Service/Device.antt =====
-- The device and the controller model that the services and the orchestrators are given: the traits
-- `DeviceIo` (crates/controller-core/src/transport/device_io.rs) and `Model` (device.rs).
use b.Shared.{ℕ, List, Bool, Option, Result}
use b.Model.Mode.{Mode}
use b.Model.Slot.{Slot}
use b.Transport.Commands.{Call}

-- What the services read of a model's description; descriptions are told apart by where they are.
pub record Description : Type 0 where
  pub identity : ℕ
  pub modes : List Mode
  pub slot_count : ℕ
  pub validated : Bool

-- `Model`, with its decoded profiles in `P`, a slot's decoded macros in `M` and their derived
-- equalities.
pub record Codec (P M : Type 0) : Type 0 where
  pub description : Result Description
  pub blob_size : ℕ
  pub read_back_writes : Bool
  pub slot_active : List ℕ → Slot → Result Bool
  pub map_profile : List ℕ → Slot → Mode → Result P
  pub decode_macro_metadata : List ℕ → Slot → Result M
  pub deactivate_profile : List ℕ → Slot → Result (List ℕ)
  pub same_profile : P → P → Bool
  pub same_macros : M → M → Bool

-- Which backup a file holds.
pub data BackupKind : Type 0 where
  after_failure before_write : BackupKind

-- `DeviceIo` on a state `D`, the files on disk included: `save_new` writes a file that did not
-- exist and gives its path.
pub record Device (D : Type 0) : Type 0 where
  pub attached : Call D Description
  pub read_all_profiles : Call D (List (List ℕ))
  pub begin_write : Call D (Option Mode)
  pub end_write : Option Mode → Call D (Unit {0})
  pub send_slot_select : Mode → Call D (Unit {0})
  pub write_full_profile : Mode → List ℕ → Call D (Unit {0})
  pub send_apply : Mode → Call D (Unit {0})
  pub save_new : BackupKind → Mode → Slot → List ℕ → Call D (List ℕ)
