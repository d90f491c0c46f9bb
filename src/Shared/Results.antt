-- ===== src/Shared/Results.antt =====
-- The crate's error type and result monad: crates/controller-core/src/error.rs. The text of a
-- message is left out; the parts that the program reads back are kept.
use Prim.Native.Nat.{ℕ}
use mathlib.Core.Bool.{Bool, true, false}
use mathlib.Core.Option.{Option, none, some}

pub data Error : Type 0 where
  no_device : Error
  unsupported_model : ℕ → Error
  permission_denied usb timeout disconnected decode validation invalid io : Error
  -- the failed chunk, if the failure is tied to one, and the number of chunks
  write : Option ℕ → ℕ → Error

pub data Result {ℓ} (T : Type ℓ) : Type ℓ where
  err : Error → Result T
  ok : T → Result T

-- The operator `?`: the first error ends the block.
infixl 5 ◌>>=◌ ◌>>◌
abbrev pub ◌>>=◌ {ℓ κ} : {T : Type ℓ} {U : Type κ} → Result T → (T → Result U) → Result U
err cause >>= then = err cause
ok value >>= then = then value

abbrev pub ◌>>◌ {ℓ} : {U : Type ℓ} → Result (Unit {0}) → Result U → Result U
first >> second = first >>= λ done. second

-- `if bad { return Err(e) }`
abbrev pub refuse_if : Bool → Error → Result (Unit {0})
refuse_if true e = err e
refuse_if false e = ok tt

abbrev pub ok_or {ℓ} : {A : Type ℓ} → Option A → Error → Result A
ok_or none e = err e
ok_or (some a) e = ok a

abbrev pub unwrap_or {ℓ} : {A : Type ℓ} → Result A → A → A
unwrap_or (err e) default = default
unwrap_or (ok a) default = a
