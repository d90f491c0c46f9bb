-- ===== src/Transport/Commands.antt =====
-- Commands on an open session, as functions of the session's state: what
-- crates/controller-core/src/transport/hidraw_write.rs and hidraw_device.rs call on
-- `&mut Session` and on the model it names.
pub mod Inversion
use b.Shared.{ℕ, List, Error, Result, ok, err}
use b.Model.Mode.{Mode}

-- What the commands ask of `dyn Model`; a model comes from its description files.
pub record PadModel : Type 0 where
  pub blob_size : ℕ
  pub slot_select_value : Mode → Result ℕ
  pub apply_argument : ℕ
  pub macro_gamepad_mode : Mode → Result ℕ

-- `Session::send_recv` and `Session::model`, on a state `S` of the session, the pad included.
pub record Session (S : Type 0) : Type 0 where
  pub send_recv : List ℕ → S → Result (List ℕ) × S
  pub model : Result PadModel
  pub current_mode : Mode

-- A call on `&mut Session` that may fail: the state after it is kept on an error too.
abbrev pub Call : Type 0 → Type 0 → Type 0
Call S A = S → Result A × S

infixl 5 ◌>>=◌ ◌>>◌
abbrev pub and_then : {S A B : Type 0} → Result A × S → (A → Call S B) → Result B × S
and_then (ok a, s) f = f a s
and_then (err e, s) f = (err e, s)

abbrev pub ◌>>=◌ : {S A B : Type 0} → Call S A → (A → Call S B) → Call S B
m >>= f = λ s. and_then (m s) f

abbrev pub ◌>>◌ : {S B : Type 0} → Call S (Unit {0}) → Call S B → Call S B
m >> k = m >>= λ _. k

-- A computation that does not use the session.
abbrev pub lift : {S A : Type 0} → Result A → Call S A
lift r = λ s. (r, s)

abbrev pub map_err_of : {S A : Type 0} → (Error → Error) → Result A × S → Result A × S
map_err_of f (ok a, s) = (ok a, s)
map_err_of f (err e, s) = (err (f e), s)

-- `Result::map_err` on the result of a call
abbrev pub map_err : {S A : Type 0} → (Error → Error) → Call S A → Call S A
map_err f m = λ s. map_err_of f (m s)
