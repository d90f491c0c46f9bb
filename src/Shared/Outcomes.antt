-- ===== src/Shared/Outcomes.antt =====
-- Partial correctness of a fallible computation, with a rule for each way to build one.
use mathlib.Core.Path.{◌≡◌, refl, subst}
use mathlib.Core.Bool.{Bool, true, false}
use b.Shared.Tests.{if◌then◌else◌}
use b.Shared.Results.{Error, Result, ok, err, ◌>>=◌}

-- Whatever the computation gives has the property.
abbrev pub Gives {ℓ κ} : {A : Type ℓ} → (A → Type κ) → Result A → Type (ℓ ⊔ κ)
Gives P r = (a : _) → r ≡ ok a → P a

module _ {ℓ κ} {A : Type ℓ} (P : A → Type κ) where
  pub Gives-ok : (a : A) → P a → Gives P (ok a)
  Gives-ok a p b e = subst P (let same : a ≡ b = cc in same) p

  pub Gives-err : (cause : Error) → Gives P (err cause)
  Gives-err cause b e = absurd (cc)

  pub Gives-if :
      (test : Bool) (r s : Result A) → Gives P r → Gives P s → Gives P (if test then r else s)
  Gives-if true r s h k = h
  Gives-if false r s h k = k

  pub Gives->>= {ι} :
      {B : Type ι} (m : Result B) (f : B → Result A)
      → ((b : B) → m ≡ ok b → Gives P (f b))
      → Gives P (m >>= f)
  Gives->>= (err cause) f h a e = absurd (cc)
  Gives->>= (ok b) f h a e = h b refl a e
