-- ===== src/Transport/Commands/Inversion.antt =====
-- What a call that succeeded did on the way.
use b.Shared.{Error, Result, ok, err, ◌≡◌, refl}
use b.Transport.Commands.{Call, and_then, map_err_of}

pub and_then-eq-ok :
    {S A B : Type 0} (r : Result A × S) (f : A → Call S B) {b : B} {s' : S}
    → and_then r f ≡ (ok b, s')
    → (a : A) × (s1 : S) × (r ≡ (ok a, s1)) × (f a s1 ≡ (ok b, s'))
and_then-eq-ok (ok a, s) f h = (a, s, refl, h)
and_then-eq-ok (err e, s) f h = cc

pub map_err_of-eq-ok :
    {S A : Type 0} (f : Error → Error) (r : Result A × S) {a : A} {s' : S}
    → map_err_of f r ≡ (ok a, s')
    → r ≡ (ok a, s')
map_err_of-eq-ok f (ok a, s) h = h
map_err_of-eq-ok f (err e, s) h = cc

-- A call that failed did not succeed.
pub failed_apart :
    {S A B : Type 0} {e : Error} {a : A} {s s' : S} (r : Result A × S)
    → r ≡ (err e, s)
    → r ≡ (ok a, s')
    → B
failed_apart (ok a, s) h k = absurd cc
failed_apart (err e, s) h k = absurd cc

-- What two calls in a row leave as it was.
pub and_then-preserved :
    {S A B : Type 0} (P : S → Type 0) (r : Result A × S) (f : A → Call S B)
    → P r.1
    → ((a : A) (s : S) → P s → P (f a s).1)
    → P (and_then r f).1
and_then-preserved P (ok a, s) f h step = step a s h
and_then-preserved P (err e, s) f h step = h
