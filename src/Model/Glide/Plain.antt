-- ===== src/Model/Glide/Plain.antt =====
-- Expansion where no step glides: the plain part of a macro.

use b.Shared.{
  drop, ℕ, zero, suc, ◌≤◌, ◌≡◌, refl, ap, ap₂, sym, List, [], ◌∷◌, ◌++◌, Option, none, some, true,
  take, drop, get_elem?, All, arith, if◌then◌else◌,
}
use b.Model.Macros.{GlideControl, MacroStep}
use b.Model.Glide.{head?, plain_step, expand_one, expand_steps, is_empty, count_same}
use b.Model.Glide.Expand.{SameAxes, NoGlide, expand_step-next}

is_empty→eq : (glide : List GlideControl) → is_empty glide ≡ true → glide ≡ []
is_empty→eq [] h = refl
is_empty→eq (c ∷ glide) h = cc

-- The steps counted hold no glide.
pub count_same-NoGlide :
    (first : MacroStep) (steps : List MacroStep) (n : ℕ)
    → n ≤ count_same first steps
    → All NoGlide (take n steps)
unfolding count_same
count_same-NoGlide first steps zero h = tt
count_same-NoGlide first [] (suc n) h = tt
count_same-NoGlide first (s ∷ rest) (suc n) h =
    (is_empty→eq s.glide (ground arith), count_same-NoGlide first rest n (ground arith))

plain_step-NoGlide : (s : MacroStep) → NoGlide s → plain_step s ≡ s
plain_step-NoGlide s h = ap (λ g. record s { glide = g }) (sym h)

expand_one-NoGlide :
    (s : MacroStep) (next : Option MacroStep) (ms : Option ℕ)
    → NoGlide s
    → expand_one s next ms ≡ s ∷ []
unfolding expand_one
expand_one-NoGlide s none ms h = ap (λ t. t ∷ []) (plain_step-NoGlide s h)
expand_one-NoGlide s (some next) ms h =
    let e : is_empty s.glide ≡ true = ap is_empty h in
    rw e (ap (λ t. t ∷ []) (plain_step-NoGlide s h))

-- Steps with no glide expand to themselves.
pub expand_steps-NoGlide_append :
    (run rest : List MacroStep) (ms : Option ℕ)
    → All NoGlide run
    → expand_steps (run ++ rest) ms ≡ run ++ expand_steps rest ms
unfolding expand_steps
expand_steps-NoGlide_append [] rest ms h = refl
expand_steps-NoGlide_append (s ∷ run) rest ms h =
    ap₂ ◌++◌ (expand_one-NoGlide s (head? (run ++ rest)) ms h.0)
      (expand_steps-NoGlide_append run rest ms h.1)

pub get_elem?-split :
    (n : ℕ) (steps : List MacroStep) {next : MacroStep}
    → get_elem? steps n ≡ some next
    → (more : List MacroStep) × (drop n steps ≡ next ∷ more)
get_elem?-split n [] e = absurd (cc)
get_elem?-split zero (s ∷ rest) e = (rest, cc)
get_elem?-split (suc n) (s ∷ rest) e = get_elem?-split n rest e

-- Both end, or both go on with the same control values.
abbrev pub SameHead : List MacroStep → List MacroStep → Type 0
SameHead [] [] = Unit {0}
SameHead [] (t ∷ ts) = ⊥
SameHead (s ∷ ss) [] = ⊥
SameHead (s ∷ ss) (t ∷ ts) = SameAxes s t

pub expand_one-next :
    (s : MacroStep) (xs ys : List MacroStep) (ms : Option ℕ)
    → SameHead xs ys
    → expand_one s (head? xs) ms ≡ expand_one s (head? ys) ms
unfolding expand_one
expand_one-next s [] [] ms h = refl
expand_one-next s [] (t ∷ ts) ms h = absurd h
expand_one-next s (x ∷ xs) [] ms h = absurd h
expand_one-next s (x ∷ xs) (t ∷ ts) ms h =
    ap (λ e. if is_empty s.glide then plain_step s ∷ [] else e) (expand_step-next s x t ms h)
