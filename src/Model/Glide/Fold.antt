-- ===== src/Model/Glide/Fold.antt =====
-- Folding loses nothing: the pad steps of the folded macro are the pad steps of the macro.
use mathlib.Core.Option
use b.Shared.{
  append-nil, length-drop, take-append-drop, length-take, drop, subst, ℕ, zero, suc, ◌≤◌, ◌<◌, min,
  ◌≡◌, refl, ap, ap₂, ◌∙◌, sym, inl, inr, List, [], ◌∷◌, ◌++◌, Option, none, some, false, length,
  take, drop, All, Option-cases, length-take, length-drop, arith,
}
use b.Model.Macros.{MacroStep, MacroDefinition}
use b.Model.Glide.{
  head?, expand_step, expand_one, expand_steps, is_empty, find_run, count_same, fold_loop, fold,
  expand,
}
use b.Model.Glide.Runs.{Folds, Found, find_run-Found, fold_run-Folds}
use b.Model.Glide.Plain.{
  count_same-NoGlide, expand_steps-NoGlide_append, get_elem?-split, SameHead, expand_one-next,
}
use b.Model.Glide.Expand.{SameAxes, NoGlide, expand_step-next}

-- A folded list stands for the list that it came from.
record StandsFor (out steps : List MacroStep) (ms : Option ℕ) : Type 0 where
  same_head : SameHead out steps
  same_expansion : expand_steps out ms ≡ expand_steps steps ms

keep_step :
    (s : MacroStep) (out rest : List MacroStep) (ms : Option ℕ)
    → StandsFor out rest ms
    → StandsFor (s ∷ out) (s ∷ rest) ms
unfolding expand_steps
keep_step s out rest ms h = record {
  same_head = λ c. refl;
  same_expansion = ap₂ ◌++◌ (expand_one-next s out rest ms h.same_head) h.same_expansion;
}

expand_one-gliding :
    (s next : MacroStep) (out more : List MacroStep) (ms : Option ℕ)
    → is_empty s.glide ≡ false
    → SameHead out (next ∷ more)
    → expand_one s (head? out) ms ≡ expand_step s next ms
unfolding expand_one
expand_one-gliding s next [] more ms e h = absurd h
expand_one-gliding s next (t ∷ out) more ms e h = rw e (expand_step-next s t next ms h)

All-take_le :
    (m n : ℕ) (steps : List MacroStep)
    → m ≤ n
    → All NoGlide (take n steps)
    → All NoGlide (take m steps)
All-take_le zero n steps h k = tt
All-take_le (suc m) zero steps h k = absurd (omega arith)
All-take_le (suc m) (suc n) [] h k = tt
All-take_le (suc m) (suc n) (s ∷ rest) h k = (k.0, All-take_le m n rest (omega arith) k.1)

SameHead-append :
    (s first : MacroStep) (out run more rest : List MacroStep)
    → run ≡ first ∷ more
    → SameAxes s first
    → SameHead (s ∷ out) (run ++ rest)
SameHead-append s first out run more rest e h =
    subst (λ t. SameHead (s ∷ out) (t ++ rest)) (sym e) h

-- A run that folds, in front of what was folded already.
fold_front :
    (run : List MacroStep) (next : MacroStep) (more out : List MacroStep) (ms : Option ℕ)
    (r : MacroStep × ℕ)
    → Folds run next ms r
    → All NoGlide run
    → StandsFor out (next ∷ more) ms
    → StandsFor (r.0 ∷ out) (run ++ (next ∷ more)) ms
fold_front run next more out ms r f plain_run h = record {
  same_head = SameHead-append r.0 f.first out run f.more (next ∷ more) f.whole f.starts;
  same_expansion =
      unfold expand_steps in
      (ap₂ ◌++◌ (expand_one-gliding r.0 next out more ms f.gliding h.same_head ∙ f.expands)
        h.same_expansion)
      ∙ sym (expand_steps-NoGlide_append run (next ∷ more) ms plain_run);
}

fold_step :
    (steps : List MacroStep) (ms : Option ℕ) (longest : ℕ) (r : MacroStep × ℕ)
    (out : List MacroStep)
    → Found steps ms longest r
    → All NoGlide (take longest steps)
    → longest < length steps
    → StandsFor out (drop r.1 steps) ms
    → StandsFor (r.0 ∷ out) steps ms
fold_step steps ms longest r out f plain_run inside h =
    let folds : Folds (take f.len steps) f.next ms r =
      fold_run-Folds (take f.len steps) f.next ms f.folds in
    let taken : r.1 ≡ f.len = omega (arith, folds.counted, length-take f.len steps) in
    let (more, behind) = get_elem?-split f.len steps f.there in
    let cut : drop r.1 steps ≡ f.next ∷ more = ap (λ (k : ℕ). drop k steps) taken ∙ behind in
    let joined : take f.len steps ++ (f.next ∷ more) ≡ steps =
      ap (λ t. take f.len steps ++ t) (sym behind) ∙ take-append-drop f.len steps in
    subst (λ t. StandsFor (r.0 ∷ out) t ms) joined
      (fold_front (take f.len steps) f.next more out ms r folds
        (All-take_le f.len longest steps f.short plain_run) (subst (λ t. StandsFor out t ms) cut h))

taken_pos :
    (steps : List MacroStep) (ms : Option ℕ) (longest : ℕ) {r : MacroStep × ℕ}
    → Found steps ms longest r
    → longest < length steps
    → 3 ≤ r.1
taken_pos steps ms longest f inside = omega (
  arith,
  (fold_run-Folds (take f.len steps) f.next ms f.folds).counted,
  length-take f.len steps,
  f.long,
  f.short,
)

-- The loop ends, and its result stands for the steps.
fold_loop-StandsFor :
    (fuel : ℕ) (ms : Option ℕ) (steps : List MacroStep)
    → length steps ≤ fuel
    → (out : List MacroStep) × (fold_loop fuel ms steps ≡ some out) × StandsFor out steps ms
unfolding fold_loop
fold_loop-StandsFor fuel ms [] h = ([], refl, record { same_head = tt; same_expansion = refl })
fold_loop-StandsFor zero ms (first ∷ rest) h = absurd (omega arith)
fold_loop-StandsFor (suc fuel) ms (first ∷ rest) h =
    elim (Option-cases (find_run steps ms longest)) [
      | inl no_run ↦
          let (out, e, stands) = fold_loop-StandsFor fuel ms rest (omega arith) in
          (
            first ∷ out,
            rw (no_run, fold_loop) (ap (Option.map (λ out. first ∷ out)) e),
            keep_step first out rest ms stands,
          )
      | inr (r, run) ↦
          let found : Found steps ms longest r = find_run-Found steps ms longest run in
          let shorter : length (drop r.1 steps) ≤ fuel =
            omega (arith, length-drop r.1 steps, taken_pos steps ms longest found (omega arith)) in
          let (out, e, stands) = fold_loop-StandsFor fuel ms (drop r.1 steps) shorter in
          (
            r.0 ∷ out,
            rw (run, fold_loop) (ap (Option.map (λ out. r.0 ∷ out)) e),
            fold_step steps ms longest r out found
                (count_same-NoGlide first steps longest (omega arith)) (omega arith) stands,
          )
    ]
  where
    steps : List MacroStep
    steps = first ∷ rest

    longest : ℕ
    longest = min (count_same first steps) (length rest)

-- For steps of any kind `fold` ends within its fuel, and the pad steps of the folded macro are those
-- of the macro itself.
pub expand-fold :
    (def : MacroDefinition) (ms : Option ℕ)
    → (out : MacroDefinition) × (fold def ms ≡ some out)
      × ((expand out ms).steps ≡ (expand def ms).steps)
unfolding fold expand
expand-fold def none = (def, refl, refl)
expand-fold def (some ms) =
    let (out, e, stands) =
      fold_loop-StandsFor (length def.steps) (some ms) def.steps (omega arith) in
    (
      record def { steps = out },
      ap (Option.map (λ out. record def { steps = out })) e,
      stands.same_expansion,
    )

unexpanded :
    (def : MacroDefinition) (ms : Option ℕ)
    → All NoGlide def.steps
    → (expand def ms).steps ≡ def.steps
unfolding expand
unexpanded def ms h =
    ap (λ t. expand_steps t ms) (sym (append-nil def.steps))
    ∙ expand_steps-NoGlide_append def.steps [] ms h
    ∙ ap (λ t. def.steps ++ t) (unfold expand_steps in refl)
    ∙ append-nil def.steps

-- Folding changes the steps alone.
expanded_def :
    (def out : MacroDefinition) (ms : Option ℕ)
    → fold def ms ≡ some out
    → (expand out ms).steps ≡ def.steps
    → expand out ms ≡ def
unfolding fold expand
expanded_def def out none e h = ground arith
expanded_def def out (some ms) e h =
    elim (Option-cases (fold_loop (length def.steps) (some ms) def.steps)) [
      | inl stuck ↦ absurd (ground arith)
      | inr (steps, done) ↦ ground arith
    ]

-- The steps of a pad, which have no glide marks: expanding the folded macro gives back exactly the
-- macro, and folding it once more gives the folded macro again.
pub fold_round_trip :
    (def : MacroDefinition) (ms : Option ℕ)
    → All NoGlide def.steps
    → (out : MacroDefinition) × (fold def ms ≡ some out)
      × (expand out ms ≡ def)
      × (fold (expand out ms) ms ≡ some out)
fold_round_trip def ms h =
    let (out, folded, same) = expand-fold def ms in
    let back : expand out ms ≡ def = expanded_def def out ms folded (same ∙ unexpanded def ms h) in
    (out, folded, back, ap (λ d. fold d ms) back ∙ folded)
