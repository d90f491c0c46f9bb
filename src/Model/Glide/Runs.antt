-- ===== src/Model/Glide/Runs.antt =====
-- The runs that folding finds: a run that folds expands to itself again.

use b.Shared.{
  subst, ℕ, zero, suc, ◌≤◌, ◌≡◌, refl, ◌⊎◌, inl, inr, List, [], ◌∷◌, Option, some, true, false,
  length, take, get_elem?, Option-cases, arith,
}
use b.Model.Macros.{
  left_stick, right_stick, left_trigger, right_trigger, MacroStep, same_steps, same_steps→eq,
}
use b.Model.Glide.{axes, expand_step, is_empty, folded_step, fold_run, find_run}
use b.Model.Glide.Expand.{SameAxes}

folded_step-axes :
    (first : MacroStep) (run : List MacroStep) → SameAxes (folded_step first run) first
unfolding folded_step axes
folded_step-axes first run left_stick = refl
folded_step-axes first run right_stick = refl
folded_step-axes first run left_trigger = refl
folded_step-axes first run right_trigger = refl

-- What a run that folds has shown.
pub record Folds (run : List MacroStep) (next : MacroStep) (ms : Option ℕ) (r : MacroStep × ℕ)
    : Type 0 where
  pub first : MacroStep
  pub more : List MacroStep
  pub whole : run ≡ first ∷ more
  pub starts : SameAxes r.0 first
  pub gliding : is_empty r.0.glide ≡ false
  pub expands : expand_step r.0 next ms ≡ run
  pub counted : r.1 ≡ length run

fold_run-some :
    (first : MacroStep) (more : List MacroStep) (next : MacroStep) (ms : Option ℕ)
    {r : MacroStep × ℕ}
    → fold_run (first ∷ more) next ms ≡ some r
    → (is_empty (folded_step first (first ∷ more)).glide ≡ false)
      × (same_steps (expand_step (folded_step first (first ∷ more)) next ms) (first ∷ more) ≡ true)
      × ((folded_step first (first ∷ more), length (first ∷ more)) ≡ r)
unfolding fold_run
fold_run-some first more next ms e = ground arith

pub fold_run-Folds :
    (run : List MacroStep) (next : MacroStep) (ms : Option ℕ) {r : MacroStep × ℕ}
    → fold_run run next ms ≡ some r
    → Folds run next ms r
fold_run-Folds [] next ms e = absurd (unfold fold_run in cc)
fold_run-Folds (first ∷ more) next ms {r} e =
    let (gliding, same, result) = fold_run-some first more next ms e in
    subst (Folds (first ∷ more) next ms) result (record {
      first = first;
      more = more;
      whole = refl;
      starts = folded_step-axes first (first ∷ more);
      gliding = gliding;
      expands = same_steps→eq _ (first ∷ more) same;
      counted = refl;
    })

-- What the search for a run has found.
pub record Found (steps : List MacroStep) (ms : Option ℕ) (longest : ℕ) (r : MacroStep × ℕ)
    : Type 0 where
  pub len : ℕ
  pub next : MacroStep
  pub long : 3 ≤ len
  pub short : len ≤ longest
  pub there : get_elem? steps len ≡ some next
  pub folds : fold_run (take len steps) next ms ≡ some r

find_run-suc :
    (steps : List MacroStep) (ms : Option ℕ) (len : ℕ) {r : MacroStep × ℕ}
    → find_run steps ms (suc len) ≡ some r
    → (find_run steps ms len ≡ some r)
      ⊎ ((3 ≤ suc len)
          × (next : MacroStep) × (get_elem? steps (suc len) ≡ some next)
          × (fold_run (take (suc len) steps) next ms ≡ some r))
unfolding find_run
find_run-suc steps ms len e = elim (Option-cases (get_elem? steps (suc len))) [
  | inl outside ↦ inl (ground arith)
  | inr (next, there) ↦ elim (Option-cases (fold_run (take (suc len) steps) next ms)) [
    | inl no_fold ↦ inl (ground arith)
    | inr (s, folds) ↦ inr (ground arith, next, there, ground arith)
  ]
]

Found-longer :
    {steps : List MacroStep} {ms : Option ℕ} {longest : ℕ} {r : MacroStep × ℕ}
    → Found steps ms longest r
    → Found steps ms (suc longest) r
Found-longer f = record {
  len = f.len;
  next = f.next;
  long = f.long;
  short = omega arith;
  there = f.there;
  folds = f.folds;
}

pub find_run-Found :
    (steps : List MacroStep) (ms : Option ℕ) (longest : ℕ) {r : MacroStep × ℕ}
    → find_run steps ms longest ≡ some r
    → Found steps ms longest r
find_run-Found steps ms zero e = absurd (unfold find_run in cc)
find_run-Found steps ms (suc len) {r} e = elim (find_run-suc steps ms len e) [
  | inl shorter ↦ Found-longer (find_run-Found steps ms len shorter)
  | inr (long, next, there, folds) ↦ record {
    len = suc len;
    next = next;
    long = long;
    short = omega arith;
    there = there;
    folds = folds;
  }
]
