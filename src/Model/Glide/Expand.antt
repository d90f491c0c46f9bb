-- ===== src/Model/Glide/Expand.antt =====
-- What expanding keeps: how many steps there are, how long they last, and where they start.
use native.Mathlib.Nat.{div-add-mod}
use b.Shared.{
  Bool-cases, inl, inr, Bool-cases, ℕ, zero, suc, ◌+◌, ◌-◌, ◌*◌, ◌/◌, ◌≤◌, ◌<◌, ◌≡◌, refl, ap, ap₂,
  ◌∙◌, List, [], ◌∷◌, ◌++◌, Option, none, some, length, All, All-append, length-append, arith, ◌==◌,
  if◌then◌else◌,
}
use b.Model.Macros.{GlideControl, left_stick, right_stick, left_trigger, right_trigger, MacroStep}
use b.Model.Glide.{
  axes, largest_over, short_steps, to_u16, move_axes, short_step, short_steps_from, expand_step,
  head?, expand_one, expand_steps, len_one, expanded_len, total_duration, is_empty,
}

-- A step depends on the next one through the values of its controls only.
abbrev pub SameAxes : MacroStep → MacroStep → Type 0
SameAxes s t = (c : GlideControl) → axes s c ≡ axes t c

largest_over-next :
    (glide : List GlideControl) (s t u : MacroStep)
    → SameAxes t u
    → largest_over glide s t ≡ largest_over glide s u
unfolding largest_over
largest_over-next [] s t u h = refl
largest_over-next (c ∷ glide) s t u h = rw (h c, largest_over-next glide s t u h)

short_steps-next :
    (s t u : MacroStep) (ms : Option ℕ) → SameAxes t u → short_steps s t ms ≡ short_steps s u ms
unfolding short_steps
short_steps-next s t u none h = refl
short_steps-next s t u (some ms) h = rw (largest_over-next s.glide s t u h)

move_axes-next :
    (glide : List GlideControl) (s t u : MacroStep) (k n : ℕ) (short : MacroStep)
    → SameAxes t u
    → move_axes glide s t k n short ≡ move_axes glide s u k n short
unfolding move_axes
move_axes-next [] s t u k n short h = refl
move_axes-next (c ∷ glide) s t u k n short h = rw (h c) (move_axes-next glide s t u k n _ h)

short_steps_from-next :
    (s t u : MacroStep) (n k left : ℕ)
    → SameAxes t u
    → short_steps_from s t n k left ≡ short_steps_from s u n k left
unfolding short_steps_from
short_steps_from-next s t u n k zero h = refl
short_steps_from-next s t u n k (suc left) h =
    ap₂ ◌∷◌ (move_axes-next s.glide s t u k n _ h) (short_steps_from-next s t u n (k + 1) left h)

pub expand_step-next :
    (s t u : MacroStep) (ms : Option ℕ) → SameAxes t u → expand_step s t ms ≡ expand_step s u ms
unfolding expand_step
expand_step-next s t u ms h =
    rw (short_steps-next s t u ms h)
      (short_steps_from-next s t u (short_steps s u ms) 0 (short_steps s u ms) h)

length-short_steps_from :
    (s next : MacroStep) (n k left : ℕ) → length (short_steps_from s next n k left) ≡ left
unfolding short_steps_from
length-short_steps_from s next n k zero = refl
length-short_steps_from s next n k (suc left) =
    ap suc (length-short_steps_from s next n (k + 1) left)

length-expand_one :
    (s : MacroStep) (next : Option MacroStep) (ms : Option ℕ)
    → length (expand_one s next ms) ≡ len_one s next ms
unfolding expand_one len_one
length-expand_one s none ms = refl
length-expand_one s (some next) ms = elim (Bool-cases (is_empty s.glide)) [
  | inl e ↦ rw e
  | inr e ↦ rw e (length-short_steps_from s next (short_steps s next ms) 0 (short_steps s next ms))
]

-- `expanded_len` is the number of steps that `expand` gives.
pub expanded_len-expand_steps :
    (steps : List MacroStep) (ms : Option ℕ)
    → expanded_len steps ms ≡ length (expand_steps steps ms)
unfolding expanded_len expand_steps
expanded_len-expand_steps [] ms = refl
expanded_len-expand_steps (s ∷ rest) ms = omega (
  arith,
  length-append (expand_one s (head? rest) ms) (expand_steps rest ms),
  length-expand_one s (head? rest) ms,
  expanded_len-expand_steps rest ms,
)

-- Moving the controls sets neither the duration nor the glide marks.
duration-move_axes :
    (glide : List GlideControl) (s next : MacroStep) (k n : ℕ) (short : MacroStep)
    → ((move_axes glide s next k n short).duration_ms ≡ short.duration_ms)
      × ((move_axes glide s next k n short).glide ≡ short.glide)
      × ((move_axes glide s next k n short).pressed_buttons ≡ short.pressed_buttons)
unfolding move_axes
duration-move_axes [] s next k n short = (refl, refl, refl)
duration-move_axes (left_stick ∷ glide) s next k n short = duration-move_axes glide s next k n _
duration-move_axes (right_stick ∷ glide) s next k n short = duration-move_axes glide s next k n _
duration-move_axes (left_trigger ∷ glide) s next k n short = duration-move_axes glide s next k n _
duration-move_axes (right_trigger ∷ glide) s next k n short = duration-move_axes glide s next k n _

duration-short_step :
    (s next : MacroStep) (n k : ℕ)
    → (short_step s next n k).duration_ms
      ≡ to_u16
          (if k + 1 == n then s.duration_ms - s.duration_ms / n * (n - 1) else s.duration_ms / n)
unfolding short_step
duration-short_step s next n k = (duration-move_axes s.glide s next k n _).0

div_part : (d n k : ℕ) → k < n → d / n * k + d / n ≤ d
div_part d n k h = grind (arith, div-add-mod d n)

-- The short steps from `k` on last what is left of the duration.
duration-short_steps_from :
    (s next : MacroStep) (n k left : ℕ)
    → s.duration_ms < 65536
    → k + left ≡ n
    → 1 ≤ left
    → total_duration (short_steps_from s next n k left) + s.duration_ms / n * k ≡ s.duration_ms
unfolding short_steps_from total_duration
duration-short_steps_from s next n k zero h e l = absurd (omega arith)
duration-short_steps_from s next n k (suc zero) h e l =
    let last : n - 1 ≡ k = omega arith in
    let this : (short_step s next n k).duration_ms ≡ s.duration_ms - s.duration_ms / n * k =
      duration-short_step s next n k ∙ rw last (ground arith) in
    omega (arith, this, div_part s.duration_ms n k (omega arith))
duration-short_steps_from s next n k (suc (suc left)) h e l =
    let this : (short_step s next n k).duration_ms ≡ s.duration_ms / n =
      duration-short_step s next n k ∙ ground (arith, div_part s.duration_ms n k (omega arith)) in
    omega (
      arith,
      this,
      duration-short_steps_from s next n (k + 1) (suc left) h (omega arith) (omega arith),
    )

short_steps_pos : (s next : MacroStep) (ms : Option ℕ) → 1 ≤ short_steps s next ms
unfolding short_steps
short_steps_pos s next none = omega arith
short_steps_pos s next (some ms) = omega arith

duration-expand_one :
    (s : MacroStep) (next : Option MacroStep) (ms : Option ℕ)
    → s.duration_ms < 65536
    → total_duration (expand_one s next ms) ≡ s.duration_ms
unfolding expand_one total_duration
duration-expand_one s none ms h = omega arith
duration-expand_one s (some next) ms h = elim (Bool-cases (is_empty s.glide)) [
  | inl e ↦ rw e (omega arith)
  | inr e ↦
      let n : ℕ = short_steps s next ms in
      rw e (
        omega (
          arith,
          duration-short_steps_from s next n 0 n h (omega arith) (short_steps_pos s next ms),
        ))
]

total_duration-append :
    (xs ys : List MacroStep) → total_duration (xs ++ ys) ≡ total_duration xs + total_duration ys
unfolding total_duration
total_duration-append [] ys = omega arith
total_duration-append (x ∷ xs) ys = omega (arith, total_duration-append xs ys)

abbrev pub HasDuration : MacroStep → Type 0
HasDuration s = s.duration_ms < 65536

abbrev pub NoGlide : MacroStep → Type 0
NoGlide s = s.glide ≡ []

NoGlide-short_steps_from :
    (s next : MacroStep) (n k left : ℕ) → All NoGlide (short_steps_from s next n k left)
unfolding short_steps_from short_step
NoGlide-short_steps_from s next n k zero = tt
NoGlide-short_steps_from s next n k (suc left) =
    ((duration-move_axes s.glide s next k n _).1, NoGlide-short_steps_from s next n (k + 1) left)

NoGlide-expand_one :
    (s : MacroStep) (next : Option MacroStep) (ms : Option ℕ) → All NoGlide (expand_one s next ms)
unfolding expand_one
NoGlide-expand_one s none ms = (refl, tt)
NoGlide-expand_one s (some next) ms = elim (Bool-cases (is_empty s.glide)) [
  | inl e ↦ rw e (refl, tt)
  | inr e ↦ rw e (NoGlide-short_steps_from s next (short_steps s next ms) 0 (short_steps s next ms))
]

-- Expanding leaves no glide mark, and the macro lasts exactly as long as before, for durations of
-- 16 bits: what a division leaves over goes to the last short step.
pub expand_steps-total_duration :
    (steps : List MacroStep) (ms : Option ℕ)
    → All HasDuration steps
    → (total_duration (expand_steps steps ms) ≡ total_duration steps)
      × All NoGlide (expand_steps steps ms)
unfolding expand_steps total_duration
expand_steps-total_duration [] ms h = (refl, tt)
expand_steps-total_duration (s ∷ rest) ms h =
    let (total, marks) = expand_steps-total_duration rest ms h.1 in
    (
      omega (
        arith,
        total_duration-append (expand_one s (head? rest) ms) (expand_steps rest ms),
        duration-expand_one s (head? rest) ms h.0,
        total,
      ),
      All-append NoGlide (expand_one s (head? rest) ms) (expand_steps rest ms)
          (NoGlide-expand_one s (head? rest) ms) marks,
    )
