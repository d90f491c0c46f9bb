-- ===== src/Model/Glide.antt =====
-- crates/controller-core/src/model/glide.rs: gliding steps turned into short steps for the pad, and
-- runs of short steps turned back into gliding ones.
pub mod Expand
pub mod Lerp
pub mod Runs
pub mod Plain
pub mod Fold
use mathlib.Core.Option
use b.Shared.{
  ℕ, zero, suc, ◌+◌, ◌-◌, ◌*◌, ◌/◌, min, max, ltb, leb, ◌==◌, ◌&&◌, ◌||◌, not, if◌then◌else◌, List,
  [], ◌∷◌, ◌++◌, Bool, true, false, Option, none, some, length, take, drop, get_elem?,
}
use b.Model.Macros.{
  GlideControl, left_stick, right_stick, left_trigger, right_trigger, MacroStep, MacroDefinition,
  same_steps, same_names,
}

abbrev pub min_fold_run : ℕ
min_fold_run = 3

unfoldable pub axes : MacroStep → GlideControl → ℕ × ℕ
axes s left_stick = (s.left_stick_x, s.left_stick_y)
axes s right_stick = (s.right_stick_x, s.right_stick_y)
axes s left_trigger = (s.trigger_left, s.trigger_left)
axes s right_trigger = (s.trigger_right, s.trigger_right)

unfoldable pub set_axes : MacroStep → GlideControl → ℕ × ℕ → MacroStep
set_axes s left_stick (a, b) = record s { left_stick_x = a; left_stick_y = b }
set_axes s right_stick (a, b) = record s { right_stick_x = a; right_stick_y = b }
set_axes s left_trigger (a, b) = record s { trigger_left = a }
set_axes s right_trigger (a, b) = record s { trigger_right = a }

-- `u8::abs_diff`
abbrev pub abs_diff : ℕ → ℕ → ℕ
abs_diff a b = if leb b a then a - b else b - a

-- The change of one control: of either axis, the larger.
abbrev pub change_of : ℕ × ℕ → ℕ × ℕ → ℕ
change_of (fx, fy) (tx, ty) = max (abs_diff fx tx) (abs_diff fy ty)

-- The largest change over the controls of `glide`, 0 if there is none.
unfoldable pub largest_over : List GlideControl → MacroStep → MacroStep → ℕ
largest_over [] s next = 0
largest_over (c ∷ glide) s next =
    max (change_of (axes s c) (axes next c)) (largest_over glide s next)

unfoldable pub largest_change : MacroStep → MacroStep → ℕ
unfolding largest_over
largest_change s next = largest_over s.glide s next

-- `usize::div_ceil`
abbrev pub div_ceil : ℕ → ℕ → ℕ
div_ceil a b = (a + b - 1) / b

unfoldable pub short_steps : MacroStep → MacroStep → Option ℕ → ℕ
unfolding largest_change
short_steps s next none = 1
short_steps s next (some ms) =
    max (min (div_ceil s.duration_ms (max ms 1)) (largest_change s next)) 1

unfoldable pub lerp : ℕ → ℕ → ℕ → ℕ → ℕ
lerp a b k n =
    let value = (2 * (a * (n - k) + b * k) + n) / (2 * max n 1) in
    if leb value 255 then value else 255

-- `u16::try_from(v).unwrap_or(u16::MAX)`
abbrev pub to_u16 : ℕ → ℕ
to_u16 v = if leb v 65535 then v else 65535

-- The loop over `step.glide`: each gliding control moved `k` of `n` of the way.
unfoldable pub move_axes : List GlideControl → MacroStep → MacroStep → ℕ → ℕ → MacroStep → MacroStep
unfolding set_axes lerp
move_axes [] s next k n short = short
move_axes (c ∷ glide) s next k n short =
    let (fx, fy) = axes s c in
    let (tx, ty) = axes next c in
    move_axes glide s next k n (set_axes short c (lerp fx tx k n, lerp fy ty k n))

-- Short step `k` of `n`.
unfoldable pub short_step : MacroStep → MacroStep → ℕ → ℕ → MacroStep
unfolding move_axes
short_step s next n k =
    let each = s.duration_ms / n in
    let last = s.duration_ms - each * (n - 1) in
    move_axes s.glide s next k n
      (record s { duration_ms = to_u16 (if k + 1 == n then last else each); glide = [] })

-- The short steps from `k` on, `left` of them.
unfoldable pub short_steps_from : MacroStep → MacroStep → ℕ → ℕ → ℕ → List MacroStep
unfolding short_step
short_steps_from s next n k zero = []
short_steps_from s next n k (suc left) =
    short_step s next n k ∷ short_steps_from s next n (k + 1) left

unfoldable pub expand_step : MacroStep → MacroStep → Option ℕ → List MacroStep
unfolding short_steps short_steps_from
expand_step s next glide_step_ms =
    let n = short_steps s next glide_step_ms in short_steps_from s next n 0 n

abbrev pub is_empty : List GlideControl → Bool
is_empty [] = true
is_empty (c ∷ glide) = false

abbrev pub head? : List MacroStep → Option MacroStep
head? [] = none
head? (s ∷ rest) = some s

-- A step with no glide mark.
abbrev pub plain_step : MacroStep → MacroStep
plain_step s = record s { glide = [] }

unfoldable pub expand_one : MacroStep → Option MacroStep → Option ℕ → List MacroStep
unfolding expand_step
expand_one s none ms = plain_step s ∷ []
expand_one s (some next) ms = if is_empty s.glide then plain_step s ∷ [] else expand_step s next ms

unfoldable pub expand_steps : List MacroStep → Option ℕ → List MacroStep
unfolding expand_one
expand_steps [] ms = []
expand_steps (s ∷ rest) ms = expand_one s (head? rest) ms ++ expand_steps rest ms

unfoldable pub expand : MacroDefinition → Option ℕ → MacroDefinition
unfolding expand_steps
expand def ms = record def { steps = expand_steps def.steps ms }

unfoldable pub len_one : MacroStep → Option MacroStep → Option ℕ → ℕ
unfolding short_steps
len_one s none ms = 1
len_one s (some next) ms = if is_empty s.glide then 1 else short_steps s next ms

unfoldable pub expanded_len : List MacroStep → Option ℕ → ℕ
unfolding len_one
expanded_len [] ms = 0
expanded_len (s ∷ rest) ms = len_one s (head? rest) ms + expanded_len rest ms

abbrev pub same_axes : ℕ × ℕ → ℕ × ℕ → Bool
same_axes (a, b) (c, d) = a == c && b == d

-- `run.iter().any(|s| axes(s, c) != axes(first, c))`
unfoldable pub moves : List MacroStep → MacroStep → GlideControl → Bool
unfolding axes
moves [] first c = false
moves (s ∷ run) first c = not (same_axes (axes s c) (axes first c)) || moves run first c

unfoldable pub moving : List GlideControl → List MacroStep → MacroStep → List GlideControl
unfolding moves
moving [] run first = []
moving (c ∷ cs) run first =
    let rest = moving cs run first in if moves run first c then c ∷ rest else rest

abbrev pub all_controls : List GlideControl
all_controls = left_stick ∷ right_stick ∷ left_trigger ∷ right_trigger ∷ []

unfoldable pub total_duration : List MacroStep → ℕ
total_duration [] = 0
total_duration (s ∷ run) = s.duration_ms + total_duration run

-- The gliding step that stands for `run`, which begins with `first` and glides to `next`.
unfoldable pub folded_step : MacroStep → List MacroStep → MacroStep
unfolding moving total_duration
folded_step first run = record first {
  duration_ms = total_duration run;
  glide = moving all_controls run first;
}

unfoldable pub fold_run : List MacroStep → MacroStep → Option ℕ → Option (MacroStep × ℕ)
fold_run [] next ms = none
fold_run (first ∷ run) next ms =
    let whole = first ∷ run in
    let step = folded_step first whole in
    if is_empty step.glide
    then none
    else if not (leb step.duration_ms 65535)
    then none
    else if same_steps (expand_step step next ms) whole
    then some (step, length whole)
    else none

-- `(MIN_FOLD_RUN..=longest).rev().find_map(…)`, counting down from `len`.
unfoldable pub find_run : List MacroStep → Option ℕ → ℕ → Option (MacroStep × ℕ)
find_run steps ms zero = none
find_run steps ms (suc len) =
    let shorter = find_run steps ms len in
    if ltb (suc len) min_fold_run then none else elim (get_elem? steps (suc len)) [
      | none ↦ shorter
      | some next ↦ elim (fold_run (take (suc len) steps) next ms) [
        | none ↦ shorter
        | some r ↦ some r
      ]
    ]

-- How many steps from the front on have no glide and hold the buttons of `first`.
unfoldable pub count_same : MacroStep → List MacroStep → ℕ
count_same first [] = 0
count_same first (s ∷ rest) =
    let more = count_same first rest in
    if is_empty s.glide && same_names s.pressed_buttons first.pressed_buttons then suc more else 0

-- The `while` loop of `fold` over the steps from `i` on; `none` if the fuel runs out.
unfoldable pub fold_loop : ℕ → Option ℕ → List MacroStep → Option (List MacroStep)
fold_loop fuel ms [] = some []
fold_loop zero ms (first ∷ rest) = none
fold_loop (suc fuel) ms (first ∷ rest) =
    let steps = first ∷ rest in
    let longest = min (count_same first steps) (length rest) in
    elim (find_run steps ms longest) [
      | some r ↦ Option.map (λ out. r.0 ∷ out) (fold_loop fuel ms (drop r.1 steps))
      | none ↦ Option.map (λ out. first ∷ out) (fold_loop fuel ms rest)
    ]

-- Each round takes a step at least.
unfoldable pub fold : MacroDefinition → Option ℕ → Option MacroDefinition
unfolding fold_loop
fold def none = some def
fold def (some ms) =
    Option.map (λ out. record def { steps = out })
      (fold_loop (length def.steps) (some ms) def.steps)
