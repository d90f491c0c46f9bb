-- ===== src/Model/Tests.antt =====
-- Modes, glides and their folding on concrete values: crates/controller-core/src/model.
use b.Shared.{ℕ, ◌≡◌, refl, List, [], ◌∷◌, length, none, some, ok, All, arith}
use b.Model.Mode
use b.Model.Mode.{Mode, as_str, compare_modes, compare_bytes}
use b.Model.Macros.{MacroStep, MacroDefinition, default_step, left_stick}
use b.Model.Glide.{expand_steps, expanded_len, expand, fold, total_duration}
use b.Model.Glide.Expand.{NoGlide, expanded_len-expand_steps, expand_steps-total_duration}
use b.Model.Glide.Fold.{expand-fold, fold_round_trip}

-- the ids "dinput" and "d"
abbrev dinput : List ℕ
dinput = b'd' ∷ b'i' ∷ b'n' ∷ b'p' ∷ b'u' ∷ b't' ∷ []

abbrev d : List ℕ
d = b'd' ∷ []

abbrev mode_of : List ℕ → ℕ → Mode
mode_of id len = record { id = id; len = len }

abbrev dinput_mode : Mode
dinput_mode =
    mode_of (b'd' ∷ b'i' ∷ b'n' ∷ b'p' ∷ b'u' ∷ b't' ∷ 0 ∷ 0 ∷ 0 ∷ 0 ∷ 0 ∷ 0 ∷ 0 ∷ 0 ∷ 0 ∷ []) 6

abbrev d_mode : Mode
d_mode = mode_of (b'd' ∷ 0 ∷ 0 ∷ 0 ∷ 0 ∷ 0 ∷ 0 ∷ 0 ∷ 0 ∷ 0 ∷ 0 ∷ 0 ∷ 0 ∷ 0 ∷ 0 ∷ []) 1

dinput-new : Mode.new dinput ≡ ok dinput_mode
unfolding Mode.new
dinput-new = refl

d-new : Mode.new d ≡ ok d_mode
unfolding Mode.new
d-new = refl

-- the left stick glides from the left edge to the centre, then rests
abbrev gliding : MacroStep
gliding = record default_step { duration_ms = 45; left_stick_x = 0; glide = left_stick ∷ [] }

abbrev resting : MacroStep
resting = record default_step { duration_ms = 10 }

abbrev steps : List MacroStep
steps = gliding ∷ resting ∷ []

expanded_len-expand_steps_example :
    expanded_len steps (some 10) ≡ length (expand_steps steps (some 10))
expanded_len-expand_steps_example = expanded_len-expand_steps steps (some 10)

expand_steps-total_duration_example :
    (total_duration (expand_steps steps (some 10)) ≡ total_duration steps)
    × All NoGlide (expand_steps steps (some 10))
expand_steps-total_duration_example =
    expand_steps-total_duration steps (some 10) (omega arith, (omega arith, tt))

abbrev definition : List MacroStep → MacroDefinition
definition list = record {
  name = d;
  mode = d_mode;
  trigger_buttons = [];
  unknown_trigger_bits = 0;
  repeat_count = 1;
  interval_ms = 0;
  steps = list;
  macro_slot = none;
}

expand-fold_example :
    (out : MacroDefinition) × (fold (definition steps) (some 10) ≡ some out)
    × ((expand out (some 10)).steps ≡ (expand (definition steps) (some 10)).steps)
expand-fold_example = expand-fold (definition steps) (some 10)

-- four steps along a line, as a pad holds them
abbrev at : ℕ → ℕ → MacroStep
at x ms = record default_step { duration_ms = ms; left_stick_x = x }

abbrev line : List MacroStep
line = at 0 10 ∷ at 10 10 ∷ at 20 10 ∷ at 30 10 ∷ []

fold_round_trip_example :
    (out : MacroDefinition) × (fold (definition line) (some 10) ≡ some out)
    × (expand out (some 10) ≡ definition line)
    × (fold (expand out (some 10)) (some 10) ≡ some out)
fold_round_trip_example =
    fold_round_trip (definition line) (some 10) (refl, (refl, (refl, (refl, tt))))
