-- ===== src/Devices/Pro3/Macros/Routing.antt =====
-- crates/controller-core/src/devices/pro3/macros.rs: the two triggers of a step.
use Prim.Native.String.{String}
use text.Mathlib.Text.{◌==◌ as str_eq}
use b.Shared.{
  ◌%◌, ◌+◌, ap, some, not, All, find, ◌∙◌, ◌&&◌, ◌/◌, ◌*◌, filter, arith, true, map, bit_or, false,
  ltb, ◌≡◌, ◌<◌, Bool, bit_and, ℕ, List, [], ◌∷◌, refl, if◌then◌else◌, ◌==◌, ◌||◌,
}
use b.Shared.Masks.{bit_and-le, bit_or-lt, bit_and-zero, bit_and_assoc, has_bit}
use b.Model.Macros.{MacroStep}
use b.Devices.Pro3.Macros.{route_triggers, bitmask_to_step_button_names}
use b.Devices.Pro3.Macros.Buttons.{
  all_of, All-all_of, filter_agree, Holds-ext, contains, Holds, digital_buttons, press,
  bitmask-Holds,
}
use b.Devices.Pro3.Tables.Buttons.{StepButtonEntry, step_buttons}

-- What the pad plays for a trigger: the analog modes keep a value, and a pressed button without one
-- is a full pull; Switch knows full and released only.
abbrev pub played : Bool → ℕ → Bool → ℕ
played true value pressed = if value == 0 && pressed then 255 else value
played false value pressed = if ltb 0 value || pressed then 255 else 0

-- What the decoder makes of `keys` and a byte of `trigger_value`.
abbrev pub pulled : Bool → ℕ → ℕ → ℕ → ℕ
pulled true keys byte mask = if byte == 0 then (if has_bit keys mask then 255 else 0) else byte
pulled false keys byte mask = if has_bit keys mask then 255 else 0

-- What is read back of the words that hold a step's buttons and triggers.
pub record Routed (analog : Bool) (step : MacroStep) (keys trigger_value : ℕ) : Type 0 where
  pub small_keys : keys < 65536
  pub small_value : trigger_value < 65536
  pub names :
      bitmask_to_step_button_names (bit_and keys 0x3FFF)
      ≡ map (λ e. e.name) (filter (λ e. contains step.pressed_buttons e.name) digital_buttons)
  pub left :
      pulled analog keys (trigger_value / 256 % 256) 0x4000
      ≡ played analog step.trigger_left (contains step.pressed_buttons "l2")
  pub right :
      pulled analog keys (trigger_value % 256) 0x8000
      ≡ played analog step.trigger_right (contains step.pressed_buttons "r2")

left_bit :
    (keys : ℕ) (held : String → Bool)
    → Holds keys held step_buttons
    → has_bit keys 0x4000 ≡ held "l2"
left_bit keys held h = h.1.1.1.1.1.1.1.1.1.1.1.1.1.1.0

right_bit :
    (keys : ℕ) (held : String → Bool)
    → Holds keys held step_buttons
    → has_bit keys 0x8000 ≡ held "r2"
right_bit keys held h = h.1.1.1.1.1.1.1.1.1.1.1.1.1.1.1.0

-- The two trigger bits are cleared in the analog modes.
cleared : (keys mask : ℕ) → bit_and 0x3FFF mask ≡ 0 → has_bit (bit_and keys 0x3FFF) mask ≡ false
cleared keys mask e = rw (bit_and_assoc keys 0x3FFF mask, e, bit_and-zero keys)

twice : (keys : ℕ) → bit_and (bit_and keys 0x3FFF) 0x3FFF ≡ bit_and keys 0x3FFF
twice keys = bit_and_assoc keys 0x3FFF 0x3FFF

full_lt : (value : ℕ) (bit : Bool) → value < 256 → (if value == 0 && bit then 255 else value) < 256
full_lt value bit h = ground arith

unpack :
    (hi lo : ℕ)
    → hi < 256
    → lo < 256
    → ((hi * 256 + lo) / 256 % 256 ≡ hi) × ((hi * 256 + lo) % 256 ≡ lo) × (hi * 256 + lo < 65536)
unpack hi lo h k = omega arith

byte_wins : (byte : ℕ) → (if byte == 0 then 0 else byte) ≡ byte
byte_wins byte = ground arith

route_analog :
    (step : MacroStep) (keys : ℕ)
    → step.trigger_left < 256
    → step.trigger_right < 256
    → keys < 65536
    → Holds keys (contains step.pressed_buttons) step_buttons
    → Routed true step (route_triggers true step keys).0 (route_triggers true step keys).1
unfolding route_triggers
route_analog step keys hl hr small h =
    let l : ℕ = if step.trigger_left == 0 && has_bit keys 0x4000 then 255 else step.trigger_left in
    let r : ℕ =
      if step.trigger_right == 0 && has_bit keys 0x8000 then 255 else step.trigger_right in
    let parts =
      unpack l r (full_lt step.trigger_left (has_bit keys 0x4000) hl)
        (full_lt step.trigger_right (has_bit keys 0x8000) hr) in
    record {
      small_keys = omega (arith, bit_and-le keys keys 0x3FFF (omega arith));
      small_value = parts.2;
      names =
          ap bitmask_to_step_button_names (twice keys)
          ∙ bitmask-Holds keys (contains step.pressed_buttons) h;
      left =
          rw (parts.0, cleared keys 0x4000 refl)
            (byte_wins l
              ∙ ap (λ b. if step.trigger_left == 0 && b then 255 else step.trigger_left)
                  (left_bit keys (contains step.pressed_buttons) h));
      right =
          rw (parts.1, cleared keys 0x8000 refl)
            (byte_wins r
              ∙ ap (λ b. if step.trigger_right == 0 && b then 255 else step.trigger_right)
                  (right_bit keys (contains step.pressed_buttons) h));
    }

-- Switch sets the bit of a trigger that has a value.
raised :
    (on : Bool) (name : String) (d : StepButtonEntry) (keys : ℕ) (held : String → Bool)
    → find (λ e. str_eq e.name name) step_buttons ≡ some d
    → Holds keys held step_buttons
    → Holds
        (if on then bit_or keys d.mask else keys)
        (λ n. held n || (on && str_eq name n))
        step_buttons
raised true name d keys held found h = press name d keys held found h
raised false name d keys held found h =
    Holds-ext keys held (λ n. held n || (false && str_eq name n)) step_buttons
      (λ n. or_false (held n)) h
  where
    or_false : (b : Bool) → b ≡ (b || false)
    or_false true = refl
    or_false false = refl

raised_small :
    (on : Bool) (keys mask : ℕ)
    → keys < 65536
    → mask < 65536
    → (if on then bit_or keys mask else keys) < 65536
raised_small true keys mask h k = bit_or-lt 16 keys mask h k
raised_small false keys mask h k = h

no_trigger : StepButtonEntry → Bool
no_trigger e = not (str_eq "l2" e.name) && not (str_eq "r2" e.name)

no_triggers : all_of no_trigger digital_buttons ≡ true
unfolding all_of no_trigger
no_triggers = refl

same_rows :
    (held : String → Bool) (l r : Bool) (es : List StepButtonEntry)
    → All (λ e. no_trigger e ≡ true) es
    → All
        (λ e.
          ((held e.name || (l && str_eq "l2" e.name)) || (r && str_eq "r2" e.name)) ≡ held e.name)
        es
same_rows held l r [] h = tt
same_rows held l r (e ∷ es) h = (
  plain (held e.name) (str_eq "l2" e.name) (str_eq "r2" e.name) (unfold no_trigger in h.0),
  same_rows held l r es h.1,
)
  where
    plain : (c x y : Bool) → (not x && not y) ≡ true → ((c || (l && x)) || (r && y)) ≡ c
    plain c true y e = cc
    plain c false true e = cc
    plain c false false e = ground arith

pulled_by : Bool → ℕ
pulled_by b = if b then 255 else 0

pull : (c l r : Bool) → pulled_by ((c || (l && true)) || (r && false)) ≡ pulled_by (l || c)
unfolding pulled_by
pull c l r = ground arith

pull_right : (c l r : Bool) → pulled_by ((c || (l && false)) || (r && true)) ≡ pulled_by (r || c)
unfolding pulled_by
pull_right c l r = ground arith

abbrev l2_entry : StepButtonEntry
l2_entry = record { name = "l2"; mask = 0x4000 }

abbrev r2_entry : StepButtonEntry
r2_entry = record { name = "r2"; mask = 0x8000 }

route_switch :
    (step : MacroStep) (keys : ℕ)
    → keys < 65536
    → Holds keys (contains step.pressed_buttons) step_buttons
    → Routed false step (route_triggers false step keys).0 (route_triggers false step keys).1
unfolding route_triggers pulled_by
route_switch step keys small h =
    let l : Bool = ltb 0 step.trigger_left in
    let r : Bool = ltb 0 step.trigger_right in
    let held : String → Bool = contains step.pressed_buttons in
    let one : ℕ = if l then bit_or keys 0x4000 else keys in
    let both : ℕ = if r then bit_or one 0x8000 else one in
    let h1 = raised l "l2" l2_entry keys held refl h in
    let h2 = raised r "r2" r2_entry one (λ n. held n || (l && str_eq "l2" n)) refl h1 in
    let held' : String → Bool = λ n. (held n || (l && str_eq "l2" n)) || (r && str_eq "r2" n) in
    record {
      small_keys =
          raised_small r one 0x8000 (raised_small l keys 0x4000 small (omega arith)) (omega arith);
      small_value = omega arith;
      names =
          bitmask-Holds both held' h2
          ∙ ap (map (λ e. e.name)) (
              filter_agree (λ e. held' e.name) (λ e. held e.name) digital_buttons
                (same_rows held l r digital_buttons
                  (All-all_of no_trigger digital_buttons no_triggers)));
      left = ap pulled_by (left_bit both held' h2) ∙ pull (held "l2") l r;
      right = ap pulled_by (right_bit both held' h2) ∙ pull_right (held "r2") l r;
    }

-- In every mode the words of a step read back as its buttons and what the pad plays.
pub route_triggers-Routed :
    (analog : Bool) (step : MacroStep) (keys : ℕ)
    → step.trigger_left < 256
    → step.trigger_right < 256
    → keys < 65536
    → Holds keys (contains step.pressed_buttons) step_buttons
    → Routed analog step (route_triggers analog step keys).0 (route_triggers analog step keys).1
route_triggers-Routed true step keys hl hr small h = route_analog step keys hl hr small h
route_triggers-Routed false step keys hl hr small h = route_switch step keys small h
