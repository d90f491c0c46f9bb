-- ===== src/Devices/Pro3/Macros/Steps.antt =====
-- crates/controller-core/src/devices/pro3/macros.rs: one record of a step stream.
use b.Shared.{
  ◌^◌, true, false, bit_and, length-append, bit_and, length-append, ℕ, ◌+◌, ◌*◌, ◌/◌, ◌%◌, ◌<◌, ◌≡◌,
  refl, ap, ◌∙◌, List, [], ◌++◌, map, length, replicate, All, Bool, filter, ok, arith,
}
use b.Model.Macros.{MacroStep}
use b.Protocol.Bytes.{IsByte, IsU16, to_le_bytes_u16, splice, read_u16_le, slice}
use b.Protocol.Bytes.Behind.{put_u16_le-append}
use b.Devices.Pro3.Macros.{
  keys_from, route_triggers, encode_step, decode_step, bitmask_to_step_button_names,
}
use b.Devices.Pro3.Macros.Buttons.{contains, IsStepButton, digital_buttons}
use b.Devices.Pro3.Macros.Routing.{Routed, played, pulled}

-- The ten bytes of a record.
abbrev pub record_bytes : ℕ → ℕ → ℕ → ℕ → ℕ → List ℕ → List ℕ
record_bytes d k t l r rest =
    to_le_bytes_u16 d
    ++ (to_le_bytes_u16 k
        ++ (to_le_bytes_u16 t ++ (to_le_bytes_u16 l ++ (to_le_bytes_u16 r ++ rest))))

abbrev pub left_joy : MacroStep → ℕ
left_joy s = s.left_stick_y * 256 + s.left_stick_x

abbrev pub right_joy : MacroStep → ℕ
right_joy s = s.right_stick_y * 256 + s.right_stick_x

-- A buffer with a record's place in front of `rest`.
abbrev pub place : List ℕ → List ℕ
place rest = replicate 10 0 ++ rest

pub encode_step-eq :
    (analog : Bool) (step : MacroStep) (keys : ℕ) (pre rest : List ℕ)
    → keys_from 0 step.pressed_buttons ≡ ok keys
    → length pre + 10 + length rest < 2 ^ 64
    → encode_step analog (length pre) step (pre ++ place rest)
      ≡ ok (
          pre
          ++ record_bytes step.duration_ms
              (route_triggers analog step keys).0
              (route_triggers analog step keys).1
              (left_joy step)
              (right_joy step)
              rest)
unfolding encode_step
encode_step-eq analog step keys pre rest sets f =
    let y0 : List ℕ = place rest in
    let y1 : List ℕ = splice y0 0 (to_le_bytes_u16 step.duration_ms) in
    let y2 : List ℕ = splice y1 2 (to_le_bytes_u16 (route_triggers analog step keys).0) in
    let y3 : List ℕ = splice y2 4 (to_le_bytes_u16 (route_triggers analog step keys).1) in
    let y4 : List ℕ = splice y3 6 (to_le_bytes_u16 (left_joy step)) in
    rw (
      sets,
      put_u16_le-append pre y0 (length pre) refl (omega (arith, length-append pre y0)) 0
          step.duration_ms (omega arith),
      put_u16_le-append pre y1 (length pre) refl (omega (arith, length-append pre y1)) 2
          (route_triggers analog step keys).0 (omega arith),
      put_u16_le-append pre y2 (length pre) refl (omega (arith, length-append pre y2)) 4
          (route_triggers analog step keys).1 (omega arith),
      put_u16_le-append pre y3 (length pre) refl (omega (arith, length-append pre y3)) 6
          (left_joy step) (omega arith),
      put_u16_le-append pre y4 (length pre) refl (omega (arith, length-append pre y4)) 8
          (right_joy step) (omega arith),
    )

-- A step in the ranges of its fields, with known buttons.
pub record IsStep (s : MacroStep) : Type 0 where
  pub duration : IsU16 s.duration_ms
  pub buttons : All IsStepButton s.pressed_buttons
  pub lx : IsByte s.left_stick_x
  pub ly : IsByte s.left_stick_y
  pub rx : IsByte s.right_stick_x
  pub ry : IsByte s.right_stick_y
  pub left : IsByte s.trigger_left
  pub right : IsByte s.trigger_right

-- The step that the pad plays for `s`: its buttons in the table's order, without the two triggers,
-- which show as values, and no glide.
abbrev pub as_played : Bool → MacroStep → MacroStep
as_played analog s = record s {
  pressed_buttons =
      map (λ e. e.name) (filter (λ e. contains s.pressed_buttons e.name) digital_buttons);
  trigger_left = played analog s.trigger_left (contains s.pressed_buttons "l2");
  trigger_right = played analog s.trigger_right (contains s.pressed_buttons "r2");
  glide = [];
}

-- What the decoder makes of five words.
abbrev fields : Bool → ℕ → ℕ → ℕ → ℕ → ℕ → MacroStep
fields analog d k t l r = record {
  duration_ms = d;
  pressed_buttons = bitmask_to_step_button_names (bit_and k 0x3FFF);
  left_stick_x = l % 256;
  left_stick_y = l / 256 % 256;
  right_stick_x = r % 256;
  right_stick_y = r / 256 % 256;
  trigger_left = pulled analog k (t / 256 % 256) 0x4000;
  trigger_right = pulled analog k (t % 256) 0x8000;
  glide = [];
}

-- The word that two bytes make.
abbrev word : ℕ → ℕ
word x = x % 256 + x / 256 % 256 * 256

decode_step-eq :
    (analog : Bool) (d k t l r : ℕ)
    → decode_step analog (record_bytes d k t l r [])
      ≡ ok (fields analog (word d) (word k) (word t) (word l) (word r))
unfolding decode_step read_u16_le slice
decode_step-eq true d k t l r = refl
decode_step-eq false d k t l r = refl

word_back : (x : ℕ) → IsU16 x → word x ≡ x
word_back x h = omega arith

fields-eq :
    (analog : Bool) (s : MacroStep) (k t : ℕ)
    → IsStep s
    → Routed analog s k t
    → fields analog s.duration_ms k t (left_joy s) (right_joy s) ≡ as_played analog s
fields-eq analog s k t h r =
    let lx : (s.left_stick_y * 256 + s.left_stick_x) % 256 ≡ s.left_stick_x = omega arith in
    let ly : (s.left_stick_y * 256 + s.left_stick_x) / 256 % 256 ≡ s.left_stick_y = omega arith in
    let rx : (s.right_stick_y * 256 + s.right_stick_x) % 256 ≡ s.right_stick_x = omega arith in
    let ry : (s.right_stick_y * 256 + s.right_stick_x) / 256 % 256 ≡ s.right_stick_y =
      omega arith in
    rw (lx, ly, rx, ry, r.names, r.left, r.right)

-- A record reads back as the step that the pad plays.
pub decode_step-record :
    (analog : Bool) (s : MacroStep) (keys : ℕ)
    → IsStep s
    → Routed analog s (route_triggers analog s keys).0 (route_triggers analog s keys).1
    → decode_step analog (
        record_bytes s.duration_ms
          (route_triggers analog s keys).0
          (route_triggers analog s keys).1
          (left_joy s)
          (right_joy s)
          [])
      ≡ ok (as_played analog s)
decode_step-record analog s keys h r =
    let k : ℕ = (route_triggers analog s keys).0 in
    let t : ℕ = (route_triggers analog s keys).1 in
    let lw : word (left_joy s) ≡ left_joy s = word_back (left_joy s) (omega arith) in
    let rw' : word (right_joy s) ≡ right_joy s = word_back (right_joy s) (omega arith) in
    decode_step-eq analog s.duration_ms k t (left_joy s) (right_joy s)
    ∙ rw
        (
          word_back s.duration_ms h.duration,
          word_back k r.small_keys,
          word_back t r.small_value,
          lw,
          rw',
        )
        (ap ok (fields-eq analog s k t h r))
