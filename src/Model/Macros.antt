-- ===== src/Model/Macros.antt =====
-- crates/controller-core/src/model/macros.rs: macro steps and definitions in memory. A glide set (a
-- `BTreeSet`) is the ascending list of its controls.
use b.Shared.{ℕ, ◌==◌, ◌&&◌, ◌≡◌, refl, List, [], ◌∷◌, Bool, true, false, Option, arith}
use Prim.Native.String.{String}
use text.Mathlib.Text.{◌==◌ as str_eq}
use text.Mathlib.TextEquality.{eq_iff}
use b.Model.Mode.{Mode}

pub data GlideControl : Type 0 where
  left_stick right_stick left_trigger right_trigger : GlideControl

-- The derived order's rank.
abbrev pub rank : GlideControl → ℕ
rank left_stick = 0
rank right_stick = 1
rank left_trigger = 2
rank right_trigger = 3

pub record MacroStep : Type 0 where
  pub duration_ms : ℕ
  pub pressed_buttons : List String
  pub left_stick_x : ℕ
  pub left_stick_y : ℕ
  pub right_stick_x : ℕ
  pub right_stick_y : ℕ
  pub trigger_left : ℕ
  pub trigger_right : ℕ
  pub glide : List GlideControl

-- `MacroStep::default()`
abbrev pub default_step : MacroStep
default_step = record {
  duration_ms = 0;
  pressed_buttons = [];
  left_stick_x = 127;
  left_stick_y = 127;
  right_stick_x = 127;
  right_stick_y = 127;
  trigger_left = 0;
  trigger_right = 0;
  glide = [];
}

pub record MacroDefinition : Type 0 where
  pub name : List ℕ
  pub mode : Mode
  pub trigger_buttons : List String
  pub unknown_trigger_bits : ℕ
  pub repeat_count : ℕ
  pub interval_ms : ℕ
  pub steps : List MacroStep
  pub macro_slot : Option ℕ

-- The derived equality of steps.
unfoldable pub same_names : List String → List String → Bool
same_names [] [] = true
same_names [] (y ∷ ys) = false
same_names (x ∷ xs) [] = false
same_names (x ∷ xs) (y ∷ ys) = str_eq x y && same_names xs ys

unfoldable pub same_controls : List GlideControl → List GlideControl → Bool
same_controls [] [] = true
same_controls [] (d ∷ ds) = false
same_controls (c ∷ cs) [] = false
same_controls (c ∷ cs) (d ∷ ds) = rank c == rank d && same_controls cs ds

unfoldable pub same_step : MacroStep → MacroStep → Bool
unfolding same_names same_controls
same_step s t =
    s.duration_ms == t.duration_ms
    && (same_names s.pressed_buttons t.pressed_buttons
        && (s.left_stick_x == t.left_stick_x
            && (s.left_stick_y == t.left_stick_y
                && (s.right_stick_x == t.right_stick_x
                    && (s.right_stick_y == t.right_stick_y
                        && (s.trigger_left == t.trigger_left
                            && (s.trigger_right == t.trigger_right
                                && same_controls s.glide t.glide)))))))

unfoldable pub same_steps : List MacroStep → List MacroStep → Bool
unfolding same_step
same_steps [] [] = true
same_steps [] (t ∷ ts) = false
same_steps (s ∷ ss) [] = false
same_steps (s ∷ ss) (t ∷ ts) = same_step s t && same_steps ss ts

same_names→eq : (xs ys : List String) → same_names xs ys ≡ true → xs ≡ ys
unfolding same_names
same_names→eq [] [] h = refl
same_names→eq [] (y ∷ ys) h = cc
same_names→eq (x ∷ xs) [] h = cc
same_names→eq (x ∷ xs) (y ∷ ys) h = ground (arith, eq_iff x y, same_names→eq xs ys)

rank_injective : (c d : GlideControl) → rank c ≡ rank d → c ≡ d
rank_injective c d h = ground arith

same_controls→eq : (xs ys : List GlideControl) → same_controls xs ys ≡ true → xs ≡ ys
unfolding same_controls
same_controls→eq [] [] h = refl
same_controls→eq [] (y ∷ ys) h = cc
same_controls→eq (x ∷ xs) [] h = cc
same_controls→eq (x ∷ xs) (y ∷ ys) h = ground (arith, rank_injective x y, same_controls→eq xs ys)

same_step→eq : (s t : MacroStep) → same_step s t ≡ true → s ≡ t
unfolding same_step
same_step→eq s t h =
    ground
      (arith, same_names→eq s.pressed_buttons t.pressed_buttons, same_controls→eq s.glide t.glide)

pub same_steps→eq : (xs ys : List MacroStep) → same_steps xs ys ≡ true → xs ≡ ys
unfolding same_steps
same_steps→eq [] [] h = refl
same_steps→eq [] (y ∷ ys) h = cc
same_steps→eq (x ∷ xs) [] h = cc
same_steps→eq (x ∷ xs) (y ∷ ys) h = ground (arith, same_step→eq x y, same_steps→eq xs ys)
