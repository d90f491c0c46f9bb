-- ===== src/Devices/Pro3/Settings.antt =====
-- crates/controller-core/src/devices/pro3/settings.rs: the settings groups of a Pro 3 profile.
use b.Shared.{Bool}
use b.Shared.Int.{ℤ}

pub record Sticks : Type 0 where
  pub left_min_pct : ℤ
  pub left_max_pct : ℤ
  pub right_min_pct : ℤ
  pub right_max_pct : ℤ
  pub invert_left_x : Bool
  pub invert_left_y : Bool
  pub invert_right_x : Bool
  pub invert_right_y : Bool
  pub swap_sticks : Bool
  pub swap_dpad_with_left_stick : Bool

pub record TriggersAnalog : Type 0 where
  pub left_min_pct : ℤ
  pub left_max_pct : ℤ
  pub right_min_pct : ℤ
  pub right_max_pct : ℤ
  pub swap_triggers : Bool

pub record TriggersSwitch : Type 0 where
  pub left_threshold_pct : ℤ
  pub right_threshold_pct : ℤ
  pub swap_triggers : Bool

pub data Triggers : Type 0 where
  analog : TriggersAnalog → Triggers
  switch : TriggersSwitch → Triggers

pub record Vibration : Type 0 where
  pub left_level : ℤ
  pub right_level : ℤ

pub record Settings : Type 0 where
  pub sticks : Sticks
  pub triggers : Triggers
  pub vibration : Vibration
