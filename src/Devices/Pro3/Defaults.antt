-- ===== src/Devices/Pro3/Defaults.antt =====
-- crates/controller-core/src/devices/pro3/profile.rs: the profile that a new slot starts from.
use b.Shared.{ℕ, ◌+◌, ◌==◌, ◌&&◌, if◌then◌else◌, List, [], ◌∷◌, false, take, ok}
use b.Shared.Int.{pos}
use b.Model.Mode.{Mode, same_mode}
use b.Devices.Pro3 as pro3
use b.Devices.Pro3.Blob.{Profile}
use b.Devices.Pro3.Profile.{ButtonMapping, encodings_for_mode, decode_target_control}
use b.Devices.Pro3.Reading.{decode_sticks, decode_triggers}
use b.Devices.Pro3.Settings.{Settings, Triggers, analog, switch}
use b.Devices.Pro3.Tables.{
  default_stick_min_pct, default_switch_threshold_pct, source_button_count, switch_turbo_default,
  turbo_index, vibration_level_max,
}
use b.Devices.Pro3.Tables.Buttons.{ButtonEncodingEntry}

-- The mapping of button `i`; Switch turbo takes a screenshot.
unfoldable default_mapping :
    Mode → List ButtonEncodingEntry → ℕ → ButtonEncodingEntry → ButtonMapping
default_mapping mode entries i e =
    let encoding =
      if same_mode mode pro3.switch && i == turbo_index then switch_turbo_default else e.encoding in
    record { source = e.source; target = decode_target_control entries i encoding }

-- `entries.iter().enumerate().map(..)`, from `i` on.
unfoldable default_mappings_from :
    Mode → List ButtonEncodingEntry → ℕ → List ButtonEncodingEntry → List ButtonMapping
default_mappings_from mode entries i [] = []
default_mappings_from mode entries i (e ∷ es) =
    default_mapping mode entries i e ∷ default_mappings_from mode entries (i + 1) es

unfoldable pub default_triggers : Triggers → Triggers
default_triggers (switch sw) = switch (record sw {
  left_threshold_pct = pos default_switch_threshold_pct;
  right_threshold_pct = pos default_switch_threshold_pct;
})
default_triggers (analog a) = analog a

unfoldable pub default_settings : Mode → Settings
default_settings mode = record {
  sticks = record (decode_sticks [] 0 false) {
    left_min_pct = pos default_stick_min_pct;
    right_min_pct = pos default_stick_min_pct;
  };
  triggers = default_triggers (decode_triggers [] mode 0 false);
  vibration = record {
    left_level = pos vibration_level_max;
    right_level = pos vibration_level_max;
  };
}

unfoldable default_profile : Mode → Profile
default_profile mode =
    let entries = encodings_for_mode mode in
    record {
      name = [];
      mode = mode;
      settings = ok (default_settings mode);
      button_mappings = default_mappings_from mode entries 0 (take source_button_count entries);
    }
