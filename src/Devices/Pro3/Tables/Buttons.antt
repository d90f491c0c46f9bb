-- ===== src/Devices/Pro3/Tables/Buttons.antt =====
-- crates/controller-core/src/devices/pro3/tables.rs: the button tables of each mode, and the buttons
-- of a macro.
use Prim.Native.String.{String}
use b.Shared.{ℕ, List, [], ◌∷◌, ◌++◌, take}
use b.Devices.Pro3.Tables.{source_button_count}

pub record ButtonEncodingEntry : Type 0 where
  pub source : String
  pub encoding : List ℕ
  pub variant_identity_encodings : List (List ℕ)

abbrev entry : String → List ℕ → List (List ℕ) → ButtonEncodingEntry
entry source encoding variants = record {
  source = source;
  encoding = encoding;
  variant_identity_encodings = variants;
}

abbrev pub xinput_encodings : List ButtonEncodingEntry
xinput_encodings =
    entry "right face" (0x00 ∷ 0x00 ∷ 0x00 ∷ 0x20 ∷ []) ((0x00 ∷ 0x10 ∷ 0x00 ∷ 0x00 ∷ []) ∷ [])
    ∷ entry "bottom face" (0x00 ∷ 0x00 ∷ 0x20 ∷ 0x00 ∷ []) ((0x00 ∷ 0x20 ∷ 0x00 ∷ 0x00 ∷ []) ∷ [])
    ∷ entry "top face" (0x20 ∷ 0x00 ∷ 0x00 ∷ 0x00 ∷ []) []
    ∷ entry "left face" (0x00 ∷ 0x00 ∷ 0x00 ∷ 0x20 ∷ []) ((0x10 ∷ 0x00 ∷ 0x00 ∷ 0x00 ∷ []) ∷ [])
    ∷ entry "l1" (0x00 ∷ 0x04 ∷ 0x00 ∷ 0x00 ∷ []) []
    ∷ entry "r1" (0x00 ∷ 0x08 ∷ 0x00 ∷ 0x00 ∷ []) []
    ∷ entry "l2" (0x00 ∷ 0x40 ∷ 0x00 ∷ 0x00 ∷ []) []
    ∷ entry "r2" (0x00 ∷ 0x80 ∷ 0x00 ∷ 0x00 ∷ []) []
    ∷ entry "l3" (0x02 ∷ 0x00 ∷ 0x00 ∷ 0x00 ∷ []) []
    ∷ entry "r3" (0x04 ∷ 0x00 ∷ 0x00 ∷ 0x00 ∷ []) []
    ∷ entry "select/back" (0x08 ∷ 0x00 ∷ 0x00 ∷ 0x00 ∷ []) []
    ∷ entry "start/menu" (0x01 ∷ 0x00 ∷ 0x00 ∷ 0x00 ∷ []) []
    ∷ entry "turbo" (0x00 ∷ 0x00 ∷ 0x01 ∷ 0x00 ∷ []) []
    ∷ entry "home/guide" (0x00 ∷ 0x00 ∷ 0x02 ∷ 0x00 ∷ []) []
    ∷ entry "d-pad up" (0x00 ∷ 0x02 ∷ 0x00 ∷ 0x00 ∷ []) []
    ∷ entry "d-pad down" (0x00 ∷ 0x01 ∷ 0x00 ∷ 0x00 ∷ []) []
    ∷ entry "d-pad left" (0x80 ∷ 0x00 ∷ 0x00 ∷ 0x00 ∷ []) []
    ∷ entry "d-pad right" (0x40 ∷ 0x00 ∷ 0x00 ∷ 0x00 ∷ []) []
    ∷ entry "rp" (0x00 ∷ 0x00 ∷ 0x00 ∷ 0x02 ∷ []) []
    ∷ entry "lp" (0x00 ∷ 0x00 ∷ 0x00 ∷ 0x04 ∷ []) []
    ∷ entry "l4" (0x00 ∷ 0x00 ∷ 0x20 ∷ 0x00 ∷ []) []
    ∷ entry "r4" (0x00 ∷ 0x00 ∷ 0x00 ∷ 0x40 ∷ []) []
    ∷ []

abbrev pub switch_encodings : List ButtonEncodingEntry
switch_encodings =
    entry "right face" (0x00 ∷ 0x20 ∷ 0x00 ∷ 0x00 ∷ []) []
    ∷ entry "bottom face" (0x00 ∷ 0x10 ∷ 0x00 ∷ 0x00 ∷ []) []
    ∷ entry "top face" (0x10 ∷ 0x00 ∷ 0x00 ∷ 0x00 ∷ []) []
    ∷ entry "left face" (0x20 ∷ 0x00 ∷ 0x00 ∷ 0x00 ∷ []) []
    ∷ entry "l1" (0x00 ∷ 0x04 ∷ 0x00 ∷ 0x00 ∷ []) []
    ∷ entry "r1" (0x00 ∷ 0x08 ∷ 0x00 ∷ 0x00 ∷ []) []
    ∷ entry "l2" (0x00 ∷ 0x40 ∷ 0x00 ∷ 0x00 ∷ []) []
    ∷ entry "r2" (0x00 ∷ 0x80 ∷ 0x00 ∷ 0x00 ∷ []) []
    ∷ entry "l3" (0x02 ∷ 0x00 ∷ 0x00 ∷ 0x00 ∷ []) []
    ∷ entry "r3" (0x04 ∷ 0x00 ∷ 0x00 ∷ 0x00 ∷ []) []
    ∷ entry "select/back" (0x08 ∷ 0x00 ∷ 0x00 ∷ 0x00 ∷ []) []
    ∷ entry "start/menu" (0x01 ∷ 0x00 ∷ 0x00 ∷ 0x00 ∷ []) []
    ∷ entry "turbo" (0x00 ∷ 0x00 ∷ 0x01 ∷ 0x00 ∷ []) []
    ∷ entry "home/guide" (0x00 ∷ 0x00 ∷ 0x02 ∷ 0x00 ∷ []) []
    ∷ entry "d-pad up" (0x00 ∷ 0x02 ∷ 0x00 ∷ 0x00 ∷ []) []
    ∷ entry "d-pad down" (0x00 ∷ 0x01 ∷ 0x00 ∷ 0x00 ∷ []) []
    ∷ entry "d-pad left" (0x80 ∷ 0x00 ∷ 0x00 ∷ 0x00 ∷ []) []
    ∷ entry "d-pad right" (0x40 ∷ 0x00 ∷ 0x00 ∷ 0x00 ∷ []) []
    ∷ entry "rp" (0x00 ∷ 0x00 ∷ 0x00 ∷ 0x02 ∷ []) []
    ∷ entry "lp" (0x00 ∷ 0x00 ∷ 0x00 ∷ 0x04 ∷ []) []
    ∷ entry "l4" (0x00 ∷ 0x00 ∷ 0x20 ∷ 0x00 ∷ []) []
    ∷ entry "r4" (0x00 ∷ 0x00 ∷ 0x00 ∷ 0x40 ∷ []) []
    ∷ entry "screenshot" (0x00 ∷ 0x00 ∷ 0x40 ∷ 0x00 ∷ []) []
    ∷ []

abbrev dinput_paddle_outputs : List ButtonEncodingEntry
dinput_paddle_outputs =
    entry "rp output" (0x00 ∷ 0x00 ∷ 0x00 ∷ 0x02 ∷ []) []
    ∷ entry "lp output" (0x00 ∷ 0x00 ∷ 0x00 ∷ 0x04 ∷ []) []
    ∷ entry "l4 output" (0x00 ∷ 0x00 ∷ 0x20 ∷ 0x00 ∷ []) []
    ∷ entry "r4 output" (0x00 ∷ 0x00 ∷ 0x00 ∷ 0x40 ∷ []) []
    ∷ []

abbrev pub dinput_encodings : List ButtonEncodingEntry
dinput_encodings = take source_button_count switch_encodings ++ dinput_paddle_outputs

-- A name of a macro with its bit: `StepButtonEntry` has 16 bits and `TriggerEntry` has 32.
pub record StepButtonEntry : Type 0 where
  pub name : String
  pub mask : ℕ

pub record TriggerEntry : Type 0 where
  pub name : String
  pub key_map : ℕ

abbrev step_button : String → ℕ → StepButtonEntry
step_button name mask = record { name = name; mask = mask }

abbrev trigger : String → ℕ → TriggerEntry
trigger name key_map = record { name = name; key_map = key_map }

abbrev pub step_buttons : List StepButtonEntry
step_buttons =
    step_button "start/menu" 0x0001
    ∷ step_button "l3" 0x0002
    ∷ step_button "r3" 0x0004
    ∷ step_button "select/back" 0x0008
    ∷ step_button "top face" 0x0010
    ∷ step_button "left face" 0x0020
    ∷ step_button "d-pad right" 0x0040
    ∷ step_button "d-pad left" 0x0080
    ∷ step_button "d-pad down" 0x0100
    ∷ step_button "d-pad up" 0x0200
    ∷ step_button "l1" 0x0400
    ∷ step_button "r1" 0x0800
    ∷ step_button "bottom face" 0x1000
    ∷ step_button "right face" 0x2000
    ∷ step_button "l2" 0x4000
    ∷ step_button "r2" 0x8000
    ∷ []

abbrev pub triggers : List TriggerEntry
triggers =
    trigger "right face" 0x00002000
    ∷ trigger "bottom face" 0x00001000
    ∷ trigger "top face" 0x00000010
    ∷ trigger "left face" 0x00000020
    ∷ trigger "l1" 0x00000400
    ∷ trigger "r1" 0x00000800
    ∷ trigger "l2" 0x00004000
    ∷ trigger "r2" 0x00008000
    ∷ trigger "l3" 0x00000002
    ∷ trigger "r3" 0x00000004
    ∷ trigger "select/back" 0x00000008
    ∷ trigger "start/menu" 0x00000001
    ∷ trigger "turbo" 0x00010000
    ∷ trigger "d-pad up" 0x00000200
    ∷ trigger "d-pad down" 0x00000100
    ∷ trigger "d-pad left" 0x00000080
    ∷ trigger "d-pad right" 0x00000040
    ∷ trigger "rp" 0x02000000
    ∷ trigger "lp" 0x04000000
    ∷ trigger "l4" 0x00200000
    ∷ trigger "r4" 0x40000000
    ∷ []
