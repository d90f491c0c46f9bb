-- ===== src/Devices/Pro3/Macros/Listed.antt =====
-- crates/controller-core/src/devices/pro3/macros.rs: the macro that a descriptor gives back.
use Prim.Native.String.{String}
use text.Mathlib.Text.{◌==◌ as str_eq}
use text.Mathlib.TextEquality.{eq_iff}
use b.Shared.{
  suc, bit_or, bit_and, ◌||◌, ◌&&◌, ◌==◌, ◌≤◌, ◌*◌, ◌≡◌, ◌∙◌, ℕ, Bool, true, false, All, List, [],
  ◌∷◌, length, map, filter, find, some, none, ok, ap, ap₂, refl, arith, replicate, if◌then◌else◌,
  Bool-cases, inl, inr,
}
use b.Shared.Masks.{bit_and-zero, bit_and_comm, bit_and-bit_or, has_bit-bit_or, has_bit}
use b.Model.MacroSlot.{MacroSlot}
use b.Model.Macros.{default_step, MacroDefinition}
use b.Protocol.Bytes.{IsU16, IsU32}
use b.Protocol.Text.{encode_utf16}
use b.Protocol.Text.RoundTrip.{IsNameChar}
use b.Devices.Pro3.{mode_byte}
use b.Devices.Pro3.Macros.{
  trigger_bits_from, trigger_key_map, key_map_to_trigger_buttons, known_bits, not_u32,
  encode_macro_metadata, decode_descriptor,
}
use b.Devices.Pro3.Macros.Buttons.{
  contains, all_of, same, same→eq, All-all_of, All-find, filter_agree,
}
use b.Devices.Pro3.Macros.Triggers.{bits_from-cons}
use b.Devices.Pro3.Macros.Descriptor.{IsEncodable, encoded_descriptor}
use b.Devices.Pro3.Tables.Buttons.{TriggerEntry, triggers}

-- A name that some trigger button has.
abbrev pub IsTriggerButton : String → Type 0
IsTriggerButton name = (e : TriggerEntry) × (find (λ t. str_eq t.name name) triggers ≡ some e)

-- The bits of `keys` are those of the buttons that `held` tells.
abbrev Holds : ℕ → (String → Bool) → List TriggerEntry → Type 0
Holds keys held es = All (λ e. has_bit keys e.key_map ≡ held e.name) es

unknown : ℕ
unknown = not_u32 (known_bits triggers 0)

own_bit : TriggerEntry → TriggerEntry → Bool
unfolding same
own_bit d e = same (has_bit d.key_map e.key_map) (str_eq d.name e.name)

-- A row of the table: no unknown bit, and a bit in common with itself only.
own_row : TriggerEntry → Bool
unfolding own_bit unknown all_of known_bits
own_row d = (bit_and unknown d.key_map == 0) && all_of (own_bit d) triggers

own_rows : all_of own_row triggers ≡ true
unfolding all_of own_row own_bit same unknown known_bits
own_rows = refl

row-Holds :
    (d : TriggerEntry) (keys : ℕ) (held : String → Bool) (es : List TriggerEntry)
    → all_of (own_bit d) es ≡ true
    → Holds keys held es
    → Holds (bit_or keys d.key_map) (λ n. held n || str_eq d.name n) es
unfolding all_of own_bit
row-Holds d keys held [] h k = tt
row-Holds d keys held (e ∷ es) h k =
    let bit = same→eq (has_bit d.key_map e.key_map) (str_eq d.name e.name) (ground arith) in
    (
      has_bit-bit_or keys d.key_map e.key_map ∙ ap₂ ◌||◌ k.0 bit,
      row-Holds d keys held es (ground arith) k.1,
    )

Holds-ext :
    (keys : ℕ) (held held' : String → Bool) (es : List TriggerEntry)
    → ((n : String) → held n ≡ held' n)
    → Holds keys held es
    → Holds keys held' es
Holds-ext keys held held' [] same h = tt
Holds-ext keys held held' (e ∷ es) same h =
    (h.0 ∙ same e.name, Holds-ext keys held held' es same h.1)

zero_and : (n : ℕ) (b : Bool) → ((n == 0) && b) ≡ true → (n ≡ 0) × (b ≡ true)
zero_and n b h = ground arith

row_parts :
    (d : TriggerEntry)
    → own_row d ≡ true
    → (bit_and unknown d.key_map ≡ 0) × (all_of (own_bit d) triggers ≡ true)
row_parts d h =
    zero_and (bit_and unknown d.key_map) (all_of (own_bit d) triggers) (unfold own_row in h)

or_assoc : (a b c : Bool) → ((a || b) || c) ≡ (a || (b || c))
or_assoc a b c = ground arith

is_zero : (n : ℕ) → (n == 0) ≡ true → n ≡ 0
is_zero n h = ground arith

no_bit : (keys mask : ℕ) → keys ≡ 0 → has_bit keys mask ≡ false
no_bit keys mask e = rw (e, bit_and_comm 0 mask, bit_and-zero mask)

suc_apart : (n : ℕ) → false ≡ (suc n == 0)
suc_apart n = ground arith

true_apart : {b : Bool} {A : Type 0} → b ≡ true → b ≡ false → A
true_apart e f = absurd cc

or_false : (b : Bool) → b ≡ (b || false)
or_false true = refl
or_false false = refl

contains_head : (name : String) (names : List String) → contains (name ∷ names) name ≡ true
unfolding contains
contains_head name names = rw ((eq_iff name name).1 refl)

-- The bits of the names are those of the table rows with these names.
record Pulled (names : List String) (from : ℕ) (held : String → Bool) : Type 0 where
  keys : ℕ
  sets : trigger_bits_from from names ≡ ok keys
  known : bit_and unknown keys ≡ 0
  holds : Holds keys (λ n. held n || contains names n) triggers

pull_every :
    (names : List String) (from : ℕ) (held : String → Bool)
    → All IsTriggerButton names
    → bit_and unknown from ≡ 0
    → Holds from held triggers
    → Pulled names from held
pull_every [] from held known apart h = record {
  keys = from;
  sets = unfold trigger_bits_from in refl;
  known = apart;
  holds =
      Holds-ext from held (λ n. held n || contains [] n) triggers
        (λ n. unfold contains in or_false (held n)) h;
}
pull_every (name ∷ names) from held known apart h =
    let (d, found) = known.0 in
    let row =
      All-find (λ c. own_row c ≡ true) (λ t. str_eq t.name name) triggers
        (All-all_of own_row triggers own_rows) found in
    let named : d.name ≡ name = (eq_iff d.name name).0 row.1 in
    let own : (bit_and unknown d.key_map ≡ 0) × (all_of (own_bit d) triggers ≡ true) =
      row_parts d row.0 in
    let more : Holds (bit_or from d.key_map) (λ n. held n || str_eq name n) triggers =
      Holds-ext (bit_or from d.key_map) (λ n. held n || str_eq d.name n)
        (λ n. held n || str_eq name n) triggers
        (λ n. ap (λ (s : String). held n || str_eq s n) named)
        (row-Holds d from held triggers own.1 h) in
    let rest =
      pull_every names (bit_or from d.key_map) (λ n. held n || str_eq name n) known.1
        (bit_and-bit_or unknown from d.key_map ∙ ap₂ bit_or apart own.0) more in
    record {
      keys = rest.keys;
      sets = bits_from-cons name names from d found ∙ rest.sets;
      known = rest.known;
      holds =
          Holds-ext rest.keys (λ n. (held n || str_eq name n) || contains names n)
            (λ n. held n || contains (name ∷ names) n) triggers
            (λ n. unfold contains in or_assoc (held n) (str_eq name n) (contains names n))
            rest.holds;
    }

no_bits : (es : List TriggerEntry) → Holds 0 (λ n. false) es
no_bits [] = tt
no_bits (e ∷ es) = (rw (bit_and_comm 0 e.key_map, bit_and-zero e.key_map), no_bits es)

-- The buttons of the table that are among `names`, in the table's order.
abbrev pub in_table_order : List String → List String
in_table_order names = map (λ e. e.name) (filter (λ e. contains names e.name) triggers)

-- No names give no bits, and some names give some.
no_keys :
    (names : List String) (keys : ℕ)
    → All IsTriggerButton names
    → trigger_bits_from 0 names ≡ ok keys
    → Holds keys (contains names) triggers
    → (keys == 0) ≡ (length names == 0)
no_keys [] keys known e h =
    let none_set : 0 ≡ keys = unfold trigger_bits_from in cc in rw (← none_set)
no_keys (name ∷ names) keys known e h =
    let (d, found) = known.0 in
    let (bit, named) =
      All-find (λ t. has_bit keys t.key_map ≡ contains (name ∷ names) t.name)
        (λ t. str_eq t.name name) triggers h found in
    let among : contains (name ∷ names) d.name ≡ true =
      ap (contains (name ∷ names)) ((eq_iff d.name name).0 named) ∙ contains_head name names in
    elim (Bool-cases (keys == 0)) [
      | inl zero_keys ↦ true_apart (bit ∙ among) (no_bit keys d.key_map (is_zero keys zero_keys))
      | inr some_keys ↦ some_keys ∙ suc_apart (length names)
    ]

-- What the decoder makes of the bits of some trigger buttons.
pulled :
    (names : List String)
    → All IsTriggerButton names
    → (keys : ℕ) × (trigger_key_map names ≡ ok keys)
      × (key_map_to_trigger_buttons keys ≡ (in_table_order names, 0))
      × ((keys == 0) ≡ (length names == 0))
pulled names known =
    let p = pull_every names 0 (λ n. false) known (bit_and-zero unknown) (no_bits triggers) in
    (
      p.keys,
      (unfold trigger_key_map in p.sets),
      (unfold key_map_to_trigger_buttons unknown in
          ap₂ (λ (ns : List String) (u : ℕ). (ns, u))
            (ap (map (λ e. e.name)) (
              filter_agree (λ e. has_bit p.keys e.key_map) (λ e. contains names e.name) triggers
                p.holds))
            (bit_and_comm p.keys unknown ∙ p.known)),
      no_keys names p.keys known p.sets p.holds,
    )

-- A macro that the encoder takes, with its mode's byte.
pub record IsWellFormed (def : MacroDefinition) (slot : MacroSlot) (mode : ℕ) : Type 0 where
  pub plain_name : All IsNameChar def.name
  pub short_name : 2 * length (encode_utf16 def.name) ≤ 32
  pub mode_known : mode_byte def.mode ≡ ok mode
  pub buttons_known : All IsTriggerButton def.trigger_buttons
  pub few_steps : IsU16 (length def.steps)
  pub repeats : IsU32 def.repeat_count
  pub pauses : IsU32 def.interval_ms
  pub slot_known : slot.get ≤ 3

-- The macro that is read back: each trigger button once, in the table's order, no unknown bits, as
-- many default steps, which are yet to be read, and the slot of the descriptor's place.
abbrev pub as_listed : MacroDefinition → ℕ → MacroDefinition
as_listed def slot = record def {
  trigger_buttons = in_table_order def.trigger_buttons;
  unknown_trigger_bits = 0;
  steps = replicate (length def.steps) default_step;
  macro_slot = some slot;
}

-- A macro with a plain name that fits 32 bytes, a mode of the Pro 3, trigger buttons of the table,
-- fewer than 65536 steps, and a repeat count and an interval of 32 bits encodes, for any of the four
-- macro slots, to a descriptor of 52 bytes. It reads back as an empty slot when the macro has
-- neither a trigger button nor a step, and else with the same name, mode, repeat count and interval,
-- the same trigger buttons, each once and in the table's order, as many steps, all default, and the
-- slot it was encoded for. The unknown trigger bits of the macro are not kept: they read back as 0.
pub decode-encode_macro_metadata :
    (def : MacroDefinition) (slot : MacroSlot) (mode : ℕ)
    → IsWellFormed def slot mode
    → (descriptor : List ℕ) × (encode_macro_metadata def slot ≡ ok descriptor)
      × (length descriptor ≡ 52)
      × (decode_descriptor slot.get descriptor
          ≡ ok (
              if length def.trigger_buttons == 0 && length def.steps == 0
              then none
              else some (as_listed def slot.get)))
decode-encode_macro_metadata def slot mode h =
    let (keys, sets, back, zeros) = pulled def.trigger_buttons h.buttons_known in
    let encodable : IsEncodable def slot mode keys = record {
      plain_name = h.plain_name;
      short_name = h.short_name;
      mode_known = h.mode_known;
      buttons_known = sets;
      few_steps = h.few_steps;
      repeats = h.repeats;
      pauses = h.pauses;
      slot_known = h.slot_known;
    } in
    let (descriptor, encoded, sized, decoded) = encoded_descriptor def slot mode keys encodable in
    (
      descriptor,
      encoded,
      sized,
      decoded
          ∙ ap₂ (λ b listed. ok (if b && length def.steps == 0 then none else some listed)) zeros
              (ap
                (λ (t : List String × ℕ). record def {
                  trigger_buttons = t.0;
                  unknown_trigger_bits = t.1;
                  steps = replicate (length def.steps) default_step;
                  macro_slot = some slot.get;
                })
                back),
    )
