-- ===== src/Devices/Pro3/Blob/Codes.antt =====
-- crates/controller-core/src/devices/pro3/profile.rs: the lengths of the codes that the button map
-- is written with.
use b.Devices.Pro3.Blob.Coded.{
  All-set, IsCode, AreCodes, IsOverride, AreOverrides, chosen-IsOverride,
}
use Prim.Native.String.{String}
use text.Mathlib.Text.{◌==◌ as str_eq}
use b.Devices.Pro3.Tables.{switch_turbo_default, null_encoding}
use b.Shared.{
  ◌*◌, set, get_elem?, length-drop, length-take, ◌-◌, ◌^◌, ltb, leb, Bool-cases, unwrap_or, ℕ, ◌+◌,
  ◌==◌, ◌≡◌, ◌≤◌, refl, inl, inr, List, [], ◌∷◌, Bool, true, not, ◌&&◌, if◌then◌else◌, if-elim,
  length, take, drop, find, Option, none, some, Option-cases, Result, ok, err, validation, arith,
  Gives, Gives-ok, Gives-err, Gives-if, Gives->>=,
}
use b.Devices.Pro3.Blob.{default_encoding, entry_code}
use b.Devices.Pro3.{switch, dinput, xinput}
use b.Protocol.Bytes.{take_bytes}
use b.Devices.Pro3.Compile.{
  control_name_to_index, overrides_from, override_with, new_encoding, write_encoding, wire_code,
  disabled_encoding, target_encoding,
}
use b.Devices.Pro3.Macros.Buttons.{All-find}
use b.Devices.Pro3.Profile.{
  source_at, decode_target_control, has_target_only_output, bytes4_at, ButtonMapping,
}
use b.Devices.Pro3.Tables.Buttons.{ButtonEncodingEntry}

-- `write_encoding` as a function of what the table finds.
abbrev code_found : Option ButtonEncodingEntry → Result (List ℕ)
code_found none = err validation
code_found (some e) = ok (wire_code e)

write_encoding-eq :
    (name : String) (entries : List ButtonEncodingEntry) (o : Option ButtonEncodingEntry)
    → find (λ e. str_eq e.source name) entries ≡ o
    → write_encoding name entries ≡ code_found o
unfolding write_encoding
write_encoding-eq name entries none e = ground arith
write_encoding-eq name entries (some d) e = ground arith

ltb_within :
    (buf : List ℕ) (off n : ℕ)
    → (leb off (off + n) && leb (off + n) (length buf)) ≡ true
    → off + n ≤ length buf
ltb_within buf off n h = ground arith

take_bytes-Gives : (buf : List ℕ) (off n : ℕ) → Gives (λ s. length s ≡ n) (take_bytes buf off n)
unfolding take_bytes
take_bytes-Gives buf off n s e = elim (Bool-cases (ltb (off + n) (2 ^ 64))) [
  | inl fits ↦ elim (Bool-cases (leb off (off + n) && leb (off + n) (length buf))) [
    | inl within ↦
        let same : take (off + n - off) (drop off buf) ≡ s = ground arith in
        rw (← same) (
          omega (
            arith,
            length-take (off + n - off) (drop off buf),
            length-drop off buf,
            ltb_within buf off n within,
          ))
    | inr without ↦ absurd (ground arith)
  ]
  | inr over ↦ absurd (ground arith)
]

bytes4_at-IsCode : (buf : List ℕ) (off : ℕ) → IsCode (bytes4_at buf off)
unfolding bytes4_at
bytes4_at-IsCode buf off = unwrapped (take_bytes buf off 4) (take_bytes-Gives buf off 4)
  where
    unwrapped : (r : Result (List ℕ)) → Gives IsCode r → IsCode (unwrap_or r null_encoding)
    unwrapped (err e) h = refl
    unwrapped (ok s) h = h s refl

module _ (entries : List ButtonEncodingEntry) (codes : AreCodes entries) where
  write_encoding-Gives : (name : String) → Gives IsCode (write_encoding name entries)
  write_encoding-Gives name = elim (Option-cases (find (λ e. str_eq e.source name) entries)) [
    | inl missing ↦ rw (write_encoding-eq name entries none missing) (Gives-err IsCode validation)
    | inr (e, found) ↦ rw (write_encoding-eq name entries (some e) found) (
        Gives-ok IsCode (wire_code e)
          (All-find (λ d. IsCode (wire_code d)) (λ d. str_eq d.source name) entries codes found).0)
  ]

  disabled-Gives : (source : String) (i : ℕ) → Gives IsCode (disabled_encoding source i entries)
  unfolding disabled_encoding
  disabled-Gives source i = Gives->>= IsCode (write_encoding source entries) _ (λ own e.
      Gives-ok IsCode _ (
        if-elim IsCode (leb 18 i && not (has_target_only_output entries own)) {x = own}
          {y = null_encoding} (write_encoding-Gives source own e) refl))

  new_encoding-Gives :
      (is_switch : Bool) (source target : String) (i : ℕ)
      → Gives IsCode (new_encoding is_switch entries source target i)
  unfolding new_encoding
  new_encoding-Gives is_switch source target i =
      Gives-if IsCode (str_eq target "unrecognised") _ _ (Gives-err IsCode validation) (
        Gives-if IsCode (str_eq target "disabled") _ _ (disabled-Gives source i) (
          Gives-if IsCode (str_eq target "screenshot" && is_switch) _ _
            (Gives-ok IsCode switch_turbo_default refl)
            (Gives-if IsCode (str_eq target "screenshot") _ _ (write_encoding-Gives source)
              (write_encoding-Gives target))))

  target-Gives :
      (is_switch : Bool) (mapping : ButtonMapping) (i : ℕ) (kept : List ℕ)
      → IsCode kept
      → Gives IsCode (target_encoding is_switch entries mapping i kept)
  unfolding target_encoding
  target-Gives is_switch mapping i kept k =
      Gives-if IsCode (str_eq (decode_target_control entries i kept) mapping.target) _ _
        (Gives-ok IsCode kept k) (new_encoding-Gives is_switch mapping.source mapping.target i)

  override_with-Gives :
      (is_switch : Bool) (mapping : ButtonMapping) (buf : List ℕ) (base : ℕ)
      (overrides : List (Option (List ℕ)))
      → AreOverrides overrides
      → Gives AreOverrides (override_with is_switch entries mapping buf base overrides)
  unfolding override_with control_name_to_index b.Devices.Pro3.Compile.position_from
  override_with-Gives is_switch mapping buf base overrides h =
      elim (Option-cases (control_name_to_index mapping.source entries)) [
        | inl missing ↦ rw missing (Gives-ok AreOverrides overrides h)
        | inr (i, found) ↦ rw found (
            Gives->>= AreOverrides
              (target_encoding is_switch entries mapping i (bytes4_at buf (base + i * 4))) _
              (λ enc e.
                Gives->>= AreOverrides
                  (if i == 13 then write_encoding "home/guide" entries else ok enc) _
                  (λ forced f. Gives-ok AreOverrides (set overrides i (some forced)) (
                    All-set IsOverride overrides i (some forced) h (
                      Gives-if IsCode (i == 13) (write_encoding "home/guide" entries) (ok enc)
                        (write_encoding-Gives "home/guide")
                        (Gives-ok IsCode enc (
                          target-Gives is_switch mapping i _ (bytes4_at-IsCode buf (base + i * 4))
                            enc e))
                        forced f)))))
      ]

  pub overrides_from-Gives :
      (is_switch : Bool) (mappings : List ButtonMapping) (buf : List ℕ) (base : ℕ)
      (overrides : List (Option (List ℕ)))
      → AreOverrides overrides
      → Gives AreOverrides (overrides_from is_switch entries mappings buf base overrides)
  unfolding overrides_from
  overrides_from-Gives is_switch [] buf base overrides h = Gives-ok AreOverrides overrides h
  overrides_from-Gives is_switch (m ∷ ms) buf base overrides h =
      Gives->>= AreOverrides (override_with is_switch entries m buf base overrides) _ (λ os e.
        overrides_from-Gives is_switch ms buf base os
          (override_with-Gives is_switch m buf base overrides h os e))

  default_encoding-IsCode :
      (is_switch : Bool) (i : ℕ) → IsCode (default_encoding is_switch entries i)
  unfolding default_encoding
  default_encoding-IsCode is_switch i =
      if-elim IsCode (i == 12 && is_switch) {x = switch_turbo_default} refl (
        or_null (write_encoding (if i == 12 then "turbo" else source_at entries i) entries)
          (write_encoding-Gives (if i == 12 then "turbo" else source_at entries i)))
    where
      or_null :
          (r : Result (List ℕ))
          → Gives IsCode r
          → IsCode (elim r [ err e ↦ null_encoding | ok code ↦ code ])
      or_null (err e) h = refl
      or_null (ok code) h = h code refl

  pub entry_code-IsCode :
      (is_switch : Bool) (overrides : List (Option (List ℕ))) (i : ℕ)
      → AreOverrides overrides
      → IsCode (entry_code is_switch entries overrides i)
  unfolding entry_code
  entry_code-IsCode is_switch overrides i h =
      chosen (elim (get_elem? overrides i) [ none ↦ none | some o ↦ o ])
        (chosen-IsOverride overrides i h)
    where
      chosen :
          (o : Option (List ℕ))
          → IsOverride o
          → IsCode (elim o [ none ↦ default_encoding is_switch entries i | some code ↦ code ])
      chosen none k = default_encoding-IsCode is_switch i
      chosen (some code) k = k
