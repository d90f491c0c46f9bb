-- ===== src/Devices/Pro3/Macros/Triggers.antt =====
-- crates/controller-core/src/devices/pro3/macros.rs: trigger buttons and their bits.
use Prim.Native.String.{String}
use mathlib.Core.Option
use text.Mathlib.Text.{◌==◌ as str_eq}
use b.Protocol.Bytes.{IsU32}
use b.Devices.Pro3.Macros.Buttons.{all_of, All-all_of, All-find}
use b.Shared.{
  none, err, ltb, Option-cases, ltb→lt, true, filter-cons_of_pos, filter-cons_of_neg, arith,
  Bool-cases, ◌<◌, filter, some, map, find, validation, ◌∙◌, ok_or, sym, ap, ok, bit_or, ◌⊎◌, All,
  bit_and, ◌≡◌, ◌>>=◌, ℕ, ◌^◌, List, [], ◌∷◌, inl, inr, refl,
}
use b.Shared.Masks.{
  bit_or-lt, all_of_has_bit, none_of_has_bit, bit_or-complement, bit_and_comm, bit_and_assoc,
  bit_and-bit_or, zero-bit_or, bit_or_assoc, bit_or-zero, bit_and-zero, bit_and-pow, has_bit,
}
use b.Devices.Pro3.Macros.{
  trigger_bits_from, trigger_key_map, key_map_to_trigger_buttons, known_bits, not_u32,
}
use b.Devices.Pro3.Tables.Buttons.{TriggerEntry, triggers}

-- `key_map` has all or nothing of the bits of `e`, and the table finds `e` by its name.
record Listed (key_map : ℕ) (e : TriggerEntry) : Type 0 where
  whole : (bit_and key_map e.key_map ≡ 0) ⊎ (bit_and key_map e.key_map ≡ e.key_map)
  found : find (λ t. str_eq t.name e.name) triggers ≡ some e

listed :
    (key_map i : ℕ) (name : String)
    → find (λ t. str_eq t.name name) triggers ≡ some (record { name = name; key_map = 2 ^ i })
    → Listed key_map (record { name = name; key_map = 2 ^ i })
listed key_map i name found = record { whole = bit_and-pow i key_map; found = found }

every_in_table : (key_map : ℕ) → All (Listed key_map) triggers
every_in_table k = (
  listed k 13 "right face" refl,
  (
    listed k 12 "bottom face" refl,
    (
      listed k 4 "top face" refl,
      (
        listed k 5 "left face" refl,
        (
          listed k 10 "l1" refl,
          (
            listed k 11 "r1" refl,
            (
              listed k 14 "l2" refl,
              (
                listed k 15 "r2" refl,
                (
                  listed k 1 "l3" refl,
                  (
                    listed k 2 "r3" refl,
                    (
                      listed k 3 "select/back" refl,
                      (
                        listed k 0 "start/menu" refl,
                        (
                          listed k 16 "turbo" refl,
                          (
                            listed k 9 "d-pad up" refl,
                            (
                              listed k 8 "d-pad down" refl,
                              (
                                listed k 7 "d-pad left" refl,
                                (
                                  listed k 6 "d-pad right" refl,
                                  (
                                    listed k 25 "rp" refl,
                                    (
                                      listed k 26 "lp" refl,
                                      (listed k 21 "l4" refl, (listed k 30 "r4" refl, tt)),
                                    ),
                                  ),
                                ),
                              ),
                            ),
                          ),
                        ),
                      ),
                    ),
                  ),
                ),
              ),
            ),
          ),
        ),
      ),
    ),
  ),
)

known_bits-from :
    (es : List TriggerEntry) (bits : ℕ) → known_bits es bits ≡ bit_or bits (known_bits es 0)
unfolding known_bits
known_bits-from [] bits = sym (bit_or-zero bits)
known_bits-from (e ∷ es) bits =
    known_bits-from es (bit_or bits e.key_map)
    ∙ bit_or_assoc bits e.key_map (known_bits es 0)
    ∙ ap (bit_or bits) (
        sym (
          known_bits-from es (bit_or 0 e.key_map)
          ∙ ap (λ (t : ℕ). bit_or t (known_bits es 0)) (zero-bit_or e.key_map)))

pub bits_from-cons :
    (name : String) (names : List String) (bits : ℕ) (e : TriggerEntry)
    → find (λ t. str_eq t.name name) triggers ≡ some e
    → trigger_bits_from bits (name ∷ names) ≡ trigger_bits_from (bit_or bits e.key_map) names
bits_from-cons name names bits e found =
    unfold trigger_bits_from in
    ap
      (λ o. ok_or (Option.map (λ t. bit_or bits t.key_map) o) validation >>= λ more.
        trigger_bits_from more names)
      found

bits_from-unknown :
    (name : String) (names : List String) (bits : ℕ)
    → find (λ t. str_eq t.name name) triggers ≡ none
    → trigger_bits_from bits (name ∷ names) ≡ err validation
bits_from-unknown name names bits missing =
    unfold trigger_bits_from in
    ap
      (λ o. ok_or (Option.map (λ t. bit_or bits t.key_map) o) validation >>= λ more.
        trigger_bits_from more names)
      missing

key_maps_small : all_of (λ t. ltb t.key_map (2 ^ 32)) triggers ≡ true
unfolding all_of
key_maps_small = refl

-- The bits of trigger buttons are a word of 32 bits.
pub trigger_bits-IsU32 :
    (bits : ℕ) (names : List String) (key_map : ℕ)
    → IsU32 bits
    → trigger_bits_from bits names ≡ ok key_map
    → IsU32 key_map
trigger_bits-IsU32 bits [] key_map h e =
    let same : bits ≡ key_map = unfold trigger_bits_from in cc in rw (← same) h
trigger_bits-IsU32 bits (name ∷ names) key_map h e =
    elim (Option-cases (find (λ t. str_eq t.name name) triggers)) [
      | inl missing ↦ let bad = sym (bits_from-unknown name names bits missing) ∙ e in absurd (cc)
      | inr (t, found) ↦
          let fits =
            (All-find (λ c. ltb c.key_map (2 ^ 32) ≡ true) (λ c. str_eq c.name name) triggers
              (All-all_of (λ c. ltb c.key_map (2 ^ 32)) triggers key_maps_small) found).0 in
          trigger_bits-IsU32 (bit_or bits t.key_map) names key_map
            (bit_or-lt 32 bits t.key_map h (ltb→lt t.key_map (2 ^ 32) fits))
            (sym (bits_from-cons name names bits t found) ∙ e)
    ]

abbrev names_of : ℕ → List TriggerEntry → List String
names_of key_map es = map (λ e. e.name) (filter (λ e. has_bit key_map e.key_map) es)

known_small : known_bits triggers 0 < 2 ^ 32
unfolding known_bits
known_small = omega arith

-- The names of some entries give the bits that `key_map` has of theirs.
names_back :
    (es : List TriggerEntry) (key_map bits : ℕ)
    → All (Listed key_map) es
    → trigger_bits_from bits (names_of key_map es)
      ≡ ok (bit_or bits (bit_and key_map (known_bits es 0)))
names_back [] key_map bits h =
    unfold trigger_bits_from known_bits in
    ap ok (sym (ap (bit_or bits) (bit_and-zero key_map) ∙ bit_or-zero bits))
names_back (e ∷ es) key_map bits h =
    let split : known_bits (e ∷ es) 0 ≡ bit_or e.key_map (known_bits es 0) =
      unfold known_bits in
      known_bits-from es (bit_or 0 e.key_map)
      ∙ ap (λ (t : ℕ). bit_or t (known_bits es 0)) (zero-bit_or e.key_map) in
    let parts = bit_and-bit_or key_map e.key_map (known_bits es 0) in
    rw (split, parts)
      (elim (Bool-cases (has_bit key_map e.key_map)) [
        | inl on ↦
            let all_of : bit_and key_map e.key_map ≡ e.key_map =
              all_of_has_bit key_map e.key_map h.0.whole on in
            ap (λ l. trigger_bits_from bits (map (λ t. t.name) l))
              (filter-cons_of_pos (λ t. has_bit key_map t.key_map) e es on)
            ∙ bits_from-cons e.name (names_of key_map es) bits e h.0.found
            ∙ names_back es key_map (bit_or bits e.key_map) h.1
            ∙ ap ok (
                bit_or_assoc bits e.key_map (bit_and key_map (known_bits es 0))
                ∙ ap (λ (t : ℕ). bit_or bits (bit_or t (bit_and key_map (known_bits es 0))))
                    (sym all_of))
        | inr off ↦
            let none_of : bit_and key_map e.key_map ≡ 0 = none_of_has_bit key_map e.key_map off in
            ap (λ l. trigger_bits_from bits (map (λ t. t.name) l))
              (filter-cons_of_neg (λ t. has_bit key_map t.key_map) e es off)
            ∙ names_back es key_map bits h.1
            ∙ ap (λ (t : ℕ). ok (bit_or bits t))
                (sym (
                  ap (λ (t : ℕ). bit_or t (bit_and key_map (known_bits es 0))) none_of
                  ∙ zero-bit_or (bit_and key_map (known_bits es 0))))
      ])

disjoint : (k m c : ℕ) → bit_and c m ≡ 0 → bit_and (bit_and k c) (bit_and k m) ≡ 0
disjoint k m c e =
    bit_and_assoc k c (bit_and k m)
    ∙ ap (bit_and k) (
        ap (bit_and c) (bit_and_comm k m)
        ∙ sym (bit_and_assoc c m k)
        ∙ ap (λ (t : ℕ). bit_and t k) e
        ∙ bit_and_comm 0 k
        ∙ bit_and-zero k)
    ∙ bit_and-zero k

apart : bit_and (not_u32 (known_bits triggers 0)) (known_bits triggers 0) ≡ 0
unfolding known_bits
apart = refl

-- Every `key_map` of 32 bits splits into names that encode to the bits they stand for, and unknown
-- bits that make up the rest: nothing is lost and nothing is shared.
pub trigger_key_map-key_map_to_trigger_buttons :
    (key_map : ℕ)
    → IsU32 key_map
    → (bits : ℕ) × (trigger_key_map (key_map_to_trigger_buttons key_map).0 ≡ ok bits)
      × (bit_or bits (key_map_to_trigger_buttons key_map).1 ≡ key_map)
      × (bit_and (key_map_to_trigger_buttons key_map).1 bits ≡ 0)
unfolding trigger_key_map key_map_to_trigger_buttons
trigger_key_map-key_map_to_trigger_buttons key_map h = (
  bit_and key_map (known_bits triggers 0),
  names_back triggers key_map 0 (every_in_table key_map)
      ∙ ap ok (zero-bit_or (bit_and key_map (known_bits triggers 0))),
  bit_or-complement 32 key_map (known_bits triggers 0) h known_small,
  disjoint key_map (known_bits triggers 0) (not_u32 (known_bits triggers 0)) apart,
)
