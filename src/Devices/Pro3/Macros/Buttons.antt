-- ===== src/Devices/Pro3/Macros/Buttons.antt =====
-- crates/controller-core/src/devices/pro3/macros.rs: step buttons and their bits.
use Prim.Native.String.{String}
use mathlib.Core.Option
use text.Mathlib.Text.{◌==◌ as str_eq}
use text.Mathlib.TextEquality.{eq_iff}
use b.Shared.{
  ◌>>=◌, validation, ok_or, ltb→lt, if◌then◌else◌, ap, map, ok, ltb, take, ◌<◌, filter, bit_and,
  subst, refl, inl, inr, ap₂, ◌∙◌, Bool-cases, arith, some, ◌||◌, ◌&&◌, bit_or, true, not, find,
  false, All, Bool, ◌≡◌, ℕ, List, [], ◌∷◌,
}
use b.Shared.Masks.{bit_and-zero, bit_or-lt, bit_and_comm, bit_and_assoc, has_bit-bit_or, has_bit}
use b.Devices.Pro3.Macros.{keys_from, step_button_mask, bitmask_to_step_button_names}
use b.Devices.Pro3.Tables.Buttons.{StepButtonEntry, step_buttons}

-- `names.contains(name)`
unfoldable pub contains : List String → String → Bool
contains [] name = false
contains (x ∷ xs) name = str_eq x name || contains xs name

unfoldable pub all_of {ℓ} : {A : Type ℓ} → (A → Bool) → List A → Bool
all_of p [] = true
all_of p (x ∷ xs) = p x && all_of p xs

pub All-all_of {ℓ} :
    {A : Type ℓ} (p : A → Bool) (xs : List A) → all_of p xs ≡ true → All (λ x. p x ≡ true) xs
unfolding all_of
All-all_of p [] h = tt
All-all_of p (x ∷ xs) h = (ground arith, All-all_of p xs (ground arith))

unfoldable pub same : Bool → Bool → Bool
same true b = b
same false b = not b

pub same→eq : (a b : Bool) → same a b ≡ true → a ≡ b
unfolding same
same→eq true true h = refl
same→eq true false h = cc
same→eq false true h = cc
same→eq false false h = refl

-- Each button has a bit of its own.
own_bit : StepButtonEntry → StepButtonEntry → Bool
unfolding same
own_bit d e = same (has_bit d.mask e.mask) (str_eq d.name e.name)

own_bits : all_of (λ d. all_of (own_bit d) step_buttons) step_buttons ≡ true
unfolding all_of own_bit same
own_bits = refl

pub All-find {ℓ κ} :
    {A : Type ℓ} (P : A → Type κ) (p : A → Bool) (xs : List A) {x : A}
    → All P xs
    → find p xs ≡ some x
    → P x × (p x ≡ true)
All-find P p [] h e = absurd (cc)
All-find P p (y ∷ ys) {x} h e = elim (Bool-cases (p y)) [
  | inl found ↦ let same : y ≡ x = ground arith in (subst P same h.0, rw (← same) found)
  | inr other ↦ All-find P p ys h.1 (ground arith)
]

-- The bits of `keys` are those of the buttons that `held` tells.
abbrev pub Holds : ℕ → (String → Bool) → List StepButtonEntry → Type 0
Holds keys held es = All (λ e. has_bit keys e.mask ≡ held e.name) es

own_row :
    (d : StepButtonEntry) (es : List StepButtonEntry)
    → all_of (own_bit d) es ≡ true
    → All (λ e. has_bit d.mask e.mask ≡ str_eq d.name e.name) es
unfolding all_of own_bit
own_row d [] h = tt
own_row d (e ∷ es) h = (
  same→eq (has_bit d.mask e.mask) (str_eq d.name e.name) (ground arith),
  own_row d es (ground arith),
)

press_rows :
    (d : StepButtonEntry) (keys : ℕ) (held : String → Bool) (es : List StepButtonEntry)
    → All (λ e. has_bit d.mask e.mask ≡ str_eq d.name e.name) es
    → Holds keys held es
    → Holds (bit_or keys d.mask) (λ n. held n || str_eq d.name n) es
press_rows d keys held [] h k = tt
press_rows d keys held (e ∷ es) h k =
    (has_bit-bit_or keys d.mask e.mask ∙ ap₂ ◌||◌ k.0 h.0, press_rows d keys held es h.1 k.1)

-- Setting the bit of a button presses that button and no other.
pub press :
    (name : String) (d : StepButtonEntry) (keys : ℕ) (held : String → Bool)
    → find (λ e. str_eq e.name name) step_buttons ≡ some d
    → Holds keys held step_buttons
    → Holds (bit_or keys d.mask) (λ n. held n || str_eq name n) step_buttons
press name d keys held found h =
    let row =
      All-find (λ c. all_of (own_bit c) step_buttons ≡ true) (λ e. str_eq e.name name) step_buttons
        (All-all_of (λ c. all_of (own_bit c) step_buttons) step_buttons own_bits) found in
    let named : d.name ≡ name = (eq_iff d.name name).0 row.1 in
    rw (← named) (press_rows d keys held step_buttons (own_row d step_buttons row.0) h)

masks_small : all_of (λ d. ltb d.mask 65536) step_buttons ≡ true
unfolding all_of
masks_small = refl

-- A name that some step button has.
abbrev pub IsStepButton : String → Type 0
IsStepButton name = (d : StepButtonEntry) × (find (λ e. str_eq e.name name) step_buttons ≡ some d)

-- What the bits of a step's names are.
record Pressed (names : List String) (from : ℕ) (held : String → Bool) : Type 0 where
  keys : ℕ
  sets : keys_from from names ≡ ok keys
  small : keys < 65536
  holds : Holds keys (λ n. held n || contains names n) step_buttons

pub Holds-ext :
    (keys : ℕ) (held held' : String → Bool) (es : List StepButtonEntry)
    → ((n : String) → held n ≡ held' n)
    → Holds keys held es
    → Holds keys held' es
Holds-ext keys held held' [] same h = tt
Holds-ext keys held held' (e ∷ es) same h =
    (h.0 ∙ same e.name, Holds-ext keys held held' es same h.1)

or_assoc : (a b c : Bool) → ((a || b) || c) ≡ (a || (b || c))
or_assoc a b c = ground arith

keys_from-cons :
    (name : String) (names : List String) (from : ℕ) (d : StepButtonEntry)
    → find (λ e. str_eq e.name name) step_buttons ≡ some d
    → keys_from from (name ∷ names) ≡ keys_from (bit_or from d.mask) names
keys_from-cons name names from d found =
    unfold keys_from step_button_mask in
    ap
      (λ o. ok_or (Option.map (λ e. e.mask) o) validation >>= λ mask.
        keys_from (bit_or from mask) names)
      found

press_every :
    (names : List String) (from : ℕ) (held : String → Bool)
    → All IsStepButton names
    → from < 65536
    → Holds from held step_buttons
    → Pressed names from held
press_every [] from held known small h = record {
  keys = from;
  sets = unfold keys_from in refl;
  small = small;
  holds =
      Holds-ext from held (λ n. held n || contains [] n) step_buttons
        (λ n. unfold contains in ground arith) h;
}
press_every (name ∷ names) from held known small h =
    let (d, found) = known.0 in
    let fits =
      (All-find (λ c. ltb c.mask 65536 ≡ true) (λ e. str_eq e.name name) step_buttons
        (All-all_of (λ c. ltb c.mask 65536) step_buttons masks_small) found).0 in
    let rest =
      press_every names (bit_or from d.mask) (λ n. held n || str_eq name n) known.1
        (bit_or-lt 16 from d.mask small (ltb→lt d.mask 65536 fits))
        (press name d from held found h) in
    record {
      keys = rest.keys;
      sets = keys_from-cons name names from d found ∙ rest.sets;
      small = rest.small;
      holds =
          Holds-ext rest.keys (λ n. (held n || str_eq name n) || contains names n)
            (λ n. held n || contains (name ∷ names) n) step_buttons
            (λ n. unfold contains in or_assoc (held n) (str_eq name n) (contains names n))
            rest.holds;
    }

no_bits : (es : List StepButtonEntry) → Holds 0 (λ n. false) es
no_bits [] = tt
no_bits (e ∷ es) = (rw (bit_and_comm 0 e.mask, bit_and-zero e.mask), no_bits es)

-- The buttons that a name list presses.
pub pressed_bits :
    (names : List String)
    → All IsStepButton names
    → (keys : ℕ) × (keys_from 0 names ≡ ok keys)
      × (keys < 65536)
      × Holds keys (contains names) step_buttons
pressed_bits names known =
    let p = press_every names 0 (λ n. false) known (omega arith) (no_bits step_buttons) in
    (p.keys, p.sets, p.small, p.holds)

pub filter_agree {ℓ} :
    {A : Type ℓ} (p q : A → Bool) (xs : List A)
    → All (λ x. p x ≡ q x) xs
    → filter p xs ≡ filter q xs
filter_agree p q [] h = refl
filter_agree p q (x ∷ xs) h = ground (arith, filter_agree p q xs h.1)

-- The buttons below the two trigger bits.
abbrev pub digital_buttons : List StepButtonEntry
digital_buttons = take 14 step_buttons

masked_rows :
    (keys : ℕ) (held : String → Bool) (es : List StepButtonEntry)
    → All (λ e. bit_and 0x3FFF e.mask ≡ (if has_bit 0x3FFF e.mask then e.mask else 0)) es
    → Holds keys held es
    → All (λ e. has_bit (bit_and keys 0x3FFF) e.mask ≡ (has_bit 0x3FFF e.mask && held e.name)) es
masked_rows keys held [] m h = tt
masked_rows keys held (e ∷ es) m h = (
  elim (Bool-cases (has_bit 0x3FFF e.mask)) [
    | inl low ↦
        let kept : bit_and 0x3FFF e.mask ≡ e.mask = m.0 ∙ ap (λ b. if b then e.mask else 0) low in
        rw (low, bit_and_assoc keys 0x3FFF e.mask, kept) h.0
    | inr high ↦
        let gone : bit_and 0x3FFF e.mask ≡ 0 = m.0 ∙ ap (λ b. if b then e.mask else 0) high in
        rw (high, bit_and_assoc keys 0x3FFF e.mask, gone, bit_and-zero keys)
  ],
  masked_rows keys held es m.1 h.1,
)

masks_plain :
    All (λ e. bit_and 0x3FFF e.mask ≡ (if has_bit 0x3FFF e.mask then e.mask else 0)) step_buttons
masks_plain = omega arith

-- The names read back from the lower fourteen bits, in the table's order.
pub bitmask-Holds :
    (keys : ℕ) (held : String → Bool)
    → Holds keys held step_buttons
    → bitmask_to_step_button_names (bit_and keys 0x3FFF)
      ≡ map (λ e. e.name) (filter (λ e. held e.name) digital_buttons)
unfolding bitmask_to_step_button_names
bitmask-Holds keys held h = ap (map (λ e. e.name)) (
    filter_agree (λ e. has_bit (bit_and keys 0x3FFF) e.mask)
      (λ e. has_bit 0x3FFF e.mask && held e.name) step_buttons
      (masked_rows keys held step_buttons masks_plain h))
