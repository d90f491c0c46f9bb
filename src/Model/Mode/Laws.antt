-- ===== src/Model/Mode/Laws.antt =====
-- Which ids make a mode, that the id reads back, and that modes are ordered as their ids.
use b.Shared.{
  false, ◌-◌, le→leb, Bool-cases, inl, inr, some, ◌&&◌, ℕ, zero, suc, ◌≤◌, ◌≡◌, refl, ap, ◌∙◌, ◌↔◌,
  ◌⊎◌, List, [], ◌∷◌, true, length, take, replicate, All, arith, ok, err, validation, leb,
}
use b.Protocol.Bytes.{get_range}
use b.Protocol.Framing.{zip_into}
use Prim.Native.Nat.{compare, Ordering}
use b.Model.Mode
use b.Model.Mode.{
  Mode, is_plain, all_plain, as_str, is_utf8_from, utf8_step, Utf8, compare_bytes, compare_modes,
  mode_id_max,
}

-- A mode id byte: a lowercase letter, a digit, `-` or `_`.
abbrev IsPlain : ℕ → Type 0
IsPlain x = ((b'a' ≤ x) × (x ≤ b'z')) ⊎ ((b'0' ≤ x) × (x ≤ b'9')) ⊎ (x ≡ b'-') ⊎ (x ≡ b'_')

abbrev IsModeId : List ℕ → Type 0
IsModeId id = (1 ≤ length id) × (length id ≤ 15) × All IsPlain id

is_plain_iff : (x : ℕ) → (is_plain x ≡ true) ↔ IsPlain x
unfolding is_plain
is_plain_iff x = ground arith

all_plain_iff : (xs : List ℕ) → (all_plain xs ≡ true) ↔ All IsPlain xs
unfolding all_plain
all_plain_iff [] = (λ e. tt, λ e. refl)
all_plain_iff (x ∷ xs) = ground (arith, is_plain_iff x, all_plain_iff xs)

abbrev pad : List ℕ → List ℕ
pad id = zip_into (replicate 15 0) id

zip_into-zeros :
    (n : ℕ) (id : List ℕ) → length id ≤ n → take (length id) (zip_into (replicate n 0) id) ≡ id
unfolding zip_into
zip_into-zeros n [] h = refl
zip_into-zeros zero (x ∷ id) h = absurd (omega arith)
zip_into-zeros (suc n) (x ∷ id) h = ap (λ t. x ∷ t) (zip_into-zeros n id (omega arith))

length-zip_into : (dst src : List ℕ) → length (zip_into dst src) ≡ length dst
unfolding zip_into
length-zip_into [] src = refl
length-zip_into (d ∷ dst) [] = refl
length-zip_into (d ∷ dst) (x ∷ src) = ap suc (length-zip_into dst src)

plain_step : (x : ℕ) → IsPlain x → utf8_step Utf8.start x ≡ Utf8.start
unfolding utf8_step
plain_step x h = ground arith

plain-is_utf8 : (xs : List ℕ) → All IsPlain xs → is_utf8_from Utf8.start xs ≡ true
unfolding is_utf8_from
plain-is_utf8 [] h = refl
plain-is_utf8 (x ∷ xs) h = rw (plain_step x h.0) (plain-is_utf8 xs h.1)

abbrev mode_of : List ℕ → Mode
mode_of id = record { id = pad id; len = length id }

as_str_found :
    (m : Mode) (used : List ℕ)
    → get_range m.id 0 m.len ≡ some used
    → is_utf8_from Utf8.start used ≡ true
    → as_str m ≡ used
unfolding as_str
as_str_found m used e u = rw (e, as_str) (rw u)

as_str-mode_of : (id : List ℕ) → IsModeId id → as_str (mode_of id) ≡ id
unfolding as_str
as_str-mode_of id h =
    let used : take (length id - 0) (pad id) ≡ id =
      ap (λ (k : ℕ). take k (pad id)) (let e : length id - 0 ≡ length id = omega arith in e)
      ∙ zip_into-zeros 15 id h.1 in
    let inside : leb (length id) (length (pad id)) ≡ true =
      le→leb (length id) (length (pad id)) (omega (arith, length-zip_into (replicate 15 0) id)) in
    let low : leb 0 (length id) ≡ true = le→leb 0 (length id) (omega arith) in
    as_str_found (mode_of id) id (rw (low, inside) (ap some used)) (plain-is_utf8 id h.2)

tested :
    (id : List ℕ) → ((leb 1 (length id) && leb (length id) 15) && all_plain id) ≡ true → IsModeId id
tested id good = ground (arith, all_plain_iff id)

-- `Mode::new` takes exactly the ids of 1 to 15 plain bytes, and the id reads back whole; any other
-- text is a validation error.
new-as_str :
    (id : List ℕ)
    → ((m : Mode) × IsModeId id × (Mode.new id ≡ ok m) × (as_str m ≡ id))
      ⊎ ((¬ IsModeId id) × (Mode.new id ≡ err validation))
unfolding Mode.new
new-as_str id = elim (Bool-cases ((leb 1 (length id) && leb (length id) 15) && all_plain id)) [
  | inl good ↦
      let valid : IsModeId id = tested id good in
      inl (mode_of id, valid, rw good, as_str-mode_of id valid)
  | inr bad ↦ inr (λ valid. ground (arith, all_plain_iff id), rw bad)
]

zeros_equal : (n : ℕ) → compare_bytes (replicate n 0) (replicate n 0) ≡ Ordering.eq
unfolding compare_bytes
zeros_equal zero = refl
zeros_equal (suc n) = zeros_equal n

-- what the derived order does with equal id arrays
abbrev then_by : Ordering → Ordering → Ordering
then_by o p = elim o [ Ordering.lt ↦ Ordering.lt | Ordering.eq ↦ p | Ordering.gt ↦ Ordering.gt ]

padded_order :
    (n : ℕ) (a b : List ℕ)
    → length a ≤ n
    → length b ≤ n
    → All IsPlain a
    → All IsPlain b
    → then_by
        (compare_bytes (zip_into (replicate n 0) a) (zip_into (replicate n 0) b))
        (compare (length a) (length b))
      ≡ compare_bytes a b
unfolding compare_bytes zip_into
padded_order zero [] [] h k p q = refl
padded_order zero [] (y ∷ b) h k p q = absurd (omega arith)
padded_order zero (x ∷ a) b h k p q = absurd (omega arith)
padded_order (suc n) [] [] h k p q = rw (zeros_equal n)
padded_order (suc n) [] (y ∷ b) h k p q = ground arith
padded_order (suc n) (x ∷ a) [] h k p q = ground arith
padded_order (suc n) (x ∷ a) (y ∷ b) h k p q = ground (arith, padded_order n a b)

new-ok : (id : List ℕ) {m : Mode} → Mode.new id ≡ ok m → IsModeId id × (m ≡ mode_of id)
unfolding Mode.new
new-ok id {m} e = elim (Bool-cases ((leb 1 (length id) && leb (length id) 15) && all_plain id)) [
  | inl good ↦ (tested id good, made good)
  | inr bad ↦ absurd (refused bad)
]
  where
    made : ((leb 1 (length id) && leb (length id) 15) && all_plain id) ≡ true → m ≡ mode_of id
    made good = let f : ok (mode_of id) ≡ ok m = rw good at e in cc

    refused : ((leb 1 (length id) && leb (length id) 15) && all_plain id) ≡ false → ⊥
    refused bad = let f : err validation ≡ ok m = rw bad at e in cc

-- Modes are ordered as their ids are, byte by byte, the shorter first.
compare_modes-compare_bytes :
    (a b : List ℕ) {m n : Mode}
    → Mode.new a ≡ ok m
    → Mode.new b ≡ ok n
    → compare_modes m n ≡ compare_bytes (as_str m) (as_str n)
compare_modes-compare_bytes a b {m} {n} e g =
    let (va, ea) = new-ok a e in
    let (vb, eb) = new-ok b g in
    rw (ea, eb, as_str-mode_of a va, as_str-mode_of b vb)
      (unfold compare_modes in padded_order 15 a b va.1 vb.1 va.2 vb.2)
