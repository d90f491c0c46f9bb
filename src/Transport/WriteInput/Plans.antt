-- ===== src/Transport/WriteInput/Plans.antt =====
-- Which streams a pad can take, and that the planned chunks cut a blob exactly.
use native.Mathlib.Decide.{dec_le}
use b.Shared.{
  ℕ, zero, suc, ◌+◌, ◌-◌, ◌*◌, ◌/◌, ◌%◌, ◌≤◌, ◌<◌, min, ◌≡◌, refl, ap, ap₂, ◌∙◌, sym, ◌↔◌, List, [],
  ◌∷◌, ◌++◌, length, take, drop, All, arith, ok, take-append-drop, drop-drop, length-drop, take-all,
}
use b.Model.MacroSlot.{MacroSlot}
use b.Transport.WriteInput.{
  check_macro_stream, macro_total_len, macro_flash_base, plan_from, plan_profile_chunks,
}

-- For one of the four macro slots, a stream is accepted exactly when it is not empty, made of whole
-- 32-byte chunks, and fits a page; then neither its flash base nor its total overflows 16 bits.
pub check_macro_stream_iff :
    (stream : List ℕ) (m : MacroSlot)
    → m.get ≤ 3
    → ((check_macro_stream stream m ≡ ok tt)
        ↔ ((0 < length stream) × (length stream % 32 ≡ 0) × (length stream ≤ 4096)))
      × (macro_flash_base m ≡ ok (m.get * 4096))
      × (length stream ≤ 4096
          → macro_total_len (length stream) m ≡ ok (length stream + m.get * 4096))
unfolding check_macro_stream
check_macro_stream_iff stream m h = (ground arith, ground arith, λ fits. ground arith)

-- The bytes that the planned chunks name, in order.
abbrev pub gather : List ℕ → List (ℕ × ℕ) → List ℕ
gather blob [] = []
gather blob ((off, size) ∷ plan) = take size (drop off blob) ++ gather blob plan

abbrev pub InBlob : ℕ → ℕ × ℕ → Type 0
InBlob size (off, n) = (1 ≤ n) × (n ≤ 45) × (off + n ≤ size) × (off < 65536)

take-min : (n m : ℕ) (xs : List ℕ) → length xs ≤ m → take (min n m) xs ≡ take n xs
take-min n m xs h = elim (dec_le n m) [
  | yes p ↦ ap (λ (k : ℕ). take k xs) (omega arith)
  | no p ↦ take-all (min n m) xs (omega arith) ∙ sym (take-all n xs (omega arith))
]

drop-all : (n : ℕ) (xs : List ℕ) → length xs ≤ n → drop n xs ≡ []
drop-all zero [] h = refl
drop-all zero (x ∷ xs) h = absurd (omega arith)
drop-all (suc n) [] h = refl
drop-all (suc n) (x ∷ xs) h = drop-all n xs (omega arith)

pub plan_from-suc :
    (size off left : ℕ)
    → off ≤ 65535
    → plan_from size off (suc left) ≡ (off, min 45 (size - off)) ∷ plan_from size (off + 45) left
unfolding plan_from
plan_from-suc size off left h = ground arith

pub gather-plan_from :
    (blob : List ℕ) (off left : ℕ)
    → length blob ≤ 65536
    → length blob ≤ off + left * 45
    → off + left * 45 < length blob + 45
    → (gather blob (plan_from (length blob) off left) ≡ drop off blob)
      × All (InBlob (length blob)) (plan_from (length blob) off left)
gather-plan_from blob off zero h k l =
    unfold plan_from in (sym (drop-all off blob (omega arith)), tt)
gather-plan_from blob off (suc left) h k l =
    let (rest, inside) = gather-plan_from blob (off + 45) left h (omega arith) (omega arith) in
    rw (plan_from-suc (length blob) off left (omega arith)) (
      ap₂ ◌++◌
            (take-min 45 (length blob - off) (drop off blob) (omega (arith, length-drop off blob)))
            (rest ∙ sym (drop-drop 45 off blob))
          ∙ take-append-drop 45 (drop off blob),
      ((omega arith, omega arith, omega arith, omega arith), inside),
    )

-- The planned chunks of a blob of at most 65536 bytes, put together in order, are the blob; each has
-- 1 to 45 bytes, lies inside the blob and begins at a 16-bit offset.
pub plan_profile_chunks-gather :
    (blob : List ℕ)
    → length blob ≤ 65536
    → (gather blob (plan_profile_chunks (length blob)) ≡ blob)
      × All (InBlob (length blob)) (plan_profile_chunks (length blob))
plan_profile_chunks-gather blob h =
    unfold plan_profile_chunks in
    gather-plan_from blob 0 ((length blob + 45 - 1) / 45) h (omega arith) (omega arith)
