-- ===== src/Protocol/Bytes/Frames.antt =====
-- What a sequence of writes to a buffer leaves alone: every window apart from the regions written.
use b.Shared.{
  Gives, subst, ◌^◌, ℕ, ◌+◌, ◌≤◌, ◌≡◌, refl, ◌∙◌, ◌⊎◌, inl, inr, List, [], ◌∷◌, ◌++◌, Bool, true,
  ◌&&◌, ◌||◌, leb, ltb, length, All, Result, ok, err, ◌>>=◌, arith, Bool-cases,
}
use b.Protocol.Bytes.{
  slice, put_slice, put_u16_le, put_u32_le, splice, to_le_bytes_u16, to_le_bytes_u32,
}
use b.Protocol.Bytes.Windows.{length-splice}
use b.Protocol.Bytes.Fields.{Fits, slice_apart}

-- The bytes from `lo` on, before `hi`.
pub record Region : Type 0 where
  pub lo : ℕ
  pub hi : ℕ

abbrev pub region : ℕ → ℕ → Region
region lo len = record { lo = lo; hi = lo + len }

-- The window of `n` bytes from `at` on meets no region of the list.
abbrev pub Outside : List Region → ℕ → ℕ → Type 0
Outside rs at n = All (λ r. (at + n ≤ r.lo) ⊎ (r.hi ≤ at)) rs

-- `out` has the length of `buf`, and differs from it in the regions only.
pub record Frame (rs : List Region) (buf out : List ℕ) : Type 0 where
  pub same_length : length out ≡ length buf
  pub same : (at n : ℕ) → Outside rs at n → slice n out at ≡ slice n buf at

-- Whatever the computation gives for `buf`, it wrote to the regions only.
abbrev pub Framed : List Region → List ℕ → Result (List ℕ) → Type 0
Framed rs buf r = Fits buf → (out : List ℕ) → r ≡ ok out → Frame rs buf out

Outside-left : (rs ss : List Region) (at n : ℕ) → Outside (rs ++ ss) at n → Outside rs at n
Outside-left [] ss at n h = tt
Outside-left (r ∷ rs) ss at n h = (h.0, Outside-left rs ss at n h.1)

Outside-right : (rs ss : List Region) (at n : ℕ) → Outside (rs ++ ss) at n → Outside ss at n
Outside-right [] ss at n h = h
Outside-right (r ∷ rs) ss at n h = Outside-right rs ss at n h.1

Frame-append :
    (rs ss : List Region) (buf mid out : List ℕ)
    → Frame rs buf mid
    → Frame ss mid out
    → Frame (rs ++ ss) buf out
Frame-append rs ss buf mid out f g = record {
  same_length = g.same_length ∙ f.same_length;
  same =
      λ at n h. g.same at n (Outside-right rs ss at n h) ∙ f.same at n (Outside-left rs ss at n h);
}

-- A write, then more writes to its result.
pub Framed->>= :
    (rs ss : List Region) (buf : List ℕ) (m : Result (List ℕ)) (f : List ℕ → Result (List ℕ))
    → Framed rs buf m
    → ((mid : List ℕ) → Framed ss mid (f mid))
    → Framed (rs ++ ss) buf (m >>= f)
Framed->>= rs ss buf (err e) f h k fits out eq = absurd (cc)
Framed->>= rs ss buf (ok mid) f h k fits out eq =
    let first = h fits mid refl in
    Frame-append rs ss buf mid out first (k mid (omega (arith, first.same_length)) out eq)

-- A step that computes a value and writes nothing.
pub Framed-given {ℓ} :
    {A : Type ℓ} (rs : List Region) (buf : List ℕ) (m : Result A) (f : A → Result (List ℕ))
    → ((a : A) → m ≡ ok a → Framed rs buf (f a))
    → Framed rs buf (m >>= f)
Framed-given rs buf (err e) f h fits out eq = absurd (cc)
Framed-given rs buf (ok a) f h fits out eq = h a refl fits out eq

pub Framed-value {ℓ} :
    {A : Type ℓ} (rs : List Region) (buf : List ℕ) (m : Result A) (f : A → Result (List ℕ))
    → ((a : A) → Framed rs buf (f a))
    → Framed rs buf (m >>= f)
Framed-value rs buf m f h = Framed-given rs buf m f (λ a e. h a)

pub Framed-nothing : (buf : List ℕ) → Framed [] buf (ok buf)
Framed-nothing buf fits out eq =
    let e : buf ≡ out = cc in record { same_length = rw e; same = λ at n h. rw e }

pub put_inversion :
    (buf : List ℕ) (off : ℕ) (src out : List ℕ)
    → put_slice buf off src ≡ ok out
    → (off + length src ≤ length buf) × (splice buf off src ≡ out)
unfolding put_slice
put_inversion buf off src out e = elim (Bool-cases (ltb (off + length src) (2 ^ 64))) [
  | inl fits ↦
      elim (Bool-cases (leb off (off + length src) && leb (off + length src) (length buf))) [
        | inl within ↦ (ground arith, ground arith)
        | inr without ↦ absurd (ground arith)
      ]
  | inr over ↦ absurd (ground arith)
]

pub put_slice-Framed :
    (buf : List ℕ) (off : ℕ) (src : List ℕ)
    → Framed (region off (length src) ∷ []) buf (put_slice buf off src)
put_slice-Framed buf off src fits out e =
    let (within, same) = put_inversion buf off src out e in
    rw (← same) (record {
      same_length = length-splice buf off src within;
      same = λ at n h. slice_apart buf off src at n fits within h.0;
    })

pub put_u16_le-Framed :
    (buf : List ℕ) (off v : ℕ) → Framed (region off 2 ∷ []) buf (put_u16_le buf off v)
unfolding put_u16_le
put_u16_le-Framed buf off v = put_slice-Framed buf off (to_le_bytes_u16 v)

pub put_u32_le-Framed :
    (buf : List ℕ) (off v : ℕ) → Framed (region off 4 ∷ []) buf (put_u32_le buf off v)
unfolding put_u32_le
put_u32_le-Framed buf off v = put_slice-Framed buf off (to_le_bytes_u32 v)

-- Whether no region of the list meets the bytes from `lo` on, before `hi`.
unfoldable pub apart : List Region → ℕ → ℕ → Bool
apart [] lo hi = true
apart (r ∷ rs) lo hi = (leb hi r.lo || leb r.hi lo) && apart rs lo hi

-- Then a window inside those bytes meets none.
pub apart-Outside :
    (rs : List Region) (lo hi at n : ℕ)
    → apart rs lo hi ≡ true
    → lo ≤ at
    → at + n ≤ hi
    → Outside rs at n
unfolding apart
apart-Outside [] lo hi at n e h k = tt
apart-Outside (r ∷ rs) lo hi at n e h k = elim (Bool-cases (leb hi r.lo)) [
  | inl before ↦ (inl (ground arith), apart-Outside rs lo hi at n (ground arith) h k)
  | inr after ↦ (inr (ground arith), apart-Outside rs lo hi at n (ground arith) h k)
]

-- More regions leave fewer windows.
pub Framed-widen :
    (rs ss : List Region) (buf : List ℕ) (r : Result (List ℕ))
    → ((at n : ℕ) → Outside ss at n → Outside rs at n)
    → Framed rs buf r
    → Framed ss buf r
Framed-widen rs ss buf r wide h fits out e =
    let f = h fits out e in
    record { same_length = f.same_length; same = λ at n o. f.same at n (wide at n o) }

-- Two computations that write to the same regions.
pub Framed-twice :
    (rs : List Region) (buf : List ℕ) (m : Result (List ℕ)) (f : List ℕ → Result (List ℕ))
    → Framed rs buf m
    → ((mid : List ℕ) → Framed rs mid (f mid))
    → Framed rs buf (m >>= f)
Framed-twice rs buf m f h k =
    Framed-widen (rs ++ rs) rs buf (m >>= f) (λ at n o. both rs rs at n o o)
      (Framed->>= rs rs buf m f h k)
  where
    both :
        (xs ys : List Region) (at n : ℕ)
        → Outside xs at n
        → Outside ys at n
        → Outside (xs ++ ys) at n
    both [] ys at n h k = k
    both (x ∷ xs) ys at n h k = (h.0, both xs ys at n h.1 k)

-- A write inside a region.
pub put_slice-within :
    (buf : List ℕ) (off : ℕ) (src : List ℕ) (lo len : ℕ)
    → lo ≤ off
    → off + length src ≤ lo + len
    → Framed (region lo len ∷ []) buf (put_slice buf off src)
put_slice-within buf off src lo len h k =
    Framed-widen (region off (length src) ∷ []) (region lo len ∷ []) buf (put_slice buf off src)
      (λ at n o. (inside at n o.0, tt)) (put_slice-Framed buf off src)
  where
    inside : (at n : ℕ) → (at + n ≤ lo) ⊎ (lo + len ≤ at) → (at + n ≤ off) ⊎ (off + length src ≤ at)
    inside at n (inl before) = inl (omega arith)
    inside at n (inr after) = inr (omega arith)

-- A write of a source whose length is known by a lemma.
pub put_slice-sized :
    (buf : List ℕ) (off : ℕ) (src : List ℕ) (n : ℕ)
    → length src ≡ n
    → Framed (region off n ∷ []) buf (put_slice buf off src)
put_slice-sized buf off src n e =
    subst (λ (k : ℕ). Framed (region off k ∷ []) buf (put_slice buf off src)) e
      (put_slice-Framed buf off src)

-- What a write gives is as long as the buffer.
pub put_slice-Gives :
    (buf : List ℕ) (off : ℕ) (src : List ℕ) (n : ℕ)
    → length buf ≡ n
    → Gives (λ out. length out ≡ n) (put_slice buf off src)
put_slice-Gives buf off src n sized out e =
    let (within, same) = put_inversion buf off src out e in
    rw (← same) (length-splice buf off src within ∙ sized)
