-- ===== src/Protocol/Framing/Layout.antt =====
-- Where each normal byte stands on the wire, and which reports count as the reply.
use b.Shared.{
  ◌↔◌, sym, get_or, min, take-all, length-take, Option-cases, inl, inr, ◌-◌, none, some, true, take,
  replicate, true, some, Option, ℕ, suc, ◌+◌, ◌≤◌, ◌<◌, ◌≡◌, refl, ap, ◌∙◌, List, [], ◌∷◌, ◌++◌,
  length, get_elem?, take, drop, length-append, length-drop, arith, get_elem?-take, get_elem?-drop,
  get_elem?-append_right, replicate,
}
use b.Protocol.Framing.{
  reply_head, wrapped_in, reply, to_normal, packet_len, req_cmd, reply_cmd_echo, same_byte, resize,
  strip_prefix, check_echo, Framing, plain, wrapped, length_byte, request, prefixed, zip_into,
}

zip_into-long :
    (dst src : List ℕ) → length dst ≤ length src → zip_into dst src ≡ take (length dst) src
unfolding zip_into
zip_into-long [] src h = refl
zip_into-long (d ∷ dst) [] h = absurd (omega arith)
zip_into-long (d ∷ dst) (x ∷ src) h = ap (λ t. x ∷ t) (zip_into-long dst src (omega arith))

length-zip_into : (dst src : List ℕ) → length (zip_into dst src) ≡ length dst
unfolding zip_into
length-zip_into [] src = refl
length-zip_into (d ∷ dst) [] = refl
length-zip_into (d ∷ dst) (x ∷ src) = ap suc (length-zip_into dst src)

prefixed-take :
    (normal head : List ℕ)
    → length normal ≡ 64
    → 1 ≤ length head
    → prefixed normal head ≡ take 64 (head ++ drop 1 normal)
unfolding prefixed
prefixed-take normal head h k =
    zip_into-long (replicate 64 0) (head ++ drop 1 normal)
      (omega (arith, length-append head (drop 1 normal), length-drop 1 normal))

-- A prefix of `n` bytes in place of the first byte moves byte `k` to `k + n - 1`.
prefixed-shift :
    (normal head : List ℕ) (k : ℕ)
    → length normal ≡ 64
    → 1 ≤ length head
    → k + length head < 64
    → get_elem? (prefixed normal head) (length head + k) ≡ get_elem? normal (k + 1)
prefixed-shift normal head k h p q =
    ap (λ t. get_elem? t (length head + k)) (prefixed-take normal head h p)
    ∙ get_elem?-take 64 (length head + k) (head ++ drop 1 normal) (omega arith)
    ∙ get_elem?-append_right head (drop 1 normal) k
    ∙ get_elem?-drop 1 k normal
    ∙ ap (get_elem? normal) (omega arith)

-- Every framing makes a packet of 64 bytes.
pub length-request :
    (f : Framing) (normal : List ℕ) → length normal ≡ 64 → length (request f normal) ≡ 64
unfolding request prefixed
length-request plain normal h = h
length-request wrapped normal h = length-zip_into _ _
length-request length_byte normal h = length-zip_into _ _

-- A wrapped request begins `01 66 AA`, and normal byte `k` stands at `k + 2`, for `k` from 1 to 61.
pub request-wrapped :
    (normal : List ℕ) (k : ℕ)
    → length normal ≡ 64
    → k < 61
    → (take 3 (request wrapped normal) ≡ 0x01 ∷ 0x66 ∷ 0xAA ∷ [])
      × (get_elem? (request wrapped normal) (3 + k) ≡ get_elem? normal (k + 1))
unfolding request
request-wrapped normal k h q = (
  ap (take 3) (prefixed-take normal _ h (omega arith)),
  prefixed-shift normal _ k h (omega arith) (omega arith),
)

same_byte→eq : (o p : Option ℕ) → same_byte o p ≡ true → o ≡ p
same_byte→eq none none h = refl
same_byte→eq none (some y) h = cc
same_byte→eq (some x) none h = cc
same_byte→eq (some x) (some y) h = ground arith

same_byte_refl : (o : Option ℕ) → same_byte o o ≡ true
same_byte_refl none = refl
same_byte_refl (some x) = ground arith

strip_prefix-eq : (head raw xs : List ℕ) → strip_prefix head raw ≡ some xs → raw ≡ head ++ xs
unfolding strip_prefix
strip_prefix-eq [] raw xs e = cc
strip_prefix-eq (h ∷ head) [] xs e = cc
strip_prefix-eq (h ∷ head) (x ∷ raw) xs e = ground (arith, strip_prefix-eq head raw xs)

check_echo-some :
    (normal req : List ℕ) {n : List ℕ}
    → check_echo normal req ≡ some n
    → (get_elem? normal reply_cmd_echo ≡ get_elem? req req_cmd) × (resize normal packet_len ≡ n)
unfolding check_echo
check_echo-some normal req e =
    ground (arith, same_byte→eq (get_elem? normal reply_cmd_echo) (get_elem? req req_cmd))

-- How a config reply begins on the wire.
abbrev pub report_head : Framing → List ℕ
report_head wrapped = 0x81 ∷ 0x66 ∷ 0xA5 ∷ []
report_head plain = 0x02 ∷ 0x04 ∷ []
report_head length_byte = 0x02 ∷ 0x04 ∷ []

to_normal-some :
    (f : Framing) (raw : List ℕ) {n : List ℕ}
    → to_normal f raw ≡ some n
    → (rest : List ℕ) × (raw ≡ report_head f ++ rest) × (n ≡ 0x02 ∷ 0x04 ∷ rest)
unfolding to_normal
to_normal-some wrapped raw e = elim (Option-cases (strip_prefix wrapped_in raw)) [
  | inl no_prefix ↦ absurd (ground arith)
  | inr (rest, found) ↦ (rest, strip_prefix-eq wrapped_in raw rest found, ground arith)
]
to_normal-some plain raw e = elim (Option-cases (strip_prefix reply_head raw)) [
  | inl no_prefix ↦ absurd (ground arith)
  | inr (rest, found) ↦
      let same = strip_prefix-eq reply_head raw rest found in (rest, same, ground arith)
]
to_normal-some length_byte raw e = elim (Option-cases (strip_prefix reply_head raw)) [
  | inl no_prefix ↦ absurd (ground arith)
  | inr (rest, found) ↦
      let same = strip_prefix-eq reply_head raw rest found in (rest, same, ground arith)
]

to_normal-report_head :
    (f : Framing) (rest : List ℕ) → to_normal f (report_head f ++ rest) ≡ some (0x02 ∷ 0x04 ∷ rest)
unfolding to_normal strip_prefix
to_normal-report_head wrapped rest = refl
to_normal-report_head plain rest = refl
to_normal-report_head length_byte rest = refl

check_echo-same :
    (normal req : List ℕ)
    → get_elem? normal reply_cmd_echo ≡ get_elem? req req_cmd
    → check_echo normal req ≡ some (resize normal packet_len)
unfolding check_echo
check_echo-same normal req e = rw (e, same_byte_refl (get_elem? req req_cmd))

reply-normal :
    (f : Framing) (raw req : List ℕ) {normal : List ℕ}
    → to_normal f raw ≡ some normal
    → reply f raw req ≡ check_echo normal req
unfolding reply
reply-normal f raw req found = ground arith

-- The report `raw` begins with the head of its framing; `n` is the rest behind `02 04`, cut or
-- padded with zeros to 64 bytes; and byte 4 echoes the command of the request.
abbrev pub IsReply : Framing → List ℕ → List ℕ → List ℕ → Type 0
IsReply f raw req n =
    (rest : List ℕ) × (raw ≡ report_head f ++ rest)
    × (get_elem? (0x02 ∷ 0x04 ∷ rest) 4 ≡ get_elem? req 2)
    × (n ≡ take 64 (0x02 ∷ 0x04 ∷ rest) ++ replicate (64 - length (0x02 ∷ 0x04 ∷ rest)) 0)

-- What counts as the reply to a packet, in every framing: exactly a report that begins with the
-- head of its framing (`81 66 A5` when wrapped, else `02 04`) and whose byte 4, once the head reads
-- `02 04`, equals byte 2 of the request, or both are missing. The reply is then `02 04`
-- and the rest of the report, cut or padded with zeros to 64 bytes; any other report gives none.
pub reply_iff :
    (f : Framing) (raw req n : List ℕ) → (reply f raw req ≡ some n) ↔ IsReply f raw req n
reply_iff f raw req n = (
  λ e. elim (Option-cases (to_normal f raw)) [
    | inl no_reply ↦ absurd (unfold reply in ground arith)
    | inr (normal, found) ↦
        let (rest, is, head) = to_normal-some f raw found in
        let (same, padded) = check_echo-some normal req (sym (reply-normal f raw req found) ∙ e) in
        (
          rest,
          is,
          ap (λ t. get_elem? t 4) (sym head) ∙ same,
          sym padded ∙ ap (λ t. resize t 64) head,
        )
  ],
  λ (rest, is, same, n_is).
      ap (λ t. reply f t req) is
      ∙ reply-normal f (report_head f ++ rest) req (to_normal-report_head f rest)
      ∙ check_echo-same (0x02 ∷ 0x04 ∷ rest) req same
      ∙ ap some (sym n_is),
)

-- A wrapped report leaves out the first two reply bytes and the last one: the rest comes back in
-- place, and the last byte reads 0.
pub reply-wrapped :
    (rest req : List ℕ)
    → length rest ≡ 62
    → get_elem? rest 2 ≡ get_elem? req 2
    → reply wrapped (wrapped_in ++ take 61 rest) req
      ≡ some (reply_head ++ (take 61 rest ++ (0 ∷ [])))
unfolding reply to_normal
reply-wrapped rest req h e =
    let n61 : length (take 61 rest) ≡ 61 = omega (arith, length-take 61 rest) in
    let pad : 64 - length (reply_head ++ take 61 rest) ≡ 1 = omega (arith, length-take 61 rest) in
    check_echo-same (reply_head ++ take 61 rest) req (get_elem?-take 61 2 rest (omega arith) ∙ e)
    ∙ ap some (rw (pad, take-all 62 (take 61 rest) (omega (arith, length-take 61 rest))))

-- A length-byte request keeps the first byte, puts 17 plus the chunk length (at most 62) behind it, and
-- moves normal byte `k` to `k + 1`, for `k` from 1 to 62.
pub request-length_byte :
    (normal : List ℕ) (k : ℕ)
    → length normal ≡ 64
    → k < 62
    → (take 2 (request length_byte normal)
        ≡ get_or normal 0 0 ∷ min (17 + get_or normal 6 0) 62 ∷ [])
      × (get_elem? (request length_byte normal) (2 + k) ≡ get_elem? normal (k + 1))
unfolding request
request-length_byte normal k h q = (
  ap (take 2) (prefixed-take normal _ h (omega arith)),
  prefixed-shift normal (get_or normal 0 0 ∷ min (17 + get_or normal 6 0) 62 ∷ []) k h (omega arith)
      (omega arith),
)
