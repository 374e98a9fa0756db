-- ===== src/Storage/Key/Escape.antt =====
-- The escaping of raw keys in plain terms: it is read back, and it keeps the order of keys.
use space_db.Base.{
  ℕ, zero, suc, ◌≡◌, refl, ap, ◌∙◌, sym, [], ◌∷◌, ◌++◌, append_assoc, append-nil, ok, Bool-cases,
  inl, inr, arith, ◌==◌,
}
use space_db.Bytes.{Bytes, IsBytes, compare_bytes}
use space_db.Bytes.Order.{then}
use space_db.Storage.Key.{
  append_escaped_raw_key, append_terminated_raw_key, decode_raw_key_loop, decode_raw_key,
}

abbrev pub escape : Bytes → Bytes
escape [] = []
escape (zero ∷ raw) = 0 ∷ 0xff ∷ escape raw
escape (suc b ∷ raw) = suc b ∷ escape raw

abbrev pub terminated : Bytes → Bytes → Bytes
terminated raw rest = escape raw ++ (0 ∷ 0 ∷ rest)

pub append_escaped_raw_key-escape :
    (dst raw : Bytes) → append_escaped_raw_key dst raw ≡ dst ++ escape raw
unfolding append_escaped_raw_key
append_escaped_raw_key-escape dst [] = sym (append-nil dst)
append_escaped_raw_key-escape dst (zero ∷ raw) =
    append_escaped_raw_key-escape (dst ++ (0 ∷ 0xff ∷ [])) raw
    ∙ append_assoc dst (0 ∷ 0xff ∷ []) (escape raw)
append_escaped_raw_key-escape dst (suc b ∷ raw) =
    append_escaped_raw_key-escape (dst ++ (suc b ∷ [])) raw
    ∙ append_assoc dst (suc b ∷ []) (escape raw)

pub append_terminated_raw_key-escape :
    (dst raw : Bytes) → append_terminated_raw_key dst raw ≡ dst ++ (escape raw ++ (0 ∷ 0 ∷ []))
unfolding append_terminated_raw_key
append_terminated_raw_key-escape dst raw =
    ap (λ t. t ++ (0 ∷ 0 ∷ [])) (append_escaped_raw_key-escape dst raw)
    ∙ append_assoc dst (escape raw) (0 ∷ 0 ∷ [])

decode_raw_key_loop-terminated :
    (acc raw rest : Bytes) → decode_raw_key_loop acc (terminated raw rest) ≡ ok (acc ++ raw, rest)
unfolding decode_raw_key_loop
decode_raw_key_loop-terminated acc [] rest = rw append-nil
decode_raw_key_loop-terminated acc (zero ∷ raw) rest =
    decode_raw_key_loop-terminated (acc ++ (0 ∷ [])) raw rest
    ∙ ap (λ t. ok (t, rest)) (append_assoc acc (0 ∷ []) raw)
decode_raw_key_loop-terminated acc (suc b ∷ raw) rest =
    decode_raw_key_loop-terminated (acc ++ (suc b ∷ [])) raw rest
    ∙ ap (λ t. ok (t, rest)) (append_assoc acc (suc b ∷ []) raw)

pub decode_raw_key-terminated :
    (raw rest : Bytes) → decode_raw_key (terminated raw rest) ≡ ok (raw, rest)
unfolding decode_raw_key
decode_raw_key-terminated raw rest = decode_raw_key_loop-terminated [] raw rest

-- What the loop reads is `t`, and it read it off the escape of `t` and a terminator.
abbrev ReadFrom : Bytes → Bytes → Bytes → Bytes → Type 0
ReadFrom acc bs raw rest = (t : Bytes) × (raw ≡ acc ++ t) × (bs ≡ terminated t rest)

more_zero :
    (acc bs raw rest : Bytes)
    → ReadFrom (acc ++ (0 ∷ [])) bs raw rest
    → ReadFrom acc (0 ∷ 0xff ∷ bs) raw rest
more_zero acc bs raw rest (t, e, d) =
    (0 ∷ t, e ∙ append_assoc acc (0 ∷ []) t, ap (λ k. 0 ∷ 0xff ∷ k) d)

more_byte :
    (acc bs raw rest : Bytes) (b : ℕ)
    → ReadFrom (acc ++ (suc b ∷ [])) bs raw rest
    → ReadFrom acc (suc b ∷ bs) raw rest
more_byte acc bs raw rest b (t, e, d) =
    (suc b ∷ t, e ∙ append_assoc acc (suc b ∷ []) t, ap (λ k. suc b ∷ k) d)

decode_raw_key_loop_inv :
    (acc bs raw rest : Bytes)
    → decode_raw_key_loop acc bs ≡ ok (raw, rest)
    → ReadFrom acc bs raw rest
unfolding decode_raw_key_loop
decode_raw_key_loop_inv acc [] raw rest h = cc
decode_raw_key_loop_inv acc (suc b ∷ bs) raw rest h =
    more_byte acc bs raw rest b (decode_raw_key_loop_inv (acc ++ (suc b ∷ [])) bs raw rest h)
decode_raw_key_loop_inv acc (zero ∷ []) raw rest h = cc
decode_raw_key_loop_inv acc (zero ∷ c ∷ bs) raw rest h = elim (Bool-cases (c == 0)) [
  | inl z ↦ ([], ground (arith, append-nil acc), ground arith)
  | inr nz ↦ elim (Bool-cases (c == 0xff)) [
    | inl f ↦
        let e : c ≡ 0xff = ground arith in
        rw e (
          more_zero acc bs raw rest
            (decode_raw_key_loop_inv (acc ++ (0 ∷ [])) bs raw rest (rw (nz, f) at h)))
    | inr nf ↦ cc (rw (nz, nf) at h)
  ]
]

pub decode_raw_key_inv :
    (bs raw rest : Bytes) → decode_raw_key bs ≡ ok (raw, rest) → bs ≡ terminated raw rest
unfolding decode_raw_key
decode_raw_key_inv bs raw rest h =
    let (t, e, d) = decode_raw_key_loop_inv [] bs raw rest h in rw e d

-- Escaped bytes are bytes.
pub IsBytes-terminated :
    (raw rest : Bytes) → IsBytes (terminated raw rest) → IsBytes raw × IsBytes rest
IsBytes-terminated [] rest h = (tt, h.1.1)
IsBytes-terminated (zero ∷ raw) rest h =
    let (a, b) = IsBytes-terminated raw rest h.1.1 in ((h.0, a), b)
IsBytes-terminated (suc b ∷ raw) rest h =
    let (a, c) = IsBytes-terminated raw rest h.1 in ((h.0, a), c)

-- The terminator sorts below every byte of a longer key, so encoded keys sort as raw keys do.
pub compare-terminated :
    (a b x y : Bytes)
    → compare_bytes (terminated a x) (terminated b y) ≡ then (compare_bytes a b) (compare_bytes x y)
unfolding compare_bytes
compare-terminated [] [] x y = refl
compare-terminated [] (zero ∷ b) x y = refl
compare-terminated [] (suc c ∷ b) x y = ground arith
compare-terminated (zero ∷ a) [] x y = refl
compare-terminated (suc c ∷ a) [] x y = ground arith
compare-terminated (zero ∷ a) (zero ∷ b) x y = compare-terminated a b x y
compare-terminated (zero ∷ a) (suc c ∷ b) x y = ground arith
compare-terminated (suc c ∷ a) (zero ∷ b) x y = ground arith
compare-terminated (suc c ∷ a) (suc d ∷ b) x y = ground (arith, compare-terminated a b x y)
