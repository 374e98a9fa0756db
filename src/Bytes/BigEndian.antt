-- ===== src/Bytes/BigEndian.antt =====
-- encoding/binary's big-endian integers: `be n v` is the n low bytes of `v`, highest first.
use space_db.Base.{
  ℕ, zero, suc, ◌+◌, ◌*◌, ◌/◌, ◌%◌, ◌^◌, ◌<◌, ◌≡◌, refl, ◌∙◌, sym, ap, [], ◌∷◌, ◌++◌, length,
  length-append, append-nil, append_assoc, All-append, compare, arith,
}
use mathlib.Core.Path.{ap₂}
use space_db.Bytes.{Bytes, IsByte, IsBytes, compare_bytes}
use space_db.Bytes.Order.{then, compare-append}

unfoldable pub be : ℕ → ℕ → Bytes
be zero v = []
be (suc n) v = be n (v / 256) ++ (v % 256 ∷ [])

unfoldable pub of_be : ℕ → Bytes → ℕ
of_be acc [] = acc
of_be acc (b ∷ bs) = of_be (acc * 256 + b) bs

pub length-be : (n v : ℕ) → length (be n v) ≡ n
unfolding be
length-be zero v = refl
length-be (suc n) v =
    length-append (be n (v / 256)) (v % 256 ∷ []) ∙ omega (arith, length-be n (v / 256))

pub be-IsBytes : (n v : ℕ) → IsBytes (be n v)
unfolding be
be-IsBytes zero v = tt
be-IsBytes (suc n) v =
    All-append IsByte (be n (v / 256)) (v % 256 ∷ []) (be-IsBytes n (v / 256)) (omega arith)

of_be-append : (acc : ℕ) (xs ys : Bytes) → of_be acc (xs ++ ys) ≡ of_be (of_be acc xs) ys
unfolding of_be
of_be-append acc [] ys = refl
of_be-append acc (x ∷ xs) ys = of_be-append (acc * 256 + x) xs ys

-- One more byte at the end.
of_be-snoc : (acc b : ℕ) (xs : Bytes) → of_be acc (xs ++ (b ∷ [])) ≡ of_be acc xs * 256 + b
unfolding of_be
of_be-snoc acc b [] = refl
of_be-snoc acc b (x ∷ xs) = of_be-snoc (acc * 256 + x) b xs

pub of_be-be : (n v : ℕ) → v < 256 ^ n → of_be 0 (be n v) ≡ v
unfolding be of_be
of_be-be zero v h = omega arith
of_be-be (suc n) v h =
    of_be-snoc 0 (v % 256) (be n (v / 256)) ∙ omega (arith, of_be-be n (v / 256) (omega arith))

-- Reading bytes behind `acc` and writing them again.
snoc_digit : (n acc b : ℕ) → b < 256 → be (suc n) (acc * 256 + b) ≡ be n acc ++ (b ∷ [])
unfolding be
snoc_digit n acc b h = ap₂ (λ q r. be n q ++ (r ∷ [])) (omega arith) (omega arith)

be-of_be_front :
    (m n acc : ℕ) (bs : Bytes)
    → IsBytes bs
    → m ≡ length bs + n
    → be m (of_be acc bs) ≡ be n acc ++ bs
unfolding be of_be
be-of_be_front m n acc [] h e =
    let same : m ≡ n = omega arith in rw append-nil (ap (λ k. be k acc) same)
be-of_be_front m n acc (b ∷ bs) h e =
    be-of_be_front m (suc n) (acc * 256 + b) bs h.1 (omega arith)
    ∙ ap (λ t. t ++ bs) (snoc_digit n acc b h.0)
    ∙ append_assoc (be n acc) (b ∷ []) bs

-- Writing what was read.
pub be-of_be : (bs : Bytes) → IsBytes bs → be (length bs) (of_be 0 bs) ≡ bs
unfolding be
be-of_be bs h = be-of_be_front (length bs) 0 0 bs h (omega arith)

of_be-lt_front :
    (m n acc : ℕ) (bs : Bytes)
    → IsBytes bs
    → m ≡ length bs + n
    → acc < 256 ^ n
    → of_be acc bs < 256 ^ m
unfolding of_be
of_be-lt_front m n acc [] h e k = let same : m ≡ n = omega arith in rw same k
of_be-lt_front m n acc (b ∷ bs) h e k =
    of_be-lt_front m (suc n) (acc * 256 + b) bs h.1 (omega arith) (omega (arith, h.0))

pub of_be-lt : (bs : Bytes) → IsBytes bs → of_be 0 bs < 256 ^ length bs
of_be-lt bs h = of_be-lt_front (length bs) 0 0 bs h (omega arith) (omega arith)

compare_digits :
    (u v : ℕ)
    → then (compare (u / 256) (v / 256)) (compare_bytes (u % 256 ∷ []) (v % 256 ∷ [])) ≡ compare u v
unfolding compare_bytes
compare_digits u v = ground arith

pub compare-be :
    (n u v : ℕ) → u < 256 ^ n → v < 256 ^ n → compare_bytes (be n u) (be n v) ≡ compare u v
unfolding be
compare-be zero u v hu hv = unfold compare_bytes in ground arith
compare-be (suc n) u v hu hv =
    compare-append (be n (u / 256)) (be n (v / 256)) (u % 256 ∷ []) (v % 256 ∷ [])
      (length-be n (u / 256) ∙ sym (length-be n (v / 256)))
    ∙ ap (λ o. then o (compare_bytes (u % 256 ∷ []) (v % 256 ∷ [])))
        (compare-be n (u / 256) (v / 256) (omega arith) (omega arith))
    ∙ compare_digits u v
