-- ===== src/Bytes/Order.antt =====
-- The lexicographic comparison is a strict total order.
use space_db.Base.{◌≡◌, refl, true, [], ◌∷◌, ◌++◌, length, Ordering, arith, ◌↔◌}
use space_db.Bytes.{Bytes, compare_bytes, bytes_eq}

pub compare_refl : (a : Bytes) → compare_bytes a a ≡ Ordering.eq
unfolding compare_bytes
compare_refl [] = refl
compare_refl (x ∷ xs) = ground (arith, compare_refl xs)

pub eq_of_compare : (a b : Bytes) → compare_bytes a b ≡ Ordering.eq → a ≡ b
unfolding compare_bytes
eq_of_compare [] [] h = refl
eq_of_compare [] (y ∷ ys) h = cc
eq_of_compare (x ∷ xs) [] h = cc
eq_of_compare (x ∷ xs) (y ∷ ys) h = ground (arith, eq_of_compare xs ys)

pub compare_swap_gt :
    (a b : Bytes) → compare_bytes a b ≡ Ordering.gt → compare_bytes b a ≡ Ordering.lt
unfolding compare_bytes
compare_swap_gt [] [] h = cc
compare_swap_gt [] (y ∷ ys) h = cc
compare_swap_gt (x ∷ xs) [] h = refl
compare_swap_gt (x ∷ xs) (y ∷ ys) h = ground (arith, compare_swap_gt xs ys)

pub compare_swap_lt :
    (a b : Bytes) → compare_bytes a b ≡ Ordering.lt → compare_bytes b a ≡ Ordering.gt
unfolding compare_bytes
compare_swap_lt [] [] h = cc
compare_swap_lt [] (y ∷ ys) h = refl
compare_swap_lt (x ∷ xs) [] h = cc
compare_swap_lt (x ∷ xs) (y ∷ ys) h = ground (arith, compare_swap_lt xs ys)

pub compare_trans :
    (a b c : Bytes)
    → compare_bytes a b ≡ Ordering.lt
    → compare_bytes b c ≡ Ordering.lt
    → compare_bytes a c ≡ Ordering.lt
unfolding compare_bytes
compare_trans [] [] c h k = cc
compare_trans [] (y ∷ ys) [] h k = cc
compare_trans [] (y ∷ ys) (z ∷ zs) h k = refl
compare_trans (x ∷ xs) [] c h k = cc
compare_trans (x ∷ xs) (y ∷ ys) [] h k = cc
compare_trans (x ∷ xs) (y ∷ ys) (z ∷ zs) h k = ground (arith, compare_trans xs ys zs)

pub bytes_eq_iff : (a b : Bytes) → (bytes_eq a b ≡ true) ↔ (a ≡ b)
bytes_eq_iff a b = (λ h. eq_of_compare a b (ground arith), λ e. ground (arith, e, compare_refl b))

abbrev pub then : Ordering → Ordering → Ordering
then Ordering.lt o = Ordering.lt
then Ordering.eq o = o
then Ordering.gt o = Ordering.gt

-- A common front does not count.
pub compare-append_front : (p a b : Bytes) → compare_bytes (p ++ a) (p ++ b) ≡ compare_bytes a b
unfolding compare_bytes
compare-append_front [] a b = refl
compare-append_front (x ∷ p) a b = ground (arith, compare-append_front p a b)

-- Fronts of one length decide before the backs.
pub compare-append :
    (xs ys a b : Bytes)
    → length xs ≡ length ys
    → compare_bytes (xs ++ a) (ys ++ b) ≡ then (compare_bytes xs ys) (compare_bytes a b)
unfolding compare_bytes
compare-append [] [] a b h = refl
compare-append [] (y ∷ ys) a b h = ground arith
compare-append (x ∷ xs) [] a b h = ground arith
compare-append (x ∷ xs) (y ∷ ys) a b h = ground (arith, compare-append xs ys a b)
