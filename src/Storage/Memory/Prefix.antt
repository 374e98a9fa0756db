-- ===== src/Storage/Memory/Prefix.antt =====
-- `prefixEnd` bounds exactly the keys with a prefix.
use space_db.Base.{
  ℕ, zero, suc, ◌+◌, ◌%◌, ◌<◌, ◌≡◌, refl, ap, ◌∙◌, [], ◌∷◌, none, some, false, length, get_or, ◌==◌,
  if◌then◌else◌, arith, Bool-cases, Option-cases, inl, inr,
}
use space_db.Bytes.{Bytes, Slice, IsBytes, compare_bytes}
use space_db.Storage.Engine.{in_range, has_prefix}
use space_db.Storage.Memory.{prefix_end, prefix_end_loop}

-- The bound by recursion from the front.
abbrev bump : ℕ → Slice → Slice
bump b none = if b == 0xff then none else some (((b + 1) % 256) ∷ [])
bump b (some t) = some (b ∷ t)

abbrev next_prefix : Bytes → Slice
next_prefix [] = none
next_prefix (b ∷ bs) = bump b (next_prefix bs)

prefix_end_loop-cons :
    (i b : ℕ) (bs : Bytes) → prefix_end_loop (suc i) (b ∷ bs) ≡ bump b (prefix_end_loop i bs)
unfolding prefix_end_loop
prefix_end_loop-cons zero b bs = refl
prefix_end_loop-cons (suc i) b bs = elim (Bool-cases (get_or bs i 0 == 0xff)) [
  | inl full ↦ rw (full, prefix_end_loop-cons i b bs)
  | inr room ↦ rw (room)
]

pub prefix_end-next_prefix : (bs : Bytes) → prefix_end bs ≡ next_prefix bs
unfolding prefix_end
prefix_end-next_prefix [] = unfold prefix_end_loop in refl
prefix_end-next_prefix (b ∷ bs) =
    prefix_end_loop-cons (length bs) b bs ∙ ap (bump b) (prefix_end-next_prefix bs)

in_range-bump :
    (a b : ℕ) (p k : Bytes) (end' : Slice)
    → a < 256
    → b < 256
    → in_range (some (a ∷ p)) (bump a end') (b ∷ k)
      ≡ (if a == b then in_range (some p) end' k else false)
unfolding compare_bytes
in_range-bump a b p [] none ha hb = ground arith
in_range-bump a b p (c ∷ k) none ha hb = ground arith
in_range-bump a b p k (some t) ha hb = ground arith

in_range-next_prefix :
    (p k : Bytes) → IsBytes p → IsBytes k → in_range (some p) (next_prefix p) k ≡ has_prefix p k
in_range-next_prefix [] [] hp hk = unfold compare_bytes in refl
in_range-next_prefix [] (b ∷ k) hp hk = unfold compare_bytes in refl
in_range-next_prefix (a ∷ p) [] hp hk = elim (Option-cases (next_prefix p)) [
  | inl e ↦ unfold compare_bytes in rw (e) (ground arith)
  | inr (t, e) ↦ unfold compare_bytes in rw (e) (ground arith)
]
in_range-next_prefix (a ∷ p) (b ∷ k) hp hk =
    in_range-bump a b p k (next_prefix p) hp.0 hk.0
    ∙ ap (λ t. if a == b then t else false) (in_range-next_prefix p k hp.1 hk.1)

-- Of byte strings, the range from `p` to `prefixEnd(p)` holds those that begin with `p`.
pub in_range-prefix_end :
    (p k : Bytes) → IsBytes p → IsBytes k → in_range (some p) (prefix_end p) k ≡ has_prefix p k
in_range-prefix_end p k hp hk = rw (prefix_end-next_prefix p) (in_range-next_prefix p k hp hk)
