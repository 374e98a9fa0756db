-- ===== src/Storage/Mvcc/Newest.antt =====
-- `Get` reads the newest version that the transaction sees.
use space_db.Base.{
  ℕ, ◌≤◌, ◌<◌, ◌≡◌, ◌≢◌, refl, ap, ◌∙◌, sym, [], ◌∷◌, Option, none, some, true, false, Bool-cases,
  inl, inr, Result, ok, arith,
}
use native.Mathlib.Decide.{ℕ_discrete}
use mathlib.Core.Path.{subst}
use space_db.Bytes.{Bytes, Slice, IsBytes}
use space_db.Bytes.Order.{compare_refl}
use space_db.Storage.Errors.{Error}
use space_db.Storage.Entries.{Entries, lookup}
use space_db.Storage.Entries.Sorted.{IsDescending, Below}
use space_db.Storage.Entries.Contents.{Each, gt_of_lookup, lookup_head, lookup_tail}
use space_db.Storage.Key.{MvccKey, encode, versioned_key, IsKey, IsVersion}
use space_db.Storage.Key.RoundTrip.{decode_mvcc_key-encode, encode-injective}
use space_db.Storage.Key.Order.{compare-versioned}
use space_db.Storage.Versions.{Transaction, is_visible, decode_versioned_value, read_newest}

-- `r` is what the newest version that `t` sees decodes to, where `f` gives the stored versions.
pub data Newest (t : Transaction) (f : ℕ → Option Slice) (r : Result Error Slice) : Type 0 where
  found :
      (u : ℕ) (v : Slice)
      → IsVersion u
      → is_visible t u ≡ true
      → f u ≡ some v
      → ((w : ℕ) (x : Slice) → IsVersion w → is_visible t w ≡ true → f w ≡ some x → w ≤ u)
      → r ≡ decode_versioned_value v
      → Newest t f r
  missing :
      ((w : ℕ) → IsVersion w → is_visible t w ≡ true → f w ≡ none) → r ≡ ok none → Newest t f r

abbrev pub IsVersionOf : Bytes → Bytes → Slice → Type 0
IsVersionOf raw k v = (u : ℕ) × IsVersion u × (k ≡ encode (versioned_key raw u))

module _ (t : Transaction) (raw : Bytes) (bytes : IsBytes raw) where
  abbrev in_list : Entries → ℕ → Option Slice
  in_list l u = lookup (encode (versioned_key raw u)) l

  IsKey-of : (u : ℕ) → IsVersion u → IsKey (versioned_key raw u)
  IsKey-of u h = (h, bytes, tt)

  at_injective :
      (u w : ℕ)
      → IsVersion u
      → IsVersion w
      → encode (versioned_key raw u) ≡ encode (versioned_key raw w)
      → u ≡ w
  at_injective u w hu hw e =
      ap (λ (k : MvccKey). k.at)
        (encode-injective (versioned_key raw u) (versioned_key raw w) (IsKey-of u hu)
          (IsKey-of w hw) e)

  -- The entry of another version is found behind the head.
  in_list_tail :
      (u w : ℕ) (v : Slice) (l : Entries)
      → IsVersion u
      → IsVersion w
      → u ≢ w
      → in_list ((encode (versioned_key raw u), v) ∷ l) w ≡ in_list l w
  in_list_tail u w v l hu hw ne = lookup_tail _ _ v l (λ e. ne (at_injective u w hu hw e))

  lt_of_tail :
      (u w : ℕ) (x : Slice) (l : Entries)
      → IsVersion u
      → IsVersion w
      → Below (encode (versioned_key raw u)) l
      → in_list l w ≡ some x
      → w < u
  lt_of_tail u w x l hu hw b h =
      let lower = gt_of_lookup _ _ x l b h in
      ground (arith, compare-versioned raw raw w u hw hu, compare_refl raw)

  pub le_of_cons :
      (u w : ℕ) (v x : Slice) (l : Entries)
      → IsVersion u
      → IsVersion w
      → Below (encode (versioned_key raw u)) l
      → in_list ((encode (versioned_key raw u), v) ∷ l) w ≡ some x
      → w ≤ u
  le_of_cons u w v x l hu hw b h = elim (ℕ_discrete u w) [
    | yes same ↦ omega arith
    | no other ↦
        let lower = lt_of_tail u w x l hu hw b (sym (in_list_tail u w v l hu hw other) ∙ h) in
        omega arith
  ]

  ne_of_visible : (u w : ℕ) → is_visible t u ≡ false → is_visible t w ≡ true → u ≢ w
  ne_of_visible u w hu hw e = cc

  -- A version that `t` does not see does not count.
  Newest-skip :
      (u : ℕ) (v : Slice) (l : Entries) (r : Result Error Slice)
      → IsVersion u
      → is_visible t u ≡ false
      → Newest t (in_list l) r
      → Newest t (in_list ((encode (versioned_key raw u), v) ∷ l)) r
  Newest-skip u v l r hu hidden (found w x hw vis at top e) =
      found w x hw vis (in_list_tail u w v l hu hw (ne_of_visible u w hidden vis) ∙ at)
        (λ y z hy visy f.
          top y z hy visy (sym (in_list_tail u y v l hu hy (ne_of_visible u y hidden visy)) ∙ f))
        e
  Newest-skip u v l r hu hidden (missing none_seen e) =
      missing
        (λ y hy visy.
          in_list_tail u y v l hu hy (ne_of_visible u y hidden visy) ∙ none_seen y hy visy)
        e

  Newest-cons :
      (u : ℕ) (v : Slice) (l : Entries)
      → IsVersion u
      → Below (encode (versioned_key raw u)) l
      → Newest t (in_list l) (read_newest t l none)
      → Newest t
          (in_list ((encode (versioned_key raw u), v) ∷ l))
          (read_newest t ((encode (versioned_key raw u), v) ∷ l) none)
  unfolding read_newest
  Newest-cons u v l hu b ih =
      rw (decode_mvcc_key-encode (versioned_key raw u) (IsKey-of u hu))
        (elim (Bool-cases (is_visible t u)) [
          | inl seen ↦ rw seen (
              found u v hu seen (lookup_head _ v l) (λ w x hw _ h. le_of_cons u w v x l hu hw b h)
                refl)
          | inr hidden ↦ rw hidden (Newest-skip u v l _ hu hidden ih)
        ])

  pub read_newest-Newest :
      (l : Entries)
      → IsDescending l
      → Each (IsVersionOf raw) l
      → Newest t (in_list l) (read_newest t l none)
  read_newest-Newest [] d h = unfold read_newest lookup in missing (λ w hw vis. refl) refl
  read_newest-Newest ((k, v) ∷ l) d ((u, hu, same), rest) =
      subst (λ b. Newest t (in_list ((b, v) ∷ l)) (read_newest t ((b, v) ∷ l) none)) (sym same)
        (Newest-cons u v l hu (subst (λ b. Below b l) same d.0) (read_newest-Newest l d.1 rest))
