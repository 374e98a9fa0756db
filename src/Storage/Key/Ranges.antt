-- ===== src/Storage/Key/Ranges.antt =====
-- The ranges that `Get` and `write` scan hold the versions of one raw key, and nothing else.
use space_db.Base.{
  ℕ, ◌≤◌, ◌<◌, ◌-◌, ◌≡◌, refl, ◌∙◌, sym, [], ◌∷◌, ◌++◌, append-nil, true, false, Ordering, arith,
  some, ltb, leb, ◌&&◌,
}
use mathlib.Core.Path.{ap₂}
use space_db.Bytes.{Bytes, compare_bytes, bytes_lt}
use space_db.Bytes.Order.{then, compare-append_front, compare_refl, compare-append}
use space_db.Bytes.BigEndian.{be, length-be, compare-be}
use space_db.Storage.Engine.{in_range}
use space_db.Storage.Key.{
  MvccKey, encode, mvcc_metadata_prefix, versioned_key, IsKey, IsVersion, u64_mod,
}
use space_db.Storage.Key.Escape.{terminated, compare-terminated}
use space_db.Storage.Key.Order.{
  versions_from, encode-versioned_tail, Between, Between-payload, compare-versioned,
  encode-versions_from,
}

-- `to` of `write`: the key of the largest version and one byte more.
abbrev pub last_version : ℕ
last_version = u64_mod - 1

abbrev pub past_versions : Bytes → Bytes
past_versions raw = encode (versioned_key raw last_version) ++ (0 ∷ [])

compare_tail : (x y : Bytes) → compare_bytes (3 ∷ x) (3 ∷ y) ≡ compare_bytes x y
unfolding compare_bytes
compare_tail x y = refl

compare_past :
    (u : ℕ) → IsVersion u → compare_bytes (be 8 u) (be 8 last_version ++ (0 ∷ [])) ≡ Ordering.lt
compare_past u h =
    let front =
      compare-append (be 8 u) (be 8 last_version) [] (0 ∷ [])
        (length-be 8 u ∙ sym (length-be 8 last_version)) in
    let shorter : compare_bytes [] (0 ∷ []) ≡ Ordering.lt = unfold compare_bytes in refl in
    rw append-nil at front
    ∙ ap₂ then (compare-be 8 u last_version h (omega arith)) shorter
    ∙ ground arith

past_versions-versions_from :
    (raw : Bytes) → past_versions raw ≡ versions_from raw (be 8 last_version ++ (0 ∷ []))
past_versions-versions_from raw = encode-versioned_tail raw (0 ∷ []) last_version

versioned_of_Between :
    (k : MvccKey) (raw x y : Bytes) → Between k raw x y → k ≡ versioned_key raw k.at
versioned_of_Between k raw x y (kind, same, _, _) =
    ap₂ (λ a b. record { kind = a; at = k.at; raw_key = b }) kind same

split_range :
    (lo hi k : Bytes)
    → in_range (some lo) (some hi) k ≡ true
    → (bytes_lt k lo ≡ false) × (bytes_lt k hi ≡ true)
split_range lo hi k h = ground arith

module _ (k : MvccKey) (raw : Bytes) (lo : ℕ) (key : IsKey k) (low : IsVersion lo) where
  range-Between :
      (y : Bytes)
      → in_range (some (encode (versioned_key raw lo))) (some (versions_from raw y)) (encode k)
        ≡ true
      → Between k raw (be 8 lo) y
  range-Between y h =
      let (above, below) = split_range _ _ _ h in
      Between-payload k.kind k.at k.raw_key raw (be 8 lo) y
        (rw (encode-versions_from raw lo) at above) below

  -- A key from the version `lo` of `raw` up to the version `hi`.
  pub in_versions :
      (hi : ℕ)
      → IsVersion hi
      → in_range
          (some (encode (versioned_key raw lo)))
          (some (encode (versioned_key raw hi)))
          (encode k)
        ≡ true
      → (k ≡ versioned_key raw k.at) × (lo ≤ k.at) × (k.at < hi)
  in_versions hi high h =
      let b = range-Between (be 8 hi) (rw (encode-versions_from raw hi) at h) in
      (
        versioned_of_Between k raw _ _ b,
        ground (arith, b.2, compare-be 8 k.at lo key.0 low),
        ground (arith, b.3, compare-be 8 k.at hi key.0 high),
      )

  -- A key from the version `lo` of `raw` on.
  pub in_versions_past :
      in_range (some (encode (versioned_key raw lo))) (some (past_versions raw)) (encode k) ≡ true
      → (k ≡ versioned_key raw k.at) × (lo ≤ k.at)
  in_versions_past h =
      let b = range-Between _ (rw (past_versions-versions_from raw) at h) in
      (versioned_of_Between k raw _ _ b, ground (arith, b.2, compare-be 8 k.at lo key.0 low))

module _ (raw : Bytes) (u lo : ℕ) (small : IsVersion u) (low : IsVersion lo) where
  pub in_range-versioned :
      (hi : ℕ)
      → IsVersion hi
      → in_range
          (some (encode (versioned_key raw lo)))
          (some (encode (versioned_key raw hi)))
          (encode (versioned_key raw u))
        ≡ leb lo u && ltb u hi
  in_range-versioned hi high = ground (
    arith,
    compare-versioned raw raw u lo small low,
    compare-versioned raw raw u hi small high,
    compare_refl raw,
  )

  pub in_range-past :
      in_range
        (some (encode (versioned_key raw lo)))
        (some (past_versions raw))
        (encode (versioned_key raw u))
      ≡ leb lo u
  in_range-past =
      let past : compare_bytes (encode (versioned_key raw u)) (past_versions raw) ≡ Ordering.lt =
        rw (past_versions-versions_from raw, encode-versions_from raw u)
          (compare-append_front mvcc_metadata_prefix _ _
            ∙ compare_tail (terminated raw (be 8 u))
                (terminated raw (be 8 last_version ++ (0 ∷ [])))
            ∙ compare-terminated raw raw (be 8 u) (be 8 last_version ++ (0 ∷ []))
            ∙ ap₂ then (compare_refl raw) (compare_past u small)) in
      ground (arith, compare-versioned raw raw u lo small low, compare_refl raw)
