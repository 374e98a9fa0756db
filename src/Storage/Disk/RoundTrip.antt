-- ===== src/Storage/Disk/RoundTrip.antt =====
-- Reading a record of the log back, wherever it stands in the file.
use space_db.Base.{
  ℕ, ◌+◌, ◌^◌, ◌≤◌, ◌<◌, ◌≡◌, refl, sym, ap, ◌∙◌, ◌++◌, Bool, true, false, length, take, drop,
  if◌then◌else◌, ok, append_assoc, length-append, take-append, drop-append, arith,
}
use space_db.Bytes.{Bytes, Slice}
use space_db.Bytes.BigEndian.{be, of_be, length-be, of_be-be}
use space_db.Types.Int64.{ℤ, pos, negsuc}
use space_db.Storage.Disk.FileSystem.{Files, IsFiles}
use space_db.Storage.Disk.Log.{
  slice_bytes, stored_bytes, size_field, entry_bytes, entry_size_of, int32_of, read_entry,
  read_checked, read_log_value, read_value,
}

-- The sizes that `writeEntry` accepts.
abbrev pub Fits : Bytes → Slice → Bool → Type 0
Fits key value deleted =
    (length (slice_bytes value) ≤ 2147483647) × (entry_size_of key value deleted ≤ 4294967295)

-- `valueSize` of a record.
abbrev pub value_size_of : Slice → Bool → ℤ
value_size_of value deleted = if deleted then negsuc 0 else pos (length (slice_bytes value))

pub length-entry_bytes :
    (key : Bytes) (value : Slice) (deleted : Bool)
    → length (entry_bytes key value deleted) ≡ entry_size_of key value deleted
unfolding entry_bytes
length-entry_bytes key value deleted =
    rw
      (
        length-append (be 4 (length key)),
        length-append (be 4 (size_field value deleted)),
        length-append key,
        length-be,
      )
      (omega arith)

int32-size_field :
    (value : Slice) (deleted : Bool)
    → length (slice_bytes value) ≤ 2147483647
    → int32_of (size_field value deleted) ≡ value_size_of value deleted
unfolding int32_of
int32-size_field value true h = refl
int32-size_field value false h = ground arith

size_field_lt :
    (value : Slice) (deleted : Bool)
    → length (slice_bytes value) ≤ 2147483647
    → size_field value deleted < 256 ^ 4
size_field_lt value true h = omega arith
size_field_lt value false h = omega arith

module _ (f : Files) (files : IsFiles f) where
  -- A part of the file that has the length of the read.
  pub read_part :
      (front part back : Bytes) (n offset : ℕ)
      → n ≡ length part
      → offset ≡ length front
      → f.read_at (front ++ (part ++ back)) n offset ≡ ok part
  read_part front part back n offset hn ho =
      files.read_within (front ++ (part ++ back)) n offset
        (rw (length-append front, length-append part) (omega arith))
      ∙ ap (λ t. ok (take n t)) (drop-append offset front (part ++ back) (sym ho))
      ∙ ap ok (take-append n part back (sym hn))

  pub read_entry_parts :
      (file header key : Bytes) (offset key_size : ℕ) (value_size : ℤ)
      → f.read_at file 8 offset ≡ ok header
      → of_be 0 (take 4 header) ≡ key_size
      → f.read_at file key_size (offset + 8) ≡ ok key
      → int32_of (of_be 0 (drop 4 header)) ≡ value_size
      → read_entry f file offset ≡ ok (key, value_size)
  unfolding read_entry
  read_entry_parts file header key offset key_size value_size h k r v = rw (h, k, r, v) refl

  module _ (front back key : Bytes) (value : Slice) (deleted : Bool) where
    abbrev pub key_field : Bytes
    key_field = be 4 (length key)

    abbrev pub value_field : Bytes
    value_field = be 4 (size_field value deleted)

    -- The sizes, and what is behind them.
    length-header : length (key_field ++ value_field) ≡ 8
    length-header =
        length-append key_field value_field
        ∙ omega (arith, length-be 4 (length key), length-be 4 (size_field value deleted))

    abbrev pub whole : Bytes
    whole = front ++ (entry_bytes key value deleted ++ back)

    split_header :
        whole
        ≡ front ++ ((key_field ++ value_field) ++ (key ++ (stored_bytes value deleted ++ back)))
    unfolding entry_bytes
    split_header =
        ap (λ t. front ++ t)
          (append_assoc key_field (value_field ++ (key ++ stored_bytes value deleted)) back
            ∙ ap (λ t. key_field ++ t)
                (append_assoc value_field (key ++ stored_bytes value deleted) back
                  ∙ ap (λ t. value_field ++ t) (append_assoc key (stored_bytes value deleted) back))
            ∙ sym
                (append_assoc key_field value_field (key ++ (stored_bytes value deleted ++ back))))

    split_key :
        whole
        ≡ (front ++ (key_field ++ value_field)) ++ (key ++ (stored_bytes value deleted ++ back))
    split_key =
        split_header
        ∙ sym (
            append_assoc front (key_field ++ value_field)
              (key ++ (stored_bytes value deleted ++ back)))

    split_value :
        whole
        ≡ ((front ++ (key_field ++ value_field)) ++ key) ++ (stored_bytes value deleted ++ back)
    split_value =
        split_key
        ∙ sym (
            append_assoc (front ++ (key_field ++ value_field)) key
              (stored_bytes value deleted ++ back))

    module _ (fits : Fits key value deleted) where
      size_field_back : of_be 0 value_field ≡ size_field value deleted
      size_field_back = of_be-be 4 (size_field value deleted) (size_field_lt value deleted fits.0)

      key_size_back : of_be 0 key_field ≡ length key
      key_size_back = of_be-be 4 (length key) (omega (arith, fits.1))

      pub header_read : f.read_at whole 8 (length front) ≡ ok (key_field ++ value_field)
      header_read =
          ap (λ t. f.read_at t 8 (length front)) split_header
          ∙ read_part front (key_field ++ value_field) (key ++ (stored_bytes value deleted ++ back))
              8 (length front) (sym length-header) refl

      pub key_size_read : of_be 0 (take 4 (key_field ++ value_field)) ≡ length key
      key_size_read =
          ap (of_be 0) (take-append 4 key_field value_field (length-be 4 (length key)))
          ∙ key_size_back

      pub key_read : f.read_at whole (length key) (length front + 8) ≡ ok key
      key_read =
          ap (λ t. f.read_at t (length key) (length front + 8)) split_key
          ∙ read_part (front ++ (key_field ++ value_field)) key (stored_bytes value deleted ++ back)
              (length key) (length front + 8) refl
              (omega (arith, length-append front (key_field ++ value_field), length-header))

      pub value_size_read :
          int32_of (of_be 0 (drop 4 (key_field ++ value_field))) ≡ value_size_of value deleted
      value_size_read =
          ap (λ t. int32_of (of_be 0 t))
            (drop-append 4 key_field value_field (length-be 4 (length key)))
          ∙ ap int32_of size_field_back
          ∙ int32-size_field value deleted fits.0

      pub read_entry-entry_bytes :
          read_entry f whole (length front) ≡ ok (key, value_size_of value deleted)
      read_entry-entry_bytes =
          read_entry_parts whole (key_field ++ value_field) key (length front) (length key)
            (value_size_of value deleted) header_read key_size_read key_read value_size_read

      pub read_value-entry_bytes :
          read_value f whole (length front + 8 + length key) (length (stored_bytes value deleted))
          ≡ ok (stored_bytes value deleted)
      unfolding read_value
      read_value-entry_bytes =
          ap
            (λ t. f.read_at t (length (stored_bytes value deleted)) (length front + 8 + length key))
            split_value
          ∙ read_part ((front ++ (key_field ++ value_field)) ++ key) (stored_bytes value deleted)
              back (length (stored_bytes value deleted)) (length front + 8 + length key) refl
              (omega (
                arith,
                length-append (front ++ (key_field ++ value_field)) key,
                length-append front (key_field ++ value_field),
                length-header,
              ))

  -- A stored value is read at its record's position, whatever stands around the record.
  pub read_log_value-entry_bytes :
      (front back key : Bytes) (value : Slice)
      → Fits key value false
      → read_log_value f
          (front ++ (entry_bytes key value false ++ back))
          (record { entry_offset = length front; entry_size = entry_size_of key value false })
        ≡ ok (slice_bytes value)
  unfolding read_log_value read_checked
  read_log_value-entry_bytes front back key value fits =
      rw (read_entry-entry_bytes front back key value false fits)
        (ground (arith, read_value-entry_bytes front back key value false fits))
