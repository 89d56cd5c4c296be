-- ===== src/Table/Bodies/Header.antt =====
-- The header of a committed v0.1 table is read back.
use libcstable.Prelude.{
  ℕ, ◌^◌, ◌<◌, ◌≡◌, refl, ap, ◌∙◌, List, [], ◌∷◌, ◌++◌, length, All, map, length-append,
  append_assoc, take-append, drop-append, le→leb, none, some, Result, ok, arith,
}
use mathlib.Core.Path.{subst}
use libcstable.Prelude.Bytes.{Bytes, store, bytes_eq}
use libcstable.Stx.{Wire}
use libcstable.Format.{
  ColumnConfig, ColumnEncoding, column_encoding, boolean_bitpacked, uint32_bitpacked, uint32_plain,
  uint64_plain, uint64_leb128, float_ieee754, string_plain, encoding_code, IsKnownEncoding,
  encoding_of_code-encoding_code, v0_1_0,
}
use libcstable.Format.Header.{split}
use libcstable.Format.Open.{
  read_column_v1, read_columns_v1, read_header_v1, sort_columns, Opened, opened_v1, open_header,
  by_name,
}
use libcstable.Table.Bodies.{
  BodyWriter, BodyTable, commit_columns, as_uint32, version_part, count_part, write_column_v1,
  write_columns_v1, placed_columns, header_v1,
}
use libcstable.Format.Order.{by_name-IsStrictOrder}
use libcstable.Stx.Sorting.{IsAscending}
use mathlib.Core.List.{Perm}
use libcstable.Table.Bodies.Layout.{length-place, length-commit_columns}

-- Values that fit the fields of the header.
pub record IsColumnV1 (col : ColumnConfig) : Type 0 where
  pub encoding_known : IsKnownEncoding col.storage_type
  pub name_fits : length col.column_name < 2 ^ 32
  pub rlevel_fits : col.rlevel_max < 2 ^ 32
  pub dlevel_fits : col.dlevel_max < 2 ^ 32
  pub offset_fits : col.body_offset < 2 ^ 64
  pub size_fits : col.body_size < 2 ^ 64

-- All fields but the id, which a v0.1 file does not have, and the logical type, which it does not
-- keep.
abbrev pub restored_v1 : ColumnConfig → ColumnConfig → ColumnConfig
restored_v1 blank col = record col { column_id = 0; logical_type = blank.logical_type }

abbrev pub configs : {K : Type 0} → List (ColumnConfig × K) → List ColumnConfig
configs [] = []
configs ((col, k) ∷ cols) = col ∷ configs cols

-- What the header of these columns is read as.
abbrev pub opened_table :
    {K : Type 0} → Wire → ColumnConfig → ℕ → List (ColumnConfig × K) → Result Opened
opened_table W blank num_rows cols = ok (record {
  version = v0_1_0;
  header = record {
    columns = sort_columns W (map (restored_v1 blank) (configs cols));
    num_rows = num_rows;
  };
  metablock = none;
  free_index = none;
})

encoding_code-lt : (e : ColumnEncoding) → IsKnownEncoding e → encoding_code e < 2 ^ 32
encoding_code-lt (column_encoding b) h = elim h [ ]
encoding_code-lt boolean_bitpacked h = omega arith
encoding_code-lt uint32_bitpacked h = omega arith
encoding_code-lt uint32_plain h = omega arith
encoding_code-lt uint64_plain h = omega arith
encoding_code-lt uint64_leb128 h = omega arith
encoding_code-lt float_ieee754 h = omega arith
encoding_code-lt string_plain h = omega arith

module _ (W : Wire) where
  open W use {u16, u32, u64}

  get_narrow :
      (n : ℕ) (rest : Bytes) → n < 2 ^ 32 → W.get_u32 (u32 (as_uint32 n) ++ rest) ≡ some (n, rest)
  get_narrow n rest h = let e : as_uint32 n ≡ n = omega arith in rw e (W.get_u32-u32 n rest h)

  split-append : (text rest : Bytes) → split W (length text) (text ++ rest) ≡ some (text, rest)
  split-append text rest = rw (
    le→leb (length text) (length (text ++ rest)) (omega (arith, length-append text rest)),
    take-append (length text) text rest refl,
    drop-append (length text) text rest refl,
  )

  read_column_v1-write_column_v1 :
      (blank col : ColumnConfig) (rest : Bytes)
      → IsColumnV1 col
      → read_column_v1 W blank (write_column_v1 W col ++ rest) ≡ ok (restored_v1 blank col, rest)
  unfolding read_column_v1 write_column_v1
  read_column_v1-write_column_v1 blank col rest h = simp append_assoc (
      rw (
        W.get_u32-u32 (encoding_code col.storage_type) _
            (encoding_code-lt col.storage_type h.encoding_known),
        get_narrow (length col.column_name) _ h.name_fits,
        split-append col.column_name _,
        get_narrow col.rlevel_max _ h.rlevel_fits,
        get_narrow col.dlevel_max _ h.dlevel_fits,
        W.get_u64-u64 col.body_offset _ h.offset_fits,
        W.get_u64-u64 col.body_size _ h.size_fits,
        encoding_of_code-encoding_code col.storage_type h.encoding_known,
      ))

  read_columns_v1-write_columns_v1 :
      {K : Type 0} (blank : ColumnConfig) (cols : List (ColumnConfig × K)) (rest : Bytes)
      → All IsColumnV1 (configs cols)
      → read_columns_v1 W blank (length cols) (write_columns_v1 W cols ++ rest)
        ≡ ok (map (restored_v1 blank) (configs cols), rest)
  unfolding read_columns_v1 write_columns_v1
  read_columns_v1-write_columns_v1 blank [] rest h = refl
  read_columns_v1-write_columns_v1 blank ((col, k) ∷ cols) rest (h, hs) = rw (
    append_assoc (write_column_v1 W col) (write_columns_v1 W cols) rest,
    read_column_v1-write_column_v1 blank col (write_columns_v1 W cols ++ rest) h,
    read_columns_v1-write_columns_v1 blank cols rest hs,
  )

  abbrev six_v1 : Bytes → Bytes
  six_v1 y = 0x23 ∷ 0x17 ∷ 0x23 ∷ 0x17 ∷ 1 ∷ 0 ∷ y

  version_part-six : (y : Bytes) → version_part W ++ y ≡ six_v1 y
  unfolding store
  version_part-six y = rw (W.u32-store 0x17231723, W.u16-store 1)

  open_header-six_v1 :
      (blank : ColumnConfig) (y : Bytes) → open_header W blank (six_v1 y) ≡ opened_v1 W blank y
  unfolding open_header bytes_eq
  open_header-six_v1 blank y = rw (le→leb 6 (length (six_v1 y)) (omega arith))

  length-placed_columns :
      {K : Type 0} (B : BodyWriter K) (t : BodyTable K)
      → length (placed_columns W B t) ≡ length t.columns
  unfolding placed_columns
  length-placed_columns B t =
      length-place _ (commit_columns B t.columns) ∙ length-commit_columns B t.columns

  opened_v1-parts :
      {K : Type 0} (blank : ColumnConfig) (num_rows : ℕ) (cols : List (ColumnConfig × K))
      (rest : Bytes)
      → num_rows < 2 ^ 64
      → length cols < 2 ^ 32
      → All IsColumnV1 (configs cols)
      → opened_v1 W blank ((count_part W num_rows (length cols) ++ write_columns_v1 W cols) ++ rest)
        ≡ opened_table W blank num_rows cols
  unfolding opened_v1 read_header_v1
  opened_v1-parts blank num_rows cols rest hr hn h = simp append_assoc (
      rw (
        W.get_u64-u64 0 _ (omega arith),
        W.get_u64-u64 num_rows _ hr,
        get_narrow (length cols) _ hn,
        read_columns_v1-write_columns_v1 blank cols rest h,
      ))

  -- readHeader of the header that commitV1 writes.
  pub header_v1_read :
      {K : Type 0} (B : BodyWriter K) (t : BodyTable K) (blank : ColumnConfig) (rest : Bytes)
      → t.num_rows < 2 ^ 64
      → length t.columns < 2 ^ 32
      → All IsColumnV1 (configs (placed_columns W B t))
      → open_header W blank (header_v1 W B t ++ rest)
        ≡ opened_table W blank t.num_rows (placed_columns W B t)
  unfolding header_v1
  header_v1_read B t blank rest hr hn h =
      let cols = placed_columns W B t in
      let n = length-placed_columns B t in
      let parts : opened_v1 W blank
            ((count_part W t.num_rows (length t.columns) ++ write_columns_v1 W cols) ++ rest)
          ≡ opened_table W blank t.num_rows cols =
        subst
          (λ m.
            opened_v1 W blank ((count_part W t.num_rows m ++ write_columns_v1 W cols) ++ rest)
            ≡ opened_table W blank t.num_rows cols)
          n (opened_v1-parts blank t.num_rows cols rest hr (omega (arith, n)) h) in
      let front : header_v1 W B t ++ rest
          ≡ six_v1
              ((count_part W t.num_rows (length t.columns) ++ write_columns_v1 W cols) ++ rest) =
        append_assoc (version_part W)
          (count_part W t.num_rows (length t.columns) ++ write_columns_v1 W cols) rest
        ∙ version_part-six
            ((count_part W t.num_rows (length t.columns) ++ write_columns_v1 W cols) ++ rest) in
      ap (λ bytes. open_header W blank bytes) front ∙ open_header-six_v1 blank _ ∙ parts

  -- If the number of rows and of columns and the placed columns' values fit the header's fields,
  -- then from the header that commitV1 writes, with anything behind it, readHeader returns a v0.1
  -- file with that number of rows, whose columns are the placed ones, with the fields that the
  -- format keeps, in an order in which no column's name is below that of a column before it (the
  -- names compared byte by byte).
  pub header_v1_round_trip :
      {K : Type 0} (B : BodyWriter K) (t : BodyTable K) (blank : ColumnConfig) (rest : Bytes)
      → t.num_rows < 2 ^ 64
      → length t.columns < 2 ^ 32
      → All IsColumnV1 (configs (placed_columns W B t))
      → (cols : List ColumnConfig) × (open_header W blank (header_v1 W B t ++ rest)
          ≡ ok (record {
            version = v0_1_0;
            header = record { columns = cols; num_rows = t.num_rows };
            metablock = none;
            free_index = none;
          }))
        × Perm cols (map (restored_v1 blank) (configs (placed_columns W B t)))
        × IsAscending by_name cols
  unfolding sort_columns
  header_v1_round_trip B t blank rest hr hn h =
      let cols = map (restored_v1 blank) (configs (placed_columns W B t)) in
      (
        W.sort by_name cols,
        header_v1_read B t blank rest hr hn h,
        ∣ W.sort-Permᴰ by_name cols by_name-IsStrictOrder ∣₁,
        W.sort-IsAscending by_name cols by_name-IsStrictOrder,
      )
