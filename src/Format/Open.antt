-- ===== src/Format/Open.antt =====
-- readHeader over both formats (cstable/cstable.cc): the magic bytes, the version, the header of
-- that version, and the choice of the metablock.
use libcstable.Prelude.{
  ℕ, zero, suc, Bool, true, false, List, [], ◌∷◌, length, take, drop, Option, none, some, Result,
  ok, err, eof, runtime_error, need, check, assume, ◌>>=◌, ◌>>◌, if◌then◌else◌, leb, ltb, ◌==◌,
}
use libcstable.Prelude.Bytes.{Bytes, bytes_eq}
use libcstable.Stx.{Wire}
use libcstable.Format.{
  MetaBlock, ColumnConfig, FileHeader, PageRef, BinaryFormatVersion, v0_1_0, v0_2_0, magic_bytes,
  encoding_of_code,
}
use libcstable.Format.Header.{read_header, split}

-- What readHeader assigns: for format v0.1 the metablock and the free index stay unassigned.
pub record Opened : Type 0 where
  pub version : BinaryFormatVersion
  pub header : FileHeader
  pub metablock : Option MetaBlock
  pub free_index : Option PageRef

abbrev pub index_page : MetaBlock → PageRef
index_page mb = record { offset = mb.head_index_page_offset; size = mb.head_index_page_size }

-- The newer metablock, and the index page of the older one, which is free.
unfoldable pub choose : List MetaBlock → Result (MetaBlock × Option PageRef)
choose [] = err runtime_error
choose (a ∷ []) = ok (a, none)
choose (a ∷ (b ∷ [])) =
    if ltb b.transaction_id a.transaction_id
    then ok (a, some (index_page b))
    else ok (b, some (index_page a))
choose (a ∷ (b ∷ (c ∷ rest))) = err runtime_error

-- The order in which the columns of a v0.1 file are sorted.
unfoldable pub bytes_lt : Bytes → Bytes → Bool
bytes_lt [] [] = false
bytes_lt [] (b ∷ bs) = true
bytes_lt (a ∷ rest) [] = false
bytes_lt (a ∷ rest) (b ∷ bs) =
    let later = bytes_lt rest bs in if ltb a b then true else if a == b then later else false

abbrev pub by_name : ColumnConfig → ColumnConfig → Bool
by_name a b = bytes_lt a.column_name b.column_name

module _ (W : Wire) where
  open W use {get_u32, get_u64}

  unfoldable pub sort_columns : List ColumnConfig → List ColumnConfig
  unfolding bytes_lt
  sort_columns cols = W.sort by_name cols

  -- The loop body of v0_1_0::readHeader; `blank` is what the local variable holds before its
  -- fields are assigned, and its logical type stays.
  unfoldable pub read_column_v1 : ColumnConfig → Bytes → Result (ColumnConfig × Bytes)
  read_column_v1 blank is = do
    (storage_type, s1) ← need eof (get_u32 is)
    (name_size, s2) ← need eof (get_u32 s1)
    (column_name, s3) ← need eof (split W name_size s2)
    (rlevel_max, s4) ← need eof (get_u32 s3)
    (dlevel_max, s5) ← need eof (get_u32 s4)
    (body_offset, s6) ← need eof (get_u64 s5)
    (body_size, s7) ← need eof (get_u64 s6)
    let col = record blank {
      storage_type = encoding_of_code storage_type;
      column_name = column_name;
      column_id = 0;
      rlevel_max = rlevel_max;
      dlevel_max = dlevel_max;
      body_offset = body_offset;
      body_size = body_size;
    }
    ok (col, s7)

  unfoldable pub read_columns_v1 : ColumnConfig → ℕ → Bytes → Result (List ColumnConfig × Bytes)
  unfolding read_column_v1
  read_columns_v1 blank zero is = ok ([], is)
  read_columns_v1 blank (suc ncols) is =
      read_column_v1 blank is >>= λ p. read_columns_v1 blank ncols p.1 >>= λ q. ok (p.0 ∷ q.0, q.1)

  -- Reads what follows the six bytes of magic and version.
  unfoldable pub read_header_v1 : ColumnConfig → Bytes → Result (FileHeader × Bytes)
  unfolding read_columns_v1 sort_columns
  read_header_v1 blank is = do
    (flags, s1) ← need eof (get_u64 is)
    (num_rows, s2) ← need eof (get_u64 s1)
    (ncols, s3) ← need eof (get_u32 s2)
    (columns, s4) ← read_columns_v1 blank ncols s3
    let header : FileHeader = record { columns = sort_columns columns; num_rows = num_rows }
    ok (header, s4)

  unfoldable pub opened_v1 : ColumnConfig → Bytes → Result Opened
  unfolding read_header_v1
  opened_v1 blank is = read_header_v1 blank is >>= λ p.
      ok (record { version = v0_1_0; header = p.0; metablock = none; free_index = none })

  -- The count of rows of the header stays unassigned in format v0.2, and stands for 0 here.
  unfoldable pub opened_v2 : ColumnConfig → Bytes → Result Opened
  unfolding read_header choose
  opened_v2 blank is = read_header W blank is >>= λ p. choose p.1 >>= λ q. ok (record {
    version = v0_2_0;
    header = record { columns = p.0; num_rows = 0 };
    metablock = some q.0;
    free_index = q.1;
  })

  abbrev version_byte : Bytes → ℕ
  version_byte prelude = elim (drop 4 prelude) [ [] ↦ 0 | b ∷ bs ↦ b ]

  -- A stream of fewer than six bytes leaves the prelude indeterminate.
  unfoldable pub open_header : ColumnConfig → Bytes → Result Opened
  unfolding opened_v1 opened_v2
  open_header blank is = do
    assume (leb 6 (length is))
    check (bytes_eq (take 4 is) magic_bytes) runtime_error
    let vnum = version_byte (take 6 is)
    if vnum == 1
        then opened_v1 blank (drop 6 is)
        else (if vnum == 2 then opened_v2 blank (drop 6 is) else err runtime_error)
