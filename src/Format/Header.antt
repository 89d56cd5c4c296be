-- ===== src/Format/Header.antt =====
-- The header of format v0.2: writeHeader and readHeader (cstable/cstable.cc, namespace v0_2_0).
use libcstable.Prelude.{
  ℕ, zero, suc, ◌-◌, ◌*◌, ◌%◌, ◌^◌, List, [], ◌∷◌, ◌++◌, length, take, drop, replicate, Option,
  none, some, Result, ok, eof, runtime_error, need, check, ◌>>=◌, ◌>>◌, if◌then◌else◌, leb, ◌==◌,
}
use libcstable.Prelude.Bytes.{Bytes}
use libcstable.Stx.{Wire}
use libcstable.Format.{
  MetaBlock, ColumnConfig, FileHeader, meta_block_size, meta_block_position, magic_bytes,
  pad_to_next_sector, type_code, type_of_code, encoding_code, encoding_of_code,
}
use libcstable.Format.Checksum.{read_meta_block}

-- `xs` as the list, whatever the option says of one more element.
abbrev pub push : {A : Type 0} → Option A → List A → List A
push none xs = xs
push (some x) xs = x ∷ xs

module _ (W : Wire) where
  open W use {u16, u64, varuint, get_u64, get_varuint}

  -- appendLenencString and readLenencString.
  abbrev pub lenenc : Bytes → Bytes
  lenenc text = varuint (length text) ++ text

  abbrev pub split : ℕ → Bytes → Option (Bytes × Bytes)
  split n bs = if leb n (length bs) then some (take n bs, drop n bs) else none

  abbrev pub get_lenenc : Bytes → Option (Bytes × Bytes)
  get_lenenc bs = elim (get_varuint bs) [ none ↦ none | some (n, rest) ↦ split n rest ]

  -- The loop body of writeHeader.
  unfoldable pub write_column : ColumnConfig → Bytes
  write_column col =
      varuint (type_code col.logical_type)
      ++ (varuint (encoding_code col.storage_type)
          ++ (varuint col.column_id
              ++ (lenenc col.column_name ++ (varuint col.rlevel_max ++ varuint col.dlevel_max))))

  unfoldable pub write_columns : List ColumnConfig → Bytes
  unfolding write_column
  write_columns [] = []
  write_columns (col ∷ cols) = write_column col ++ write_columns cols

  -- Magic bytes, version and flags.
  unfoldable pub preamble : Bytes
  preamble = magic_bytes ++ (u16 2 ++ u64 0)

  -- Everything in front of the padding.
  unfoldable pub unpadded : FileHeader → Bytes
  unfolding write_columns preamble
  unpadded hdr =
      preamble
      ++ (replicate (meta_block_size * 2) 0
          ++ (replicate 128 0 ++ (varuint (length hdr.columns) ++ write_columns hdr.columns)))

  -- The bytes written; their number is the function's result.
  unfoldable pub write_header : FileHeader → Result Bytes
  unfolding unpadded preamble
  write_header hdr = do
    check (length preamble == meta_block_position) runtime_error
    let buf = unpadded hdr
    let header_padding = pad_to_next_sector (length buf) - length buf
    ok (buf ++ replicate header_padding 0)

  -- The loop body of readHeader. `blank` is what the local variable holds before its fields are
  -- assigned; the two body fields keep it.
  unfoldable pub read_column : ColumnConfig → Bytes → Result (ColumnConfig × Bytes)
  read_column blank is = do
    (logical_type, s1) ← need eof (get_varuint is)
    (storage_type, s2) ← need eof (get_varuint s1)
    (column_id, s3) ← need eof (get_varuint s2)
    (column_name, s4) ← need eof (get_lenenc s3)
    (rlevel_max, s5) ← need eof (get_varuint s4)
    (dlevel_max, s6) ← need eof (get_varuint s5)
    let col = record blank {
      logical_type = type_of_code logical_type;
      storage_type = encoding_of_code storage_type;
      column_id = column_id % 2 ^ 32;
      column_name = column_name;
      rlevel_max = rlevel_max;
      dlevel_max = dlevel_max;
    }
    ok (col, s6)

  unfoldable pub read_columns : ColumnConfig → ℕ → Bytes → Result (List ColumnConfig × Bytes)
  unfolding read_column
  read_columns blank zero is = ok ([], is)
  read_columns blank (suc ncols) is =
      read_column blank is >>= λ p. read_columns blank ncols p.1 >>= λ q. ok (p.0 ∷ q.0, q.1)

  -- Reads what follows the six bytes of magic and version. skipNextBytes stops at the end.
  unfoldable pub read_header :
      ColumnConfig → Bytes → Result (List ColumnConfig × List MetaBlock × Bytes)
  unfolding read_columns
  read_header blank is = do
    (flags, s1) ← need eof (get_u64 is)
    (mb_a, s2) ← read_meta_block W s1
    (mb_b, s3) ← read_meta_block W s2
    (ncols, s4) ← need eof (get_varuint (drop 128 s3))
    (columns, s5) ← read_columns blank ncols s4
    ok (columns, push mb_a (push mb_b []), s5)
