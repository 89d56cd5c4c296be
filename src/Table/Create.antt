-- ===== src/Table/Create.antt =====
-- CSTableWriter::createFile and the constructor of the table writer (cstable/CSTableWriter.cc), for
-- both formats. The file is opened without truncation, so what it held stays until it is
-- overwritten.
use libcstable.Prelude.{
  ℕ, ◌+◌, ◌%◌, ◌^◌, List, [], ◌∷◌, length, none, Result, ok, assume, ◌>>=◌, ◌>>◌,
}
use libcstable.Prelude.Bytes.{Bytes}
use libcstable.Stx.{Wire, Packing, Numerics}
use libcstable.Format.{ColumnConfig, v0_1_0, v0_2_0}
use libcstable.Format.Header.{write_header}
use libcstable.Pages.{pwrite, issue, page_manager}
use libcstable.Pages.Index.{Store}
use libcstable.Schema.{TableSchema, copy}
use libcstable.Schema.Flat.{flat_columns}
use libcstable.V2.{UnsignedIntColumn, unsigned_int_column}
use libcstable.V2.Reader.{is_unsigned_int}
use libcstable.Table.{TableWriter}
use libcstable.Table.Bodies.{BodyTable}
use libcstable.Classes.{AnyWriter, open_writer}

module _ (N : Numerics) (W : Wire) (P : Packing) where
  -- The constructor's loop, format v0.1.
  unfoldable pub open_columns_v1 : List ColumnConfig → Result (List (ColumnConfig × AnyWriter P))
  open_columns_v1 [] = ok []
  open_columns_v1 (col ∷ cols) =
      open_writer N W P col >>= λ k. open_columns_v1 cols >>= λ rest. ok ((col, k) ∷ rest)

  -- The schema is copied first, with its columns in the order of a hash map.
  unfoldable pub create_v1 :
      (TableSchema → TableSchema)
      → ColumnConfig
      → Bytes
      → TableSchema
      → Result (BodyTable (AnyWriter P))
  unfolding open_columns_v1 page_manager copy
  create_v1 order blank content schema = do
    columns ← flat_columns blank (copy order schema)
    writers ← open_columns_v1 columns
    ok (record {
      columns = writers;
      num_rows = 0;
      manager = page_manager v0_1_0 (record { content = content; log = [] }) 0;
    })

-- addRows of a v0.1 table.
unfoldable pub add_body_rows : {K : Type 0} → ℕ → BodyTable K → BodyTable K
add_body_rows n t = record t { num_rows = (t.num_rows + n) % 2 ^ 64 }

-- openColumnV2 of the table writer: for any logical type but one it flows off its end without a
-- result.
unfoldable pub open_column_v2 : ColumnConfig → Store → Result (UnsignedIntColumn × Store)
unfolding unsigned_int_column
open_column_v2 col s = do assume (is_unsigned_int col.logical_type); unsigned_int_column col s

-- The constructor's loop, format v0.2.
unfoldable pub open_columns_v2 : List ColumnConfig → Store → Result (List UnsignedIntColumn × Store)
unfolding open_column_v2
open_columns_v2 [] s = ok ([], s)
open_columns_v2 (col ∷ cols) s =
    open_column_v2 col s >>= λ p. open_columns_v2 cols p.1 >>= λ q. ok (p.0 ∷ q.0, q.1)

-- A v0.2 file begins with its header, behind which pages are allocated. The column writers stand
-- beside the table writer.
unfoldable pub create_v2 :
    Wire
    → (TableSchema → TableSchema)
    → ColumnConfig
    → Bytes
    → TableSchema
    → Result (TableWriter × List UnsignedIntColumn)
unfolding open_columns_v2 page_manager write_header copy
create_v2 W order blank content schema = do
  columns ← flat_columns blank (copy order schema)
  header ← write_header W (record { columns = columns; num_rows = 0 })
  let file = issue (pwrite 0 header) (record { content = content; log = [] })
  let pm = page_manager v0_2_0 file (length header)
  let empty : Store = record { manager = pm; writers = []; index = [] }
  (writers, store) ← open_columns_v2 columns empty
  let table : TableWriter = record {
    store = store;
    columns = columns;
    current_txid = 0;
    num_rows = 0;
    free_idx_ptr = none;
    cur_idx_ptr = none;
  }
  ok (table, writers)
