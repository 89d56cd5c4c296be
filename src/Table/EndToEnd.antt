-- ===== src/Table/EndToEnd.antt =====
-- A v0.1 table through the interface of its classes: created, written, committed, and opened.
use libcstable.Prelude.{
  ℕ, ◌+◌, ◌%◌, ◌^◌, ◌<◌, ◌≡◌, refl, List, [], ◌∷◌, length, All, Result, ok, arith, ◌>>=◌,
}
use libcstable.Prelude.Bytes.{Bytes}
use libcstable.Stx.{Wire, Packing, Numerics}
use libcstable.Format.{ColumnConfig, v0_1_0}
use libcstable.Pages.{page_manager}
use libcstable.Schema.{TableSchema, copy}
use libcstable.Schema.Flat.{flat_columns}
use libcstable.Table.Bodies.{BodyTable, commit_v1}
use libcstable.Table.Bodies.Layout.{header_end}
use libcstable.Classes.{AnyWriter, bodies, open_writer}
use libcstable.Classes.Embed.{both-Succeeds}
use libcstable.Classes.Typed.{write_contents, write_contents-filled}
use libcstable.Table.Create.{open_columns_v1, create_v1, add_body_rows}
use libcstable.Table.Reader.{TableReader, open_file, num_records}
use libcstable.Table.Reader.Sorted.{AreDistinct}
use libcstable.Table.Reader.Served.{Item, IsItem, written_columns, sizes}
use libcstable.Table.Reader.RoundTrip.{columns_of, Serves, table_of, table_round_trip}

module _ (N : Numerics) (W : Wire) (P : Packing) where
  -- A client writes each item's contents to its column.
  abbrev pub write_items :
      List (Item N) → List (ColumnConfig × AnyWriter P) → Result (List (ColumnConfig × AnyWriter P))
  write_items [] cols = ok cols
  write_items (item ∷ items) [] = ok []
  write_items (item ∷ items) ((col, k) ∷ cols) = write_contents N W P item.1 k >>= λ k'.
      write_items items cols >>= λ rest. ok ((col, k') ∷ rest)

  -- A table is created over a file, written, and committed.
  abbrev pub session :
      (ℕ → Bytes)
      → (TableSchema → TableSchema)
      → ColumnConfig
      → Bytes
      → TableSchema
      → List (Item N)
      → ℕ
      → Result (BodyTable (AnyWriter P))
  session fresh order blank content schema items num_rows = do
    t ← create_v1 N W P order blank content schema
    columns ← write_items items t.columns
    commit_v1 W (bodies N W P) fresh (add_body_rows num_rows (record t { columns = columns }))

  items_written :
      (items : List (Item N))
      → All IsItem items
      → (cols : List (ColumnConfig × AnyWriter P)) × (open_columns_v1 N W P (columns_of items)
          ≡ ok cols)
        × (write_items items cols ≡ ok (written_columns N W P items))
  unfolding open_columns_v1
  items_written [] h = ([], refl, refl)
  items_written ((col, c) ∷ items) (h, hs) =
      let (cols, eo, ew) = items_written items hs in
      let s =
        both-Succeeds (open_writer N W P col)
          (write_contents-filled N W P col c h.encoding_is h.within) in
      ((col, s.value) ∷ cols, rw (s.step_is, eo), rw (s.after_is, ew))

  -- In whatever order the hash map of the schema's columns is visited when it is copied, if the flat
  -- columns of the copy have different names, and each the encoding of the contents
  -- that a client writes to it, levels and a name that fit the header, and entries within its levels
  -- that fit its class; fewer than 2 ^ 32 columns, a count of rows below 2 ^ 64, and a header and
  -- bodies that together are shorter than 2 ^ 64: creating a v0.1 file, whatever it held, writing
  -- each entry by the typed write of its column, adding the rows and committing succeeds; openFile
  -- on the file left succeeds, with the same count of records; and under each column's name the
  -- opened table hands out a reader that returns exactly the entries written to that column, in
  -- their order, and is then at the end.
  pub table_end_to_end :
      (fresh : ℕ → Bytes) (length-fresh : (n : ℕ) → length (fresh n) ≡ n)
      (order : TableSchema → TableSchema) (blank : ColumnConfig) (content : Bytes)
      (schema : TableSchema) (items : List (Item N)) (num_rows : ℕ)
      → flat_columns blank (copy order schema) ≡ ok (columns_of items)
      → All IsItem items
      → AreDistinct (columns_of items)
      → length (written_columns N W P items) < 2 ^ 32
      → num_rows < 2 ^ 64
      → header_end (bodies N W P) (
            table_of N W P items num_rows
              (page_manager v0_1_0 (record { content = content; log = [] }) 0))
          + sizes N W P items
        < 2 ^ 64
      → (t : BodyTable (AnyWriter P)) × (session fresh order blank content schema items num_rows
          ≡ ok t)
        × (T : TableReader P) × (open_file N W P blank t.manager.file.content ≡ ok T)
        × (num_records T ≡ num_rows)
        × All (Serves N W P T) items
  unfolding create_v1 add_body_rows
  table_end_to_end fresh length-fresh order blank content schema items num_rows hf h hd hn hr hl =
      let pm = page_manager v0_1_0 (record { content = content; log = [] }) 0 in
      let (cols, eo, ew) = items_written items h in
      let (t, e, T, eT, nT, sT) =
        table_round_trip N W P fresh length-fresh blank items num_rows pm h hd hn hr hl in
      let n : (0 + num_rows) % 2 ^ 64 ≡ num_rows = omega arith in
      (t, rw (hf, eo, ew, n) e, T, eT, nT, sT)
