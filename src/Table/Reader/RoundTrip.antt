-- ===== src/Table/Reader/RoundTrip.antt =====
-- A v0.1 table end to end: written by the table writer, committed, and opened by the table reader.
use libcstable.Prelude.{
  ℕ, ◌+◌, ◌%◌, ◌^◌, ◌<◌, ◌≡◌, ◌≢◌, refl, ap, sym, ◌∙◌, true, false, List, [], ◌∷◌, ◌++◌, length,
  map, All, none, some, ok, arith, ==_refl, Bool-cases, inl, inr,
}
use mathlib.Core.Path.{subst}
use libcstable.Prelude.Bytes.{Bytes, bytes_eq, bytes_eq_refl, bytes_eq→eq}
use libcstable.Stx.{Wire, Packing, Numerics}
use libcstable.Format.{ColumnConfig, v0_1_0}
use libcstable.Format.Open.{open_header, sort_columns}
use libcstable.Pages.{PageManager}
use libcstable.Table.Bodies.{
  BodyTable, version_part, count_part, header_size, commit_columns, placed_columns, commit_v1,
}
use libcstable.Table.Bodies.Layout.{header_end}
use libcstable.Table.Bodies.Header.{restored_v1, configs, header_v1_read}
use libcstable.Table.Bodies.Written.{commit_v1_lem}
use libcstable.Classes.{AnyWriter, AnyReader, bodies}
use libcstable.Classes.ReadBack.{Reads}
use libcstable.Table.Reader.{
  v1, TableReader, table_reader, get_column_reader, num_records, open_file, open_version, find,
  readers_by_name, readers_by_id,
}
use libcstable.Table.Reader.Sorted.{
  find_config, AreDistinct, All-sort_columns, find_config-sort_columns,
}
use libcstable.Table.Reader.Found.{found, Opens, Opens-AreReaders}
use libcstable.Table.Reader.Served.{
  Item, IsItem, written_columns, located, sizes, located-IsColumnV1, located-AreWritable, IsServed,
  AreServed, located-AreServed, AreServed-Opens,
}

-- The names of the items' columns.
abbrev pub columns_of : {N : Numerics} → List (Item N) → List ColumnConfig
columns_of [] = []
columns_of (item ∷ items) = item.0 ∷ columns_of items

module _ (N : Numerics) (W : Wire) (P : Packing) where
  -- A search for the item's column finds a reader of the item's contents.
  abbrev IsFound : Bytes → List ColumnConfig → Item N → Type 0
  IsFound file cols item =
      (rd : AnyReader P) × (found N W P file (find_config item.0.column_name cols) ≡ some (v1 rd))
      × Reads N W P item.1 rd

  IsFound-first :
      (file : Bytes) (item : Item N) (col : ColumnConfig) (cols : List ColumnConfig)
      → IsServed N W P file item col
      → IsFound file (col ∷ cols) item
  IsFound-first file item col cols h =
      let e : bytes_eq col.column_name item.0.column_name ≡ true =
        rw h.name_is (bytes_eq_refl item.0.column_name) in
      (h.reader, rw (e, h.reader_is), h.reads)

  -- A column of another name in front changes no search.
  IsFound-behind :
      (file : Bytes) (col : ColumnConfig) (cols : List ColumnConfig) (items : List (Item N))
      → All (λ c. col.column_name ≢ c.column_name) (columns_of items)
      → All (IsFound file cols) items
      → All (IsFound file (col ∷ cols)) items
  IsFound-behind file col cols [] h f = tt
  IsFound-behind file col cols (item ∷ items) (h, hs) ((rd, e, r), fs) =
      let differ : bytes_eq col.column_name item.0.column_name ≡ false =
        elim (Bool-cases (bytes_eq col.column_name item.0.column_name)) [
          | inl same ↦ absurd (h (bytes_eq→eq _ _ same))
          | inr other ↦ other
        ] in
      ((rd, rw differ e, r), IsFound-behind file col cols items hs fs)

  pub AreServed-IsFound :
      (file : Bytes) (items : List (Item N)) (cols : List ColumnConfig)
      → AreDistinct (columns_of items)
      → AreServed N W P file items cols
      → All (IsFound file cols) items
  AreServed-IsFound file [] cols hd h = tt
  AreServed-IsFound file (item ∷ items) [] hd h = absurd h
  AreServed-IsFound file (item ∷ items) (col ∷ cols) (hd, hds) (h, hs) = (
    IsFound-first file item col cols h,
    IsFound-behind file col cols items
        (subst (λ (name : Bytes). All (λ c. name ≢ c.column_name) (columns_of items))
          (sym h.name_is) hd)
        (AreServed-IsFound file items cols hds hs),
  )

  -- The names stay different.
  served_names :
      (file name : Bytes) (items : List (Item N)) (cols : List ColumnConfig)
      → AreServed N W P file items cols
      → All (λ c. name ≢ c.column_name) (columns_of items)
      → All (λ c. name ≢ c.column_name) cols
  served_names file name [] [] h d = tt
  served_names file name [] (col ∷ cols) h d = absurd h
  served_names file name (item ∷ items) [] h d = absurd h
  served_names file name (item ∷ items) (col ∷ cols) (h, hs) (d, ds) =
      ((λ e. d (e ∙ h.name_is)), served_names file name items cols hs ds)

  served-AreDistinct :
      (file : Bytes) (items : List (Item N)) (cols : List ColumnConfig)
      → AreServed N W P file items cols
      → AreDistinct (columns_of items)
      → AreDistinct cols
  served-AreDistinct file [] [] h d = tt
  served-AreDistinct file [] (col ∷ cols) h d = absurd h
  served-AreDistinct file (item ∷ items) [] h d = absurd h
  served-AreDistinct file (item ∷ items) (col ∷ cols) (h, hs) (d, ds) = (
    served_names file col.column_name items cols hs (
        subst (λ (name : Bytes). All (λ c. name ≢ c.column_name) (columns_of items)) (sym h.name_is)
          d),
    served-AreDistinct file items cols hs ds,
  )

  -- The table hands out, under each item's name, a reader of the item's contents.
  abbrev pub Serves : TableReader P → Item N → Type 0
  Serves T item =
      (rd : AnyReader P) × (get_column_reader item.0.column_name T ≡ ok (v1 rd))
      × Reads N W P item.1 rd

  abbrev pub table_of : List (Item N) → ℕ → PageManager → BodyTable (AnyWriter P)
  table_of items num_rows pm = record {
    columns = written_columns N W P items;
    num_rows = num_rows;
    manager = pm;
  }

  table-Serves :
      (T : TableReader P) (file : Bytes) (cols : List ColumnConfig)
      → ((name : Bytes)
          → find name T.column_readers_by_name ≡ found N W P file (find_config name cols))
      → (items : List (Item N)) → All (IsFound file cols) items
      → All (Serves T) items
  unfolding get_column_reader
  table-Serves T file cols h [] f = tt
  table-Serves T file cols h (item ∷ items) ((rd, e, r), fs) =
      ((rd, rw (h item.0.column_name, e), r), table-Serves T file cols h items fs)

  -- Where each column of the file is served, the opened table serves each item.
  open_version-Serves :
      (file : Bytes) (num_rows : ℕ) (items : List (Item N)) (cols : List ColumnConfig)
      → AreServed N W P file items cols
      → AreDistinct (columns_of items)
      → (T : TableReader P) × (open_version N W P file v0_1_0 (record {
        version = v0_1_0;
        header = record { columns = sort_columns W cols; num_rows = num_rows };
        metablock = none;
        free_index = none;
      })
          ≡ ok T)
        × (num_records T ≡ num_rows)
        × All (Serves T) items
  unfolding open_version table_reader num_records
  open_version-Serves file num_rows items cols h hd =
      let sorted = sort_columns W cols in
      let r =
        Opens-AreReaders N W P file sorted
          (All-sort_columns W (Opens N W P file) cols (AreServed-Opens N W P file items cols h)) in
      let T : TableReader P = record {
        version = v0_1_0;
        columns = sorted;
        column_readers_by_id = readers_by_id sorted r.readers;
        column_readers_by_name = readers_by_name sorted r.readers;
        num_rows = num_rows;
      } in
      let d = served-AreDistinct file items cols h hd in
      (
        T,
        rw (r.readers_are, r.as_many, ==_refl (length sorted)),
        refl,
        table-Serves T file cols
            (λ name.
              r.found_by name ∙ ap (found N W P file) (find_config-sort_columns W name cols d))
            items (AreServed-IsFound file items cols hd h),
      )

  -- For columns of different names, each with the encoding of its contents, levels and a name that
  -- fit the header, and entries within its levels that fit its class; fewer than 2 ^ 32 columns, a
  -- count of rows below 2 ^ 64, and a header and bodies that together are shorter than 2 ^ 64:
  -- commitV1 of the columns with the entries written to them succeeds, whatever the file held;
  -- openFile on the file that it leaves succeeds, with the same count of records; and under each
  -- column's name the opened table hands out a reader that returns exactly the entries written to
  -- that column, in their order, and is then at the end.
  pub table_round_trip :
      (fresh : ℕ → Bytes) (length-fresh : (n : ℕ) → length (fresh n) ≡ n) (blank : ColumnConfig)
      (items : List (Item N)) (num_rows : ℕ) (pm : PageManager)
      → All IsItem items
      → AreDistinct (columns_of items)
      → length (written_columns N W P items) < 2 ^ 32
      → num_rows < 2 ^ 64
      → header_end (bodies N W P) (table_of items num_rows pm) + sizes N W P items < 2 ^ 64
      → (t : BodyTable (AnyWriter P)) × (commit_v1 W
            (bodies N W P)
            fresh
            (table_of items num_rows pm)
          ≡ ok t)
        × (T : TableReader P) × (open_file N W P blank t.manager.file.content ≡ ok T)
        × (num_records T ≡ num_rows)
        × All (Serves T) items
  unfolding open_file placed_columns
  table_round_trip fresh length-fresh blank items num_rows pm h hd hn hr hl =
      let B = bodies N W P in
      let t = table_of items num_rows pm in
      let start =
        (length (version_part W ++ count_part W num_rows (length t.columns))
          + header_size (commit_columns B t.columns))
        % 2 ^ 64 in
      let (t', e, (rest, er), held, cols_are, rows_are) =
        commit_v1_lem W B fresh t hl
          (located-AreWritable N W P fresh length-fresh start items (omega arith) h) in
      let file = t'.manager.file.content in
      let fits = located-IsColumnV1 N W P start items (omega arith) (omega arith) h in
      let served =
        located-AreServed N W P file fresh length-fresh blank start items (omega arith) h held in
      let cols = map (restored_v1 blank) (configs (located N W P start items)) in
      let (T, eT, nT, sT) = open_version-Serves file num_rows items cols served hd in
      let eo =
        ap (λ (bytes : Bytes). open_header W blank bytes) er
        ∙ header_v1_read W B t blank rest hr hn fits in
      (t', e, T, rw eo eT, nT, sT)
