-- ===== src/Shredder/Csv/Imported.antt =====
-- The whole of addRecordsFromCSV (cstable/RecordShredder.cc), over what its steps add.
use libcstable.Prelude.{
  ◌+◌, ◌%◌, ◌^◌, ◌<◌, ◌≤◌, ◌≡◌, refl, ap, ◌∙◌, inl, inr, List, [], ◌∷◌, map, length, take-all, some,
  ok, need, runtime_error, All, Bool-cases, if◌then◌else◌, arith,
}
use libcstable.Prelude.Bytes.{Bytes, is_member}
use mathlib.Core.Path.{subst}
use libcstable.Stx.{Numerics}
use libcstable.Column.{ColumnSink}
use libcstable.Format.{ColumnType, IsKnownType}
use libcstable.Shredder.Csv.Names.{
  count_of, cells_for, is_member-count, no_member-count-take, is_member-erase_name, count-names_of,
}
use libcstable.Shredder.Csv.Counted.{
  IsCounted, AreKnown, need-some, entries_of, write_cells-Adds, write_missing-Adds,
}
use libcstable.Classes.Embed.{both-Succeeds}
use libcstable.Shredder.{Rows, lookup}
use libcstable.Shredder.Csv.{
  Human, erase_name, names_of, open_columns, open_missing, write_cells, write_missing, add_csv_rows,
  add_records_from_csv,
}

module _ {N : Numerics} (H : Human) {K : Type 0} (S : ColumnSink N K)
    (type_of : K → ColumnType) where
  module _ (C : IsCounted H S type_of) where
    -- What the loop over the header makes of it and of the set of missing names.
    record Opens (name : Bytes) (header missing : List Bytes)
        (p : List (Bytes × ColumnType) × List Bytes) : Type 0 where
      names : map (λ col. col.0) p.0 ≡ header
      known : All (λ col. IsKnownType col.1) p.0
      left : count_of name p.1 ≡ (if is_member name header then 0 else count_of name missing)

    open_columns-Opens :
        (name : Bytes) (header : List Bytes) (t : Rows K) (missing : List Bytes)
        (p : List (Bytes × ColumnType) × List Bytes)
        → AreKnown H S type_of t
        → open_columns H S type_of header t missing ≡ ok p
        → Opens name header missing p
    unfolding open_columns
    open_columns-Opens name [] t missing p h e =
        let same : ([], missing) ≡ p = cc in
        subst (λ (q : List (Bytes × ColumnType) × List Bytes). Opens name [] missing q) same
          (record { names = refl; known = tt; left = refl })
    open_columns-Opens name (col ∷ header) t missing p h e =
        let k = both-Succeeds (need runtime_error (lookup col t.writers)) e in
        let q =
          both-Succeeds (open_columns H S type_of header t (erase_name col missing)) k.after_is in
        let o = open_columns-Opens name header t (erase_name col missing) q.value h q.step_is in
        let same : ((col, type_of k.value) ∷ q.value.0, q.value.1) ≡ p = let r = q.after_is in cc in
        subst (λ (q : List (Bytes × ColumnType) × List Bytes). Opens name (col ∷ header) missing q)
          same
          (record {
            names = ap (λ (l : List Bytes). col ∷ l) o.names;
            known = (
              h col k.value
                  (need-some H S type_of C runtime_error (lookup col t.writers) k.value k.step_is),
              o.known,
            );
            left = o.left ∙ is_member-erase_name name col header missing;
          })

    add_csv_rows-counts :
        (name : Bytes) (cols : List (Bytes × ColumnType)) (missing header : List Bytes)
        (rows : List (List Bytes)) (t t' : Rows K)
        → map (λ col. col.0) cols ≡ header
        → All (λ col. IsKnownType col.1) cols
        → count_of name missing ≡ (if is_member name header then 0 else 1)
        → add_csv_rows H S type_of cols missing rows t ≡ ok t'
        → entries_of H S type_of C name t'
          ≡ entries_of H S type_of C name t + cells_for name header rows
    unfolding add_csv_rows
    add_csv_rows-counts name cols missing header [] t t' hn hk hm e =
        let same : t ≡ t' = cc in rw same (omega arith)
    add_csv_rows-counts name cols missing header (row ∷ rows) t t' hn hk hm e =
        let first = both-Succeeds (write_cells H S type_of cols row t) e in
        let second = both-Succeeds (write_missing H S type_of missing first.value) first.after_is in
        let a = write_cells-Adds H S type_of C name cols row t first.value hk first.step_is in
        let b =
          write_missing-Adds H S type_of C name missing first.value second.value second.step_is in
        let rest =
          add_csv_rows-counts name cols missing header rows _ t' hn hk hm second.after_is in
        let a' = rw hn at a.added in
        elim (Bool-cases (is_member name header)) [
          | inl there ↦
              let none_missing = rw there at hm in
              rw there (omega (arith, a', b.added, rest, none_missing))
          | inr absent ↦
              let one_missing = rw absent at hm in
              let no_cells = no_member-count-take name (length row) header absent in
              rw absent (omega (arith, a', b.added, rest, one_missing, no_cells))
        ]

    add_csv_rows-num_rows :
        (cols : List (Bytes × ColumnType)) (missing : List Bytes) (rows : List (List Bytes))
        (t t' : Rows K)
        → All (λ col. IsKnownType col.1) cols
        → t.num_rows < 2 ^ 64
        → add_csv_rows H S type_of cols missing rows t ≡ ok t'
        → t'.num_rows ≡ (t.num_rows + length rows) % 2 ^ 64
    unfolding add_csv_rows
    add_csv_rows-num_rows cols missing [] t t' hk hr e =
        let same : t ≡ t' = cc in rw (← same) (omega arith)
    add_csv_rows-num_rows cols missing (row ∷ rows) t t' hk hr e =
        let first = both-Succeeds (write_cells H S type_of cols row t) e in
        let second = both-Succeeds (write_missing H S type_of missing first.value) first.after_is in
        let a = write_cells-Adds H S type_of C [] cols row t first.value hk first.step_is in
        let b =
          write_missing-Adds H S type_of C [] missing first.value second.value second.step_is in
        let rest = add_csv_rows-num_rows cols missing rows _ t' hk (omega arith) second.after_is in
        omega (arith, a.same_row, b.same_row, rest)

    -- For columns that count their entries and have types that the enumeration names: if
    -- addRecordsFromCSV succeeds, a column that the header names has a new entry for each row that is
    -- long enough to have a cell for it (for each such cell, if the header names it more than once),
    -- every other column has a new entry for each row, and the number of rows has grown, modulo
    -- 2 ^ 64, by all rows.
    pub add_records_from_csv-counts :
        (header : List Bytes) (rows : List (List Bytes)) (t t' : Rows K) (name : Bytes) (k : K)
        → AreKnown H S type_of t
        → t.num_rows < 2 ^ 64
        → lookup name t.writers ≡ some k
        → add_records_from_csv H S type_of header rows t ≡ ok t'
        → (entries_of H S type_of C name t'
            ≡ entries_of H S type_of C name t + cells_for name header rows)
          × (t'.num_rows ≡ (t.num_rows + length rows) % 2 ^ 64)
    unfolding add_records_from_csv
    add_records_from_csv-counts header rows t t' name k types hr there e =
        let p = both-Succeeds (open_columns H S type_of header t (names_of t.writers)) e in
        let m = both-Succeeds (open_missing H S type_of p.value.1 t) p.after_is in
        let o = open_columns-Opens name header t (names_of t.writers) p.value types p.step_is in
        let once : count_of name (names_of t.writers) ≡ 1 =
          rw (count-names_of name t.writers, there) refl in
        let left = rw once at o.left in
        (
          add_csv_rows-counts name p.value.0 p.value.1 header rows t t' o.names o.known left
              m.after_is,
          add_csv_rows-num_rows p.value.0 p.value.1 rows t t' o.known hr m.after_is,
        )

    -- The columns of a table have as many entries as it has rows.
    abbrev pub IsAligned : Rows K → Type 0
    IsAligned t =
        (name : Bytes) (k : K)
        → lookup name t.writers ≡ some k
        → entries_of H S type_of C name t ≡ t.num_rows

    full_rows :
        (name : Bytes) (header : List Bytes) (rows : List (List Bytes))
        → count_of name header ≤ 1
        → All (λ row. length header ≤ length row) rows
        → cells_for name header rows ≡ length rows
    full_rows name header [] h hs = refl
    full_rows name header (row ∷ rows) h (full, fulls) =
        let rest = full_rows name header rows h fulls in
        let some_cell = is_member-count name header in
        elim (Bool-cases (is_member name header)) [
          | inl there ↦
              let some_cell' = rw there at some_cell in
              rw (there, take-all (length row) header full) (omega (arith, rest, some_cell', h))
          | inr absent ↦ rw absent (omega (arith, rest))
        ]

    -- For columns that count their entries and have types that the enumeration names: if the header
    -- names no column twice, every row has at least as many cells as the header, and the number of
    -- rows stays below 2 ^ 64, then addRecordsFromCSV, if it succeeds, keeps every column of the
    -- table at as many entries as the table has rows.
    pub add_records_from_csv-aligned :
        (header : List Bytes) (rows : List (List Bytes)) (t t' : Rows K) (name : Bytes) (k : K)
        → ((n : Bytes) → count_of n header ≤ 1)
        → All (λ row. length header ≤ length row) rows
        → t.num_rows + length rows < 2 ^ 64
        → AreKnown H S type_of t
        → IsAligned t
        → lookup name t.writers ≡ some k
        → add_records_from_csv H S type_of header rows t ≡ ok t'
        → entries_of H S type_of C name t' ≡ t'.num_rows
    add_records_from_csv-aligned header rows t t' name k distinct full hr types aligned there e =
        let (grown, counted) =
          add_records_from_csv-counts header rows t t' name k types (omega arith) there e in
        omega (
          arith,
          grown,
          counted,
          aligned name k there,
          full_rows name header rows (distinct name) full,
        )
