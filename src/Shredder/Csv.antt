-- ===== src/Shredder/Csv.antt =====
-- addRecordsFromCSV of the record shredder (cstable/RecordShredder.cc).
pub mod Names
pub mod Counted
pub mod Imported
use libcstable.Prelude.{
  ℕ, ◌+◌, ◌%◌, ◌^◌, Bool, true, false, not, ◌&&◌, List, [], ◌∷◌, Option, none, some, Result, ok,
  err, need, check, runtime_error, not_found, invalid_conversion, type_error, illegal_state, ◌>>=◌,
  ◌>>◌, if◌then◌else◌, ◌==◌,
}
use libcstable.Prelude.Bytes.{Bytes, bytes_eq, is_member}
use libcstable.Stx.{Numerics}
use libcstable.Column.{ColumnSink}
use libcstable.Format.{
  ColumnType, subrecord, boolean, unsigned_int, signed_int, string, float, datetime, column_type,
}
use libcstable.Format.Open.{bytes_lt}
use libcstable.Shredder.{Rows, lookup, on_column}

-- stx::Human: isNullOrEmpty, parseTime and parseBoolean. A time is its count of microseconds.
pub record Human : Type 0 where
  pub is_null_or_empty : Bytes → Bool
  pub parse_time : Bytes → Option ℕ
  pub parse_boolean : Bytes → Option Bool

-- std::set of names: emplace, which keeps the order, and erase.
abbrev pub put_name : Bytes → List Bytes → List Bytes
put_name name [] = name ∷ []
put_name name (n ∷ names) =
    let rest = put_name name names in if bytes_lt n name then n ∷ rest else name ∷ (n ∷ names)

unfoldable pub insert_name : Bytes → List Bytes → List Bytes
insert_name name names = if is_member name names then names else put_name name names

unfoldable pub erase_name : Bytes → List Bytes → List Bytes
erase_name name [] = []
erase_name name (n ∷ names) =
    let rest = erase_name name names in if bytes_eq name n then rest else n ∷ rest

-- The names of the writer's columns, each once.
unfoldable pub names_of : {K : Type 0} → List (Bytes × K) → List Bytes
unfolding insert_name
names_of [] = []
names_of ((name, k) ∷ writers) = insert_name name (names_of writers)

-- What a true Boolean text is; a text that is none is false.
abbrev is_yes : Option Bool → Bool
is_yes none = false
is_yes (some b) = b

-- `type_of` is the virtual type() of a column's writer.
module _ {N : Numerics} (H : Human) {K : Type 0} (S : ColumnSink N K)
    (type_of : K → ColumnType) where
  -- The loop over the header: each column's name, in the place of its writer, with its type, and
  -- the names that stay missing.
  unfoldable pub open_columns :
      List Bytes → Rows K → List Bytes → Result (List (Bytes × ColumnType) × List Bytes)
  unfolding erase_name
  open_columns [] t missing = ok ([], missing)
  open_columns (col ∷ cols) t missing = need runtime_error (lookup col t.writers) >>= λ k.
      open_columns cols t (erase_name col missing) >>= λ p. ok ((col, type_of k) ∷ p.0, p.1)

  -- A missing column has to be optional.
  unfoldable pub open_missing : List Bytes → Rows K → Result (Unit {0})
  open_missing [] t = ok tt
  open_missing (col ∷ cols) t = do
    k ← need not_found (lookup col t.writers)
    check (not (S.max_definition_level k == 0)) runtime_error
    open_missing cols t

  -- The switch over the type. What std::stoull, std::stoll and std::stod throw is caught, and a
  -- kTypeError thrown for it.
  abbrev pub write_value : ColumnType → Bytes → K → Result K
  write_value string val k = S.write_string 0 (S.max_definition_level k) val k
  write_value unsigned_int val k =
      need type_error (N.stoull val) >>= λ v. S.write_unsigned_int 0 (S.max_definition_level k) v k
  write_value signed_int val k =
      need type_error (N.stoll val) >>= λ v. S.write_signed_int 0 (S.max_definition_level k) v k
  write_value datetime val k =
      need type_error (H.parse_time val) >>= λ v. S.write_date_time 0 (S.max_definition_level k) v k
  write_value float val k =
      need type_error (N.stod val) >>= λ v. S.write_float 0 (S.max_definition_level k) v k
  write_value boolean val k =
      S.write_boolean 0 (S.max_definition_level k) (is_yes (H.parse_boolean val)) k
  write_value subrecord val k = err illegal_state
  write_value (column_type b) val k = ok k

  -- A cell of a row.
  unfoldable pub write_cell : ColumnType → Bytes → K → Result K
  write_cell type val k =
      let null = check (not (S.max_definition_level k == 0)) runtime_error >> S.write_null 0 0 k in
      let value = write_value type val k in if H.is_null_or_empty val then null else value

  -- The loop over a row ends with the row or with the header, whichever is shorter.
  unfoldable pub write_cells : List (Bytes × ColumnType) → List Bytes → Rows K → Result (Rows K)
  unfolding on_column write_cell
  write_cells [] row t = ok t
  write_cells (col ∷ cols) [] t = ok t
  write_cells (col ∷ cols) (val ∷ row) t =
      on_column col.0 (write_cell col.1 val) t >>= write_cells cols row

  unfoldable pub write_missing : List Bytes → Rows K → Result (Rows K)
  unfolding on_column
  write_missing [] t = ok t
  write_missing (col ∷ cols) t = on_column col (S.write_null 0 0) t >>= write_missing cols

  unfoldable pub add_csv_rows :
      List (Bytes × ColumnType) → List Bytes → List (List Bytes) → Rows K → Result (Rows K)
  unfolding write_cells write_missing
  add_csv_rows cols missing [] t = ok t
  add_csv_rows cols missing (row ∷ rows) t = do
    t1 ← write_cells cols row t
    t2 ← write_missing missing t1
    add_csv_rows cols missing rows (record t2 { num_rows = (t2.num_rows + 1) % 2 ^ 64 })

  -- `header` is what the first readNextRow stores, and `rows` are those for which a later one
  -- returns true.
  unfoldable pub add_records_from_csv : List Bytes → List (List Bytes) → Rows K → Result (Rows K)
  unfolding open_columns open_missing add_csv_rows names_of
  add_records_from_csv header rows t = open_columns header t (names_of t.writers) >>= λ p.
      open_missing p.1 t >> add_csv_rows p.0 p.1 rows t
