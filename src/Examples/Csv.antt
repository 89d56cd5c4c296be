-- ===== src/Examples/Csv.antt =====
-- The import of a CSV file into a table of an optional integer column and a text column.
use libcstable.Prelude.{
  ◌+◌, ◌^◌, ◌≤◌, ◌≡◌, refl, List, [], ◌∷◌, none, some, ok, length, ◌%◌, inl, inr, Bool-cases, arith,
}
use mathlib.Core.Path.{subst}
use libcstable.Prelude.Bytes.{Bytes, bytes_eq, bytes_eq→eq}
use libcstable.Stx.Sample.{wire, packing, numerics}
use libcstable.Format.{unsigned_int, string, IsKnownType}
use libcstable.Format.Open.{bytes_lt}
use libcstable.V1.{append_datum, write_null, column_writer}
use libcstable.V1.Leb128
use libcstable.V1.Text
use libcstable.Classes.{AnyWriter, any_sink, dispatch}
use libcstable.Classes.Counting.{
  TypedWriter, writer_type, num_vals, typed_sink, typed_sink-IsCounted,
}
use libcstable.Shredder.{Rows, lookup, on_column}
use libcstable.Shredder.Csv.{
  Human, add_records_from_csv, open_columns, open_missing, names_of, insert_name, erase_name,
  add_csv_rows, write_cells, write_cell, write_missing,
}
use libcstable.Shredder.Csv.Names.{count_of, cells_for}
use libcstable.Shredder.Csv.Counted.{entries_of, AreKnown}
use libcstable.Shredder.Csv.Imported.{
  add_records_from_csv-counts, add_records_from_csv-aligned, IsAligned,
}

abbrev human : Human
human = record {
  is_null_or_empty = λ val. bytes_eq val [];
  parse_time = λ val. none;
  parse_boolean = λ val. none;
}

abbrev numbers : TypedWriter packing
numbers = record {
  type = unsigned_int;
  writer = AnyWriter.leb128 (Leb128.new_writer wire packing 0 1);
}

abbrev texts : TypedWriter packing
texts = record { type = string; writer = AnyWriter.string (Text.new_writer wire packing 0 1) }

abbrev table : Rows (TypedWriter packing)
table = record { writers = (b'n' ∷ [], numbers) ∷ (b't' ∷ [], texts) ∷ []; num_rows = 0 }

-- The second row is too short.
abbrev header : List Bytes
header = (b'n' ∷ []) ∷ (b't' ∷ []) ∷ []

abbrev short_rows : List (List Bytes)
short_rows = ([] ∷ (b'a' ∷ []) ∷ []) ∷ ([] ∷ []) ∷ []

abbrev long_rows : List (List Bytes)
long_rows = ([] ∷ (b'a' ∷ []) ∷ []) ∷ ([] ∷ (b'b' ∷ []) ∷ []) ∷ []

abbrev numbers_after : TypedWriter packing
numbers_after = record numbers {
  writer =
      AnyWriter.leb128
        (write_null packing 0 0 (write_null packing 0 0 (Leb128.new_writer wire packing 0 1)));
}

abbrev text_after : TypedWriter packing
text_after = record texts {
  writer =
      AnyWriter.string
        (Text.add_value wire packing 0 1 (b'a' ∷ []) (Text.new_writer wire packing 0 1));
}

abbrev texts_after : TypedWriter packing
texts_after = record texts {
  writer = AnyWriter.string (
      Text.add_value wire packing 0 1 (b'b' ∷ [])
        (Text.add_value wire packing 0 1 (b'a' ∷ []) (Text.new_writer wire packing 0 1)));
}

abbrev short_table : Rows (TypedWriter packing)
short_table = record {
  writers = (b'n' ∷ [], numbers_after) ∷ (b't' ∷ [], text_after) ∷ [];
  num_rows = 2;
}

abbrev long_table : Rows (TypedWriter packing)
long_table = record {
  writers = (b'n' ∷ [], numbers_after) ∷ (b't' ∷ [], texts_after) ∷ [];
  num_rows = 2;
}

-- After the short row the table has two rows, and the texts have one entry.
short_imported :
    add_records_from_csv human
      (typed_sink numerics wire packing)
      writer_type
      header
      short_rows
      table
    ≡ ok short_table
unfolding add_records_from_csv open_columns open_missing names_of insert_name erase_name
    add_csv_rows write_cells write_cell write_missing on_column typed_sink any_sink dispatch
    bytes_eq write_null append_datum Leb128.new_writer Text.new_writer Text.add_datum Text.add_value
    column_writer bytes_lt
short_imported = refl

long_imported :
    add_records_from_csv human (typed_sink numerics wire packing) writer_type header long_rows table
    ≡ ok long_table
unfolding add_records_from_csv open_columns open_missing names_of insert_name erase_name
    add_csv_rows write_cells write_cell write_missing on_column typed_sink any_sink dispatch
    bytes_eq write_null append_datum Leb128.new_writer Text.new_writer Text.add_datum Text.add_value
    column_writer bytes_lt
long_imported = refl

-- The two columns, by a look-up.
two_columns :
    (P : TypedWriter packing → Type 0) (name : Bytes) (k : TypedWriter packing)
    → P numbers
    → P texts
    → lookup name table.writers ≡ some k
    → P k
two_columns P name k hn ht e = elim (Bool-cases (bytes_eq name (b'n' ∷ []))) [
  | inl first ↦ let q = rw first at e in let same : numbers ≡ k = cc in subst P same hn
  | inr other ↦ elim (Bool-cases (bytes_eq name (b't' ∷ []))) [
    | inl second ↦ let q = rw (other, second) at e in let same : texts ≡ k = cc in subst P same ht
    | inr neither ↦ absurd (let q = rw (other, neither) at e in cc)
  ]
]

table-AreKnown : AreKnown human (typed_sink numerics wire packing) writer_type table
table-AreKnown name k e = two_columns (λ k. IsKnownType (writer_type k)) name k tt tt e

there : lookup (b't' ∷ []) table.writers ≡ some texts
unfolding bytes_eq
there = refl

add_records_from_csv-counts_example :
    (entries_of human
        (typed_sink numerics wire packing)
        writer_type
        (typed_sink-IsCounted numerics wire packing human)
        (b't' ∷ [])
        short_table
      ≡ entries_of human
          (typed_sink numerics wire packing)
          writer_type
          (typed_sink-IsCounted numerics wire packing human)
          (b't' ∷ [])
          table
        + cells_for (b't' ∷ []) header short_rows)
    × (2 ≡ (0 + length short_rows) % 2 ^ 64)
add_records_from_csv-counts_example =
    add_records_from_csv-counts human (typed_sink numerics wire packing) writer_type
      (typed_sink-IsCounted numerics wire packing human) header short_rows table short_table
      (b't' ∷ []) texts table-AreKnown (omega arith) there short_imported

header-distinct : (n : Bytes) → count_of n header ≤ 1
unfolding bytes_eq
header-distinct n = elim (Bool-cases (bytes_eq n (b'n' ∷ []))) [
  | inl first ↦ rw (bytes_eq→eq n (b'n' ∷ []) first) (omega arith)
  | inr other ↦ elim (Bool-cases (bytes_eq n (b't' ∷ []))) [
    | inl second ↦ rw (other, second) (omega arith)
    | inr neither ↦ rw (other, neither) (omega arith)
  ]
]

table-IsAligned :
    IsAligned human
      (typed_sink numerics wire packing)
      writer_type
      (typed_sink-IsCounted numerics wire packing human)
      table
unfolding Leb128.new_writer Text.new_writer column_writer typed_sink
table-IsAligned name k e =
    rw e (two_columns (λ k. num_vals numerics wire packing k.writer ≡ 0) name k refl refl e)

add_records_from_csv-aligned_example :
    entries_of human
      (typed_sink numerics wire packing)
      writer_type
      (typed_sink-IsCounted numerics wire packing human)
      (b't' ∷ [])
      long_table
    ≡ 2
add_records_from_csv-aligned_example =
    add_records_from_csv-aligned human (typed_sink numerics wire packing) writer_type
      (typed_sink-IsCounted numerics wire packing human) header long_rows table long_table
      (b't' ∷ []) texts header-distinct (omega arith, (omega arith, tt)) (omega arith)
      table-AreKnown table-IsAligned there long_imported
