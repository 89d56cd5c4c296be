-- ===== src/Table/Reader.antt =====
-- The table reader (cstable/CSTableReader.cc): a table of either format is opened, and its columns
-- are found by their names.
pub mod Sorted
pub mod Found
pub mod Served
pub mod RoundTrip
use libcstable.Prelude.{
  ℕ, ◌≡◌, Bool, true, false, List, [], ◌∷◌, length, Option, none, some, Result, ok, err, not_found,
  runtime_error, undefined, need, check, ◌>>=◌, ◌>>◌, if◌then◌else◌, ltb, ◌==◌,
}
use libcstable.Prelude.Bytes.{Bytes, bytes_eq}
use libcstable.Prelude.Int.{ℤ}
use libcstable.Stx.{Wire, Packing, Numerics}
use libcstable.Column.{ColumnSink, ColumnSource}
use libcstable.Format.{
  ColumnConfig, ColumnEncoding, ColumnType, unsigned_int, BinaryFormatVersion, v0_1_0, v0_2_0,
  MetaBlock,
}
use libcstable.Format.Open.{Opened, open_header}
use libcstable.V1.{Cell}
use libcstable.V2.Reader as UnsignedInt
use libcstable.V2.Reader.{UnsignedIntReader, IndexReader}
use libcstable.Classes.{AnyReader}
use libcstable.Classes.Readers

-- A column reader of either format.
pub data Reader (P : Packing) : Type 0 where
  v1 : AnyReader P → Reader P
  v2 : UnsignedIntReader → Reader P

module _ (N : Numerics) (W : Wire) (P : Packing) where
  unfoldable pub read_boolean : Reader P → Result (Cell Bool × Reader P)
  read_boolean (v1 rd) = Readers.read_boolean N W P rd >>= λ p. ok (p.0, v1 p.1)
  read_boolean (v2 rd) = UnsignedInt.read_boolean rd >>= λ p. ok (p.0, v2 p.1)

  unfoldable pub read_unsigned_int : Reader P → Result (Cell ℕ × Reader P)
  read_unsigned_int (v1 rd) = Readers.read_unsigned_int N W P rd >>= λ p. ok (p.0, v1 p.1)
  read_unsigned_int (v2 rd) = UnsignedInt.read_unsigned_int rd >>= λ p. ok (p.0, v2 p.1)

  unfoldable pub read_signed_int : Reader P → Result (Cell ℤ × Reader P)
  read_signed_int (v1 rd) = Readers.read_signed_int N W P rd >>= λ p. ok (p.0, v1 p.1)
  read_signed_int (v2 rd) = UnsignedInt.read_signed_int rd >>= λ p. ok (p.0, v2 p.1)

  unfoldable pub read_float : Reader P → Result (Cell N.Double × Reader P)
  read_float (v1 rd) = Readers.read_float N W P rd >>= λ p. ok (p.0, v1 p.1)
  read_float (v2 rd) = UnsignedInt.read_float N rd >>= λ p. ok (p.0, v2 p.1)

  unfoldable pub read_string : Reader P → Result (Cell Bytes × Reader P)
  read_string (v1 rd) = Readers.read_string N W P rd >>= λ p. ok (p.0, v1 p.1)
  read_string (v2 rd) = UnsignedInt.read_string N rd >>= λ p. ok (p.0, v2 p.1)

  unfoldable pub skip_value : Reader P → Result (Reader P)
  skip_value (v1 rd) = Readers.skip_value N W P rd >>= λ rd'. ok (v1 rd')
  skip_value (v2 rd) = UnsignedInt.skip_value rd >>= λ rd'. ok (v2 rd')

  unfoldable pub next_repetition_level : Reader P → ℕ
  next_repetition_level (v1 rd) = Readers.next_repetition_level N W P rd
  next_repetition_level (v2 rd) = UnsignedInt.next_repetition_level rd

  unfoldable pub eof_reached : Reader P → Bool
  eof_reached (v1 rd) = Readers.eof_reached N W P rd
  eof_reached (v2 rd) = UnsignedInt.eof_reached rd

  unfoldable pub column_type : Reader P → ColumnType
  column_type (v1 rd) = Readers.column_type N W P rd
  column_type (v2 rd) = unsigned_int

  unfoldable pub column_encoding_of : Reader P → ColumnEncoding
  column_encoding_of (v1 rd) = Readers.column_encoding_of N W P rd
  column_encoding_of (v2 rd) = rd.config.storage_type

  unfoldable pub max_repetition_level : Reader P → ℕ
  max_repetition_level (v1 rd) = Readers.max_repetition_level N W P rd
  max_repetition_level (v2 rd) = rd.config.rlevel_max

  unfoldable pub max_definition_level : Reader P → ℕ
  max_definition_level (v1 rd) = Readers.max_definition_level N W P rd
  max_definition_level (v2 rd) = rd.config.dlevel_max

  -- The interface that the clients of a column call.
  abbrev pub any_source : ColumnSource N (Reader P)
  any_source = record {
    read_boolean = read_boolean;
    read_unsigned_int = read_unsigned_int;
    read_signed_int = read_signed_int;
    read_float = read_float;
    read_string = read_string;
    skip_value = skip_value;
    next_repetition_level = next_repetition_level;
    eof_reached = eof_reached;
    column_type = column_type;
    max_repetition_level = max_repetition_level;
    max_definition_level = max_definition_level;
  }

-- The two maps hold the column readers by id, where it is not zero, and by name.
pub record TableReader (P : Packing) : Type 0 where
  pub version : BinaryFormatVersion
  pub columns : List ColumnConfig
  pub column_readers_by_id : List (ℕ × Reader P)
  pub column_readers_by_name : List (Bytes × Reader P)
  pub num_rows : ℕ

module _ {P : Packing} where
  unfoldable pub readers_by_id : List ColumnConfig → List (Reader P) → List (ℕ × Reader P)
  readers_by_id [] readers = []
  readers_by_id (col ∷ cols) [] = []
  readers_by_id (col ∷ cols) (rd ∷ readers) =
      let rest = readers_by_id cols readers in
      if ltb 0 col.column_id then (col.column_id, rd) ∷ rest else rest

  unfoldable pub readers_by_name : List ColumnConfig → List (Reader P) → List (Bytes × Reader P)
  readers_by_name [] readers = []
  readers_by_name (col ∷ cols) [] = []
  readers_by_name (col ∷ cols) (rd ∷ readers) = (col.column_name, rd) ∷ readers_by_name cols readers

  -- The constructor. An emplace under a key that is there changes nothing, so the first entry of a
  -- key is the map's.
  unfoldable pub table_reader :
      BinaryFormatVersion → List ColumnConfig → List (Reader P) → ℕ → Result (TableReader P)
  unfolding readers_by_id readers_by_name
  table_reader version columns readers num_rows = do
    check (length readers == length columns) runtime_error
    ok (record {
      version = version;
      columns = columns;
      column_readers_by_id = readers_by_id columns readers;
      column_readers_by_name = readers_by_name columns readers;
      num_rows = num_rows;
    })

  unfoldable pub find : Bytes → List (Bytes × Reader P) → Option (Reader P)
  find name [] = none
  find name ((key, rd) ∷ rest) = if bytes_eq key name then some rd else find name rest

  unfoldable pub get_column_reader : Bytes → TableReader P → Result (Reader P)
  unfolding find
  get_column_reader name t = need not_found (find name t.column_readers_by_name)

  abbrev is_some : Option (Reader P) → Bool
  is_some none = false
  is_some (some rd) = true

  unfoldable pub has_column : Bytes → TableReader P → Bool
  unfolding find
  has_column name t = is_some (find name t.column_readers_by_name)

  unfoldable pub num_records : TableReader P → ℕ
  num_records t = t.num_rows

module _ (N : Numerics) (W : Wire) (P : Packing) where
  unfoldable pub get_column_type : Bytes → TableReader P → Result ColumnType
  unfolding get_column_reader
  get_column_type name t = get_column_reader name t >>= λ rd. ok (column_type N W P rd)

  unfoldable pub get_column_encoding : Bytes → TableReader P → Result ColumnEncoding
  unfolding get_column_reader
  get_column_encoding name t = get_column_reader name t >>= λ rd. ok (column_encoding_of N W P rd)

  -- The loops of openFile over the columns, the first over the mapped file.
  unfoldable pub open_columns_v1 : Bytes → List ColumnConfig → Result (List (Reader P))
  open_columns_v1 file [] = ok []
  open_columns_v1 file (col ∷ cols) = Readers.open_reader N W P file col >>= λ rd.
      open_columns_v1 file cols >>= λ readers. ok (v1 rd ∷ readers)

  unfoldable pub open_columns_v2 :
      List ColumnConfig → IndexReader → Result (List (Reader P) × IndexReader)
  open_columns_v2 [] index = ok ([], index)
  open_columns_v2 (col ∷ cols) index = UnsignedInt.open_reader col index >>= λ p.
      open_columns_v2 cols p.1 >>= λ q. ok (v2 p.0 ∷ q.0, q.1)

  -- openFile, after the header is read. A v0.2 header comes with its metablock.
  unfoldable pub open_version : Bytes → BinaryFormatVersion → Opened → Result (TableReader P)
  unfolding open_columns_v1 open_columns_v2
  open_version file v0_1_0 o = do
    readers ← open_columns_v1 file o.header.columns
    table_reader v0_1_0 o.header.columns readers o.header.num_rows
  open_version file v0_2_0 o = do
    mb ← elim (o.metablock) [ none ↦ undefined | some mb ↦ ok mb ]
    (readers, index) ← open_columns_v2 o.header.columns []
    table_reader v0_2_0 o.header.columns readers mb.num_rows

  unfoldable pub open_file : ColumnConfig → Bytes → Result (TableReader P)
  unfolding open_version
  open_file blank file = open_header W blank file >>= λ o. open_version file o.version o
