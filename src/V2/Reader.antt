-- ===== src/V2/Reader.antt =====
-- The reader of a v0.2 column: UnsignedIntColumnReader, UInt64PageReader and PageIndexReader
-- (cstable/columns, cstable/io/PageIndex.cc), and openColumnV2 of cstable/CSTableReader.cc.
use libcstable.Prelude.{
  ℕ, Bool, true, false, List, [], ◌∷◌, ◌++◌, Option, none, some, Result, ok, err, runtime_error,
  illegal_argument, if◌then◌else◌, ltb, ◌==◌,
}
use libcstable.Prelude.Bytes.{Bytes}
use libcstable.Prelude.Int.{ℤ, of_bits, pos}
use libcstable.Stx.{Numerics}
use libcstable.Column.{ColumnSink}
use libcstable.Format.{ColumnConfig, ColumnType, PageRef, unsigned_int}
use libcstable.V2.{is_uint64_plain}
use libcstable.Pages.Writer.{PageIndexKey, rlevel, data_entry}
use libcstable.V1.{Cell, cell}
use libcstable.V1.Sink.{convert, skip, copy}

-- The pages with their counts of values.
pub record PageReader : Type 0 where
  pub pages : List (PageRef × ℕ)

unfoldable pub page_reader : PageReader
page_reader = record { pages = [] }

-- readUnsignedInt of a page reader, which is const.
unfoldable pub read_page_value : PageReader → ℕ
read_page_value pr = 0

-- The page readers of the index, in the order of their entry.
abbrev pub IndexReader : Type 0
IndexReader = List (PageIndexKey × PageReader)

unfoldable pub add_page_reader : PageIndexKey → PageReader → IndexReader → IndexReader
add_page_reader key pr index = index ++ ((key, pr) ∷ [])

pub record UnsignedIntReader : Type 0 where
  pub config : ColumnConfig
  pub rlevel_reader : Option PageReader
  pub dlevel_reader : Option PageReader
  pub data_reader : PageReader

-- The reader's constructor registers the page reader of the data.
unfoldable pub unsigned_int_reader :
    ColumnConfig
    → Option PageReader
    → Option PageReader
    → IndexReader
    → Result (UnsignedIntReader × IndexReader)
unfolding add_page_reader page_reader
unsigned_int_reader config rlevel_reader dlevel_reader index =
    let key : PageIndexKey = record { column_id = config.column_id; entry_type = data_entry } in
    let rd : UnsignedIntReader = record {
      config = config;
      rlevel_reader = rlevel_reader;
      dlevel_reader = dlevel_reader;
      data_reader = page_reader;
    } in
    if is_uint64_plain config.storage_type
    then ok (rd, add_page_reader key page_reader index)
    else err illegal_argument

abbrev pub is_unsigned_int : ColumnType → Bool
is_unsigned_int unsigned_int = true
is_unsigned_int _ = false

-- openColumnV2 of the table reader: a reader of the repetition levels only where the column has
-- such levels, and none of the definition levels.
unfoldable pub open_reader : ColumnConfig → IndexReader → Result (UnsignedIntReader × IndexReader)
unfolding unsigned_int_reader add_page_reader page_reader
open_reader col index =
    let key : PageIndexKey = record { column_id = col.column_id; entry_type = rlevel } in
    let has_rlevels = ltb 0 col.rlevel_max in
    let rlevel_reader : Option PageReader = if has_rlevels then some page_reader else none in
    let index' = if has_rlevels then add_page_reader key page_reader index else index in
    if is_unsigned_int col.logical_type
    then unsigned_int_reader col rlevel_reader none index'
    else err runtime_error

abbrev read_level : Option PageReader → ℕ
read_level none = 0
read_level (some pr) = read_page_value pr

unfoldable pub read_unsigned_int : UnsignedIntReader → Result (Cell ℕ × UnsignedIntReader)
unfolding read_page_value
read_unsigned_int rd =
    let rlvl = read_level rd.rlevel_reader in
    let dlvl = read_level rd.dlevel_reader in
    if dlvl == rd.config.dlevel_max
    then ok (cell true rlvl dlvl (read_page_value rd.data_reader), rd)
    else ok (cell false rlvl dlvl 0, rd)

unfoldable pub read_boolean : UnsignedIntReader → Result (Cell Bool × UnsignedIntReader)
unfolding read_unsigned_int
read_boolean = convert (λ v. ltb 1 v) false read_unsigned_int

unfoldable pub read_signed_int : UnsignedIntReader → Result (Cell ℤ × UnsignedIntReader)
unfolding read_unsigned_int
read_signed_int = convert of_bits (pos 0) read_unsigned_int

unfoldable pub skip_value : UnsignedIntReader → Result UnsignedIntReader
unfolding read_unsigned_int
skip_value = skip read_unsigned_int

unfoldable pub next_repetition_level : UnsignedIntReader → ℕ
next_repetition_level rd = 0

unfoldable pub eof_reached : UnsignedIntReader → Bool
eof_reached rd = false

module _ (N : Numerics) where
  unfoldable pub read_float : UnsignedIntReader → Result (Cell N.Double × UnsignedIntReader)
  unfolding read_unsigned_int
  read_float = convert N.of_unsigned N.zero_double read_unsigned_int

  unfoldable pub read_string : UnsignedIntReader → Result (Cell Bytes × UnsignedIntReader)
  unfolding read_unsigned_int
  read_string = convert N.show_unsigned [] read_unsigned_int

  unfoldable pub copy_value :
      {K : Type 0} → ColumnSink N K → UnsignedIntReader → K → Result (UnsignedIntReader × K)
  unfolding read_unsigned_int
  copy_value S rd = copy S S.write_unsigned_int rd.config.dlevel_max read_unsigned_int rd
