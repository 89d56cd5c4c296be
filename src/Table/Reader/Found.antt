-- ===== src/Table/Reader/Found.antt =====
-- What openFile finds in a v0.1 file whose columns can all be opened.
use libcstable.Prelude.{
  suc, ◌≡◌, refl, ap, List, [], ◌∷◌, length, All, Option, none, some, Result, ok, err, undefined,
  Bool-cases, inl, inr,
}
use libcstable.Prelude.Bytes.{Bytes, bytes_eq}
use libcstable.Stx.{Wire, Packing, Numerics}
use libcstable.Format.{ColumnConfig}
use libcstable.Classes.{AnyReader}
use libcstable.Classes.Readers
use libcstable.Table.Reader.{Reader, v1, readers_by_name, find, open_columns_v1}
use libcstable.Table.Reader.Sorted.{find_config}

module _ (N : Numerics) (W : Wire) (P : Packing) (file : Bytes) where
  -- The column can be opened.
  pub record Opens (col : ColumnConfig) : Type 0 where
    pub reader : AnyReader P
    pub reader_is : Readers.open_reader N W P file col ≡ ok reader

  abbrev reader_in : Result (AnyReader P) → Option (Reader P)
  reader_in (ok rd) = some (v1 rd)
  reader_in (err e) = none
  reader_in undefined = none

  -- The reader of the column found.
  abbrev pub found : Option ColumnConfig → Option (Reader P)
  found none = none
  found (some col) = reader_in (Readers.open_reader N W P file col)

  -- The readers that openFile makes, as many as columns, and found by the columns' names.
  pub record AreReaders (cols : List ColumnConfig) : Type 0 where
    pub readers : List (Reader P)
    pub readers_are : open_columns_v1 N W P file cols ≡ ok readers
    pub as_many : length readers ≡ length cols
    pub found_by :
        (name : Bytes) → find name (readers_by_name cols readers) ≡ found (find_config name cols)

  found_first :
      (name : Bytes) (col : ColumnConfig) (cols : List ColumnConfig) (rd : AnyReader P)
      (readers : List (Reader P))
      → Readers.open_reader N W P file col ≡ ok rd
      → find name (readers_by_name cols readers) ≡ found (find_config name cols)
      → find name (readers_by_name (col ∷ cols) (v1 rd ∷ readers))
        ≡ found (find_config name (col ∷ cols))
  unfolding find readers_by_name
  found_first name col cols rd readers e ih = elim (Bool-cases (bytes_eq col.column_name name)) [
    | inl same ↦ rw (same, e)
    | inr other ↦ rw other ih
  ]

  pub Opens-AreReaders : (cols : List ColumnConfig) → All Opens cols → AreReaders cols
  unfolding open_columns_v1 readers_by_name find
  Opens-AreReaders [] h = record {
    readers = [];
    readers_are = refl;
    as_many = refl;
    found_by = λ name. refl;
  }
  Opens-AreReaders (col ∷ cols) (o, os) =
      let r = Opens-AreReaders cols os in
      record {
        readers = v1 o.reader ∷ r.readers;
        readers_are = rw (o.reader_is, r.readers_are);
        as_many = ap suc r.as_many;
        found_by =
            λ name. found_first name col cols o.reader r.readers o.reader_is (r.found_by name);
      }
