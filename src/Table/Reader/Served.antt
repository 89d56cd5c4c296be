-- ===== src/Table/Reader/Served.antt =====
-- The columns of a committed v0.1 table, one by one: each can be written, has a place in the file,
-- and is opened from there.
use libcstable.Prelude.{
  ℕ, ◌+◌, ◌%◌, ◌^◌, ◌≤◌, ◌<◌, ◌≡◌, refl, sym, ◌∙◌, List, [], ◌∷◌, length, take, drop, map, All,
  Result, ok, arith, le→leb,
}
use libcstable.Prelude.Bytes.{Bytes}
use libcstable.Stx.{Wire, Packing, Numerics}
use libcstable.Format.{ColumnConfig, IsKnownEncoding}
use libcstable.Table.Bodies.{commit_columns, place}
use libcstable.Table.Bodies.Layout.{body_sizes}
use libcstable.Table.Bodies.Header.{IsColumnV1, restored_v1, configs}
use libcstable.Table.Bodies.Written.{AreWritable, HoldsBodies}
use libcstable.Classes.{AnyWriter, AnyReader, bodies, commit, body_size}
use libcstable.Classes.Readers
use libcstable.Classes.Readers.{reader_of}
use libcstable.Classes.Contents.{
  Contents, booleans, bitpackeds, uint32s, uint64s, leb128s, doubles, strings, encoding_for,
  IsWithin, filled,
}
use libcstable.Classes.ReadBack.{Reads, IsStored, filled-IsStored}
use libcstable.Table.Reader.Found.{Opens}

-- A column, and what is written to it.
abbrev pub Item : Numerics → Type 0
Item N = ColumnConfig × Contents N

-- The column has the encoding of its contents, levels and a name that fit the header, and entries
-- within its levels.
pub record IsItem {N : Numerics} (item : Item N) : Type 0 where
  pub encoding_is : item.0.storage_type ≡ encoding_for item.1
  pub name_fits : length item.0.column_name < 2 ^ 32
  pub rlevel_fits : item.0.rlevel_max < 2 ^ 32
  pub dlevel_fits : item.0.dlevel_max < 2 ^ 32
  pub within : IsWithin item.0.rlevel_max item.0.dlevel_max item.1

ok-injective : {A : Type 0} {a b : A} → ◌≡◌ {A = Result A} (ok a) (ok b) → a ≡ b
ok-injective h = cc

encoding_for-IsKnownEncoding : {N : Numerics} (c : Contents N) → IsKnownEncoding (encoding_for c)
encoding_for-IsKnownEncoding (booleans es) = tt
encoding_for-IsKnownEncoding (bitpackeds es) = tt
encoding_for-IsKnownEncoding (uint32s es) = tt
encoding_for-IsKnownEncoding (uint64s es) = tt
encoding_for-IsKnownEncoding (leb128s es) = tt
encoding_for-IsKnownEncoding (doubles es) = tt
encoding_for-IsKnownEncoding (strings es) = tt

module _ (N : Numerics) (W : Wire) (P : Packing) where
  -- The columns of the table writer, after the contents are written.
  abbrev pub written_columns : List (Item N) → List (ColumnConfig × AnyWriter P)
  written_columns [] = []
  written_columns ((col, c) ∷ items) =
      (col, filled N W P col.rlevel_max col.dlevel_max c) ∷ written_columns items

  -- The same, committed and with their places from `start` on.
  abbrev pub located : ℕ → List (Item N) → List (ColumnConfig × AnyWriter P)
  located start items = place start (commit_columns (bodies N W P) (written_columns items))

  abbrev pub sizes : List (Item N) → ℕ
  sizes items = body_sizes (commit_columns (bodies N W P) (written_columns items))

  -- The size of a column's body, and where the next one begins.
  abbrev size_of : Item N → ℕ
  size_of (col, c) = body_size N W P (commit N W P (filled N W P col.rlevel_max col.dlevel_max c))

  abbrev behind : ℕ → Item N → ℕ
  behind start item = (start + size_of item) % 2 ^ 64

  pub located-IsColumnV1 :
      (start : ℕ) (items : List (Item N))
      → start < 2 ^ 64
      → sizes items < 2 ^ 64
      → All IsItem items
      → All IsColumnV1 (configs (located start items))
  unfolding place commit_columns
  located-IsColumnV1 start [] hs ht h = tt
  located-IsColumnV1 start ((col, c) ∷ items) hs ht (h, hi) = (
    record {
      encoding_known = rw h.encoding_is (encoding_for-IsKnownEncoding c);
      name_fits = h.name_fits;
      rlevel_fits = h.rlevel_fits;
      dlevel_fits = h.dlevel_fits;
      offset_fits = hs;
      size_fits = omega arith;
    },
    located-IsColumnV1 (behind start (col, c)) items (omega arith) (omega arith) hi,
  )

  module _ (fresh : ℕ → Bytes) (length-fresh : (n : ℕ) → length (fresh n) ≡ n) where
    -- The column's body, written to a new buffer of its size.
    stored :
        (item : Item N)
        → IsItem item
        → (size : ℕ) → size ≡ size_of item
        → size < 2 ^ 64
        → IsStored N W P item.0.rlevel_max item.0.dlevel_max item.1 (fresh size)
    stored item h size e hs =
        filled-IsStored N W P item.0.rlevel_max item.0.dlevel_max item.1 (fresh size) h.rlevel_fits
          h.dlevel_fits h.within (length-fresh size ∙ e) (omega (arith, length-fresh size))

    pub located-AreWritable :
        (start : ℕ) (items : List (Item N))
        → sizes items < 2 ^ 64
        → All IsItem items
        → AreWritable (bodies N W P) fresh (located start items)
    unfolding place commit_columns
    located-AreWritable start [] ht h = tt
    located-AreWritable start ((col, c) ∷ items) ht (h, hi) =
        let s = stored (col, c) h (size_of (col, c)) refl (omega arith) in
        (
          (s.bytes, s.bytes_are, s.length_kept ∙ length-fresh _),
          located-AreWritable (behind start (col, c)) items (omega arith) hi,
        )

-- The column's configuration in the reader, and its reader.
pub record IsServed (N : Numerics) (W : Wire) (P : Packing) (file : Bytes) (item : Item N)
    (col : ColumnConfig) : Type 0 where
  pub name_is : col.column_name ≡ item.0.column_name
  pub reader : AnyReader P
  pub reader_is : Readers.open_reader N W P file col ≡ ok reader
  pub reads : Reads N W P item.1 reader

module _ (N : Numerics) (W : Wire) (P : Packing) (file : Bytes) where
  abbrev pub AreServed : List (Item N) → List ColumnConfig → Type 0
  AreServed [] [] = Unit
  AreServed [] (col ∷ cols) = ⊥
  AreServed (item ∷ items) [] = ⊥
  AreServed (item ∷ items) (col ∷ cols) = IsServed N W P file item col × AreServed items cols

  opened_column :
      (blank col : ColumnConfig) (c : Contents N) (start size : ℕ) (fresh : Bytes)
      → col.storage_type ≡ encoding_for c
      → (s : IsStored N W P col.rlevel_max col.dlevel_max c fresh) → start + size ≤ length file
      → take size (drop start file) ≡ s.bytes
      → IsServed N W P file
          (col, c)
          (restored_v1 blank (record col { body_offset = start; body_size = size }))
  unfolding Readers.open_reader
  opened_column blank col c start size fresh he s le e = record {
    name_is = refl;
    reader = s.reader;
    reader_is = rw (le→leb (start + size) (length file) le, e, he) s.reader_is;
    reads = s.reads;
  }

  module _ (fresh : ℕ → Bytes) (length-fresh : (n : ℕ) → length (fresh n) ≡ n)
      (blank : ColumnConfig) where
    pub located-AreServed :
        (start : ℕ) (items : List (Item N))
        → sizes N W P items < 2 ^ 64
        → All IsItem items
        → HoldsBodies (bodies N W P) fresh file (located N W P start items)
        → AreServed items (map (restored_v1 blank) (configs (located N W P start items)))
    unfolding place commit_columns
    located-AreServed start [] ht h held = tt
    located-AreServed start ((col, c) ∷ items) ht (h, hi) ((le, e), held) =
        let size = size_of N W P (col, c) in
        let s = stored N W P fresh length-fresh (col, c) h size refl (omega arith) in
        let same : take size (drop start file) ≡ s.bytes = ok-injective (sym e ∙ s.bytes_are) in
        (
          opened_column blank col c start size (fresh size) h.encoding_is s le same,
          located-AreServed (behind N W P start (col, c)) items (omega arith) hi held,
        )

  pub AreServed-Opens :
      (items : List (Item N)) (cols : List ColumnConfig)
      → AreServed items cols
      → All (Opens N W P file) cols
  AreServed-Opens [] [] h = tt
  AreServed-Opens [] (col ∷ cols) h = absurd h
  AreServed-Opens (item ∷ items) [] h = absurd h
  AreServed-Opens (item ∷ items) (col ∷ cols) (h, hs) =
      (record { reader = h.reader; reader_is = h.reader_is }, AreServed-Opens items cols hs)
