-- ===== src/V1/Leb128.antt =====
-- Columns of LEB128 integers: v1::LEB128ColumnWriter and v1::LEB128ColumnReader.
use libcstable.Prelude.{
  ℕ, ◌^◌, ◌<◌, ◌≤◌, ◌≡◌, refl, ap, ◌∙◌, arith, ◌∷◌, map, Bool, true, false, not, ◌&&◌, List, [],
  ◌++◌, length, All, Result, ok, err, illegal_argument, buffer_overflow, need, if◌then◌else◌, ltb,
  ◌==◌,
}
use libcstable.Prelude.Bytes.{Bytes, load}
use libcstable.Prelude.Int.{ℤ, of_bits, pos}
use libcstable.Stx.{Wire, Packing, Numerics}
use libcstable.Column.{ColumnSink}
use libcstable.V1.{
  ColumnWriter, ColumnReader, Cell, cell, column_writer, write_null, append_datum, commit,
  body_size, write, open_reader, read_value, eof_reached,
}
use libcstable.V1.Entries.{Entry, null, datum, IsEntry, cells, write_all, read_back}
use libcstable.V1.RoundTrip.{plain-IsCodec, round_trip}
use libcstable.V1.Sink.{convert, convert_cell, read_back-convert, skip, copy}
use native.Mathlib.Nat.{le_refl}

module _ (W : Wire) (P : Packing) where
  unfoldable pub put_value : Bytes → ℕ → Bytes
  put_value bs v = bs ++ W.varuint v

  get_value : Bytes → Result (ℕ × Bytes)
  get_value bs = need buffer_overflow (W.get_varuint bs)

  -- The constructor of the writer.
  unfoldable pub new_writer : ℕ → ℕ → ColumnWriter P Bytes
  unfolding column_writer
  new_writer r d = column_writer P r d []

  unfoldable pub add_value : ℕ → ℕ → ℕ → ColumnWriter P Bytes → ColumnWriter P Bytes
  unfolding put_value
  add_value = append_datum P put_value

  -- addDatum of the bytes of a uint32_t or a uint64_t.
  unfoldable pub add_datum : ℕ → ℕ → Bytes → ColumnWriter P Bytes → Result (ColumnWriter P Bytes)
  add_datum r d bytes w =
      if not (length bytes == 4) && not (length bytes == 8)
      then err illegal_argument
      else ok (add_value r d (load bytes) w)

  unfoldable pub size : Bytes → ℕ
  size data_writer = length data_writer

  pub write_data : Bytes → Bytes
  write_data data_writer = data_writer

  -- The data reader is a message reader over the data region.
  pub open_data : Bytes → Result Bytes
  open_data region = ok region

  pub new_reader : ℕ → ℕ → Bytes → Result (ColumnReader P Bytes)
  unfolding open_data
  new_reader = open_reader P W open_data

  unfoldable pub read_unsigned_int : ColumnReader P Bytes → Result (Cell ℕ × ColumnReader P Bytes)
  unfolding get_value
  read_unsigned_int = read_value P get_value 0

  unfoldable pub read_boolean : ColumnReader P Bytes → Result (Cell Bool × ColumnReader P Bytes)
  read_boolean = convert (λ v. ltb 1 v) false read_unsigned_int

  unfoldable pub read_signed_int : ColumnReader P Bytes → Result (Cell ℤ × ColumnReader P Bytes)
  read_signed_int = convert of_bits (pos 0) read_unsigned_int

  unfoldable pub read_float :
      (N : Numerics) → ColumnReader P Bytes → Result (Cell N.Double × ColumnReader P Bytes)
  read_float N = convert N.of_unsigned N.zero_double read_unsigned_int

  unfoldable pub read_string :
      (N : Numerics) → ColumnReader P Bytes → Result (Cell Bytes × ColumnReader P Bytes)
  read_string N = convert N.show_unsigned [] read_unsigned_int

  pub skip_value : ColumnReader P Bytes → Result (ColumnReader P Bytes)
  skip_value = skip read_unsigned_int

  pub copy_value :
      {N : Numerics} {K : Type 0}
      → ColumnSink N K
      → ColumnReader P Bytes
      → K
      → Result (ColumnReader P Bytes × K)
  copy_value S rd = copy S S.write_unsigned_int rd.d_max read_unsigned_int rd

abbrev pub IsU64 : ℕ → Type 0
IsU64 v = v < 2 ^ 64

module _ (W : Wire) (P : Packing) where
  -- A new column, after the entries are written to it and it is committed.
  abbrev pub written_column : ℕ → ℕ → List (Entry ℕ) → ColumnWriter P Bytes
  written_column r_max d_max es =
      commit P (write_all (write_null P) (add_value W P) es (new_writer W P r_max d_max))

  -- For levels below 2 ^ 32 and entries within them whose values are below 2 ^ 64:
  -- if the entries are written to a new LEB128 column, and its body is written to a buffer of its
  -- size (below 2 ^ 64), then a reader of the body returns exactly these entries, as many as were
  -- written, and is then at the end.
  pub leb128_round_trip :
      (r_max d_max : ℕ) (es : List (Entry ℕ)) (buf : Bytes)
      → r_max < 2 ^ 32
      → d_max < 2 ^ 32
      → length es < 2 ^ 64
      → All (IsEntry r_max d_max IsU64) es
      → length buf ≡ body_size P (size W P) (written_column r_max d_max es)
      → length buf < 2 ^ 64
      → read_back
          (new_reader W P r_max d_max)
          (read_unsigned_int W P)
          (eof_reached P)
          (length es)
          (write P W (size W P) (write_data W P) (written_column r_max d_max es) buf)
        ≡ ok (cells 0 es, true)
  unfolding add_value new_writer new_reader read_unsigned_int size write_data put_value get_value
      open_data
  leb128_round_trip r_max d_max es buf hr hd hn h hb hl =
      round_trip W P
        (plain-IsCodec W P W.varuint W.get_varuint IsU64 W.get_varuint-varuint (size W P)
          (λ bs. le_refl _))
        0 r_max d_max es buf hr hd hn h hb hl

-- The entries with `false` for every value.
abbrev pub all_false : List (Entry ℕ) → List (Entry Bool)
all_false [] = []
all_false (null r d ∷ es) = null r d ∷ all_false es
all_false (datum r d v ∷ es) = datum r d false ∷ all_false es

abbrev pub IsFlag : ℕ → Type 0
IsFlag v = v ≤ 1

flags-IsEntry :
    (r_max d_max : ℕ) (es : List (Entry ℕ))
    → All (IsEntry r_max d_max IsFlag) es
    → All (IsEntry r_max d_max IsU64) es
flags-IsEntry r_max d_max [] h = tt
flags-IsEntry r_max d_max (null r d ∷ es) (h, hs) = (h, flags-IsEntry r_max d_max es hs)
flags-IsEntry r_max d_max (datum r d v ∷ es) ((hr, hd, hv), hs) =
    ((hr, hd, omega arith), flags-IsEntry r_max d_max es hs)

flag_cells :
    (r_max d_max : ℕ) (es : List (Entry ℕ))
    → All (IsEntry r_max d_max IsFlag) es
    → map (convert_cell (λ v. ltb 1 v) false) (cells 0 es) ≡ cells false (all_false es)
flag_cells r_max d_max [] h = refl
flag_cells r_max d_max (null r d ∷ es) (h, hs) =
    ap (λ t. cell false r d false ∷ t) (flag_cells r_max d_max es hs)
flag_cells r_max d_max (datum r d v ∷ es) ((hr, hd, hv), hs) =
    let small : ltb 1 v ≡ false = ground arith in rw (small, flag_cells r_max d_max es hs)

module _ (W : Wire) (P : Packing) where
  -- For levels below 2 ^ 32 and entries within them whose values are 0 or 1, as writeBoolean writes
  -- them: if the entries are written to a new LEB128 column, and its body is written to a buffer of
  -- its size (below 2 ^ 64), then readBoolean on a reader of the body returns false for each value,
  -- also for those written as true.
  pub leb128_booleans_false :
      (r_max d_max : ℕ) (es : List (Entry ℕ)) (buf : Bytes)
      → r_max < 2 ^ 32
      → d_max < 2 ^ 32
      → length es < 2 ^ 64
      → All (IsEntry r_max d_max IsFlag) es
      → length buf ≡ body_size P (size W P) (written_column W P r_max d_max es)
      → length buf < 2 ^ 64
      → read_back
          (new_reader W P r_max d_max)
          (read_boolean W P)
          (eof_reached P)
          (length es)
          (write P W (size W P) (write_data W P) (written_column W P r_max d_max es) buf)
        ≡ ok (cells false (all_false es), true)
  unfolding read_boolean
  leb128_booleans_false r_max d_max es buf hr hd hn h hb hl =
      read_back-convert (λ v. ltb 1 v) false (new_reader W P r_max d_max) (read_unsigned_int W P)
        (eof_reached P) (length es) _
      ∙ rw (
        leb128_round_trip W P r_max d_max es buf hr hd hn (flags-IsEntry r_max d_max es h) hb hl,
        flag_cells r_max d_max es h,
      )
