-- ===== src/V1/Uint64.antt =====
-- Columns of 64-bit integers: v1::UInt64ColumnWriter and v1::UInt64ColumnReader.
use libcstable.Prelude.{
  ℕ, ◌+◌, ◌^◌, ◌<◌, ◌≡◌, Bool, true, false, not, List, [], ◌++◌, length, All, Result, ok, err,
  illegal_argument, buffer_overflow, need, if◌then◌else◌, ltb, ◌==◌, arith,
}
use libcstable.Prelude.Bytes.{Bytes, load}
use libcstable.Prelude.Int.{ℤ, of_bits, pos}
use libcstable.Stx.{Wire, Packing, Numerics}
use libcstable.Column.{ColumnSink}
use libcstable.V1.{
  ColumnWriter, ColumnReader, Cell, column_writer, write_null, append_datum, commit, body_size,
  write, open_reader, read_value, eof_reached,
}
use libcstable.V1.Entries.{Entry, IsEntry, cells, write_all, read_back}
use libcstable.V1.RoundTrip.{plain-IsCodec, round_trip}
use libcstable.V1.Sink.{convert, skip, copy}

module _ (W : Wire) (P : Packing) where
  unfoldable pub put_value : Bytes → ℕ → Bytes
  put_value bs v = bs ++ W.u64 v

  get_value : Bytes → Result (ℕ × Bytes)
  get_value bs = need buffer_overflow (W.get_u64 bs)

  -- The constructor of the writer.
  unfoldable pub new_writer : ℕ → ℕ → ColumnWriter P Bytes
  unfolding column_writer
  new_writer r d = column_writer P r d []

  unfoldable pub add_value : ℕ → ℕ → ℕ → ColumnWriter P Bytes → ColumnWriter P Bytes
  unfolding put_value
  add_value = append_datum P put_value

  -- addDatum of the bytes of a uint64_t.
  unfoldable pub add_datum : ℕ → ℕ → Bytes → ColumnWriter P Bytes → Result (ColumnWriter P Bytes)
  add_datum r d bytes w =
      if not (length bytes == 8) then err illegal_argument else ok (add_value r d (load bytes) w)

  unfoldable pub size : Bytes → ℕ
  size data_writer = 8 + length data_writer

  pub write_data : Bytes → Bytes
  write_data data_writer = data_writer

  -- The data reader is a message reader over the data region.
  pub open_data : Bytes → Result Bytes
  open_data region = ok region

  pub new_reader : ℕ → ℕ → Bytes → Result (ColumnReader P Bytes)
  unfolding open_data
  new_reader = open_reader P W open_data

  unfoldable pub read_unsigned_int : ColumnReader P Bytes → Result (Cell ℕ × ColumnReader P Bytes)
  unfolding get_value
  read_unsigned_int = read_value P get_value 0

  unfoldable pub read_boolean : ColumnReader P Bytes → Result (Cell Bool × ColumnReader P Bytes)
  read_boolean = convert (λ v. ltb 1 v) false read_unsigned_int

  unfoldable pub read_signed_int : ColumnReader P Bytes → Result (Cell ℤ × ColumnReader P Bytes)
  read_signed_int = convert of_bits (pos 0) read_unsigned_int

  unfoldable pub read_float :
      (N : Numerics) → ColumnReader P Bytes → Result (Cell N.Double × ColumnReader P Bytes)
  read_float N = convert N.of_unsigned N.zero_double read_unsigned_int

  unfoldable pub read_string :
      (N : Numerics) → ColumnReader P Bytes → Result (Cell Bytes × ColumnReader P Bytes)
  read_string N = convert N.show_unsigned [] read_unsigned_int

  pub skip_value : ColumnReader P Bytes → Result (ColumnReader P Bytes)
  skip_value = skip read_unsigned_int

  pub copy_value :
      {N : Numerics} {K : Type 0}
      → ColumnSink N K
      → ColumnReader P Bytes
      → K
      → Result (ColumnReader P Bytes × K)
  copy_value S rd = copy S S.write_unsigned_int rd.d_max read_unsigned_int rd

abbrev pub IsU64 : ℕ → Type 0
IsU64 v = v < 2 ^ 64

module _ (W : Wire) (P : Packing) where
  -- A new column, after the entries are written to it and it is committed.
  abbrev pub written_column : ℕ → ℕ → List (Entry ℕ) → ColumnWriter P Bytes
  written_column r_max d_max es =
      commit P (write_all (write_null P) (add_value W P) es (new_writer W P r_max d_max))

  -- For levels below 2 ^ 32 and entries within them whose values are below 2 ^ 64:
  -- if the entries are written to a new 64-bit column, and its body is written to a buffer of its
  -- size (below 2 ^ 64), then a reader of the body returns exactly these entries, as many as were
  -- written, and is then at the end.
  pub uint64_round_trip :
      (r_max d_max : ℕ) (es : List (Entry ℕ)) (buf : Bytes)
      → r_max < 2 ^ 32
      → d_max < 2 ^ 32
      → length es < 2 ^ 64
      → All (IsEntry r_max d_max IsU64) es
      → length buf ≡ body_size P (size W P) (written_column r_max d_max es)
      → length buf < 2 ^ 64
      → read_back
          (new_reader W P r_max d_max)
          (read_unsigned_int W P)
          (eof_reached P)
          (length es)
          (write P W (size W P) (write_data W P) (written_column r_max d_max es) buf)
        ≡ ok (cells 0 es, true)
  unfolding add_value new_writer new_reader read_unsigned_int size write_data put_value get_value
      open_data
  uint64_round_trip r_max d_max es buf hr hd hn h hb hl =
      round_trip W P
        (plain-IsCodec W P W.u64 W.get_u64 IsU64 W.get_u64-u64 (size W P) (λ bs. omega arith)) 0
        r_max d_max es buf hr hd hn h hb hl
