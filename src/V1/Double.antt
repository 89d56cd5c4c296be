-- ===== src/V1/Double.antt =====
-- Columns of doubles: v1::DoubleColumnWriter and v1::DoubleColumnReader.
use libcstable.Prelude.{
  ℕ, ◌+◌, ◌^◌, ◌<◌, ◌≡◌, Bool, true, false, not, List, [], ◌++◌, length, All, Result, ok, err,
  illegal_argument, buffer_overflow, need, if◌then◌else◌, ◌==◌, arith, Option, none, some,
}
use libcstable.Prelude.Bytes.{Bytes, load}
use libcstable.Prelude.Int.{ℤ, pos}
use libcstable.Stx.{Wire, Packing, Numerics}
use libcstable.Column.{ColumnSink}
use libcstable.V1.{
  ColumnWriter, ColumnReader, Cell, column_writer, write_null, append_datum, commit, body_size,
  write, open_reader, read_value, eof_reached,
}
use libcstable.V1.Entries.{Entry, IsEntry, cells, write_all, read_back}
use libcstable.V1.RoundTrip.{plain-IsCodec, round_trip}
use libcstable.V1.Sink.{convert, skip, copy}

module _ (W : Wire) (P : Packing) (N : Numerics) where
  open N use {Double, zero_double, to_bytes, from_bytes}

  -- appendDouble and readDouble.
  unfoldable pub put_value : Bytes → Double → Bytes
  put_value bs v = bs ++ W.u64 (to_bytes v)

  get_double : Bytes → Option (Double × Bytes)
  get_double bs = elim (W.get_u64 bs) [ none ↦ none | some (n, rest) ↦ some (from_bytes n, rest) ]

  get_value : Bytes → Result (Double × Bytes)
  unfolding get_double
  get_value bs = need buffer_overflow (get_double bs)

  -- The constructor of the writer.
  unfoldable pub new_writer : ℕ → ℕ → ColumnWriter P Bytes
  unfolding column_writer
  new_writer r d = column_writer P r d []

  unfoldable pub add_value : ℕ → ℕ → Double → ColumnWriter P Bytes → ColumnWriter P Bytes
  unfolding put_value
  add_value = append_datum P put_value

  -- addDatum of the bytes of a double.
  unfoldable pub add_datum : ℕ → ℕ → Bytes → ColumnWriter P Bytes → Result (ColumnWriter P Bytes)
  add_datum r d bytes w =
      if not (length bytes == 8)
      then err illegal_argument
      else ok (add_value r d (from_bytes (load bytes)) w)

  unfoldable pub size : Bytes → ℕ
  size data_writer = 8 + length data_writer

  pub write_data : Bytes → Bytes
  write_data data_writer = data_writer

  -- The data reader is a message reader over the data region.
  pub open_data : Bytes → Result Bytes
  open_data region = ok region

  pub new_reader : ℕ → ℕ → Bytes → Result (ColumnReader P Bytes)
  unfolding open_data
  new_reader = open_reader P W open_data

  unfoldable pub read_float : ColumnReader P Bytes → Result (Cell Double × ColumnReader P Bytes)
  unfolding get_value
  read_float = read_value P get_value zero_double

  unfoldable pub read_boolean : ColumnReader P Bytes → Result (Cell Bool × ColumnReader P Bytes)
  read_boolean = convert N.above_one false read_float

  unfoldable pub read_unsigned_int : ColumnReader P Bytes → Result (Cell ℕ × ColumnReader P Bytes)
  read_unsigned_int = convert N.to_unsigned 0 read_float

  unfoldable pub read_signed_int : ColumnReader P Bytes → Result (Cell ℤ × ColumnReader P Bytes)
  read_signed_int = convert N.to_signed (pos 0) read_float

  unfoldable pub read_string : ColumnReader P Bytes → Result (Cell Bytes × ColumnReader P Bytes)
  read_string = convert N.show_double [] read_float

  pub skip_value : ColumnReader P Bytes → Result (ColumnReader P Bytes)
  skip_value = skip read_float

  pub copy_value :
      {K : Type 0} → ColumnSink N K → ColumnReader P Bytes → K → Result (ColumnReader P Bytes × K)
  copy_value S rd = copy S S.write_float rd.d_max read_float rd

module _ (W : Wire) (P : Packing) (N : Numerics) where
  abbrev encoded : N.Double → Bytes
  encoded v = W.u64 (N.to_bytes v)

  -- Every double fits.
  abbrev pub IsDouble : N.Double → Type 0
  IsDouble v = Unit

  get_double-encoded :
      (v : N.Double) (rest : Bytes)
      → IsDouble v
      → get_double W P N (encoded v ++ rest) ≡ some (v, rest)
  unfolding get_double
  get_double-encoded v rest h =
      rw (get_double, W.get_u64-u64 (N.to_bytes v) rest (N.to_bytes-lt v), N.from_bytes-to_bytes v)

  -- A new column, after the entries are written to it and it is committed.
  abbrev pub written_column : ℕ → ℕ → List (Entry N.Double) → ColumnWriter P Bytes
  written_column r_max d_max es =
      commit P (write_all (write_null P) (add_value W P N) es (new_writer W P N r_max d_max))

  -- For levels below 2 ^ 32 and entries within them: if the entries are written to a new column of
  -- doubles, and its body is written to a buffer of its size (below 2 ^ 64), then a reader of the
  -- body returns exactly these entries, as many as were written, and is then at the end.
  pub double_round_trip :
      (r_max d_max : ℕ) (es : List (Entry N.Double)) (buf : Bytes)
      → r_max < 2 ^ 32
      → d_max < 2 ^ 32
      → length es < 2 ^ 64
      → All (IsEntry r_max d_max IsDouble) es
      → length buf ≡ body_size P (size W P N) (written_column r_max d_max es)
      → length buf < 2 ^ 64
      → read_back
          (new_reader W P N r_max d_max)
          (read_float W P N)
          (eof_reached P)
          (length es)
          (write P W (size W P N) (write_data W P N) (written_column r_max d_max es) buf)
        ≡ ok (cells N.zero_double es, true)
  unfolding add_value new_writer new_reader read_float size write_data put_value get_value open_data
  double_round_trip r_max d_max es buf hr hd hn h hb hl =
      round_trip W P
        (plain-IsCodec W P encoded (get_double W P N) IsDouble get_double-encoded (size W P N)
          (λ bs. omega arith))
        N.zero_double r_max d_max es buf hr hd hn h hb hl
