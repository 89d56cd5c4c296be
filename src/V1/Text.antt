-- ===== src/V1/Text.antt =====
-- Columns of texts: v1::StringColumnWriter and v1::StringColumnReader.
use libcstable.Prelude.{
  ℕ, ◌^◌, ◌<◌, ◌≡◌, refl, Bool, true, false, ◌&&◌, List, [], ◌∷◌, ◌++◌, length, All, Result, ok,
  invalid_conversion, buffer_overflow, need, if◌then◌else◌, leb, ◌==◌, arith, append_assoc, Option,
  none, some, take, drop, take-append, drop-append, length-append, le→leb,
}
use libcstable.Prelude.Bytes.{Bytes}
use libcstable.Prelude.Int.{ℤ, pos}
use libcstable.Stx.{Wire, Packing, Numerics}
use libcstable.Column.{ColumnSink}
use libcstable.V1.{
  ColumnWriter, ColumnReader, Cell, column_writer, write_null, append_datum, commit, as_u32,
  body_size, write, open_reader, read_value, eof_reached,
}
use libcstable.V1.Entries.{Entry, IsEntry, cells, write_all, read_back}
use libcstable.V1.RoundTrip.{plain-IsCodec, round_trip}
use libcstable.V1.Sink.{convert, parse, skip, copy}
use native.Mathlib.Nat.{le_refl}

-- `text == "true"`.
abbrev pub is_true : Bytes → Bool
is_true (t ∷ r ∷ u ∷ e ∷ []) = (t == b't') && (r == b'r') && (u == b'u') && (e == b'e')
is_true _ = false

module _ (W : Wire) (P : Packing) where
  -- The length, as a uint32_t, and the text.
  unfoldable pub encoded : Bytes → Bytes
  encoded text = W.u32 (as_u32 (length text)) ++ text

  unfoldable pub put_value : Bytes → Bytes → Bytes
  unfolding encoded
  put_value bs text = bs ++ encoded text

  -- Takes `n` bytes off, which readString refuses if there are fewer.
  split_text : ℕ → Bytes → Option (Bytes × Bytes)
  split_text n bs = if leb n (length bs) then some (take n bs, drop n bs) else none

  get_text : Bytes → Option (Bytes × Bytes)
  unfolding split_text
  get_text bs = elim (W.get_u32 bs) [ none ↦ none | some (n, rest) ↦ split_text n rest ]

  get_value : Bytes → Result (Bytes × Bytes)
  unfolding get_text
  get_value bs = need buffer_overflow (get_text bs)

  -- The constructor of the writer.
  unfoldable pub new_writer : ℕ → ℕ → ColumnWriter P Bytes
  unfolding column_writer
  new_writer r d = column_writer P r d []

  unfoldable pub add_value : ℕ → ℕ → Bytes → ColumnWriter P Bytes → ColumnWriter P Bytes
  unfolding put_value
  add_value = append_datum P put_value

  -- addDatum of a text.
  unfoldable pub add_datum : ℕ → ℕ → Bytes → ColumnWriter P Bytes → Result (ColumnWriter P Bytes)
  add_datum r d bytes w = ok (add_value r d bytes w)

  unfoldable pub size : Bytes → ℕ
  size data_writer = length data_writer

  pub write_data : Bytes → Bytes
  write_data data_writer = data_writer

  -- The data reader is a message reader over the data region.
  pub open_data : Bytes → Result Bytes
  open_data region = ok region

  pub new_reader : ℕ → ℕ → Bytes → Result (ColumnReader P Bytes)
  unfolding open_data
  new_reader = open_reader P W open_data

  unfoldable pub read_string : ColumnReader P Bytes → Result (Cell Bytes × ColumnReader P Bytes)
  unfolding get_value
  read_string = read_value P get_value []

  unfoldable pub read_boolean : ColumnReader P Bytes → Result (Cell Bool × ColumnReader P Bytes)
  read_boolean = convert (λ text. is_true text) false read_string

  unfoldable pub read_unsigned_int :
      (N : Numerics) → ColumnReader P Bytes → Result (Cell ℕ × ColumnReader P Bytes)
  read_unsigned_int N = parse (λ text. need invalid_conversion (N.stoull text)) 0 read_string

  unfoldable pub read_signed_int :
      (N : Numerics) → ColumnReader P Bytes → Result (Cell ℤ × ColumnReader P Bytes)
  read_signed_int N = parse (λ text. need invalid_conversion (N.stoll text)) (pos 0) read_string

  unfoldable pub read_float :
      (N : Numerics) → ColumnReader P Bytes → Result (Cell N.Double × ColumnReader P Bytes)
  read_float N = parse (λ text. need invalid_conversion (N.stod text)) N.zero_double read_string

  pub skip_value : ColumnReader P Bytes → Result (ColumnReader P Bytes)
  skip_value = skip read_string

  pub copy_value :
      {N : Numerics} {K : Type 0}
      → ColumnSink N K
      → ColumnReader P Bytes
      → K
      → Result (ColumnReader P Bytes × K)
  copy_value S rd = copy S S.write_string rd.d_max read_string rd

abbrev pub IsText : Bytes → Type 0
IsText text = length text < 2 ^ 32

module _ (W : Wire) (P : Packing) where
  get_text-encoded :
      (text rest : Bytes)
      → IsText text
      → get_text W P (encoded W P text ++ rest) ≡ some (text, rest)
  unfolding get_text split_text encoded
  get_text-encoded text rest h =
      let e : as_u32 (length text) ≡ length text = omega arith in
      rw (
        e,
        append_assoc,
        get_text,
        W.get_u32-u32 (length text) (text ++ rest) h,
        le→leb (length text) (length (text ++ rest)) (omega (arith, length-append text rest)),
        take-append (length text) text rest refl,
        drop-append (length text) text rest refl,
      )

module _ (W : Wire) (P : Packing) where
  -- A new column, after the entries are written to it and it is committed.
  abbrev pub written_column : ℕ → ℕ → List (Entry Bytes) → ColumnWriter P Bytes
  written_column r_max d_max es =
      commit P (write_all (write_null P) (add_value W P) es (new_writer W P r_max d_max))

  -- For levels below 2 ^ 32 and entries within them whose texts are shorter than 2 ^ 32:
  -- if the entries are written to a new text column, and its body is written to a buffer of its
  -- size (below 2 ^ 64), then a reader of the body returns exactly these entries, as many as were
  -- written, and is then at the end.
  pub string_round_trip :
      (r_max d_max : ℕ) (es : List (Entry Bytes)) (buf : Bytes)
      → r_max < 2 ^ 32
      → d_max < 2 ^ 32
      → length es < 2 ^ 64
      → All (IsEntry r_max d_max IsText) es
      → length buf ≡ body_size P (size W P) (written_column r_max d_max es)
      → length buf < 2 ^ 64
      → read_back
          (new_reader W P r_max d_max)
          (read_string W P)
          (eof_reached P)
          (length es)
          (write P W (size W P) (write_data W P) (written_column r_max d_max es) buf)
        ≡ ok (cells [] es, true)
  unfolding add_value new_writer new_reader read_string size write_data put_value get_value
      open_data encoded
  string_round_trip r_max d_max es buf hr hd hn h hb hl =
      round_trip W P
        (plain-IsCodec W P (encoded W P) (get_text W P) IsText (get_text-encoded W P) (size W P)
          (λ bs. le_refl _))
        [] r_max d_max es buf hr hd hn h hb hl
