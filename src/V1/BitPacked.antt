-- ===== src/V1/BitPacked.antt =====
-- Columns of bit-packed integers: v1::BitPackedIntColumnWriter and v1::BitPackedIntColumnReader.
use libcstable.Prelude.{
  ℕ, ◌+◌, ◌^◌, ◌≤◌, ◌<◌, ◌≡◌, refl, Bool, true, false, ◌||◌, List, [], ◌∷◌, ◌++◌, length, All,
  Result, ok, err, illegal_argument, buffer_overflow, undefined, need, if◌then◌else◌, ltb, ◌==◌,
  arith, ◌∙◌, none, some, length-append,
}
use libcstable.Prelude.Bytes.{Bytes, load}
use libcstable.Prelude.Int.{ℤ, of_bits, pos}
use libcstable.Stx.{Wire, Packing, Numerics}
use libcstable.Column.{ColumnSink}
use libcstable.V1.{
  ColumnWriter, ColumnReader, Cell, column_writer, write_null, append_datum, commit, as_u32,
  body_size, write, open_reader, read_value, eof_reached,
}
use libcstable.V1.Entries.{Entry, IsEntry, cells, write_all, read_back}
use libcstable.V1.RoundTrip.{IsCodec, no_junk, round_trip}
use libcstable.V1.Sink.{convert, skip, copy}
use mathlib.Core.List.{foldl}

-- The data writer of the class: the maximum and the encoder.
pub record PackedData (P : Packing) : Type 0 where
  pub max_value : ℕ
  pub encoder : P.Encoder

module _ (P : Packing) where
  open P use {Decoder, encode, flush, packed, decoder, next}

  unfoldable pub put_value : PackedData P → ℕ → PackedData P
  put_value e v = record e { encoder = encode e.encoder (as_u32 v) }

  get_value : Decoder → Result (ℕ × Decoder)
  get_value d = need buffer_overflow (next d)

  -- The table opens a column with the maximum 0xffffffff.
  unfoldable pub new_writer : ℕ → ℕ → ℕ → ColumnWriter P (PackedData P)
  unfolding column_writer
  new_writer r d max_value =
      column_writer P r d (record { max_value = max_value; encoder = P.encoder max_value })

  unfoldable pub add_value :
      ℕ → ℕ → ℕ → ColumnWriter P (PackedData P) → ColumnWriter P (PackedData P)
  unfolding put_value
  add_value = append_datum P put_value

  -- addDatum of the bytes of a uint8_t, a uint32_t or a uint64_t; the last is narrowed.
  unfoldable pub add_datum :
      ℕ → ℕ → Bytes → ColumnWriter P (PackedData P) → Result (ColumnWriter P (PackedData P))
  add_datum r d bytes w =
      if (length bytes == 1) || (length bytes == 4) || (length bytes == 8)
      then ok (add_value r d (load bytes) w)
      else err illegal_argument

  unfoldable pub finish : PackedData P → PackedData P
  finish data_writer = record data_writer { encoder = flush data_writer.encoder }

  unfoldable pub commit_column : ColumnWriter P (PackedData P) → ColumnWriter P (PackedData P)
  unfolding commit finish
  commit_column w = let w' = commit P w in record w' { data_writer = finish w'.data_writer }

  unfoldable pub size : PackedData P → ℕ
  size data_writer = 4 + length (packed data_writer.encoder)

  pub write_data : Wire → PackedData P → Bytes
  write_data W data_writer = Wire.u32 W data_writer.max_value ++ packed data_writer.encoder

  -- The region begins with the maximum, a uint32_t; the packed values are the rest of it.
  pub open_data : Wire → Bytes → Result Decoder
  open_data W region = elim (W.get_u32 region) [
    | none ↦ undefined
    | some (m, rest) ↦ ok (decoder m rest)
  ]

  pub new_reader : Wire → ℕ → ℕ → Bytes → Result (ColumnReader P Decoder)
  unfolding open_data
  new_reader W = open_reader P W (open_data W)

  unfoldable pub read_unsigned_int :
      ColumnReader P Decoder → Result (Cell ℕ × ColumnReader P Decoder)
  unfolding get_value
  read_unsigned_int = read_value P get_value 0

  unfoldable pub read_boolean : ColumnReader P Decoder → Result (Cell Bool × ColumnReader P Decoder)
  read_boolean = convert (λ v. ltb 1 v) false read_unsigned_int

  unfoldable pub read_signed_int : ColumnReader P Decoder → Result (Cell ℤ × ColumnReader P Decoder)
  read_signed_int = convert of_bits (pos 0) read_unsigned_int

  unfoldable pub read_float :
      (N : Numerics) → ColumnReader P Decoder → Result (Cell N.Double × ColumnReader P Decoder)
  read_float N = convert N.of_unsigned N.zero_double read_unsigned_int

  unfoldable pub read_string :
      (N : Numerics) → ColumnReader P Decoder → Result (Cell Bytes × ColumnReader P Decoder)
  read_string N = convert N.show_unsigned [] read_unsigned_int

  pub skip_value : ColumnReader P Decoder → Result (ColumnReader P Decoder)
  skip_value = skip read_unsigned_int

  pub copy_value :
      {N : Numerics} {K : Type 0}
      → ColumnSink N K
      → ColumnReader P Decoder
      → K
      → Result (ColumnReader P Decoder × K)
  copy_value S rd = copy S S.write_unsigned_int rd.d_max read_unsigned_int rd

module _ (W : Wire) (P : Packing) (max_value : ℕ) (max_fits : max_value < 2 ^ 32) where
  open P use {encode, flush, packed, decoder, next}

  abbrev pub IsBelowMax : ℕ → Type 0
  IsBelowMax v = v ≤ max_value

  abbrev start : PackedData P
  start = record { max_value = max_value; encoder = P.encoder max_value }

  foldl-put_value :
      (vs : List ℕ) (e : P.Encoder)
      → All IsBelowMax vs
      → foldl (put_value P) (record { max_value = max_value; encoder = e }) vs
        ≡ record { max_value = max_value; encoder = foldl encode e vs }
  unfolding put_value
  foldl-put_value [] e h = refl
  foldl-put_value (v ∷ vs) e (hv, hvs) =
      let n : as_u32 v ≡ v = omega arith in rw n (foldl-put_value vs (encode e v) hvs)

  packed-IsCodec :
      IsCodec W P
        (put_value P)
        (finish P)
        (size P)
        (write_data P W)
        (open_data P W)
        next
        start
        IsBelowMax
  unfolding size write_data open_data finish
  packed-IsCodec = record {
    payload-le-size = λ vs h. rw (foldl-put_value vs (P.encoder max_value) h) (
        omega (
          arith,
          length-append (W.u32 max_value) (packed (flush (foldl encode (P.encoder max_value) vs))),
          W.length-u32 max_value,
        ));
    reads = λ vs junk h hj.
        let bs = packed (flush (foldl encode (P.encoder max_value) vs)) in
        let e = foldl-put_value vs (P.encoder max_value) h in
        let n : length ((W.u32 max_value ++ bs) ++ junk) ≡ length (W.u32 max_value ++ bs) =
          rw e at hj ∙ omega (arith, length-append (W.u32 max_value) bs, W.length-u32 max_value) in
        (
          decoder max_value bs,
          rw (
            e,
            no_junk (W.u32 max_value ++ bs) junk n,
            open_data,
            W.get_u32-u32 max_value bs max_fits,
          ),
          P.unpack max_value vs max_fits h,
        );
  }

  -- A new column, after the entries are written to it and it is committed.
  abbrev pub written_column : ℕ → ℕ → List (Entry ℕ) → ColumnWriter P (PackedData P)
  written_column r_max d_max es =
      commit_column P
        (write_all (write_null P) (add_value P) es (new_writer P r_max d_max max_value))

  -- For a maximum below 2 ^ 32, levels below 2 ^ 32 and entries within them whose values are at
  -- most the maximum: if the entries are written to a new bit-packed column of that maximum, and
  -- its body is written to a buffer of its size (below 2 ^ 64), then a reader of the body, which
  -- takes the maximum from the body, returns exactly these entries, as many as were written, and is
  -- then at the end.
  pub bitpacked_round_trip :
      (r_max d_max : ℕ) (es : List (Entry ℕ)) (buf : Bytes)
      → r_max < 2 ^ 32
      → d_max < 2 ^ 32
      → length es < 2 ^ 64
      → All (IsEntry r_max d_max IsBelowMax) es
      → length buf ≡ body_size P (size P) (written_column r_max d_max es)
      → length buf < 2 ^ 64
      → read_back
          (new_reader P W r_max d_max)
          (read_unsigned_int P)
          (eof_reached P)
          (length es)
          (write P W (size P) (write_data P W) (written_column r_max d_max es) buf)
        ≡ ok (cells 0 es, true)
  unfolding add_value new_writer new_reader read_unsigned_int commit_column get_value
  bitpacked_round_trip r_max d_max es buf hr hd hn h hb hl =
      round_trip W P packed-IsCodec 0 r_max d_max es buf hr hd hn h hb hl
