-- ===== src/V1/Boolean.antt =====
-- Columns of Booleans: v1::BooleanColumnWriter and v1::BooleanColumnReader.
use libcstable.Prelude.{
  ℕ, zero, suc, ◌^◌, ◌≤◌, ◌<◌, ◌≡◌, refl, ap, Bool, true, false, ◌||◌, List, [], ◌∷◌, length, All,
  Result, ok, err, illegal_argument, buffer_overflow, need, if◌then◌else◌, ltb, ◌==◌, arith, ◌∙◌,
  map,
}
use libcstable.Prelude.Bytes.{Bytes, load}
use libcstable.Prelude.Int.{ℤ, of_bits, pos}
use libcstable.Stx.{Wire, Packing, Numerics}
use libcstable.Column.{ColumnSink}
use libcstable.V1.{
  ColumnWriter, ColumnReader, Cell, cell, column_writer, write_null, append_datum, commit,
  body_size, write, open_reader, read_value, eof_reached,
}
use libcstable.V1.Entries.{Entry, null, datum, IsEntry, cells, write_all, read_back}
use libcstable.V1.RoundTrip.{IsCodec, no_junk, round_trip}
use libcstable.V1.Sink.{convert, convert_cell, read_back-convert, skip, copy}
use native.Mathlib.Nat.{le_refl}
use mathlib.Core.List.{foldl}

abbrev pub true_text : Bytes
true_text = b't' ∷ b'r' ∷ b'u' ∷ b'e' ∷ []

module _ (P : Packing) where
  open P use {Encoder, Decoder, encoder, encode, flush, packed, decoder, next}

  -- data_writer_.encode(value) of a bool.
  unfoldable pub put_value : Encoder → Bool → Encoder
  put_value e v = encode e (if v then 1 else 0)

  get_value : Decoder → Result (ℕ × Decoder)
  get_value d = need buffer_overflow (next d)

  unfoldable pub new_writer : ℕ → ℕ → ColumnWriter P Encoder
  unfolding column_writer
  new_writer r d = column_writer P r d (encoder 1)

  unfoldable pub add_value : ℕ → ℕ → Bool → ColumnWriter P Encoder → ColumnWriter P Encoder
  unfolding put_value
  add_value = append_datum P put_value

  -- addDatum of no bytes, or of the bytes of a uint8_t, a uint32_t or a uint64_t.
  unfoldable pub add_datum :
      ℕ → ℕ → Bytes → ColumnWriter P Encoder → Result (ColumnWriter P Encoder)
  add_datum r d bytes w =
      if length bytes == 0
      then ok (add_value r d false w)
      else if (length bytes == 1) || (length bytes == 4) || (length bytes == 8)
      then ok (add_value r d (ltb 0 (load bytes)) w)
      else err illegal_argument

  unfoldable pub commit_column : ColumnWriter P Encoder → ColumnWriter P Encoder
  unfolding commit
  commit_column w = let w' = commit P w in record w' { data_writer = flush w'.data_writer }

  unfoldable pub size : Encoder → ℕ
  size data_writer = length (packed data_writer)

  pub write_data : Encoder → Bytes
  write_data data_writer = packed data_writer

  -- The data reader unpacks the data region, with maximum 1.
  pub open_data : Bytes → Result Decoder
  open_data region = ok (decoder 1 region)

  pub new_reader : Wire → ℕ → ℕ → Bytes → Result (ColumnReader P Decoder)
  unfolding open_data
  new_reader W = open_reader P W open_data

  unfoldable pub read_unsigned_int :
      ColumnReader P Decoder → Result (Cell ℕ × ColumnReader P Decoder)
  unfolding get_value
  read_unsigned_int = read_value P get_value 0

  unfoldable pub read_boolean : ColumnReader P Decoder → Result (Cell Bool × ColumnReader P Decoder)
  read_boolean = convert (λ v. ltb 0 v) false read_unsigned_int

  unfoldable pub read_signed_int : ColumnReader P Decoder → Result (Cell ℤ × ColumnReader P Decoder)
  read_signed_int = convert of_bits (pos 0) read_unsigned_int

  unfoldable pub read_float :
      (N : Numerics) → ColumnReader P Decoder → Result (Cell N.Double × ColumnReader P Decoder)
  read_float N = convert N.of_unsigned N.zero_double read_unsigned_int

  -- The source compares the out-parameter's address with 0, so every value is the text "true".
  unfoldable pub read_string : ColumnReader P Decoder → Result (Cell Bytes × ColumnReader P Decoder)
  read_string = convert (λ v. true_text) [] read_unsigned_int

  pub skip_value : ColumnReader P Decoder → Result (ColumnReader P Decoder)
  skip_value = skip read_boolean

  pub copy_value :
      {N : Numerics} {K : Type 0}
      → ColumnSink N K
      → ColumnReader P Decoder
      → K
      → Result (ColumnReader P Decoder × K)
  copy_value S rd = copy S S.write_boolean rd.d_max read_boolean rd

-- The values as the class stores them.
abbrev pub bit : Bool → ℕ
bit true = 1
bit false = 0

abbrev pub bit_entries : List (Entry Bool) → List (Entry ℕ)
bit_entries [] = []
bit_entries (null r d ∷ es) = null r d ∷ bit_entries es
bit_entries (datum r d v ∷ es) = datum r d (bit v) ∷ bit_entries es

abbrev pub IsBool : Bool → Type 0
IsBool v = Unit

abbrev IsBit : ℕ → Type 0
IsBit v = v ≤ 1

bit_entries-IsEntry :
    (r_max d_max : ℕ) (es : List (Entry Bool))
    → All (IsEntry r_max d_max IsBool) es
    → All (IsEntry r_max d_max IsBit) (bit_entries es)
bit_entries-IsEntry r_max d_max [] h = tt
bit_entries-IsEntry r_max d_max (null r d ∷ es) (h, hs) = (h, bit_entries-IsEntry r_max d_max es hs)
bit_entries-IsEntry r_max d_max (datum r d true ∷ es) (h, hs) =
    ((h.0, h.1, omega arith), bit_entries-IsEntry r_max d_max es hs)
bit_entries-IsEntry r_max d_max (datum r d false ∷ es) (h, hs) =
    ((h.0, h.1, omega arith), bit_entries-IsEntry r_max d_max es hs)

length-bit_entries : (es : List (Entry Bool)) → length (bit_entries es) ≡ length es
length-bit_entries [] = refl
length-bit_entries (null r d ∷ es) = ap suc (length-bit_entries es)
length-bit_entries (datum r d v ∷ es) = ap suc (length-bit_entries es)

read_bits :
    (es : List (Entry Bool))
    → map (convert_cell (λ v. ltb 0 v) false) (cells 0 (bit_entries es)) ≡ cells false es
read_bits [] = refl
read_bits (null r d ∷ es) = ap (λ t. cell false r d false ∷ t) (read_bits es)
read_bits (datum r d true ∷ es) = ap (λ t. cell true r d true ∷ t) (read_bits es)
read_bits (datum r d false ∷ es) = ap (λ t. cell true r d false ∷ t) (read_bits es)

-- The entries with each value replaced by the text "true".
abbrev pub all_texts : List (Entry Bool) → List (Entry Bytes)
all_texts [] = []
all_texts (null r d ∷ es) = null r d ∷ all_texts es
all_texts (datum r d v ∷ es) = datum r d true_text ∷ all_texts es

read_texts :
    (es : List (Entry Bool))
    → map (convert_cell (λ v. true_text) []) (cells 0 (bit_entries es)) ≡ cells [] (all_texts es)
read_texts [] = refl
read_texts (null r d ∷ es) = ap (λ t. cell false r d [] ∷ t) (read_texts es)
read_texts (datum r d v ∷ es) = ap (λ t. cell true r d true_text ∷ t) (read_texts es)

module _ (W : Wire) (P : Packing) where
  open P use {Encoder, encoder, encode, flush, packed, next}

  put_bit : Encoder → ℕ → Encoder
  unfolding put_value
  put_bit e v = put_value P e (ltb 0 v)

  foldl-put_bit :
      (vs : List ℕ) (e : Encoder) → All IsBit vs → foldl put_bit e vs ≡ foldl encode e vs
  unfolding put_bit
  foldl-put_bit [] e h = refl
  foldl-put_bit (zero ∷ vs) e (hv, hvs) = foldl-put_bit vs (encode e 0) hvs
  foldl-put_bit (suc zero ∷ vs) e (hv, hvs) = foldl-put_bit vs (encode e 1) hvs
  foldl-put_bit (suc (suc v) ∷ vs) e (hv, hvs) = absurd (omega arith)

  bits-IsCodec :
      IsCodec W P put_bit flush (size P) (write_data P) (open_data P) next (encoder 1) IsBit
  unfolding size write_data open_data
  bits-IsCodec = record {
    payload-le-size = λ vs h. le_refl _;
    reads = λ vs junk h hj. (
      P.decoder 1 (packed (flush (foldl encode (encoder 1) vs))),
      rw (no_junk _ junk hj, foldl-put_bit vs (encoder 1) h),
      P.unpack 1 vs (omega arith) h,
    );
  }

  write_bits :
      (es : List (Entry Bool)) (w : ColumnWriter P Encoder)
      → write_all (write_null P) (add_value P) es w
        ≡ write_all (write_null P) (append_datum P put_bit) (bit_entries es) w
  unfolding add_value put_bit append_datum
  write_bits [] w = refl
  write_bits (null r d ∷ es) w = write_bits es (write_null P r d w)
  write_bits (datum r d true ∷ es) w = write_bits es (add_value P r d true w)
  write_bits (datum r d false ∷ es) w = write_bits es (add_value P r d false w)

  -- A new column, after the entries are written to it and it is committed.
  abbrev pub written_column : ℕ → ℕ → List (Entry Bool) → ColumnWriter P Encoder
  written_column r_max d_max es =
      commit_column P (write_all (write_null P) (add_value P) es (new_writer P r_max d_max))

  bits_round_trip :
      (r_max d_max : ℕ) (es : List (Entry Bool)) (buf : Bytes)
      → r_max < 2 ^ 32
      → d_max < 2 ^ 32
      → length es < 2 ^ 64
      → All (IsEntry r_max d_max IsBool) es
      → length buf ≡ body_size P (size P) (written_column r_max d_max es)
      → length buf < 2 ^ 64
      → read_back
          (new_reader P W r_max d_max)
          (read_unsigned_int P)
          (eof_reached P)
          (length es)
          (write P W (size P) (write_data P) (written_column r_max d_max es) buf)
        ≡ ok (cells 0 (bit_entries es), true)
  unfolding new_writer new_reader read_unsigned_int get_value commit_column
  bits_round_trip r_max d_max es buf hr hd hn h hb hl =
      let e = write_bits es (new_writer P r_max d_max) in
      let n = length-bit_entries es in
      rw (e, ← n)
        (round_trip W P bits-IsCodec 0 r_max d_max (bit_entries es) buf hr hd (omega (arith, n))
          (bit_entries-IsEntry r_max d_max es h) (rw e at hb) hl)

  -- For levels below 2 ^ 32 and entries within them: if the Booleans are written to a new Boolean
  -- column, and its body is written to a buffer of its size (below 2 ^ 64), then readBoolean on a
  -- reader of the body returns exactly these entries, as many as were written, and the reader is
  -- then at the end.
  pub boolean_round_trip :
      (r_max d_max : ℕ) (es : List (Entry Bool)) (buf : Bytes)
      → r_max < 2 ^ 32
      → d_max < 2 ^ 32
      → length es < 2 ^ 64
      → All (IsEntry r_max d_max IsBool) es
      → length buf ≡ body_size P (size P) (written_column r_max d_max es)
      → length buf < 2 ^ 64
      → read_back
          (new_reader P W r_max d_max)
          (read_boolean P)
          (eof_reached P)
          (length es)
          (write P W (size P) (write_data P) (written_column r_max d_max es) buf)
        ≡ ok (cells false es, true)
  unfolding read_boolean
  boolean_round_trip r_max d_max es buf hr hd hn h hb hl =
      read_back-convert (λ v. ltb 0 v) false (new_reader P W r_max d_max) (read_unsigned_int P)
        (eof_reached P) (length es) _
      ∙ rw (bits_round_trip r_max d_max es buf hr hd hn h hb hl, read_bits es)

  -- For levels below 2 ^ 32 and entries within them: if the Booleans are written to a new Boolean
  -- column, and its body is written to a buffer of its size (below 2 ^ 64), then readString on a
  -- reader of the body shows every value as "true", false ones too.
  pub boolean_texts_shown_true :
      (r_max d_max : ℕ) (es : List (Entry Bool)) (buf : Bytes)
      → r_max < 2 ^ 32
      → d_max < 2 ^ 32
      → length es < 2 ^ 64
      → All (IsEntry r_max d_max IsBool) es
      → length buf ≡ body_size P (size P) (written_column r_max d_max es)
      → length buf < 2 ^ 64
      → read_back
          (new_reader P W r_max d_max)
          (read_string P)
          (eof_reached P)
          (length es)
          (write P W (size P) (write_data P) (written_column r_max d_max es) buf)
        ≡ ok (cells [] (all_texts es), true)
  unfolding read_string
  boolean_texts_shown_true r_max d_max es buf hr hd hn h hb hl =
      read_back-convert (λ v. true_text) [] (new_reader P W r_max d_max) (read_unsigned_int P)
        (eof_reached P) (length es) _
      ∙ rw (bits_round_trip r_max d_max es buf hr hd hn h hb hl, read_texts es)
