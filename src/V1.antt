-- ===== src/V1.antt =====
-- The columns of format v0.1 (cstable/columns/v1): what all column classes share, the writer base
-- class v1::ColumnWriter and the reader base class v1::ColumnReader. `A` is the class's own data
-- writer or data reader.
pub mod Entries
pub mod Steps
pub mod Frame
pub mod RoundTrip
pub mod Sink
pub mod Leb128
pub mod Uint32
pub mod Uint64
pub mod Text
pub mod Double
pub mod Boolean
pub mod BitPacked
use libcstable.Prelude.{
  ℕ, zero, suc, ◌+◌, ◌%◌, ◌^◌, ◌≡◌, Bool, true, false, List, [], ◌∷◌, ◌++◌, length, take, drop,
  Option, none, some, Result, ok, err, assume, buffer_overflow, need, ◌>>=◌, ◌>>◌, leb, ◌==◌,
  if◌then◌else◌,
}
use libcstable.Prelude.Bytes.{Bytes, store}
use libcstable.Prelude.Int.{ℤ, to_bits}
use libcstable.Stx.{Wire, Packing, Numerics}

-- An argument of type uint32_t keeps the low 32 bits.
abbrev pub as_u32 : ℕ → ℕ
as_u32 n = n % 2 ^ 32

module _ (P : Packing) where
  pub record ColumnWriter (A : Type 0) : Type 0 where
    pub r_max : ℕ
    pub d_max : ℕ
    pub rlvl_writer : P.Encoder
    pub dlvl_writer : P.Encoder
    pub num_vals : ℕ
    pub data_writer : A

  pub record ColumnReader (A : Type 0) : Type 0 where
    pub r_max : ℕ
    pub d_max : ℕ
    pub vals_total : ℕ
    pub vals_read : ℕ
    pub rlvl_reader : P.Decoder
    pub dlvl_reader : P.Decoder
    pub data_reader : A

-- What a read hands back: the returned Boolean and the three out-parameters.
pub record Cell (V : Type 0) : Type 0 where
  pub defined : Bool
  pub rlvl : ℕ
  pub dlvl : ℕ
  pub value : V

abbrev pub cell : {V : Type 0} → Bool → ℕ → ℕ → V → Cell V
cell f r d v = record { defined = f; rlvl = r; dlvl = d; value = v }

module _ (P : Packing) where
  open P use {encoder, encode, flush, packed, decoder, next, peek}

  -- The constructor of the writer.
  unfoldable pub column_writer : {A : Type 0} → ℕ → ℕ → A → ColumnWriter P A
  column_writer r d data_writer = record {
    r_max = r;
    d_max = d;
    rlvl_writer = encoder (as_u32 r);
    dlvl_writer = encoder (as_u32 d);
    num_vals = 0;
    data_writer = data_writer;
  }

  unfoldable pub write_null : {A : Type 0} → ℕ → ℕ → ColumnWriter P A → ColumnWriter P A
  write_null r d w = record w {
    rlvl_writer = encode w.rlvl_writer (as_u32 r);
    dlvl_writer = encode w.dlvl_writer (as_u32 d);
    num_vals = w.num_vals + 1;
  }

  -- The body that every class's addDatum of a value has, over what it does with the value.
  unfoldable pub append_datum :
      {A V : Type 0} → (A → V → A) → ℕ → ℕ → V → ColumnWriter P A → ColumnWriter P A
  append_datum put r d v w = record w {
    rlvl_writer = encode w.rlvl_writer (as_u32 r);
    dlvl_writer = encode w.dlvl_writer (as_u32 d);
    data_writer = put w.data_writer v;
    num_vals = w.num_vals + 1;
  }

  unfoldable pub commit : {A : Type 0} → ColumnWriter P A → ColumnWriter P A
  commit w = record w { rlvl_writer = flush w.rlvl_writer; dlvl_writer = flush w.dlvl_writer }

  -- `size` is the class's size().
  unfoldable pub body_size : {A : Type 0} → (A → ℕ) → ColumnWriter P A → ℕ
  body_size size w =
      32 + length (packed w.rlvl_writer) + length (packed w.dlvl_writer) + size w.data_writer

  -- The bytes that write(buf, len) appends; `payload` is what the class's write appends.
  pub body : {A : Type 0} → Wire → (A → ℕ) → (A → Bytes) → ColumnWriter P A → Bytes
  body W size payload w =
      Wire.u64 W w.num_vals
      ++ (Wire.u64 W (length (packed w.rlvl_writer))
          ++ (Wire.u64 W (length (packed w.dlvl_writer))
              ++ (Wire.u64 W (size w.data_writer)
                  ++ (packed w.rlvl_writer ++ (packed w.dlvl_writer ++ payload w.data_writer)))))

  -- write(buf, len): the appended bytes replace the first bytes of the buffer.
  pub write : {A : Type 0} → Wire → (A → ℕ) → (A → Bytes) → ColumnWriter P A → Bytes → Result Bytes
  unfolding body
  write W size payload w buf =
      let out = body W size payload w in
      if leb (length out) (length buf)
      then ok (out ++ drop (length out) buf)
      else err buffer_overflow

module _ (P : Packing) where
  open P use {decoder, next, peek}

  -- The constructor of the reader, over the class's constructor of its data reader, which gets the
  -- data region. A region that passes the end of the body is undefined.
  pub open_reader :
      {A : Type 0} → Wire → (Bytes → Result A) → ℕ → ℕ → Bytes → Result (ColumnReader P A)
  open_reader W open_data r d column = do
    (vals_total, s1) ← need buffer_overflow (Wire.get_u64 W column)
    (rlvl_size, s2) ← need buffer_overflow (Wire.get_u64 W s1)
    (dlvl_size, s3) ← need buffer_overflow (Wire.get_u64 W s2)
    (data_size, s4) ← need buffer_overflow (Wire.get_u64 W s3)
    let regions = drop 32 column
    assume (leb (rlvl_size + dlvl_size + data_size) (length regions))
    data_reader ← open_data (take data_size (drop (rlvl_size + dlvl_size) regions))
    ok (record {
      r_max = r;
      d_max = d;
      vals_total = vals_total;
      vals_read = 0;
      rlvl_reader = decoder (as_u32 r) (take rlvl_size regions);
      dlvl_reader = decoder (as_u32 d) (take dlvl_size (drop rlvl_size regions));
      data_reader = data_reader;
    })

  -- The two levels, and the counter of the values read.
  unfoldable pub read_levels : {A : Type 0} → ColumnReader P A → Result (ℕ × ℕ × ColumnReader P A)
  read_levels rd = do
    (r, rlvl') ← need buffer_overflow (next rd.rlvl_reader)
    (d, dlvl') ← need buffer_overflow (next rd.dlvl_reader)
    let rd' = record rd { rlvl_reader = rlvl'; dlvl_reader = dlvl'; vals_read = rd.vals_read + 1 }
    ok (r, d, rd')

  -- The body that every class's own read has, over the read of one value and the value set when
  -- there is none.
  unfoldable pub read_value :
      {A V : Type 0}
      → (A → Result (V × A))
      → V
      → ColumnReader P A
      → Result (Cell V × ColumnReader P A)
  unfolding read_levels
  read_value get none_value rd = do
    (r, d, rd') ← read_levels rd
    if d == rd'.d_max
        then (get rd'.data_reader >>= λ p. ok (cell true r d p.0, record rd' { data_reader = p.1 }))
        else ok (cell false r d none_value, rd')

  pub next_repetition_level : {A : Type 0} → ColumnReader P A → ℕ
  next_repetition_level rd = peek rd.rlvl_reader

  unfoldable pub eof_reached : {A : Type 0} → ColumnReader P A → Bool
  eof_reached rd = leb rd.vals_total rd.vals_read
