-- ===== src/Classes/ReadBack.antt =====
-- Entries written to a v0.1 column of any class come back through the table's readers.
use libcstable.Prelude.{
  ℕ, ◌^◌, ◌<◌, ◌≡◌, refl, ap, ◌∙◌, Bool, true, false, List, [], length, Result, ok, ◌>>=◌, arith,
}
use libcstable.Prelude.Bytes.{Bytes}
use libcstable.Stx.{Wire, Packing, Numerics}
use libcstable.V1.{ColumnWriter, ColumnReader, Cell, write, eof_reached}
use libcstable.V1.Entries.{cells, read_back}
use libcstable.V1.Frame.{length-write}
use libcstable.V1.Boolean
use libcstable.V1.BitPacked
use libcstable.V1.Uint32
use libcstable.V1.Uint64
use libcstable.V1.Leb128
use libcstable.V1.Double
use libcstable.V1.Text
use libcstable.Classes.{AnyReader, commit, body_size, write_body}
use libcstable.Classes.Readers
use libcstable.Classes.Readers.{reader_of}
use libcstable.Classes.Contents.{
  Contents, booleans, bitpackeds, uint32s, uint64s, leb128s, doubles, strings, encoding_for,
  IsWithin, filled,
}
use libcstable.Classes.Embed.{read_out, embedded, read_out-embed, read_back-eq-ok}

module _ (N : Numerics) (W : Wire) (P : Packing) where
  -- The reader of a column hands out the entries in their order, as many as were written, by the
  -- read of the class's own type, and is then at the end.
  abbrev pub Reads : Contents N → AnyReader P → Type 0
  Reads (booleans es) rd =
      read_out (Readers.read_boolean N W P) (Readers.eof_reached N W P) (length es) rd
      ≡ ok (cells false es, true)
  Reads (bitpackeds es) rd =
      read_out (Readers.read_unsigned_int N W P) (Readers.eof_reached N W P) (length es) rd
      ≡ ok (cells 0 es, true)
  Reads (uint32s es) rd =
      read_out (Readers.read_unsigned_int N W P) (Readers.eof_reached N W P) (length es) rd
      ≡ ok (cells 0 es, true)
  Reads (uint64s es) rd =
      read_out (Readers.read_unsigned_int N W P) (Readers.eof_reached N W P) (length es) rd
      ≡ ok (cells 0 es, true)
  Reads (leb128s es) rd =
      read_out (Readers.read_unsigned_int N W P) (Readers.eof_reached N W P) (length es) rd
      ≡ ok (cells 0 es, true)
  Reads (doubles es) rd =
      read_out (Readers.read_float N W P) (Readers.eof_reached N W P) (length es) rd
      ≡ ok (cells N.zero_double es, true)
  Reads (strings es) rd =
      read_out (Readers.read_string N W P) (Readers.eof_reached N W P) (length es) rd
      ≡ ok (cells [] es, true)

  -- The column's body was written to the buffer, and a reader of it reads the contents.
  pub record IsStored (r d : ℕ) (c : Contents N) (buf : Bytes) : Type 0 where
    pub bytes : Bytes
    pub bytes_are : write_body N W P (commit N W P (filled N W P r d c)) buf ≡ ok bytes
    pub length_kept : length bytes ≡ length buf
    pub reader : AnyReader P
    pub reader_is : reader_of N W P (encoding_for c) r d bytes ≡ ok reader
    pub reads : Reads c reader

  -- What one class has to show: its reads are those of the type of all classes, and its body reads
  -- back.
  module _ {V A R : Type 0} (wrap : ColumnReader P R → AnyReader P)
      (read : ColumnReader P R → Result (Cell V × ColumnReader P R))
      (read' : AnyReader P → Result (Cell V × AnyReader P))
      (same : (rd : ColumnReader P R) → read' (wrap rd) ≡ embedded wrap (read rd))
      (same_eof : (rd : ColumnReader P R)
        → Readers.eof_reached N W P (wrap rd) ≡ eof_reached P rd) where
    class-IsStored :
        (r d : ℕ) (c : Contents N) (buf : Bytes) (size : A → ℕ) (payload : A → Bytes)
        (w : ColumnWriter P A) (open_column : Bytes → Result (ColumnReader P R)) (n : ℕ)
        (result : List (Cell V) × Bool)
        → write_body N W P (commit N W P (filled N W P r d c)) buf ≡ write P W size payload w buf
        → ((bytes : Bytes)
            → reader_of N W P (encoding_for c) r d bytes
              ≡ (open_column bytes >>= λ rd. ok (wrap rd)))
        → ((rd : AnyReader P)
            → read_out read' (Readers.eof_reached N W P) n rd ≡ ok result
            → Reads c rd)
        → read_back open_column read (eof_reached P) n (write P W size payload w buf) ≡ ok result
        → IsStored r d c buf
    class-IsStored r d c buf size payload w open_column n result ew eo reads h =
        let s =
          read_back-eq-ok open_column read (eof_reached P) n (write P W size payload w buf) h in
        record {
          bytes = s.bytes;
          bytes_are = ew ∙ s.bytes_are;
          length_kept = length-write W P size payload w buf s.bytes_are;
          reader = wrap s.reader;
          reader_is =
              eo s.bytes
              ∙ ap (λ (m : Result (ColumnReader P R)). m >>= λ rd. ok (wrap rd)) s.reader_is;
          reads = reads (wrap s.reader) (
              read_out-embed wrap read read' same (eof_reached P) (Readers.eof_reached N W P)
                same_eof n s.reader
              ∙ s.reads);
        }

  pub filled-IsStored :
      (r d : ℕ) (c : Contents N) (buf : Bytes)
      → r < 2 ^ 32
      → d < 2 ^ 32
      → IsWithin r d c
      → length buf ≡ body_size N W P (commit N W P (filled N W P r d c))
      → length buf < 2 ^ 64
      → IsStored r d c buf
  unfolding commit body_size write_body Readers.reader_of Readers.read_boolean
      Readers.read_unsigned_int Readers.read_float Readers.read_string Readers.eof_reached
  filled-IsStored r d (booleans es) buf hr hd (hn, h) hb hl =
      class-IsStored AnyReader.boolean (Boolean.read_boolean P) (Readers.read_boolean N W P)
        (λ rd. refl) (λ rd. refl) r d (booleans es) buf (Boolean.size P) (Boolean.write_data P) _
        (Boolean.new_reader P W r d) (length es) (cells false es, true) refl (λ bytes. refl)
        (λ rd e. e) (Boolean.boolean_round_trip W P r d es buf hr hd hn h hb hl)
  filled-IsStored r d (bitpackeds es) buf hr hd (hn, h) hb hl =
      class-IsStored AnyReader.bitpacked (BitPacked.read_unsigned_int P)
        (Readers.read_unsigned_int N W P) (λ rd. refl) (λ rd. refl) r d (bitpackeds es) buf
        (BitPacked.size P) (BitPacked.write_data P W) _ (BitPacked.new_reader P W r d) (length es)
        (cells 0 es, true) refl (λ bytes. refl) (λ rd e. e)
        (BitPacked.bitpacked_round_trip W P 0xffffffff (omega arith) r d es buf hr hd hn h hb hl)
  filled-IsStored r d (uint32s es) buf hr hd (hn, h) hb hl =
      class-IsStored AnyReader.uint32 (Uint32.read_unsigned_int W P)
        (Readers.read_unsigned_int N W P) (λ rd. refl) (λ rd. refl) r d (uint32s es) buf
        (Uint32.size W P) (Uint32.write_data W P) _ (Uint32.new_reader W P r d) (length es)
        (cells 0 es, true) refl (λ bytes. refl) (λ rd e. e)
        (Uint32.uint32_round_trip W P r d es buf hr hd hn h hb hl)
  filled-IsStored r d (uint64s es) buf hr hd (hn, h) hb hl =
      class-IsStored AnyReader.uint64 (Uint64.read_unsigned_int W P)
        (Readers.read_unsigned_int N W P) (λ rd. refl) (λ rd. refl) r d (uint64s es) buf
        (Uint64.size W P) (Uint64.write_data W P) _ (Uint64.new_reader W P r d) (length es)
        (cells 0 es, true) refl (λ bytes. refl) (λ rd e. e)
        (Uint64.uint64_round_trip W P r d es buf hr hd hn h hb hl)
  filled-IsStored r d (leb128s es) buf hr hd (hn, h) hb hl =
      class-IsStored AnyReader.leb128 (Leb128.read_unsigned_int W P)
        (Readers.read_unsigned_int N W P) (λ rd. refl) (λ rd. refl) r d (leb128s es) buf
        (Leb128.size W P) (Leb128.write_data W P) _ (Leb128.new_reader W P r d) (length es)
        (cells 0 es, true) refl (λ bytes. refl) (λ rd e. e)
        (Leb128.leb128_round_trip W P r d es buf hr hd hn h hb hl)
  filled-IsStored r d (doubles es) buf hr hd (hn, h) hb hl =
      class-IsStored AnyReader.double (Double.read_float W P N) (Readers.read_float N W P)
        (λ rd. refl) (λ rd. refl) r d (doubles es) buf (Double.size W P N) (Double.write_data W P N)
        _ (Double.new_reader W P N r d) (length es) (cells N.zero_double es, true) refl
        (λ bytes. refl) (λ rd e. e) (Double.double_round_trip W P N r d es buf hr hd hn h hb hl)
  filled-IsStored r d (strings es) buf hr hd (hn, h) hb hl =
      class-IsStored AnyReader.string (Text.read_string W P) (Readers.read_string N W P)
        (λ rd. refl) (λ rd. refl) r d (strings es) buf (Text.size W P) (Text.write_data W P) _
        (Text.new_reader W P r d) (length es) (cells [] es, true) refl (λ bytes. refl) (λ rd e. e)
        (Text.string_round_trip W P r d es buf hr hd hn h hb hl)
