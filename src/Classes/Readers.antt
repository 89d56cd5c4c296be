-- ===== src/Classes/Readers.antt =====
-- The readers of format v0.1 behind one type: openColumnV1 of the table reader
-- (cstable/CSTableReader.cc), and the virtual reads.
use libcstable.Prelude.{
  ℕ, ◌+◌, Bool, length, take, drop, Result, ok, err, runtime_error, assume, leb, ◌>>=◌, ◌>>◌,
}
use libcstable.Prelude.Bytes.{Bytes}
use libcstable.Prelude.Int.{ℤ}
use libcstable.Stx.{Wire, Packing, Numerics}
use libcstable.Column.{ColumnSink}
use libcstable.Format.{
  ColumnConfig, ColumnEncoding, boolean_bitpacked, uint32_bitpacked, uint32_plain, uint64_plain,
  uint64_leb128, float_ieee754, string_plain, column_encoding, ColumnType, boolean, unsigned_int,
  float, string,
}
use libcstable.V1
use libcstable.V1.{Cell}
use libcstable.V1.Boolean
use libcstable.V1.BitPacked
use libcstable.V1.Uint32
use libcstable.V1.Uint64
use libcstable.V1.Leb128
use libcstable.V1.Double
use libcstable.V1.Text
use libcstable.Classes.{AnyReader}

module _ (N : Numerics) (W : Wire) (P : Packing) where
  -- openColumnV1 of the table reader, over the bytes of the column's body.
  unfoldable pub reader_of : ColumnEncoding → ℕ → ℕ → Bytes → Result (AnyReader P)
  reader_of boolean_bitpacked r d bytes =
      Boolean.new_reader P W r d bytes >>= λ rd. ok (AnyReader.boolean rd)
  reader_of uint32_bitpacked r d bytes =
      BitPacked.new_reader P W r d bytes >>= λ rd. ok (AnyReader.bitpacked rd)
  reader_of uint32_plain r d bytes =
      Uint32.new_reader W P r d bytes >>= λ rd. ok (AnyReader.uint32 rd)
  reader_of uint64_plain r d bytes =
      Uint64.new_reader W P r d bytes >>= λ rd. ok (AnyReader.uint64 rd)
  reader_of uint64_leb128 r d bytes =
      Leb128.new_reader W P r d bytes >>= λ rd. ok (AnyReader.leb128 rd)
  reader_of float_ieee754 r d bytes =
      Double.new_reader W P N r d bytes >>= λ rd. ok (AnyReader.double rd)
  reader_of string_plain r d bytes =
      Text.new_reader W P r d bytes >>= λ rd. ok (AnyReader.string rd)
  reader_of (column_encoding b) r d bytes = err runtime_error

  -- The body is a region of the mapped file; one that passes its end is undefined.
  unfoldable pub open_reader : Bytes → ColumnConfig → Result (AnyReader P)
  unfolding reader_of
  open_reader file col = do
    assume (leb (col.body_offset + col.body_size) (length file))
    reader_of col.storage_type col.rlevel_max col.dlevel_max
        (take col.body_size (drop col.body_offset file))

  unfoldable pub read_boolean : AnyReader P → Result (Cell Bool × AnyReader P)
  read_boolean (AnyReader.boolean rd) =
      Boolean.read_boolean P rd >>= λ p. ok (p.0, AnyReader.boolean p.1)
  read_boolean (AnyReader.bitpacked rd) =
      BitPacked.read_boolean P rd >>= λ p. ok (p.0, AnyReader.bitpacked p.1)
  read_boolean (AnyReader.uint32 rd) =
      Uint32.read_boolean W P rd >>= λ p. ok (p.0, AnyReader.uint32 p.1)
  read_boolean (AnyReader.uint64 rd) =
      Uint64.read_boolean W P rd >>= λ p. ok (p.0, AnyReader.uint64 p.1)
  read_boolean (AnyReader.leb128 rd) =
      Leb128.read_boolean W P rd >>= λ p. ok (p.0, AnyReader.leb128 p.1)
  read_boolean (AnyReader.double rd) =
      Double.read_boolean W P N rd >>= λ p. ok (p.0, AnyReader.double p.1)
  read_boolean (AnyReader.string rd) =
      Text.read_boolean W P rd >>= λ p. ok (p.0, AnyReader.string p.1)

  unfoldable pub read_unsigned_int : AnyReader P → Result (Cell ℕ × AnyReader P)
  read_unsigned_int (AnyReader.boolean rd) =
      Boolean.read_unsigned_int P rd >>= λ p. ok (p.0, AnyReader.boolean p.1)
  read_unsigned_int (AnyReader.bitpacked rd) =
      BitPacked.read_unsigned_int P rd >>= λ p. ok (p.0, AnyReader.bitpacked p.1)
  read_unsigned_int (AnyReader.uint32 rd) =
      Uint32.read_unsigned_int W P rd >>= λ p. ok (p.0, AnyReader.uint32 p.1)
  read_unsigned_int (AnyReader.uint64 rd) =
      Uint64.read_unsigned_int W P rd >>= λ p. ok (p.0, AnyReader.uint64 p.1)
  read_unsigned_int (AnyReader.leb128 rd) =
      Leb128.read_unsigned_int W P rd >>= λ p. ok (p.0, AnyReader.leb128 p.1)
  read_unsigned_int (AnyReader.double rd) =
      Double.read_unsigned_int W P N rd >>= λ p. ok (p.0, AnyReader.double p.1)
  read_unsigned_int (AnyReader.string rd) =
      Text.read_unsigned_int W P N rd >>= λ p. ok (p.0, AnyReader.string p.1)

  unfoldable pub read_signed_int : AnyReader P → Result (Cell ℤ × AnyReader P)
  read_signed_int (AnyReader.boolean rd) =
      Boolean.read_signed_int P rd >>= λ p. ok (p.0, AnyReader.boolean p.1)
  read_signed_int (AnyReader.bitpacked rd) =
      BitPacked.read_signed_int P rd >>= λ p. ok (p.0, AnyReader.bitpacked p.1)
  read_signed_int (AnyReader.uint32 rd) =
      Uint32.read_signed_int W P rd >>= λ p. ok (p.0, AnyReader.uint32 p.1)
  read_signed_int (AnyReader.uint64 rd) =
      Uint64.read_signed_int W P rd >>= λ p. ok (p.0, AnyReader.uint64 p.1)
  read_signed_int (AnyReader.leb128 rd) =
      Leb128.read_signed_int W P rd >>= λ p. ok (p.0, AnyReader.leb128 p.1)
  read_signed_int (AnyReader.double rd) =
      Double.read_signed_int W P N rd >>= λ p. ok (p.0, AnyReader.double p.1)
  read_signed_int (AnyReader.string rd) =
      Text.read_signed_int W P N rd >>= λ p. ok (p.0, AnyReader.string p.1)

  unfoldable pub read_float : AnyReader P → Result (Cell N.Double × AnyReader P)
  read_float (AnyReader.boolean rd) =
      Boolean.read_float P N rd >>= λ p. ok (p.0, AnyReader.boolean p.1)
  read_float (AnyReader.bitpacked rd) =
      BitPacked.read_float P N rd >>= λ p. ok (p.0, AnyReader.bitpacked p.1)
  read_float (AnyReader.uint32 rd) =
      Uint32.read_float W P N rd >>= λ p. ok (p.0, AnyReader.uint32 p.1)
  read_float (AnyReader.uint64 rd) =
      Uint64.read_float W P N rd >>= λ p. ok (p.0, AnyReader.uint64 p.1)
  read_float (AnyReader.leb128 rd) =
      Leb128.read_float W P N rd >>= λ p. ok (p.0, AnyReader.leb128 p.1)
  read_float (AnyReader.double rd) =
      Double.read_float W P N rd >>= λ p. ok (p.0, AnyReader.double p.1)
  read_float (AnyReader.string rd) =
      Text.read_float W P N rd >>= λ p. ok (p.0, AnyReader.string p.1)

  unfoldable pub read_string : AnyReader P → Result (Cell Bytes × AnyReader P)
  read_string (AnyReader.boolean rd) =
      Boolean.read_string P rd >>= λ p. ok (p.0, AnyReader.boolean p.1)
  read_string (AnyReader.bitpacked rd) =
      BitPacked.read_string P N rd >>= λ p. ok (p.0, AnyReader.bitpacked p.1)
  read_string (AnyReader.uint32 rd) =
      Uint32.read_string W P N rd >>= λ p. ok (p.0, AnyReader.uint32 p.1)
  read_string (AnyReader.uint64 rd) =
      Uint64.read_string W P N rd >>= λ p. ok (p.0, AnyReader.uint64 p.1)
  read_string (AnyReader.leb128 rd) =
      Leb128.read_string W P N rd >>= λ p. ok (p.0, AnyReader.leb128 p.1)
  read_string (AnyReader.double rd) =
      Double.read_string W P N rd >>= λ p. ok (p.0, AnyReader.double p.1)
  read_string (AnyReader.string rd) =
      Text.read_string W P rd >>= λ p. ok (p.0, AnyReader.string p.1)

  unfoldable pub skip_value : AnyReader P → Result (AnyReader P)
  skip_value (AnyReader.boolean rd) = Boolean.skip_value P rd >>= λ rd'. ok (AnyReader.boolean rd')
  skip_value (AnyReader.bitpacked rd) =
      BitPacked.skip_value P rd >>= λ rd'. ok (AnyReader.bitpacked rd')
  skip_value (AnyReader.uint32 rd) = Uint32.skip_value W P rd >>= λ rd'. ok (AnyReader.uint32 rd')
  skip_value (AnyReader.uint64 rd) = Uint64.skip_value W P rd >>= λ rd'. ok (AnyReader.uint64 rd')
  skip_value (AnyReader.leb128 rd) = Leb128.skip_value W P rd >>= λ rd'. ok (AnyReader.leb128 rd')
  skip_value (AnyReader.double rd) = Double.skip_value W P N rd >>= λ rd'. ok (AnyReader.double rd')
  skip_value (AnyReader.string rd) = Text.skip_value W P rd >>= λ rd'. ok (AnyReader.string rd')

  unfoldable pub copy_value :
      {K : Type 0} → ColumnSink N K → AnyReader P → K → Result (AnyReader P × K)
  copy_value S (AnyReader.boolean rd) k =
      Boolean.copy_value P S rd k >>= λ p. ok (AnyReader.boolean p.0, p.1)
  copy_value S (AnyReader.bitpacked rd) k =
      BitPacked.copy_value P S rd k >>= λ p. ok (AnyReader.bitpacked p.0, p.1)
  copy_value S (AnyReader.uint32 rd) k =
      Uint32.copy_value W P S rd k >>= λ p. ok (AnyReader.uint32 p.0, p.1)
  copy_value S (AnyReader.uint64 rd) k =
      Uint64.copy_value W P S rd k >>= λ p. ok (AnyReader.uint64 p.0, p.1)
  copy_value S (AnyReader.leb128 rd) k =
      Leb128.copy_value W P S rd k >>= λ p. ok (AnyReader.leb128 p.0, p.1)
  copy_value S (AnyReader.double rd) k =
      Double.copy_value W P N S rd k >>= λ p. ok (AnyReader.double p.0, p.1)
  copy_value S (AnyReader.string rd) k =
      Text.copy_value W P S rd k >>= λ p. ok (AnyReader.string p.0, p.1)

  unfoldable pub next_repetition_level : AnyReader P → ℕ
  next_repetition_level (AnyReader.boolean rd) = V1.next_repetition_level P rd
  next_repetition_level (AnyReader.bitpacked rd) = V1.next_repetition_level P rd
  next_repetition_level (AnyReader.uint32 rd) = V1.next_repetition_level P rd
  next_repetition_level (AnyReader.uint64 rd) = V1.next_repetition_level P rd
  next_repetition_level (AnyReader.leb128 rd) = V1.next_repetition_level P rd
  next_repetition_level (AnyReader.double rd) = V1.next_repetition_level P rd
  next_repetition_level (AnyReader.string rd) = V1.next_repetition_level P rd

  unfoldable pub eof_reached : AnyReader P → Bool
  eof_reached (AnyReader.boolean rd) = V1.eof_reached P rd
  eof_reached (AnyReader.bitpacked rd) = V1.eof_reached P rd
  eof_reached (AnyReader.uint32 rd) = V1.eof_reached P rd
  eof_reached (AnyReader.uint64 rd) = V1.eof_reached P rd
  eof_reached (AnyReader.leb128 rd) = V1.eof_reached P rd
  eof_reached (AnyReader.double rd) = V1.eof_reached P rd
  eof_reached (AnyReader.string rd) = V1.eof_reached P rd

  unfoldable pub max_repetition_level : AnyReader P → ℕ
  max_repetition_level (AnyReader.boolean rd) = rd.r_max
  max_repetition_level (AnyReader.bitpacked rd) = rd.r_max
  max_repetition_level (AnyReader.uint32 rd) = rd.r_max
  max_repetition_level (AnyReader.uint64 rd) = rd.r_max
  max_repetition_level (AnyReader.leb128 rd) = rd.r_max
  max_repetition_level (AnyReader.double rd) = rd.r_max
  max_repetition_level (AnyReader.string rd) = rd.r_max

  unfoldable pub max_definition_level : AnyReader P → ℕ
  max_definition_level (AnyReader.boolean rd) = rd.d_max
  max_definition_level (AnyReader.bitpacked rd) = rd.d_max
  max_definition_level (AnyReader.uint32 rd) = rd.d_max
  max_definition_level (AnyReader.uint64 rd) = rd.d_max
  max_definition_level (AnyReader.leb128 rd) = rd.d_max
  max_definition_level (AnyReader.double rd) = rd.d_max
  max_definition_level (AnyReader.string rd) = rd.d_max

  unfoldable pub column_type : AnyReader P → ColumnType
  column_type (AnyReader.boolean rd) = boolean
  column_type (AnyReader.bitpacked rd) = unsigned_int
  column_type (AnyReader.uint32 rd) = unsigned_int
  column_type (AnyReader.uint64 rd) = unsigned_int
  column_type (AnyReader.leb128 rd) = unsigned_int
  column_type (AnyReader.double rd) = float
  column_type (AnyReader.string rd) = string

  unfoldable pub column_encoding_of : AnyReader P → ColumnEncoding
  column_encoding_of (AnyReader.boolean rd) = boolean_bitpacked
  column_encoding_of (AnyReader.bitpacked rd) = uint32_bitpacked
  column_encoding_of (AnyReader.uint32 rd) = uint32_plain
  column_encoding_of (AnyReader.uint64 rd) = uint64_plain
  column_encoding_of (AnyReader.leb128 rd) = uint64_leb128
  column_encoding_of (AnyReader.double rd) = float_ieee754
  column_encoding_of (AnyReader.string rd) = string_plain
