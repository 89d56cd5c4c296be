-- ===== src/Classes.antt =====
-- The column classes of format v0.1 behind one type: what a table holds as a v1::ColumnWriter or a
-- v1::ColumnReader is one of the seven classes, and a virtual call is that class's own.
pub mod Counting
pub mod Readers
pub mod Contents
pub mod Embed
pub mod ReadBack
pub mod Finite
pub mod Typed
use libcstable.Prelude.{ℕ, Bool, ◌^◌, Result, ok, err, runtime_error, ◌>>=◌, if◌then◌else◌}
use libcstable.Prelude.Bytes.{Bytes}
use libcstable.Prelude.Int.{ℤ}
use libcstable.Stx.{Wire, Packing, Numerics}
use libcstable.Column.{ColumnSink}
use libcstable.Format.{
  ColumnConfig, ColumnEncoding, boolean_bitpacked, uint32_bitpacked, uint32_plain, uint64_plain,
  uint64_leb128, float_ieee754, string_plain, column_encoding,
}
use libcstable.Table.Bodies.{BodyWriter}
use libcstable.V1
use libcstable.V1.{ColumnWriter, ColumnReader, Cell}
use libcstable.V1.Sink.{column_sink}
use libcstable.V1.Boolean
use libcstable.V1.BitPacked
use libcstable.V1.BitPacked.{PackedData}
use libcstable.V1.Uint32
use libcstable.V1.Uint64
use libcstable.V1.Leb128
use libcstable.V1.Double
use libcstable.V1.Text

module _ (P : Packing) where
  pub data AnyWriter : Type 0 where
    boolean : ColumnWriter P P.Encoder → AnyWriter
    bitpacked : ColumnWriter P (PackedData P) → AnyWriter
    uint32 uint64 leb128 double string : ColumnWriter P Bytes → AnyWriter

  pub data AnyReader : Type 0 where
    boolean : ColumnReader P P.Decoder → AnyReader
    bitpacked : ColumnReader P P.Decoder → AnyReader
    uint32 uint64 leb128 double string : ColumnReader P Bytes → AnyReader

module _ (N : Numerics) (W : Wire) (P : Packing) where
  -- openColumnV1 of the table writer.
  writer_of : ColumnEncoding → ℕ → ℕ → Result (AnyWriter P)
  writer_of boolean_bitpacked r d = ok (AnyWriter.boolean (Boolean.new_writer P r d))
  writer_of uint32_bitpacked r d = ok (AnyWriter.bitpacked (BitPacked.new_writer P r d 0xffffffff))
  writer_of uint32_plain r d = ok (AnyWriter.uint32 (Uint32.new_writer W P r d))
  writer_of uint64_plain r d = ok (AnyWriter.uint64 (Uint64.new_writer W P r d))
  writer_of uint64_leb128 r d = ok (AnyWriter.leb128 (Leb128.new_writer W P r d))
  writer_of float_ieee754 r d = ok (AnyWriter.double (Double.new_writer W P N r d))
  writer_of string_plain r d = ok (AnyWriter.string (Text.new_writer W P r d))
  writer_of (column_encoding b) r d = err runtime_error

  unfoldable pub open_writer : ColumnConfig → Result (AnyWriter P)
  unfolding writer_of
  open_writer col = writer_of col.storage_type col.rlevel_max col.dlevel_max

  -- The virtual commit, bodySize and write.
  unfoldable pub commit : AnyWriter P → AnyWriter P
  commit (AnyWriter.boolean w) = AnyWriter.boolean (Boolean.commit_column P w)
  commit (AnyWriter.bitpacked w) = AnyWriter.bitpacked (BitPacked.commit_column P w)
  commit (AnyWriter.uint32 w) = AnyWriter.uint32 (V1.commit P w)
  commit (AnyWriter.uint64 w) = AnyWriter.uint64 (V1.commit P w)
  commit (AnyWriter.leb128 w) = AnyWriter.leb128 (V1.commit P w)
  commit (AnyWriter.double w) = AnyWriter.double (V1.commit P w)
  commit (AnyWriter.string w) = AnyWriter.string (V1.commit P w)

  unfoldable pub body_size : AnyWriter P → ℕ
  body_size (AnyWriter.boolean w) = V1.body_size P (Boolean.size P) w
  body_size (AnyWriter.bitpacked w) = V1.body_size P (BitPacked.size P) w
  body_size (AnyWriter.uint32 w) = V1.body_size P (Uint32.size W P) w
  body_size (AnyWriter.uint64 w) = V1.body_size P (Uint64.size W P) w
  body_size (AnyWriter.leb128 w) = V1.body_size P (Leb128.size W P) w
  body_size (AnyWriter.double w) = V1.body_size P (Double.size W P N) w
  body_size (AnyWriter.string w) = V1.body_size P (Text.size W P) w

  unfoldable pub write_body : AnyWriter P → Bytes → Result Bytes
  write_body (AnyWriter.boolean w) = V1.write P W (Boolean.size P) (Boolean.write_data P) w
  write_body (AnyWriter.bitpacked w) = V1.write P W (BitPacked.size P) (BitPacked.write_data P W) w
  write_body (AnyWriter.uint32 w) = V1.write P W (Uint32.size W P) (Uint32.write_data W P) w
  write_body (AnyWriter.uint64 w) = V1.write P W (Uint64.size W P) (Uint64.write_data W P) w
  write_body (AnyWriter.leb128 w) = V1.write P W (Leb128.size W P) (Leb128.write_data W P) w
  write_body (AnyWriter.double w) = V1.write P W (Double.size W P N) (Double.write_data W P N) w
  write_body (AnyWriter.string w) = V1.write P W (Text.size W P) (Text.write_data W P) w

  abbrev pub bodies : BodyWriter (AnyWriter P)
  bodies = record { commit_body = commit; body_size = body_size; write_body = write_body }

  -- A virtual write, over what each class does.
  unfoldable pub dispatch :
      ((A : Type 0)
        → ColumnSink N (ColumnWriter P A)
        → ColumnWriter P A
        → Result (ColumnWriter P A))
      → AnyWriter P
      → Result (AnyWriter P)
  dispatch f (AnyWriter.boolean w) =
      f _ (column_sink N P (Boolean.add_datum P)) w >>= λ w'. ok (AnyWriter.boolean w')
  dispatch f (AnyWriter.bitpacked w) =
      f _ (column_sink N P (BitPacked.add_datum P)) w >>= λ w'. ok (AnyWriter.bitpacked w')
  dispatch f (AnyWriter.uint32 w) =
      f _ (column_sink N P (Uint32.add_datum W P)) w >>= λ w'. ok (AnyWriter.uint32 w')
  dispatch f (AnyWriter.uint64 w) =
      f _ (column_sink N P (Uint64.add_datum W P)) w >>= λ w'. ok (AnyWriter.uint64 w')
  dispatch f (AnyWriter.leb128 w) =
      f _ (column_sink N P (Leb128.add_datum W P)) w >>= λ w'. ok (AnyWriter.leb128 w')
  dispatch f (AnyWriter.double w) =
      f _ (column_sink N P (Double.add_datum W P N)) w >>= λ w'. ok (AnyWriter.double w')
  dispatch f (AnyWriter.string w) =
      f _ (column_sink N P (Text.add_datum W P)) w >>= λ w'. ok (AnyWriter.string w')

  abbrev pub levels : AnyWriter P → ℕ × ℕ
  levels (AnyWriter.boolean w) = (w.r_max, w.d_max)
  levels (AnyWriter.bitpacked w) = (w.r_max, w.d_max)
  levels (AnyWriter.uint32 w) = (w.r_max, w.d_max)
  levels (AnyWriter.uint64 w) = (w.r_max, w.d_max)
  levels (AnyWriter.leb128 w) = (w.r_max, w.d_max)
  levels (AnyWriter.double w) = (w.r_max, w.d_max)
  levels (AnyWriter.string w) = (w.r_max, w.d_max)

  -- The interface that the clients of a column call.
  unfoldable pub any_sink : ColumnSink N (AnyWriter P)
  unfolding dispatch
  any_sink = record {
    write_null = λ r d. dispatch (λ A S w. ColumnSink.write_null S r d w);
    write_boolean = λ r d v. dispatch (λ A S w. ColumnSink.write_boolean S r d v w);
    write_unsigned_int = λ r d v. dispatch (λ A S w. ColumnSink.write_unsigned_int S r d v w);
    write_signed_int = λ r d v. dispatch (λ A S w. ColumnSink.write_signed_int S r d v w);
    write_float = λ r d v. dispatch (λ A S w. ColumnSink.write_float S r d v w);
    write_string = λ r d v. dispatch (λ A S w. ColumnSink.write_string S r d v w);
    write_date_time = λ r d v. dispatch (λ A S w. ColumnSink.write_date_time S r d v w);
    max_repetition_level = λ w. (levels w).0;
    max_definition_level = λ w. (levels w).1;
  }
