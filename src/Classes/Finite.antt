-- ===== src/Classes/Finite.antt =====
-- A v0.1 column has as many entries as its body says: its readers, through any read, are finite
-- sources.
pub mod Counted
use libcstable.Prelude.{
  ℕ, ◌+◌, ◌-◌, ◌≡◌, refl, true, Result, ok, need, buffer_overflow, ◌==◌, le→leb, Bool-cases, inl,
  inr, arith,
}
use mathlib.Core.Path.{subst}
use libcstable.Prelude.Bytes.{Bytes}
use libcstable.Prelude.Int.{ℤ}
use libcstable.Stx.{Wire, Packing, Numerics}
use libcstable.Column.{ColumnSource}
use libcstable.V1
use libcstable.V1.{ColumnReader, Cell, cell, read_levels, read_value}
use libcstable.V1.Sink.{convert, parse}
use libcstable.V1.Boolean
use libcstable.V1.BitPacked
use libcstable.V1.Uint32
use libcstable.V1.Uint64
use libcstable.V1.Leb128
use libcstable.V1.Double
use libcstable.V1.Text
use libcstable.Classes.{AnyReader}
use libcstable.Classes.Readers
use libcstable.Classes.Embed.{both-Succeeds, embedded}
use libcstable.Materializer.Ends.{IsFinite, when_true, when_false}
use libcstable.Classes.Finite.Counted.{
  Counts, convert-Counts, parse-Counts, levels-Counts, value-Counts,
}

module _ (N : Numerics) (W : Wire) (P : Packing) where
  -- The readers of all classes as a source.
  abbrev pub class_source : ColumnSource N (AnyReader P)
  class_source = record {
    read_boolean = Readers.read_boolean N W P;
    read_unsigned_int = Readers.read_unsigned_int N W P;
    read_signed_int = Readers.read_signed_int N W P;
    read_float = Readers.read_float N W P;
    read_string = Readers.read_string N W P;
    skip_value = Readers.skip_value N W P;
    next_repetition_level = Readers.next_repetition_level N W P;
    eof_reached = Readers.eof_reached N W P;
    column_type = Readers.column_type N W P;
    max_repetition_level = Readers.max_repetition_level N W P;
    max_definition_level = Readers.max_definition_level N W P;
  }

  abbrev pub total : AnyReader P → ℕ
  total (AnyReader.boolean rd) = rd.vals_total
  total (AnyReader.bitpacked rd) = rd.vals_total
  total (AnyReader.uint32 rd) = rd.vals_total
  total (AnyReader.uint64 rd) = rd.vals_total
  total (AnyReader.leb128 rd) = rd.vals_total
  total (AnyReader.double rd) = rd.vals_total
  total (AnyReader.string rd) = rd.vals_total

  abbrev pub count : AnyReader P → ℕ
  count (AnyReader.boolean rd) = rd.vals_read
  count (AnyReader.bitpacked rd) = rd.vals_read
  count (AnyReader.uint32 rd) = rd.vals_read
  count (AnyReader.uint64 rd) = rd.vals_read
  count (AnyReader.leb128 rd) = rd.vals_read
  count (AnyReader.double rd) = rd.vals_read
  count (AnyReader.string rd) = rd.vals_read

  abbrev pub entries_left : AnyReader P → ℕ
  entries_left rd = total rd - count rd

  -- A read of a class, through the type of all classes.
  wrapped :
      {V A : Type 0} (wrap : ColumnReader P A → AnyReader P)
      (read : ColumnReader P A → Result (Cell V × ColumnReader P A))
      → ((rd : ColumnReader P A) → total (wrap rd) ≡ rd.vals_total)
      → ((rd : ColumnReader P A) → count (wrap rd) ≡ rd.vals_read)
      → Counts {R = ColumnReader P A} (λ rd. rd.vals_total) (λ rd. rd.vals_read) read
      → (rd : ColumnReader P A) (k' : AnyReader P) (c : Cell V)
      → embedded wrap (read rd) ≡ ok (c, k')
      → entries_left k' ≡ entries_left (wrap rd) - 1
  wrapped wrap read ht hc h rd k' c e =
      let p = both-Succeeds (read rd) e in
      let (nt, nc) = h rd p.value.1 p.value.0 p.step_is in
      let same : wrap p.value.1 ≡ k' = let q = p.after_is in cc in
      subst (λ (k : AnyReader P). entries_left k ≡ entries_left (wrap rd) - 1) same
        (omega (arith, ht p.value.1, hc p.value.1, ht rd, hc rd))

  pub left-unsigned_int :
      (k k' : AnyReader P) (c : Cell ℕ)
      → Readers.read_unsigned_int N W P k ≡ ok (c, k')
      → entries_left k' ≡ entries_left k - 1
  unfolding Readers.read_unsigned_int Boolean.read_unsigned_int BitPacked.read_unsigned_int
      Uint32.read_unsigned_int Uint64.read_unsigned_int Leb128.read_unsigned_int
      Double.read_unsigned_int Double.read_float Text.read_unsigned_int Text.read_string
  left-unsigned_int (AnyReader.boolean rd) k' c e =
      wrapped AnyReader.boolean (Boolean.read_unsigned_int P) (λ rd. refl) (λ rd. refl)
        (value-Counts _ _) rd k' c e
  left-unsigned_int (AnyReader.bitpacked rd) k' c e =
      wrapped AnyReader.bitpacked (BitPacked.read_unsigned_int P) (λ rd. refl) (λ rd. refl)
        (value-Counts _ _) rd k' c e
  left-unsigned_int (AnyReader.uint32 rd) k' c e =
      wrapped AnyReader.uint32 (Uint32.read_unsigned_int W P) (λ rd. refl) (λ rd. refl)
        (value-Counts _ _) rd k' c e
  left-unsigned_int (AnyReader.uint64 rd) k' c e =
      wrapped AnyReader.uint64 (Uint64.read_unsigned_int W P) (λ rd. refl) (λ rd. refl)
        (value-Counts _ _) rd k' c e
  left-unsigned_int (AnyReader.leb128 rd) k' c e =
      wrapped AnyReader.leb128 (Leb128.read_unsigned_int W P) (λ rd. refl) (λ rd. refl)
        (value-Counts _ _) rd k' c e
  left-unsigned_int (AnyReader.double rd) k' c e =
      wrapped AnyReader.double (Double.read_unsigned_int W P N) (λ rd. refl) (λ rd. refl)
        (convert-Counts (λ (rd : ColumnReader P Bytes). rd.vals_total)
          (λ (rd : ColumnReader P Bytes). rd.vals_read) _ _ _ (value-Counts _ _))
        rd k' c e
  left-unsigned_int (AnyReader.string rd) k' c e =
      wrapped AnyReader.string (Text.read_unsigned_int W P N) (λ rd. refl) (λ rd. refl)
        (parse-Counts (λ (rd : ColumnReader P Bytes). rd.vals_total)
          (λ (rd : ColumnReader P Bytes). rd.vals_read) _ _ _ (value-Counts _ _))
        rd k' c e

  pub left-signed_int :
      (k k' : AnyReader P) (c : Cell ℤ)
      → Readers.read_signed_int N W P k ≡ ok (c, k')
      → entries_left k' ≡ entries_left k - 1
  unfolding Readers.read_signed_int Boolean.read_signed_int Boolean.read_unsigned_int
      BitPacked.read_signed_int BitPacked.read_unsigned_int Uint32.read_signed_int
      Uint32.read_unsigned_int Uint64.read_signed_int Uint64.read_unsigned_int
      Leb128.read_signed_int Leb128.read_unsigned_int Double.read_signed_int Double.read_float
      Text.read_signed_int Text.read_string
  left-signed_int (AnyReader.boolean rd) k' c e =
      wrapped AnyReader.boolean (Boolean.read_signed_int P) (λ rd. refl) (λ rd. refl)
        (convert-Counts (λ (rd : ColumnReader P P.Decoder). rd.vals_total)
          (λ (rd : ColumnReader P P.Decoder). rd.vals_read) _ _ _ (value-Counts _ _))
        rd k' c e
  left-signed_int (AnyReader.bitpacked rd) k' c e =
      wrapped AnyReader.bitpacked (BitPacked.read_signed_int P) (λ rd. refl) (λ rd. refl)
        (convert-Counts (λ (rd : ColumnReader P P.Decoder). rd.vals_total)
          (λ (rd : ColumnReader P P.Decoder). rd.vals_read) _ _ _ (value-Counts _ _))
        rd k' c e
  left-signed_int (AnyReader.uint32 rd) k' c e =
      wrapped AnyReader.uint32 (Uint32.read_signed_int W P) (λ rd. refl) (λ rd. refl)
        (convert-Counts (λ (rd : ColumnReader P Bytes). rd.vals_total)
          (λ (rd : ColumnReader P Bytes). rd.vals_read) _ _ _ (value-Counts _ _))
        rd k' c e
  left-signed_int (AnyReader.uint64 rd) k' c e =
      wrapped AnyReader.uint64 (Uint64.read_signed_int W P) (λ rd. refl) (λ rd. refl)
        (convert-Counts (λ (rd : ColumnReader P Bytes). rd.vals_total)
          (λ (rd : ColumnReader P Bytes). rd.vals_read) _ _ _ (value-Counts _ _))
        rd k' c e
  left-signed_int (AnyReader.leb128 rd) k' c e =
      wrapped AnyReader.leb128 (Leb128.read_signed_int W P) (λ rd. refl) (λ rd. refl)
        (convert-Counts (λ (rd : ColumnReader P Bytes). rd.vals_total)
          (λ (rd : ColumnReader P Bytes). rd.vals_read) _ _ _ (value-Counts _ _))
        rd k' c e
  left-signed_int (AnyReader.double rd) k' c e =
      wrapped AnyReader.double (Double.read_signed_int W P N) (λ rd. refl) (λ rd. refl)
        (convert-Counts (λ (rd : ColumnReader P Bytes). rd.vals_total)
          (λ (rd : ColumnReader P Bytes). rd.vals_read) _ _ _ (value-Counts _ _))
        rd k' c e
  left-signed_int (AnyReader.string rd) k' c e =
      wrapped AnyReader.string (Text.read_signed_int W P N) (λ rd. refl) (λ rd. refl)
        (parse-Counts (λ (rd : ColumnReader P Bytes). rd.vals_total)
          (λ (rd : ColumnReader P Bytes). rd.vals_read) _ _ _ (value-Counts _ _))
        rd k' c e

  pub left-float :
      (k k' : AnyReader P) (c : Cell N.Double)
      → Readers.read_float N W P k ≡ ok (c, k')
      → entries_left k' ≡ entries_left k - 1
  unfolding Readers.read_float Boolean.read_float Boolean.read_unsigned_int BitPacked.read_float
      BitPacked.read_unsigned_int Uint32.read_float Uint32.read_unsigned_int Uint64.read_float
      Uint64.read_unsigned_int Leb128.read_float Leb128.read_unsigned_int Double.read_float
      Text.read_float Text.read_string
  left-float (AnyReader.boolean rd) k' c e =
      wrapped AnyReader.boolean (Boolean.read_float P N) (λ rd. refl) (λ rd. refl)
        (convert-Counts (λ (rd : ColumnReader P P.Decoder). rd.vals_total)
          (λ (rd : ColumnReader P P.Decoder). rd.vals_read) _ _ _ (value-Counts _ _))
        rd k' c e
  left-float (AnyReader.bitpacked rd) k' c e =
      wrapped AnyReader.bitpacked (BitPacked.read_float P N) (λ rd. refl) (λ rd. refl)
        (convert-Counts (λ (rd : ColumnReader P P.Decoder). rd.vals_total)
          (λ (rd : ColumnReader P P.Decoder). rd.vals_read) _ _ _ (value-Counts _ _))
        rd k' c e
  left-float (AnyReader.uint32 rd) k' c e =
      wrapped AnyReader.uint32 (Uint32.read_float W P N) (λ rd. refl) (λ rd. refl)
        (convert-Counts (λ (rd : ColumnReader P Bytes). rd.vals_total)
          (λ (rd : ColumnReader P Bytes). rd.vals_read) _ _ _ (value-Counts _ _))
        rd k' c e
  left-float (AnyReader.uint64 rd) k' c e =
      wrapped AnyReader.uint64 (Uint64.read_float W P N) (λ rd. refl) (λ rd. refl)
        (convert-Counts (λ (rd : ColumnReader P Bytes). rd.vals_total)
          (λ (rd : ColumnReader P Bytes). rd.vals_read) _ _ _ (value-Counts _ _))
        rd k' c e
  left-float (AnyReader.leb128 rd) k' c e =
      wrapped AnyReader.leb128 (Leb128.read_float W P N) (λ rd. refl) (λ rd. refl)
        (convert-Counts (λ (rd : ColumnReader P Bytes). rd.vals_total)
          (λ (rd : ColumnReader P Bytes). rd.vals_read) _ _ _ (value-Counts _ _))
        rd k' c e
  left-float (AnyReader.double rd) k' c e =
      wrapped AnyReader.double (Double.read_float W P N) (λ rd. refl) (λ rd. refl)
        (value-Counts _ _) rd k' c e
  left-float (AnyReader.string rd) k' c e =
      wrapped AnyReader.string (Text.read_float W P N) (λ rd. refl) (λ rd. refl)
        (parse-Counts (λ (rd : ColumnReader P Bytes). rd.vals_total)
          (λ (rd : ColumnReader P Bytes). rd.vals_read) _ _ _ (value-Counts _ _))
        rd k' c e

  pub left-string :
      (k k' : AnyReader P) (c : Cell Bytes)
      → Readers.read_string N W P k ≡ ok (c, k')
      → entries_left k' ≡ entries_left k - 1
  unfolding Readers.read_string Boolean.read_string Boolean.read_unsigned_int BitPacked.read_string
      BitPacked.read_unsigned_int Uint32.read_string Uint32.read_unsigned_int Uint64.read_string
      Uint64.read_unsigned_int Leb128.read_string Leb128.read_unsigned_int Double.read_string
      Double.read_float Text.read_string
  left-string (AnyReader.boolean rd) k' c e =
      wrapped AnyReader.boolean (Boolean.read_string P) (λ rd. refl) (λ rd. refl)
        (convert-Counts (λ (rd : ColumnReader P P.Decoder). rd.vals_total)
          (λ (rd : ColumnReader P P.Decoder). rd.vals_read) _ _ _ (value-Counts _ _))
        rd k' c e
  left-string (AnyReader.bitpacked rd) k' c e =
      wrapped AnyReader.bitpacked (BitPacked.read_string P N) (λ rd. refl) (λ rd. refl)
        (convert-Counts (λ (rd : ColumnReader P P.Decoder). rd.vals_total)
          (λ (rd : ColumnReader P P.Decoder). rd.vals_read) _ _ _ (value-Counts _ _))
        rd k' c e
  left-string (AnyReader.uint32 rd) k' c e =
      wrapped AnyReader.uint32 (Uint32.read_string W P N) (λ rd. refl) (λ rd. refl)
        (convert-Counts (λ (rd : ColumnReader P Bytes). rd.vals_total)
          (λ (rd : ColumnReader P Bytes). rd.vals_read) _ _ _ (value-Counts _ _))
        rd k' c e
  left-string (AnyReader.uint64 rd) k' c e =
      wrapped AnyReader.uint64 (Uint64.read_string W P N) (λ rd. refl) (λ rd. refl)
        (convert-Counts (λ (rd : ColumnReader P Bytes). rd.vals_total)
          (λ (rd : ColumnReader P Bytes). rd.vals_read) _ _ _ (value-Counts _ _))
        rd k' c e
  left-string (AnyReader.leb128 rd) k' c e =
      wrapped AnyReader.leb128 (Leb128.read_string W P N) (λ rd. refl) (λ rd. refl)
        (convert-Counts (λ (rd : ColumnReader P Bytes). rd.vals_total)
          (λ (rd : ColumnReader P Bytes). rd.vals_read) _ _ _ (value-Counts _ _))
        rd k' c e
  left-string (AnyReader.double rd) k' c e =
      wrapped AnyReader.double (Double.read_string W P N) (λ rd. refl) (λ rd. refl)
        (convert-Counts (λ (rd : ColumnReader P Bytes). rd.vals_total)
          (λ (rd : ColumnReader P Bytes). rd.vals_read) _ _ _ (value-Counts _ _))
        rd k' c e
  left-string (AnyReader.string rd) k' c e =
      wrapped AnyReader.string (Text.read_string W P) (λ rd. refl) (λ rd. refl) (value-Counts _ _)
        rd k' c e

  pub at_end : (k : AnyReader P) → entries_left k ≡ 0 → Readers.eof_reached N W P k ≡ true
  unfolding Readers.eof_reached V1.eof_reached
  at_end (AnyReader.boolean rd) h = le→leb rd.vals_total rd.vals_read (omega arith)
  at_end (AnyReader.bitpacked rd) h = le→leb rd.vals_total rd.vals_read (omega arith)
  at_end (AnyReader.uint32 rd) h = le→leb rd.vals_total rd.vals_read (omega arith)
  at_end (AnyReader.uint64 rd) h = le→leb rd.vals_total rd.vals_read (omega arith)
  at_end (AnyReader.leb128 rd) h = le→leb rd.vals_total rd.vals_read (omega arith)
  at_end (AnyReader.double rd) h = le→leb rd.vals_total rd.vals_read (omega arith)
  at_end (AnyReader.string rd) h = le→leb rd.vals_total rd.vals_read (omega arith)

  -- A column has as many entries as its body says, whatever it is read as.
  abbrev pub class_source-IsFinite : IsFinite class_source
  class_source-IsFinite = record {
    left = entries_left;
    left-unsigned_int = left-unsigned_int;
    left-signed_int = left-signed_int;
    left-float = left-float;
    left-string = left-string;
    ends = at_end;
  }
