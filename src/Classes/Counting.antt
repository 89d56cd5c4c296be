-- ===== src/Classes/Counting.antt =====
-- The writers of the column classes with the type that each reports (type() of
-- cstable/columns/v1/*ColumnWriter.h), and the entries that they count.
use libcstable.Prelude.{
  ℕ, ◌+◌, ◌≡◌, refl, inl, inr, Bool, true, false, length, Result, ok, err, Bool-cases,
  illegal_argument, ◌>>=◌, if◌then◌else◌, ◌==◌,
}
use mathlib.Core.Path.{subst}
use libcstable.Prelude.Bytes.{Bytes, store}
use libcstable.Prelude.Int.{to_bits}
use libcstable.Stx.{Wire, Packing, Numerics}
use libcstable.Column.{ColumnSink}
use libcstable.Format.{ColumnType, boolean, unsigned_int, string, float}
use libcstable.V1.{ColumnWriter, write_null, append_datum}
use libcstable.V1.Sink.{column_sink}
use libcstable.V1.Boolean
use libcstable.V1.BitPacked
use libcstable.V1.Uint32
use libcstable.V1.Uint64
use libcstable.V1.Leb128
use libcstable.V1.Double
use libcstable.V1.Text
use libcstable.Classes.{AnyWriter, dispatch, any_sink}
use libcstable.Classes.Embed.{both-Succeeds}
use libcstable.Shredder.Csv.{Human}
use libcstable.Shredder.Csv.Counted.{IsCounted}

-- The integer classes keep the type that they are made with.
pub record TypedWriter (P : Packing) : Type 0 where
  pub type : ColumnType
  pub writer : AnyWriter P

abbrev type_within : {P : Packing} → ColumnType → AnyWriter P → ColumnType
type_within type (AnyWriter.boolean w) = boolean
type_within type (AnyWriter.bitpacked w) = unsigned_int
type_within type (AnyWriter.uint32 w) = type
type_within type (AnyWriter.uint64 w) = type
type_within type (AnyWriter.leb128 w) = type
type_within type (AnyWriter.double w) = float
type_within type (AnyWriter.string w) = string

abbrev pub writer_type : {P : Packing} → TypedWriter P → ColumnType
writer_type w = type_within w.type w.writer

module _ (N : Numerics) (W : Wire) (P : Packing) where
  abbrev pub retyped : TypedWriter P → Result (AnyWriter P) → Result (TypedWriter P)
  retyped w m = m >>= λ writer. ok (record w { writer = writer })

  unfoldable pub typed_sink : ColumnSink N (TypedWriter P)
  unfolding any_sink
  typed_sink = record {
    write_null = λ r d w. retyped w (ColumnSink.write_null (any_sink N W P) r d w.writer);
    write_boolean = λ r d v w. retyped w (ColumnSink.write_boolean (any_sink N W P) r d v w.writer);
    write_unsigned_int =
        λ r d v w. retyped w (ColumnSink.write_unsigned_int (any_sink N W P) r d v w.writer);
    write_signed_int =
        λ r d v w. retyped w (ColumnSink.write_signed_int (any_sink N W P) r d v w.writer);
    write_float = λ r d v w. retyped w (ColumnSink.write_float (any_sink N W P) r d v w.writer);
    write_string = λ r d v w. retyped w (ColumnSink.write_string (any_sink N W P) r d v w.writer);
    write_date_time =
        λ r d v w. retyped w (ColumnSink.write_date_time (any_sink N W P) r d v w.writer);
    max_repetition_level = λ w. ColumnSink.max_repetition_level (any_sink N W P) w.writer;
    max_definition_level = λ w. ColumnSink.max_definition_level (any_sink N W P) w.writer;
  }

  abbrev pub num_vals : AnyWriter P → ℕ
  num_vals (AnyWriter.boolean w) = w.num_vals
  num_vals (AnyWriter.bitpacked w) = w.num_vals
  num_vals (AnyWriter.uint32 w) = w.num_vals
  num_vals (AnyWriter.uint64 w) = w.num_vals
  num_vals (AnyWriter.leb128 w) = w.num_vals
  num_vals (AnyWriter.double w) = w.num_vals
  num_vals (AnyWriter.string w) = w.num_vals

  -- A write that counts one entry, of each class.
  abbrev pub CountsOne : {A : Type 0} → (ColumnWriter P A → Result (ColumnWriter P A)) → Type 0
  CountsOne {A} f = (w w' : ColumnWriter P A) → f w ≡ ok w' → w'.num_vals ≡ w.num_vals + 1

  tested-CountsOne :
      {A : Type 0} (b : Bool) (w w1 w' : ColumnWriter P A)
      → w1.num_vals ≡ w.num_vals + 1
      → (if b then ok w1 else err illegal_argument) ≡ ok w'
      → w'.num_vals ≡ w.num_vals + 1
  tested-CountsOne true w w1 w' h e = let same : w1 ≡ w' = cc in rw (← same) h
  tested-CountsOne false w w1 w' h e = absurd cc

  guarded-CountsOne :
      {A : Type 0} (b : Bool) (w w1 w' : ColumnWriter P A)
      → w1.num_vals ≡ w.num_vals + 1
      → (if b then err illegal_argument else ok w1) ≡ ok w'
      → w'.num_vals ≡ w.num_vals + 1
  guarded-CountsOne true w w1 w' h e = absurd cc
  guarded-CountsOne false w w1 w' h e = tested-CountsOne true w w1 w' h e

  boolean-CountsOne : (r d : ℕ) (bs : Bytes) → CountsOne (Boolean.add_datum P r d bs)
  unfolding Boolean.add_datum Boolean.add_value append_datum
  boolean-CountsOne r d bs w w' e = elim (Bool-cases (length bs == 0)) [
    | inl empty ↦ tested-CountsOne true w _ w' refl (rw empty at e)
    | inr full ↦ tested-CountsOne _ w _ w' refl (rw full at e)
  ]

  bitpacked-CountsOne : (r d : ℕ) (bs : Bytes) → CountsOne (BitPacked.add_datum P r d bs)
  unfolding BitPacked.add_datum BitPacked.add_value append_datum
  bitpacked-CountsOne r d bs w w' e = tested-CountsOne _ w _ w' refl e

  uint32-CountsOne : (r d : ℕ) (bs : Bytes) → CountsOne (Uint32.add_datum W P r d bs)
  unfolding Uint32.add_datum Uint32.add_value append_datum
  uint32-CountsOne r d bs w w' e = tested-CountsOne _ w _ w' refl e

  uint64-CountsOne : (r d : ℕ) (bs : Bytes) → CountsOne (Uint64.add_datum W P r d bs)
  unfolding Uint64.add_datum Uint64.add_value append_datum
  uint64-CountsOne r d bs w w' e = guarded-CountsOne _ w _ w' refl e

  leb128-CountsOne : (r d : ℕ) (bs : Bytes) → CountsOne (Leb128.add_datum W P r d bs)
  unfolding Leb128.add_datum Leb128.add_value append_datum
  leb128-CountsOne r d bs w w' e = guarded-CountsOne _ w _ w' refl e

  double-CountsOne : (r d : ℕ) (bs : Bytes) → CountsOne (Double.add_datum W P N r d bs)
  unfolding Double.add_datum Double.add_value append_datum
  double-CountsOne r d bs w w' e = guarded-CountsOne _ w _ w' refl e

  string-CountsOne : (r d : ℕ) (bs : Bytes) → CountsOne (Text.add_datum W P r d bs)
  unfolding Text.add_datum Text.add_value append_datum
  string-CountsOne r d bs w w' e = tested-CountsOne true w _ w' refl e

  -- What counts for every class counts for the writers of all classes.
  module _
      (f : (A : Type 0)
        → ColumnSink N (ColumnWriter P A)
        → ColumnWriter P A
        → Result (ColumnWriter P A))
      (h : (A : Type 0) (add : ℕ → ℕ → Bytes → ColumnWriter P A → Result (ColumnWriter P A))
        → ((r d : ℕ) (bs : Bytes) → CountsOne (add r d bs))
        → CountsOne (f A (column_sink N P add))) where
    wrapped-counts :
        {A : Type 0} (wrap : ColumnWriter P A → AnyWriter P) (m : Result (ColumnWriter P A)) (n : ℕ)
        (w' : AnyWriter P)
        → ((w : ColumnWriter P A) → num_vals (wrap w) ≡ w.num_vals)
        → ((w : ColumnWriter P A) → m ≡ ok w → w.num_vals ≡ n + 1)
        → (m >>= λ w. ok (wrap w)) ≡ ok w'
        → num_vals w' ≡ n + 1
    wrapped-counts wrap m n w' hw hm e =
        let w = both-Succeeds m e in
        let same : wrap w.value ≡ w' = let q = w.after_is in cc in
        rw (← same, hw w.value) (hm w.value w.step_is)

    dispatch-counts :
        (w w' : AnyWriter P) → dispatch N W P f w ≡ ok w' → num_vals w' ≡ num_vals w + 1
    unfolding dispatch
    dispatch-counts (AnyWriter.boolean w) w' e =
        wrapped-counts AnyWriter.boolean _ w.num_vals w' (λ w. refl)
          (h _ (Boolean.add_datum P) boolean-CountsOne w) e
    dispatch-counts (AnyWriter.bitpacked w) w' e =
        wrapped-counts AnyWriter.bitpacked _ w.num_vals w' (λ w. refl)
          (h _ (BitPacked.add_datum P) bitpacked-CountsOne w) e
    dispatch-counts (AnyWriter.uint32 w) w' e =
        wrapped-counts AnyWriter.uint32 _ w.num_vals w' (λ w. refl)
          (h _ (Uint32.add_datum W P) uint32-CountsOne w) e
    dispatch-counts (AnyWriter.uint64 w) w' e =
        wrapped-counts AnyWriter.uint64 _ w.num_vals w' (λ w. refl)
          (h _ (Uint64.add_datum W P) uint64-CountsOne w) e
    dispatch-counts (AnyWriter.leb128 w) w' e =
        wrapped-counts AnyWriter.leb128 _ w.num_vals w' (λ w. refl)
          (h _ (Leb128.add_datum W P) leb128-CountsOne w) e
    dispatch-counts (AnyWriter.double w) w' e =
        wrapped-counts AnyWriter.double _ w.num_vals w' (λ w. refl)
          (h _ (Double.add_datum W P N) double-CountsOne w) e
    dispatch-counts (AnyWriter.string w) w' e =
        wrapped-counts AnyWriter.string _ w.num_vals w' (λ w. refl)
          (h _ (Text.add_datum W P) string-CountsOne w) e

    pub retyped-counts :
        (w w' : TypedWriter P)
        → retyped w (dispatch N W P f w.writer) ≡ ok w'
        → num_vals w'.writer ≡ num_vals w.writer + 1
    retyped-counts w w' e =
        let u = both-Succeeds (dispatch N W P f w.writer) e in
        let same : record w { writer = u.value } ≡ w' = let q = u.after_is in cc in
        let counts = dispatch-counts w.writer u.value u.step_is in
        subst (λ (v : TypedWriter P). num_vals v.writer ≡ num_vals w.writer + 1) same counts

  pub null-CountsOne : {A : Type 0} (r d : ℕ) → CountsOne {A = A} (λ w. ok (write_null P r d w))
  unfolding write_null
  null-CountsOne r d w w' e = tested-CountsOne true w _ w' refl e

  abbrev pub typed_sink-IsCounted : (H : Human) → IsCounted H (typed_sink) writer_type
  unfolding typed_sink any_sink
  typed_sink-IsCounted H = record {
    entries = λ w. num_vals w.writer;
    counts_null = λ r d.
        retyped-counts (λ A S w. ColumnSink.write_null S r d w) (λ A add h. null-CountsOne r d);
    counts_boolean = λ r d v.
        retyped-counts (λ A S w. ColumnSink.write_boolean S r d v w)
          (λ A add h. h r d (store 8 (if v then 1 else 0)));
    counts_unsigned_int = λ r d v.
        retyped-counts (λ A S w. ColumnSink.write_unsigned_int S r d v w)
          (λ A add h. h r d (store 8 v));
    counts_signed_int = λ r d v.
        retyped-counts (λ A S w. ColumnSink.write_signed_int S r d v w)
          (λ A add h. h r d (store 8 (to_bits v)));
    counts_float = λ r d v.
        retyped-counts (λ A S w. ColumnSink.write_float S r d v w)
          (λ A add h. h r d (store 8 (N.to_bytes v)));
    counts_string =
        λ r d v. retyped-counts (λ A S w. ColumnSink.write_string S r d v w) (λ A add h. h r d v);
    counts_date_time = λ r d v.
        retyped-counts (λ A S w. ColumnSink.write_date_time S r d v w)
          (λ A add h. h r d (store 8 v));
  }
