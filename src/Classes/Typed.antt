-- ===== src/Classes/Typed.antt =====
-- The typed writes of a v0.1 column of any class, as a client of the table calls them.
use libcstable.Prelude.{
  ℕ, ◌^◌, ◌≤◌, ◌<◌, ◌≡◌, refl, ap, ◌∙◌, Bool, true, false, List, [], ◌∷◌, All, Result, ok, ◌>>=◌,
  arith,
}
use libcstable.Prelude.Bytes.{store, load, load-store}
use libcstable.Stx.{Wire, Packing, Numerics}
use libcstable.Column.{ColumnSink}
use libcstable.Format.{ColumnConfig}
use libcstable.V1.{ColumnWriter, write_null}
use libcstable.V1.Entries.{Entry, null, datum, IsEntry, write_all}
use libcstable.V1.Boolean
use libcstable.V1.BitPacked
use libcstable.V1.Uint32
use libcstable.V1.Uint64
use libcstable.V1.Leb128
use libcstable.V1.Double
use libcstable.V1.Text
use libcstable.Classes.{AnyWriter, any_sink, open_writer}
use libcstable.Classes.Contents.{
  Contents, booleans, bitpackeds, uint32s, uint64s, leb128s, doubles, strings, encoding_for,
  IsWithin, filled,
}

-- Writes the entries one by one, and stops at the first write that throws.
abbrev pub write_entries :
    {V K : Type 0}
    → (ℕ → ℕ → K → Result K)
    → (ℕ → ℕ → V → K → Result K)
    → List (Entry V)
    → K
    → Result K
write_entries put_null put [] k = ok k
write_entries put_null put (null r d ∷ es) k = put_null r d k >>= write_entries put_null put es
write_entries put_null put (datum r d v ∷ es) k = put r d v k >>= write_entries put_null put es

module _ (N : Numerics) (W : Wire) (P : Packing) where
  -- The contents, by the write of their type.
  abbrev pub write_contents : Contents N → AnyWriter P → Result (AnyWriter P)
  write_contents (booleans es) =
      let S = any_sink N W P in write_entries S.write_null S.write_boolean es
  write_contents (bitpackeds es) =
      let S = any_sink N W P in write_entries S.write_null S.write_unsigned_int es
  write_contents (uint32s es) =
      let S = any_sink N W P in write_entries S.write_null S.write_unsigned_int es
  write_contents (uint64s es) =
      let S = any_sink N W P in write_entries S.write_null S.write_unsigned_int es
  write_contents (leb128s es) =
      let S = any_sink N W P in write_entries S.write_null S.write_unsigned_int es
  write_contents (doubles es) =
      let S = any_sink N W P in write_entries S.write_null S.write_float es
  write_contents (strings es) =
      let S = any_sink N W P in write_entries S.write_null S.write_string es

  module _ {V A : Type 0} (wrap : ColumnWriter P A → AnyWriter P)
      (put' : ℕ → ℕ → V → AnyWriter P → Result (AnyWriter P))
      (put : ℕ → ℕ → V → ColumnWriter P A → ColumnWriter P A) (Fits : V → Type 0)
      (null_same : (r d : ℕ) (w : ColumnWriter P A)
        → ColumnSink.write_null (any_sink N W P) r d (wrap w) ≡ ok (wrap (write_null P r d w)))
      (put_same : (r d : ℕ) (v : V) (w : ColumnWriter P A)
        → Fits v
        → put' r d v (wrap w) ≡ ok (wrap (put r d v w))) where
    write_entries_lem :
        (r_max d_max : ℕ) (es : List (Entry V)) (w : ColumnWriter P A)
        → All (IsEntry r_max d_max Fits) es
        → write_entries (ColumnSink.write_null (any_sink N W P)) put' es (wrap w)
          ≡ ok (wrap (write_all (write_null P) put es w))
    write_entries_lem r_max d_max [] w h = refl
    write_entries_lem r_max d_max (null r d ∷ es) w (h, hs) =
        rw (null_same r d w) (write_entries_lem r_max d_max es (write_null P r d w) hs)
    write_entries_lem r_max d_max (datum r d v ∷ es) w (h, hs) =
        rw (put_same r d v w h.2) (write_entries_lem r_max d_max es (put r d v w) hs)

  eight : (v : ℕ) → v < 2 ^ 64 → load (store 8 v) ≡ v
  eight v h = load-store 8 v (omega arith)

  flag :
      (r d : ℕ) (v : Bool) (w : ColumnWriter P P.Encoder)
      → ColumnSink.write_boolean (any_sink N W P) r d v (AnyWriter.boolean w)
        ≡ ok (AnyWriter.boolean (Boolean.add_value P r d v w))
  unfolding any_sink store load Boolean.add_datum
  flag r d true w = refl
  flag r d false w = refl

  -- For a column configuration with the encoding of the contents, and entries within its levels that
  -- fit its class: the writer that the table opens takes each entry by the write of its own type,
  -- and then is the class's new column with exactly these entries.
  pub write_contents-filled :
      (col : ColumnConfig) (c : Contents N)
      → col.storage_type ≡ encoding_for c
      → IsWithin col.rlevel_max col.dlevel_max c
      → (open_writer N W P col >>= write_contents c)
        ≡ ok (filled N W P col.rlevel_max col.dlevel_max c)
  unfolding open_writer any_sink store Boolean.add_datum BitPacked.add_datum Uint32.add_datum
      Uint64.add_datum Leb128.add_datum Double.add_datum Text.add_datum
  write_contents-filled col (booleans es) e (hn, h) = rw e (
      write_entries_lem AnyWriter.boolean (ColumnSink.write_boolean (any_sink N W P))
        (Boolean.add_value P) Boolean.IsBool (λ r d w. refl) (λ r d v w hv. flag r d v w)
        col.rlevel_max col.dlevel_max es _ h)
  write_contents-filled col (bitpackeds es) e (hn, h) = rw e (
      write_entries_lem AnyWriter.bitpacked (ColumnSink.write_unsigned_int (any_sink N W P))
        (BitPacked.add_value P) (λ v. v ≤ 0xffffffff) (λ r d w. refl)
        (λ r d v w hv.
          ap (λ x. ok (AnyWriter.bitpacked (BitPacked.add_value P r d x w)))
            (eight v (omega arith)))
        col.rlevel_max col.dlevel_max es _ h)
  write_contents-filled col (uint32s es) e (hn, h) = rw e (
      write_entries_lem AnyWriter.uint32 (ColumnSink.write_unsigned_int (any_sink N W P))
        (Uint32.add_value W P) Uint32.IsU32 (λ r d w. refl)
        (λ r d v w hv.
          ap (λ x. ok (AnyWriter.uint32 (Uint32.add_value W P r d x w))) (eight v (omega arith)))
        col.rlevel_max col.dlevel_max es _ h)
  write_contents-filled col (uint64s es) e (hn, h) = rw e (
      write_entries_lem AnyWriter.uint64 (ColumnSink.write_unsigned_int (any_sink N W P))
        (Uint64.add_value W P) Uint64.IsU64 (λ r d w. refl)
        (λ r d v w hv.
          ap (λ x. ok (AnyWriter.uint64 (Uint64.add_value W P r d x w))) (eight v (omega arith)))
        col.rlevel_max col.dlevel_max es _ h)
  write_contents-filled col (leb128s es) e (hn, h) = rw e (
      write_entries_lem AnyWriter.leb128 (ColumnSink.write_unsigned_int (any_sink N W P))
        (Leb128.add_value W P) Leb128.IsU64 (λ r d w. refl)
        (λ r d v w hv.
          ap (λ x. ok (AnyWriter.leb128 (Leb128.add_value W P r d x w))) (eight v (omega arith)))
        col.rlevel_max col.dlevel_max es _ h)
  write_contents-filled col (doubles es) e (hn, h) = rw e (
      write_entries_lem AnyWriter.double (ColumnSink.write_float (any_sink N W P))
        (Double.add_value W P N) (λ v. Unit {0}) (λ r d w. refl)
        (λ r d v w hv.
          ap (λ x. ok (AnyWriter.double (Double.add_value W P N r d x w)))
            (ap N.from_bytes (eight (N.to_bytes v) (N.to_bytes-lt v)) ∙ N.from_bytes-to_bytes v))
        col.rlevel_max col.dlevel_max es _ h)
  write_contents-filled col (strings es) e (hn, h) = rw e (
      write_entries_lem AnyWriter.string (ColumnSink.write_string (any_sink N W P))
        (Text.add_value W P) Text.IsText (λ r d w. refl) (λ r d v w hv. refl) col.rlevel_max
        col.dlevel_max es _ h)
