-- ===== src/Classes/Contents.antt =====
-- What a client has written to a v0.1 column: the entries, for each class.
use libcstable.Prelude.{ℕ, ◌^◌, ◌≤◌, ◌<◌, Bool, List, length, All}
use libcstable.Prelude.Bytes.{Bytes}
use libcstable.Stx.{Wire, Packing, Numerics}
use libcstable.Format.{
  ColumnEncoding, boolean_bitpacked, uint32_bitpacked, uint32_plain, uint64_plain, uint64_leb128,
  float_ieee754, string_plain,
}
use libcstable.V1.{write_null}
use libcstable.V1.Entries.{Entry, IsEntry, write_all}
use libcstable.V1.Boolean
use libcstable.V1.BitPacked
use libcstable.V1.Uint32
use libcstable.V1.Uint64
use libcstable.V1.Leb128
use libcstable.V1.Double
use libcstable.V1.Text
use libcstable.Classes.{AnyWriter}

pub data Contents (N : Numerics) : Type 0 where
  booleans : List (Entry Bool) → Contents N
  bitpackeds uint32s uint64s leb128s : List (Entry ℕ) → Contents N
  doubles : List (Entry N.Double) → Contents N
  strings : List (Entry Bytes) → Contents N

module _ {N : Numerics} where
  -- The encoding whose class takes the entries.
  abbrev pub encoding_for : Contents N → ColumnEncoding
  encoding_for (booleans es) = boolean_bitpacked
  encoding_for (bitpackeds es) = uint32_bitpacked
  encoding_for (uint32s es) = uint32_plain
  encoding_for (uint64s es) = uint64_plain
  encoding_for (leb128s es) = uint64_leb128
  encoding_for (doubles es) = float_ieee754
  encoding_for (strings es) = string_plain

  -- Fewer than 2 ^ 64 entries within the levels, with values that fit the class.
  abbrev pub IsWithin : ℕ → ℕ → Contents N → Type 0
  IsWithin r d (booleans es) = (length es < 2 ^ 64) × All (IsEntry r d Boolean.IsBool) es
  IsWithin r d (bitpackeds es) = (length es < 2 ^ 64) × All (IsEntry r d (λ v. v ≤ 0xffffffff)) es
  IsWithin r d (uint32s es) = (length es < 2 ^ 64) × All (IsEntry r d Uint32.IsU32) es
  IsWithin r d (uint64s es) = (length es < 2 ^ 64) × All (IsEntry r d Uint64.IsU64) es
  IsWithin r d (leb128s es) = (length es < 2 ^ 64) × All (IsEntry r d Leb128.IsU64) es
  IsWithin r d (doubles es) = (length es < 2 ^ 64) × All (IsEntry r d (λ v. Unit {0})) es
  IsWithin r d (strings es) = (length es < 2 ^ 64) × All (IsEntry r d Text.IsText) es

module _ (N : Numerics) (W : Wire) (P : Packing) where
  -- A new column of the class, as the table opens it, after the entries are written to it.
  abbrev pub filled : ℕ → ℕ → Contents N → AnyWriter P
  filled r d (booleans es) =
      AnyWriter.boolean
        (write_all (write_null P) (Boolean.add_value P) es (Boolean.new_writer P r d))
  filled r d (bitpackeds es) =
      AnyWriter.bitpacked (
        write_all (write_null P) (BitPacked.add_value P) es (BitPacked.new_writer P r d 0xffffffff))
  filled r d (uint32s es) =
      AnyWriter.uint32
        (write_all (write_null P) (Uint32.add_value W P) es (Uint32.new_writer W P r d))
  filled r d (uint64s es) =
      AnyWriter.uint64
        (write_all (write_null P) (Uint64.add_value W P) es (Uint64.new_writer W P r d))
  filled r d (leb128s es) =
      AnyWriter.leb128
        (write_all (write_null P) (Leb128.add_value W P) es (Leb128.new_writer W P r d))
  filled r d (doubles es) =
      AnyWriter.double
        (write_all (write_null P) (Double.add_value W P N) es (Double.new_writer W P N r d))
  filled r d (strings es) =
      AnyWriter.string (write_all (write_null P) (Text.add_value W P) es (Text.new_writer W P r d))
