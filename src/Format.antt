-- ===== src/Format.antt =====
-- The file format's constants and records (cstable/cstable.h).
pub mod Checksum
pub mod Header
pub mod RoundTrip
pub mod Open
pub mod Order
pub mod Latest
use libcstable.Prelude.{
  ℕ, ◌+◌, ◌-◌, ◌*◌, ◌/◌, ◌%◌, ◌^◌, ◌≤◌, ◌<◌, ◌≡◌, refl, List, [], ◌∷◌, arith, if◌then◌else◌, ◌==◌,
}
use libcstable.Prelude.Bytes.{Bytes}

-- `enum class ColumnType : uint8_t` can hold any byte: `column_type b` is one that the enumeration
-- does not name.
pub data ColumnType : Type 0 where
  subrecord boolean unsigned_int signed_int string float datetime : ColumnType
  column_type : ℕ → ColumnType

pub data ColumnEncoding : Type 0 where
  boolean_bitpacked uint32_bitpacked uint32_plain uint64_plain uint64_leb128 : ColumnEncoding
  float_ieee754 string_plain : ColumnEncoding
  column_encoding : ℕ → ColumnEncoding

abbrev pub type_code : ColumnType → ℕ
type_code subrecord = 0
type_code boolean = 1
type_code unsigned_int = 2
type_code signed_int = 3
type_code string = 4
type_code float = 5
type_code datetime = 6
type_code (column_type b) = b

-- The cast of an integer to the enumeration keeps its low byte.
abbrev pub type_of_code : ℕ → ColumnType
type_of_code n =
    let b = n % 256 in
    if b == 0
    then subrecord
    else if b == 1
    then boolean
    else if b == 2
    then unsigned_int
    else if b == 3
    then signed_int
    else if b == 4
    then string
    else if b == 5
    then float
    else if b == 6
    then datetime
    else column_type b

abbrev pub encoding_code : ColumnEncoding → ℕ
encoding_code boolean_bitpacked = 1
encoding_code uint32_bitpacked = 10
encoding_code uint32_plain = 11
encoding_code uint64_plain = 12
encoding_code uint64_leb128 = 13
encoding_code float_ieee754 = 14
encoding_code string_plain = 100
encoding_code (column_encoding b) = b

abbrev pub encoding_of_code : ℕ → ColumnEncoding
encoding_of_code n =
    let b = n % 256 in
    if b == 1
    then boolean_bitpacked
    else if b == 10
    then uint32_bitpacked
    else if b == 11
    then uint32_plain
    else if b == 12
    then uint64_plain
    else if b == 13
    then uint64_leb128
    else if b == 14
    then float_ieee754
    else if b == 100
    then string_plain
    else column_encoding b

pub data BinaryFormatVersion : Type 0 where
  v0_1_0 v0_2_0 : BinaryFormatVersion

abbrev pub magic_bytes : Bytes
magic_bytes = 0x23 ∷ 0x17 ∷ 0x23 ∷ 0x17 ∷ []

abbrev pub sector_size : ℕ
sector_size = 512

abbrev pub meta_block_position : ℕ
meta_block_position = 14

abbrev pub meta_block_size : ℕ
meta_block_size = 56

-- In uint64_t arithmetic, where the sum may wrap around.
unfoldable pub pad_to_next_sector : ℕ → ℕ
pad_to_next_sector val = (val + (sector_size - 1)) % 2 ^ 64 / sector_size * sector_size

pub record ColumnConfig : Type 0 where
  pub column_id : ℕ
  pub column_name : Bytes
  pub storage_type : ColumnEncoding
  pub logical_type : ColumnType
  pub rlevel_max : ℕ
  pub dlevel_max : ℕ
  pub body_offset : ℕ
  pub body_size : ℕ

pub record MetaBlock : Type 0 where
  pub transaction_id : ℕ
  pub num_rows : ℕ
  pub head_index_page_offset : ℕ
  pub head_index_page_size : ℕ
  pub file_size : ℕ

-- The schema of the header is a component of its own.
pub record FileHeader : Type 0 where
  pub columns : List ColumnConfig
  pub num_rows : ℕ

pub record PageRef : Type 0 where
  pub offset : ℕ
  pub size : ℕ

-- For a value below 2 ^ 64 - 511, padding reaches a sector boundary, not below the value and less
-- than a sector above it.
pub pad_to_next_sector_bounds :
    (val : ℕ)
    → val + 511 < 2 ^ 64
    → (val ≤ pad_to_next_sector val)
      × (pad_to_next_sector val < val + 512)
      × (pad_to_next_sector val % 512 ≡ 0)
unfolding pad_to_next_sector
pad_to_next_sector_bounds val h = omega arith

abbrev pub IsKnownType : ColumnType → Type 0
IsKnownType (column_type b) = ⊥
IsKnownType _ = Unit

abbrev pub IsKnownEncoding : ColumnEncoding → Type 0
IsKnownEncoding (column_encoding b) = ⊥
IsKnownEncoding _ = Unit

pub type_of_code-type_code : (t : ColumnType) → IsKnownType t → type_of_code (type_code t) ≡ t
type_of_code-type_code subrecord h = refl
type_of_code-type_code _ h = ground arith

pub encoding_of_code-encoding_code :
    (e : ColumnEncoding) → IsKnownEncoding e → encoding_of_code (encoding_code e) ≡ e
encoding_of_code-encoding_code boolean_bitpacked h = refl
encoding_of_code-encoding_code _ h = ground arith
