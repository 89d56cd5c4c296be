-- ===== src/Schema/Protobuf.antt =====
-- The schema of a protobuf message type: TableSchema::fromProtobuf (cstable/TableSchema.cc).
-- stx::msg::MessageSchema is a tree of its fields here, as fields() and the fields' members show it.
pub mod Leaves
use libcstable.Prelude.{ℕ, ◌≡◌, Bool, true, false, if◌then◌else◌}
use libcstable.Prelude.Bytes.{Bytes}
use libcstable.Format.{
  ColumnType, boolean, string, unsigned_int, float, datetime, ColumnEncoding, boolean_bitpacked,
  string_plain, uint64_leb128, float_ieee754,
}
use libcstable.Schema.{TableSchema, no_columns, add_column, add_subrecord, add_subrecord_array}

-- The field types but OBJECT.
pub data FieldType : Type 0 where
  bool uint32 text uint64 double date_time : FieldType

-- The fields, each with its id, name, type, and the flags `repeated` and `optional`; an object's
-- field also has the schema of its objects.
pub data MessageSchema : Type 0 where
  no_fields : MessageSchema
  field : ℕ → Bytes → FieldType → Bool → Bool → MessageSchema → MessageSchema
  object : ℕ → Bytes → Bool → Bool → MessageSchema → MessageSchema → MessageSchema

abbrev pub type_of : FieldType → ColumnType
type_of bool = boolean
type_of uint32 = unsigned_int
type_of text = string
type_of uint64 = unsigned_int
type_of double = float
type_of date_time = datetime

abbrev pub encoding_of : FieldType → ColumnEncoding
encoding_of bool = boolean_bitpacked
encoding_of uint32 = uint64_leb128
encoding_of text = string_plain
encoding_of uint64 = uint64_leb128
encoding_of double = float_ieee754
encoding_of date_time = uint64_leb128

-- The loop over the fields, from the schema built so far. `order` is the order of the hash map that
-- a copied schema is visited in.
unfoldable pub add_fields : (TableSchema → TableSchema) → MessageSchema → TableSchema → TableSchema
add_fields order no_fields rs = rs
add_fields order (field id name type repeated optional rest) rs =
    add_fields order rest (add_column name (type_of type) (encoding_of type) repeated optional 0 rs)
add_fields order (object id name repeated optional sub rest) rs =
    let child = add_fields order sub no_columns in
    let array = add_subrecord_array order name child optional rs in
    let single = add_subrecord order name child optional rs in
    add_fields order rest (if repeated then array else single)

unfoldable pub from_protobuf : (TableSchema → TableSchema) → MessageSchema → TableSchema
unfolding add_fields
from_protobuf order schema = add_fields order schema no_columns
