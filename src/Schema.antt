-- ===== src/Schema.antt =====
-- The table schema (cstable/TableSchema.cc, cstable/TableSchema.h).
pub mod Flat
pub mod Copied
pub mod Protobuf
use libcstable.Prelude.{
  ℕ, ◌+◌, ◌%◌, ◌^◌, ◌≡◌, Bool, true, false, ◌||◌, Option, none, some, if◌then◌else◌,
}
use libcstable.Prelude.Bytes.{Bytes, bytes_eq}
use libcstable.Format.{ColumnType, subrecord, boolean, unsigned_int, string, float, ColumnEncoding}

-- A Column without its subschema. addSubrecord leaves encoding and type_size indeterminate, which
-- is `none`.
pub record Field : Type 0 where
  pub name : Bytes
  pub type : ColumnType
  pub encoding : Option ColumnEncoding
  pub type_size : Option ℕ
  pub repeated : Bool
  pub optional : Bool

-- The elements of columns_ in their order: a column without a subschema, one with it, and a
-- pointer whose column was destroyed. The columns that columns_by_name_ owns are those of the live
-- pointers, each under its name.
pub data TableSchema : Type 0 where
  no_columns : TableSchema
  live : Field → TableSchema → TableSchema
  nested : Field → TableSchema → TableSchema → TableSchema
  dangling : TableSchema → TableSchema

-- Whether columns_by_name_ has the name.
unfoldable pub has_column : Bytes → TableSchema → Bool
has_column name no_columns = false
has_column name (live f rest) = bytes_eq name f.name || has_column name rest
has_column name (nested f sub rest) = bytes_eq name f.name || has_column name rest
has_column name (dangling rest) = has_column name rest

unfoldable pub push_back : TableSchema → TableSchema → TableSchema
push_back no_columns last = last
push_back (live f rest) last = live f (push_back rest last)
push_back (nested f sub rest) last = nested f sub (push_back rest last)
push_back (dangling rest) last = dangling (push_back rest last)

-- The last two lines of every add function: the pointer is appended, and then the column is
-- emplaced under its name. A name that is taken keeps its column, and the new one is destroyed.
unfoldable pub emplace : Bytes → TableSchema → TableSchema → TableSchema
unfolding has_column push_back
emplace name col s =
    let taken = push_back s (dangling no_columns) in
    let added = push_back s col in if has_column name s then taken else added

unfoldable pub add_column :
    Bytes → ColumnType → ColumnEncoding → Bool → Bool → ℕ → TableSchema → TableSchema
unfolding emplace
add_column name type encoding repeated optional type_size s =
    let f : Field = record {
      name = name;
      type = type;
      encoding = some encoding;
      type_size = some type_size;
      repeated = repeated;
      optional = optional;
    } in
    emplace name (live f no_columns) s

abbrev pub add_bool : Bytes → Bool → ColumnEncoding → TableSchema → TableSchema
add_bool name optional encoding s = add_column name boolean encoding false optional 0 s

abbrev pub add_bool_array : Bytes → Bool → ColumnEncoding → TableSchema → TableSchema
add_bool_array name optional encoding s = add_column name boolean encoding true optional 0 s

abbrev pub add_unsigned_integer : Bytes → Bool → ColumnEncoding → ℕ → TableSchema → TableSchema
add_unsigned_integer name optional encoding max_value s =
    add_column name unsigned_int encoding false optional max_value s

abbrev pub add_unsigned_integer_array :
    Bytes → Bool → ColumnEncoding → ℕ → TableSchema → TableSchema
add_unsigned_integer_array name optional encoding max_value s =
    add_column name unsigned_int encoding true optional max_value s

abbrev pub add_float : Bytes → Bool → ColumnEncoding → TableSchema → TableSchema
add_float name optional encoding s = add_column name float encoding false optional 0 s

abbrev pub add_float_array : Bytes → Bool → ColumnEncoding → TableSchema → TableSchema
add_float_array name optional encoding s = add_column name float encoding true optional 0 s

abbrev pub add_string : Bytes → Bool → ColumnEncoding → ℕ → TableSchema → TableSchema
add_string name optional encoding max_len s =
    add_column name string encoding false optional max_len s

abbrev pub add_string_array : Bytes → Bool → ColumnEncoding → ℕ → TableSchema → TableSchema
add_string_array name optional encoding max_len s =
    add_column name string encoding true optional max_len s

-- The copy constructor visits columns_by_name_ in the order of that hash map: `order` brings the
-- columns into it.
unfoldable pub copy_columns : (TableSchema → TableSchema) → TableSchema → TableSchema
copy_columns order no_columns = no_columns
copy_columns order (live f rest) = live f (copy_columns order rest)
copy_columns order (nested f sub rest) =
    nested f (order (copy_columns order sub)) (copy_columns order rest)
copy_columns order (dangling rest) = copy_columns order rest

unfoldable pub copy : (TableSchema → TableSchema) → TableSchema → TableSchema
unfolding copy_columns
copy order s = order (copy_columns order s)

abbrev pub subrecord_field : Bytes → Bool → Bool → Field
subrecord_field name repeated optional = record {
  name = name;
  type = subrecord;
  encoding = none;
  type_size = none;
  repeated = repeated;
  optional = optional;
}

-- `schema` is the parameter, which the caller copies unless it is a temporary.
unfoldable pub add_subrecord :
    (TableSchema → TableSchema) → Bytes → TableSchema → Bool → TableSchema → TableSchema
unfolding emplace copy
add_subrecord order name schema optional s =
    emplace name (nested (subrecord_field name false optional) (copy order schema) no_columns) s

unfoldable pub add_subrecord_array :
    (TableSchema → TableSchema) → Bytes → TableSchema → Bool → TableSchema → TableSchema
unfolding emplace copy
add_subrecord_array order name schema optional s =
    emplace name (nested (subrecord_field name true optional) (copy order schema) no_columns) s
