-- ===== src/Schema/Flat.antt =====
-- The flat columns of a schema: listFlatColumns and TableSchema::flatColumns
-- (cstable/TableSchema.cc).
pub mod Paths
pub mod Added
use libcstable.Prelude.{
  ℕ, ◌+◌, ◌%◌, ◌^◌, ◌≡◌, Bool, true, false, ◌||◌, List, [], ◌∷◌, ◌++◌, Option, none, some, Result,
  ok, err, undefined, assume, not, ◌>>=◌, ◌>>◌, if◌then◌else◌,
}
use libcstable.Prelude.Bytes.{Bytes}
use libcstable.Format.{ColumnType, subrecord, ColumnConfig}
use libcstable.Schema.{Field, TableSchema, no_columns, live, nested, dangling}

abbrev pub is_subrecord : ColumnType → Bool
is_subrecord subrecord = true
is_subrecord _ = false

-- `++level`, of a uint32_t, under a condition.
abbrev pub increment : Bool → ℕ → ℕ
increment on level = if on then (level + 1) % 2 ^ 32 else level

-- The levels of a field under those of its parent.
abbrev pub rlevel_of : Field → ℕ → ℕ
rlevel_of f r_max = increment f.repeated r_max

abbrev pub dlevel_of : Field → ℕ → ℕ
dlevel_of f d_max = increment (f.repeated || f.optional) d_max

-- The other branch, for a field that is no subrecord. `blank` is what the local variable holds
-- before its fields are assigned; the column id and the two body fields keep it.
unfoldable pub flat_column : ColumnConfig → Bytes → ℕ → ℕ → Field → Result ColumnConfig
flat_column blank prefix r_max d_max f = elim f.encoding [
  | none ↦ undefined
  | some encoding ↦ ok (record blank {
    column_name = prefix ++ f.name;
    storage_type = encoding;
    logical_type = f.type;
    rlevel_max = rlevel_of f r_max;
    dlevel_max = dlevel_of f d_max;
  })
]

abbrev pub dot : Bytes
dot = b'.' ∷ []

-- listFlatColumns of each column of a schema, under the prefix and the levels of its parent. A
-- subrecord without a subschema is read through a null pointer.
unfoldable pub list_flat_columns :
    ColumnConfig → Bytes → ℕ → ℕ → TableSchema → Result (List ColumnConfig)
unfolding flat_column
list_flat_columns blank prefix r_max d_max no_columns = ok []
list_flat_columns blank prefix r_max d_max (live f rest) = do
  assume (not (is_subrecord f.type))
  col ← flat_column blank prefix r_max d_max f
  cols ← list_flat_columns blank prefix r_max d_max rest
  ok (col ∷ cols)
list_flat_columns blank prefix r_max d_max (nested f sub rest) =
    let children =
      list_flat_columns blank ((prefix ++ f.name) ++ dot) (rlevel_of f r_max) (dlevel_of f d_max)
        sub in
    let column = flat_column blank prefix r_max d_max f >>= λ col. ok (col ∷ []) in
    (if is_subrecord f.type then children else column) >>= λ cols.
    list_flat_columns blank prefix r_max d_max rest >>= λ more. ok (cols ++ more)
list_flat_columns blank prefix r_max d_max (dangling rest) = undefined

unfoldable pub flat_columns : ColumnConfig → TableSchema → Result (List ColumnConfig)
unfolding list_flat_columns
flat_columns blank s = list_flat_columns blank [] 0 0 s
