-- ===== src/Materializer/Columns.antt =====
-- All columns of a materializer: nextRecord, skipRecord and createColumns
-- (cstable/RecordMaterializer.cc). The hash map of the columns is a list in the order that it is
-- visited in.
use libcstable.Prelude.{
  ℕ, Bool, true, false, ◌||◌, List, [], ◌∷◌, ◌++◌, Option, none, some, Result, ok, if◌then◌else◌,
}
use libcstable.Prelude.Bytes.{Bytes, bytes_eq, is_member}
use libcstable.Prelude.Int.{pos}
use libcstable.Stx.{Numerics}
use libcstable.Column.{ColumnSource}
use libcstable.Schema.Flat.{increment, dot}
use libcstable.Schema.Protobuf.{FieldType, MessageSchema, no_fields, field, object}
use libcstable.Materializer.{and_then, Parent, ColumnState, skip_column}
use libcstable.Materializer.Build.{Builder, load_column}

abbrev pub Columns : (N : Numerics) → Type 0 → Type 0
Columns N K = List (Bytes × ColumnState N K)

module _ {N : Numerics} {K : Type 0} (S : ColumnSource N K) where
  unfoldable pub skip_record : ℕ → Columns N K → Option (Result (Columns N K))
  unfolding skip_column
  skip_record fuel [] = some (ok [])
  skip_record fuel ((name, s) ∷ cols) =
      and_then (skip_column S fuel s)
        λ s'. and_then (skip_record fuel cols) λ cols'. some (ok ((name, s') ∷ cols'))

  module _ (B : Builder N) where
    unfoldable pub next_record :
        ℕ → Columns N K → B.Message → Option (Result (Columns N K × B.Message))
    unfolding load_column
    next_record fuel [] record_ = some (ok ([], record_))
    next_record fuel ((name, s) ∷ cols) record_ =
        and_then (load_column S B fuel s record_)
          λ p. and_then (next_record fuel cols p.1) λ q. some (ok ((name, p.0) ∷ q.0, q.1))

-- A name that is in the map keeps its column.
abbrev is_taken : {N : Numerics} {K : Type 0} → Bytes → Columns N K → Bool
is_taken name [] = false
is_taken name ((key, s) ∷ cols) = bytes_eq key name || is_taken name cols

unfoldable pub emplace :
    {N : Numerics} {K : Type 0} → Bytes → ColumnState N K → Columns N K → Columns N K
emplace name s cols = if is_taken name cols then cols else cols ++ ((name, s) ∷ [])

-- An empty set of names asks for all columns.
abbrev is_wanted : Bytes → List Bytes → Bool
is_wanted name [] = true
is_wanted name (n ∷ names) = is_member name (n ∷ names)

module _ {N : Numerics} {K : Type 0} (S : ColumnSource N K) where
  -- The constructor of a column's state, with the fields that createColumns sets. The values are not
  -- assigned yet, and stand as zeros.
  unfoldable pub column_state : K → List Parent → ℕ → FieldType → ColumnState N K
  column_state reader parents field_id field_type = record {
    reader = reader;
    r = 0;
    d = 0;
    pending = false;
    defined = false;
    parents = parents;
    field_id = field_id;
    field_type = field_type;
    col_type = S.column_type reader;
    val_str = [];
    val_uint = 0;
    val_sint = pos 0;
    val_float = N.zero_double;
  }

  -- A leaf whose column the table has and the client wants; `find` is hasColumn with
  -- getColumnReader.
  unfoldable pub create_leaf :
      (Bytes → Option K)
      → List Bytes
      → Bytes
      → List Parent
      → ℕ
      → FieldType
      → Columns N K
      → Columns N K
  unfolding emplace column_state
  create_leaf find wanted name parents field_id field_type cols = elim (find name) [
    | none ↦ cols
    | some reader ↦
        if is_wanted name wanted
        then emplace name (column_state reader parents field_id field_type) cols
        else cols
  ]

  -- createColumns of each field of a schema, under the prefix and the parents.
  unfoldable pub create_columns :
      (Bytes → Option K)
      → List Bytes
      → Bytes
      → ℕ
      → List Parent
      → MessageSchema
      → Columns N K
      → Columns N K
  unfolding create_leaf
  create_columns find wanted prefix dmax parents no_fields cols = cols
  create_columns find wanted prefix dmax parents (field id name type repeated optional rest) cols =
      create_columns find wanted prefix dmax parents rest
        (create_leaf find wanted (prefix ++ name) parents id type cols)
  create_columns find wanted prefix dmax parents (object id name repeated optional sub rest) cols =
      let dmax' = increment (repeated || optional) dmax in
      let parent : Parent = record { id = id; repeated = repeated; dmax = dmax' } in
      create_columns find wanted prefix dmax parents rest (
        create_columns find wanted ((prefix ++ name) ++ dot) dmax' (parents ++ (parent ∷ [])) sub
          cols)

  -- The constructor of the materializer.
  unfoldable pub materializer : (Bytes → Option K) → List Bytes → MessageSchema → Columns N K
  unfolding create_columns
  materializer find wanted schema = create_columns find wanted [] 0 [] schema []
