-- ===== src/Shredder.antt =====
-- The record shredder (cstable/RecordShredder.cc): a protobuf message is split into the entries of
-- the table's columns.
pub mod Safe
pub mod Levels
pub mod Csv
use libcstable.Prelude.{
  ℕ, zero, suc, ◌+◌, ◌%◌, ◌^◌, ◌≡◌, Bool, true, false, not, ◌||◌, List, [], ◌∷◌, ◌++◌, Option, none,
  some, Result, ok, err, undefined, need, check, assume, not_found, not_implemented, illegal_state,
  illegal_argument, index_error, type_error, ◌>>=◌, ◌>>◌, if◌then◌else◌, ◌==◌,
}
use libcstable.Prelude.Bytes.{Bytes, bytes_eq}
use libcstable.Stx.{Numerics}
use libcstable.Column.{ColumnSink}
use libcstable.Format.{
  ColumnType, subrecord, boolean, unsigned_int, signed_int, string, float, datetime, column_type,
}
use libcstable.Schema.{Field, TableSchema, no_columns, live, nested, dangling}
use libcstable.Schema.Flat.{is_subrecord, increment, dot}

-- stx::msg::MessageObject with its accessors, which throw (`none`) on an object of another type, and
-- fieldId and fieldSchema of stx::msg::MessageSchema. A field that is no object has a null pointer
-- as its schema.
pub record Messages (N : Numerics) : Type 1 where
  pub Message : Type 0
  pub MessageSchema : Type 0
  pub id : Message → ℕ
  pub as_object : Message → Option (List Message)
  pub as_string : Message → Option Bytes
  pub as_uint64 : Message → Option ℕ
  pub as_unix_time : Message → Option ℕ
  pub as_double : Message → Option N.Double
  pub as_bool : Message → Option Bool
  pub field_id : MessageSchema → Bytes → Option ℕ
  pub field_schema : MessageSchema → ℕ → Option (Option MessageSchema)

-- The part of the table writer that is written to: column_writers_by_name_ and num_rows_.
pub record Rows (K : Type 0) : Type 0 where
  pub writers : List (Bytes × K)
  pub num_rows : ℕ

abbrev pub lookup : {K : Type 0} → Bytes → List (Bytes × K) → Option K
lookup column [] = none
lookup column ((name, k) ∷ writers) = if bytes_eq column name then some k else lookup column writers

-- The writer of the column in another state.
abbrev pub update : {K : Type 0} → Bytes → K → List (Bytes × K) → List (Bytes × K)
update column k' [] = []
update column k' ((name, k) ∷ writers) =
    let rest = update column k' writers in
    if bytes_eq column name then (name, k') ∷ writers else (name, k) ∷ rest

-- getColumnWriter, and a call on the writer.
unfoldable pub on_column : {K : Type 0} → Bytes → (K → Result K) → Rows K → Result (Rows K)
on_column column call t = do
  k ← need not_found (lookup column t.writers)
  k' ← call k
  ok (record t { writers = update column k' t.writers })

module _ {N : Numerics} {K : Type 0} (S : ColumnSink N K) where
  -- writeProtoNull of each column of a schema, under the prefix.
  unfoldable pub write_proto_nulls : ℕ → ℕ → Bytes → TableSchema → Rows K → Result (Rows K)
  unfolding on_column
  write_proto_nulls r d prefix no_columns t = ok t
  write_proto_nulls r d prefix (live f rest) t = do
    assume (not (is_subrecord f.type))
    t' ← on_column (prefix ++ f.name) (S.write_null r d) t
    write_proto_nulls r d prefix rest t'
  write_proto_nulls r d prefix (nested f sub rest) t =
      let children = write_proto_nulls r d ((prefix ++ f.name) ++ dot) sub t in
      let column = on_column (prefix ++ f.name) (S.write_null r d) t in
      (if is_subrecord f.type then children else column) >>= write_proto_nulls r d prefix rest
  write_proto_nulls r d prefix (dangling rest) t = undefined

module _ {N : Numerics} (M : Messages N) {K : Type 0} (S : ColumnSink N K) where
  -- The switch of writeProtoField, on the column's writer.
  abbrev pub write_typed : ℕ → ℕ → M.Message → ColumnType → K → Result K
  write_typed r d msg string k = need type_error (M.as_string msg) >>= λ v. S.write_string r d v k
  write_typed r d msg unsigned_int k =
      need type_error (M.as_uint64 msg) >>= λ v. S.write_unsigned_int r d v k
  write_typed r d msg signed_int k = err not_implemented
  write_typed r d msg datetime k =
      need type_error (M.as_unix_time msg) >>= λ v. S.write_date_time r d v k
  write_typed r d msg float k = need type_error (M.as_double msg) >>= λ v. S.write_float r d v k
  write_typed r d msg boolean k = need type_error (M.as_bool msg) >>= λ v. S.write_boolean r d v k
  write_typed r d msg subrecord k = err illegal_state
  write_typed r d msg (column_type b) k = ok k

  unfoldable pub write_proto_field : ℕ → ℕ → M.Message → Bytes → Field → Rows K → Result (Rows K)
  unfolding on_column
  write_proto_field r d msg column f t = on_column column (write_typed r d msg f.type) t

  -- The loop over the objects of the message that have the field's id: `write` gets next_r, which is
  -- rmax from the second object on. The number of these objects is returned.
  unfoldable pub each_match :
      ℕ
      → (ℕ → M.Message → Rows K → Result (Rows K))
      → ℕ
      → ℕ
      → List M.Message
      → Rows K
      → Result (ℕ × Rows K)
  each_match field_id write rmax next_r [] t = ok (0, t)
  each_match field_id write rmax next_r (o ∷ os) t =
      let skipped = each_match field_id write rmax next_r os t in
      let written = write next_r o t >>= λ t'.
      each_match field_id write rmax rmax os t' >>= λ p. ok (p.0 + 1, p.1) in
      if M.id o == field_id then written else skipped

  -- What follows the loop: the nulls of a field that no object has.
  abbrev pub unless_found : Field → (Rows K → Result (Rows K)) → ℕ × Rows K → Result (Rows K)
  unless_found f nulls (zero, t) = check (f.optional || f.repeated) illegal_argument >> nulls t
  unless_found f nulls (suc n, t) = ok t

  -- Children without a message schema: it is read for each of them.
  abbrev pub without_schema : TableSchema → Rows K → Result (Rows K)
  without_schema no_columns t = ok t
  without_schema _ t = undefined

  -- addProtoRecordField of each column of a schema, under the prefix.
  unfoldable pub add_proto_record_fields :
      ℕ → ℕ → ℕ → M.Message → M.MessageSchema → Bytes → TableSchema → Rows K → Result (Rows K)
  unfolding each_match write_proto_nulls write_proto_field
  add_proto_record_fields r rmax d msg msg_schema prefix no_columns t = ok t
  add_proto_record_fields r rmax d msg msg_schema prefix (live f rest) t = do
    field_id ← need index_error (M.field_id msg_schema f.name)
    objects ← need type_error (M.as_object msg)
    let column = prefix ++ f.name
    let next_d = increment (f.optional || f.repeated) d
    let write : ℕ → M.Message → Rows K → Result (Rows K) = λ next_r o t.
        if is_subrecord f.type
        then (need index_error (M.field_schema msg_schema field_id) >>= λ schema. undefined)
        else write_proto_field next_r next_d o column f t
    found ← each_match field_id write (increment f.repeated rmax) r objects t
    t' ← unless_found f (write_proto_nulls S r d prefix (live f no_columns)) found
    add_proto_record_fields r rmax d msg msg_schema prefix rest t'
  add_proto_record_fields r rmax d msg msg_schema prefix (nested f sub rest) t = do
    field_id ← need index_error (M.field_id msg_schema f.name)
    objects ← need type_error (M.as_object msg)
    let column = prefix ++ f.name
    let next_rmax = increment f.repeated rmax
    let next_d = increment (f.optional || f.repeated) d
    let children : ℕ → M.Message → M.MessageSchema → Rows K → Result (Rows K) =
        λ next_r o o_schema t.
          add_proto_record_fields next_r next_rmax next_d o o_schema (column ++ dot) sub t
    let object : ℕ → M.Message → Rows K → Result (Rows K) = λ next_r o t.
        need index_error (M.field_schema msg_schema field_id) >>= λ schema. elim schema [
          | none ↦ without_schema sub t
          | some o_schema ↦ children next_r o o_schema t
        ]
    let write : ℕ → M.Message → Rows K → Result (Rows K) = λ next_r o t.
        if is_subrecord f.type
        then object next_r o t
        else write_proto_field next_r next_d o column f t
    found ← each_match field_id write next_rmax r objects t
    t' ← unless_found f (write_proto_nulls S r d prefix (nested f sub no_columns)) found
    add_proto_record_fields r rmax d msg msg_schema prefix rest t'
  add_proto_record_fields r rmax d msg msg_schema prefix (dangling rest) t = undefined

  unfoldable pub add_record_from_protobuf :
      M.Message → M.MessageSchema → TableSchema → Rows K → Result (Rows K)
  unfolding add_proto_record_fields
  add_record_from_protobuf msg msg_schema schema t = do
    t' ← add_proto_record_fields 0 0 0 msg msg_schema [] schema t
    ok (record t' { num_rows = (t'.num_rows + 1) % 2 ^ 64 })
