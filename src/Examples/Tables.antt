-- ===== src/Examples/Tables.antt =====
-- Schemas, shredded messages, and the commits of a table writer.
use libcstable.Prelude.{
  ℕ, ◌≤◌, ◌≡◌, refl, Bool, true, false, List, [], ◌∷◌, ◌++◌, All, map, Option, none, some, Result,
  ok, err, undefined, arith, if◌then◌else◌,
}
use libcstable.Prelude.Bytes.{Bytes, bytes_eq, store}
use libcstable.Stx.Sample.{wire, numerics}
use libcstable.Column.{ColumnSink}
use libcstable.Format.{
  ColumnConfig, unsigned_int, uint64_leb128, uint64_plain, v0_2_0, pad_to_next_sector,
}
use libcstable.Schema.{
  Field, TableSchema, no_columns, live, nested, has_column, add_column, copy, subrecord_field,
}
use libcstable.Schema.Flat.{flat_columns, list_flat_columns, flat_column}
use libcstable.Schema.Flat.Paths.{IsLive, leaves, leaf_column, flat_columns-leaves}
use libcstable.Schema.Flat.Added.{add_column-taken, add_column-new}
use libcstable.Schema.Protobuf.{MessageSchema, no_fields, field, object, uint64, from_protobuf}
use libcstable.Schema.Copied.{IsMapOrder, copy-leaves}
use libcstable.Schema.Protobuf.Leaves.{AreDistinct, message_leaves, from_protobuf-leaves}
use libcstable.Shredder.{
  Messages, Rows, add_record_from_protobuf, add_proto_record_fields, each_match, write_proto_nulls,
  write_proto_field, on_column,
}
use libcstable.Shredder.Safe.{Safe, AreKept, IsBounded}
use libcstable.Shredder.Levels.{Matches, add_record-within_levels}
use libcstable.Pages.{page_manager, alloc_page, write_page, write_transaction}
use libcstable.Pages.Writer.{page_writer, append_value, turn_page, write_current, write_index}
use libcstable.Format.Checksum.{write_meta_block}
use libcstable.Pages.Index
use libcstable.Pages.Index.{
  Store, append_to, build_index, alloc_index, write_pages, new_page_writer, add_page_writer,
}
use libcstable.V2.{unsigned_int_column, open_level}
use libcstable.Table.{TableWriter, add_rows, meta_block, commit_v2}
use libcstable.Table.Slots.{Ends, IsCommitted, session-IsCommitted}
use libcstable.Table.Commits.{session, Fails, third_commit-Fails}
use mathlib.Core.List.{Perm}
use mathlib.Core.List.Perm

abbrev blank_config : ColumnConfig
blank_config = record {
  column_id = 0;
  column_name = [];
  storage_type = uint64_plain;
  logical_type = unsigned_int;
  rlevel_max = 0;
  dlevel_max = 0;
  body_offset = 0;
  body_size = 0;
}

abbrev number_field : Field
number_field = record {
  name = 98 ∷ [];
  type = unsigned_int;
  encoding = some uint64_leb128;
  type_size = some 0;
  repeated = false;
  optional = true;
}

-- A repeated subrecord `a` with an optional number `b`.
abbrev small_schema : TableSchema
small_schema =
    nested (subrecord_field (97 ∷ []) true false) (live number_field no_columns) no_columns

small_schema-IsLive : IsLive small_schema
small_schema-IsLive = (refl, (refl, (uint64_leb128, refl), tt), tt)

flat_columns-leaves_example :
    flat_columns blank_config small_schema
    ≡ ok (map (leaf_column blank_config) (leaves small_schema))
flat_columns-leaves_example =
    flat_columns-leaves blank_config small_schema small_schema-IsLive (omega arith)

a_taken : has_column (97 ∷ []) small_schema ≡ true
unfolding has_column bytes_eq
a_taken = refl

add_column-taken_example :
    flat_columns blank_config
      (add_column (97 ∷ []) unsigned_int uint64_leb128 false true 0 small_schema)
    ≡ undefined
add_column-taken_example =
    add_column-taken blank_config (97 ∷ []) unsigned_int uint64_leb128 false true 0 small_schema
      a_taken

c_new : has_column (99 ∷ []) small_schema ≡ false
unfolding has_column bytes_eq
c_new = refl

add_column-new_example :
    IsLive (add_column (99 ∷ []) unsigned_int uint64_leb128 false true 0 small_schema)
    × (leaves (add_column (99 ∷ []) unsigned_int uint64_leb128 false true 0 small_schema)
        ≡ leaves small_schema ++ (([], record number_field { name = 99 ∷ [] }) ∷ []))
add_column-new_example =
    add_column-new (99 ∷ []) unsigned_int uint64_leb128 false true 0 small_schema c_new refl
      small_schema-IsLive

-- A hash map that is visited in the order of insertion.
abbrev inserted : TableSchema → TableSchema
inserted s = s

inserted-IsMapOrder : IsMapOrder inserted
inserted-IsMapOrder = record { keeps_live = λ s h. h; keeps_leaves = λ s. Perm.refl (leaves s) }

copy-leaves_example :
    IsLive (copy inserted small_schema)
    × Perm (leaves (copy inserted small_schema)) (leaves small_schema)
copy-leaves_example = copy-leaves inserted inserted-IsMapOrder small_schema small_schema-IsLive

abbrev small_message : MessageSchema
small_message =
    field 1 (98 ∷ []) uint64 false true
      (object 2 (97 ∷ []) true false (field 1 (98 ∷ []) uint64 false true no_fields) no_fields)

small_message-AreDistinct : AreDistinct small_message
unfolding bytes_eq
small_message-AreDistinct = (refl, (refl, (refl, tt), tt))

from_protobuf-leaves_example :
    IsLive (from_protobuf inserted small_message)
    × Perm (leaves (from_protobuf inserted small_message)) (message_leaves small_message)
from_protobuf-leaves_example =
    from_protobuf-leaves inserted inserted-IsMapOrder small_message small_message-AreDistinct

-- A message is a number or an object with two children.
data SmallMessage : Type 0 where
  number : ℕ → ℕ → SmallMessage
  pair : ℕ → SmallMessage → SmallMessage → SmallMessage

abbrev message_id : SmallMessage → ℕ
message_id (number i n) = i
message_id (pair i a b) = i

abbrev message_children : SmallMessage → Option (List SmallMessage)
message_children (number i n) = none
message_children (pair i a b) = some (a ∷ b ∷ [])

abbrev message_number : SmallMessage → Option ℕ
message_number (number i n) = some n
message_number (pair i a b) = none

-- Every field has the number 1; `false` is the schema of the message, `true` that of its children.
abbrev small_messages : Messages numerics
small_messages = record {
  Message = SmallMessage;
  MessageSchema = Bool;
  id = message_id;
  as_object = message_children;
  as_string = λ m. none;
  as_uint64 = message_number;
  as_unix_time = message_number;
  as_double = λ m. none;
  as_bool = λ m. none;
  field_id = λ ms name. some 1;
  field_schema = λ ms id. if ms then some none else some (some true);
}

-- Columns that record the levels written to them.
abbrev log_sink : ColumnSink numerics (List (ℕ × ℕ))
log_sink = record {
  write_null = λ r d k. ok (k ++ ((r, d) ∷ []));
  write_boolean = λ r d v k. ok (k ++ ((r, d) ∷ []));
  write_unsigned_int = λ r d v k. ok (k ++ ((r, d) ∷ []));
  write_signed_int = λ r d v k. ok (k ++ ((r, d) ∷ []));
  write_float = λ r d v k. ok (k ++ ((r, d) ∷ []));
  write_string = λ r d v k. ok (k ++ ((r, d) ∷ []));
  write_date_time = λ r d v k. ok (k ++ ((r, d) ∷ []));
  max_repetition_level = λ k. 1;
  max_definition_level = λ k. 2;
}

abbrev Within : Bytes → List (ℕ × ℕ) → Type 0
Within name k = All (λ p. (p.0 ≤ 1) × (p.1 ≤ 2)) k

logged-Within :
    (name : Bytes) (k : List (ℕ × ℕ)) (r d : ℕ)
    → r ≤ 1
    → d ≤ 2
    → Within name k
    → Within name (k ++ ((r, d) ∷ []))
logged-Within name [] r d hr hd h = ((hr, hd), tt)
logged-Within name (p ∷ k) r d hr hd (h, hs) = (h, logged-Within name k r d hr hd hs)

abbrev small_columns : List ColumnConfig
small_columns =
    record blank_config {
      column_name = 97 ∷ b'.' ∷ 98 ∷ [];
      storage_type = uint64_leb128;
      rlevel_max = 1;
      dlevel_max = 2;
    }
    ∷ []

small_columns_flat : flat_columns blank_config small_schema ≡ ok small_columns
unfolding flat_columns list_flat_columns flat_column
small_columns_flat = refl

small_columns-IsBounded : All (IsBounded log_sink Within) small_columns
small_columns-IsBounded = (
  λ r d hr hd.
      let kept = λ (k : List (ℕ × ℕ)) (h : All (λ p. (p.0 ≤ 1) × (p.1 ≤ 2)) k).
        logged-Within [] k r d hr hd h in
      record {
        null_kept = kept;
        boolean_kept = λ v. kept;
        unsigned_kept = λ v. kept;
        float_kept = λ v. kept;
        string_kept = λ v. kept;
        date_time_kept = λ v. kept;
      },
  tt,
)

-- Two objects `a`, the first with two numbers `b`, the second with an object in the place of one.
abbrev two_objects : SmallMessage
two_objects = pair 0 (pair 1 (number 1 7) (number 1 8)) (pair 1 (number 2 7) (number 3 8))

abbrev empty_rows : Rows (List (ℕ × ℕ))
empty_rows = record { writers = (97 ∷ b'.' ∷ 98 ∷ [], []) ∷ []; num_rows = 0 }

small-Matches : Matches small_messages false small_schema
small-Matches = (λ id found e1 e2. (true, cc, tt), tt)

add_record-within_levels_example :
    Safe
      (AreKept log_sink Within)
      (add_record_from_protobuf small_messages log_sink two_objects false small_schema empty_rows)
add_record-within_levels_example =
    add_record-within_levels log_sink Within blank_config small_messages two_objects false
      small_schema small_columns empty_rows small_schema-IsLive (omega arith) small-Matches
      small_columns_flat small_columns-IsBounded (tt, tt)

-- The run itself: the second number stands at repetition level 1, and the second object has none.
two_objects_shredded :
    add_record_from_protobuf small_messages log_sink two_objects false small_schema empty_rows
    ≡ ok (record {
      writers = (97 ∷ b'.' ∷ 98 ∷ [], (0, 2) ∷ (1, 2) ∷ (1, 1) ∷ []) ∷ [];
      num_rows = 1;
    })
unfolding add_record_from_protobuf add_proto_record_fields each_match write_proto_nulls
    write_proto_field on_column bytes_eq
two_objects_shredded = refl

-- A table of one column of 64-bit integers.
abbrev empty_store : Store
empty_store = record {
  manager = page_manager v0_2_0 (record { content = []; log = [] }) 512;
  writers = [];
  index = [];
}

abbrev fresh_table : Store → TableWriter
fresh_table s = record {
  store = s;
  columns = record blank_config { column_name = 107 ∷ [] } ∷ [];
  current_txid = 0;
  num_rows = 0;
  free_idx_ptr = none;
  cur_idx_ptr = none;
}

abbrev number_store : Store
number_store = elim (unsigned_int_column blank_config empty_store) [
  | ok p ↦ p.1
  | err e ↦ empty_store
  | undefined ↦ empty_store
]

abbrev with_number : Store → Store
with_number s = elim (append_to wire 0 7 s) [ ok s' ↦ s' | err e ↦ s | undefined ↦ s ]

third_commit-Fails_example : Fails (
    session wire
      ((with_number, 1) ∷ (with_number, 1) ∷ (with_number, 1) ∷ [])
      (fresh_table number_store))
third_commit-Fails_example =
    third_commit-Fails wire (fresh_table number_store) (with_number, 1) (with_number, 1)
      (with_number, 1)

abbrev Succeeds : {A : Type 0} → Result A → Type 0
Succeeds (ok a) = Unit
Succeeds _ = ⊥

two_commits_succeed :
    Succeeds (session wire ((with_number, 1) ∷ (with_number, 1) ∷ []) (fresh_table number_store))
unfolding session add_rows meta_block commit_v2 Index.write build_index alloc_index write_pages
    alloc_page write_page write_transaction write_meta_block store pad_to_next_sector page_manager
    unsigned_int_column open_level new_page_writer add_page_writer page_writer append_to
    append_value turn_page write_current write_index
two_commits_succeed = tt

session-IsCommitted_example :
    Ends
      (IsCommitted wire 0)
      (session wire ((with_number, 1) ∷ (with_number, 1) ∷ []) (fresh_table number_store))
session-IsCommitted_example =
    session-IsCommitted wire (with_number, 1) ((with_number, 1) ∷ []) (fresh_table number_store)
