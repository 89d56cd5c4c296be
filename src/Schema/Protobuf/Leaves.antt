-- ===== src/Schema/Protobuf/Leaves.antt =====
-- The table schema of a message type has a leaf for each field that is not an object.
use libcstable.Prelude.{
  ◌≡◌, refl, ap, sym, ◌∙◌, Bool, true, false, ◌||◌, List, [], ◌∷◌, ◌++◌, append-nil, append_assoc,
  some, if◌then◌else◌, arith, Bool-cases, inl, inr,
}
use libcstable.Prelude.Bytes.{Bytes, bytes_eq, bytes_eq_refl, bytes_eq→eq}
use libcstable.Format.{ColumnType, ColumnEncoding}
use libcstable.Schema.{
  Field, TableSchema, no_columns, live, nested, dangling, has_column, push_back, emplace,
  add_column, copy, subrecord_field, add_subrecord, add_subrecord_array,
}
use libcstable.Schema.Flat.{is_subrecord}
use libcstable.Schema.Flat.Paths.{IsLive, Leaf, leaves, below}
use libcstable.Schema.Flat.Added.{add_column-new}
use libcstable.Schema.Protobuf.{
  FieldType, bool, uint32, text, uint64, double, date_time, MessageSchema, no_fields, field, object,
  type_of, encoding_of, add_fields, from_protobuf,
}
use mathlib.Core.List.{Perm}
use mathlib.Core.List.Perm
use libcstable.Schema.Copied.{IsMapOrder, below-Perm, copy-leaves}

-- Whether some field has the name.
abbrev pub has_field : Bytes → MessageSchema → Bool
has_field name no_fields = false
has_field name (field id other type repeated optional rest) =
    bytes_eq name other || has_field name rest
has_field name (object id other repeated optional sub rest) =
    bytes_eq name other || has_field name rest

-- In no message two fields have the same name.
abbrev pub AreDistinct : MessageSchema → Type 0
AreDistinct no_fields = Unit
AreDistinct (field id name type repeated optional rest) =
    (has_field name rest ≡ false) × AreDistinct rest
AreDistinct (object id name repeated optional sub rest) =
    (has_field name rest ≡ false) × AreDistinct sub × AreDistinct rest

-- The leaves of a message type: its fields that are no objects, with the objects around them.
abbrev pub message_leaves : MessageSchema → List Leaf
message_leaves no_fields = []
message_leaves (field id name type repeated optional rest) =
    (
      [],
      record {
        name = name;
        type = type_of type;
        encoding = some (encoding_of type);
        type_size = some 0;
        repeated = repeated;
        optional = optional;
      },
    )
    ∷ message_leaves rest
message_leaves (object id name repeated optional sub rest) =
    below (subrecord_field name repeated optional) (message_leaves sub) ++ message_leaves rest

has_column-push_back :
    (n : Bytes) (s col : TableSchema)
    → has_column n (push_back s col) ≡ (has_column n s || has_column n col)
unfolding has_column push_back
has_column-push_back n no_columns col = refl
has_column-push_back n (live f rest) col = ground (arith, has_column-push_back n rest col)
has_column-push_back n (nested f sub rest) col = ground (arith, has_column-push_back n rest col)
has_column-push_back n (dangling rest) col = has_column-push_back n rest col

-- No field's name is taken in the table schema.
abbrev AreFresh : MessageSchema → TableSchema → Type 0
AreFresh ms rs = (n : Bytes) → has_field n ms ≡ true → has_column n rs ≡ false

-- A schema of one column under the name.
abbrev IsNamed : Bytes → TableSchema → Type 0
IsNamed name col = (n : Bytes) → has_column n col ≡ bytes_eq n name

emplaced-AreFresh :
    (name : Bytes) (col rs : TableSchema) (rest : MessageSchema)
    → IsNamed name col
    → has_column name rs ≡ false
    → has_field name rest ≡ false
    → ((n : Bytes) → has_field n rest ≡ true → has_column n rs ≡ false)
    → AreFresh rest (emplace name col rs)
unfolding emplace
emplaced-AreFresh name col rs rest named new distinct fresh n h = rw new (
    has_column-push_back n rs col
    ∙ rw (fresh n h, named n)
        (elim (Bool-cases (bytes_eq n name)) [
          | inl e ↦ let h' = rw (bytes_eq→eq n name e) at h in cc
          | inr e ↦ e
        ]))

push_back-nested :
    (s : TableSchema) (f : Field) (sub : TableSchema)
    → is_subrecord f.type ≡ true
    → IsLive sub
    → IsLive s
    → IsLive (push_back s (nested f sub no_columns))
      × (leaves (push_back s (nested f sub no_columns)) ≡ leaves s ++ below f (leaves sub))
unfolding push_back
push_back-nested no_columns f sub ht hs h = ((ht, hs, tt), append-nil (below f (leaves sub)))
push_back-nested (live g rest) f sub ht hs (gt, ge, h) =
    let (l, e) = push_back-nested rest f sub ht hs h in ((gt, ge, l), ap (λ t. ([], g) ∷ t) e)
push_back-nested (nested g s' rest) f sub ht hs (gt, gs, h) =
    let (l, e) = push_back-nested rest f sub ht hs h in
    (
      (gt, gs, l),
      rw e (sym (append_assoc (below g (leaves s')) (leaves rest) (below f (leaves sub)))),
    )
push_back-nested (dangling rest) f sub ht hs h = elim h [ ]

emplaced_nested :
    (f : Field) (sub rs : TableSchema)
    → is_subrecord f.type ≡ true
    → IsLive sub
    → has_column f.name rs ≡ false
    → IsLive rs
    → IsLive (emplace f.name (nested f sub no_columns) rs)
      × (leaves (emplace f.name (nested f sub no_columns) rs) ≡ leaves rs ++ below f (leaves sub))
unfolding emplace
emplaced_nested f sub rs ht hs new h = rw new (push_back-nested rs f sub ht hs h)

or-right : (a : Bool) {b : Bool} → b ≡ true → (a || b) ≡ true
or-right true h = refl
or-right false h = h

or-false : (a : Bool) → (a || false) ≡ a
or-false true = refl
or-false false = refl

type_of-leaf : (type : FieldType) → is_subrecord (type_of type) ≡ false
type_of-leaf bool = refl
type_of-leaf uint32 = refl
type_of-leaf text = refl
type_of-leaf uint64 = refl
type_of-leaf double = refl
type_of-leaf date_time = refl

added-AreFresh :
    (name : Bytes) (type : ColumnType) (encoding : ColumnEncoding) (repeated optional : Bool)
    (rs : TableSchema) (rest : MessageSchema)
    → has_column name rs ≡ false
    → has_field name rest ≡ false
    → AreFresh rest rs
    → AreFresh rest (add_column name type encoding repeated optional 0 rs)
unfolding add_column has_column
added-AreFresh name type encoding repeated optional rs rest new distinct fresh =
    emplaced-AreFresh name (live _ no_columns) rs rest (λ n. or-false (bytes_eq n name)) new
      distinct fresh

regroup :
    {a x : List Leaf} (u v y : List Leaf) → x ≡ u ++ v → Perm a (x ++ y) → Perm a (u ++ (v ++ y))
regroup u v y e p = rw (← append_assoc u v y) (rw e at p)

module _ (order : TableSchema → TableSchema) (is_order : IsMapOrder order) where
  -- A step of the loop, for an object's field.
  abbrev with_object : Bytes → Bool → Bool → TableSchema → TableSchema → TableSchema
  with_object name repeated optional child rs =
      if repeated
      then add_subrecord_array order name child optional rs
      else add_subrecord order name child optional rs

  with_object-emplace :
      (name : Bytes) (repeated optional : Bool) (child rs : TableSchema)
      → with_object name repeated optional child rs
        ≡ emplace name
            (nested (subrecord_field name repeated optional) (copy order child) no_columns)
            rs
  unfolding add_subrecord add_subrecord_array
  with_object-emplace name true optional child rs = refl
  with_object-emplace name false optional child rs = refl

  abbrev AreAdded : MessageSchema → TableSchema → Type 0
  AreAdded ms rs =
      IsLive (add_fields order ms rs)
      × Perm (leaves (add_fields order ms rs)) (leaves rs ++ message_leaves ms)

  add_fields-leaves :
      (ms : MessageSchema) (rs : TableSchema)
      → AreDistinct ms
      → IsLive rs
      → AreFresh ms rs
      → AreAdded ms rs
  unfolding add_fields has_column
  add_fields-leaves no_fields rs hd h fresh =
      (h, rw (append-nil (leaves rs)) (Perm.refl (leaves rs)))
  add_fields-leaves (field id name type repeated optional rest) rs (distinct, hd) h fresh =
      let new = fresh name (rw (bytes_eq_refl name)) in
      let (l, e) =
        add_column-new name (type_of type) (encoding_of type) repeated optional 0 rs new
          (type_of-leaf type) h in
      let (l', p) =
        add_fields-leaves rest
          (add_column name (type_of type) (encoding_of type) repeated optional 0 rs) hd l
          (added-AreFresh name (type_of type) (encoding_of type) repeated optional rs rest new
            distinct (λ n k. fresh n (or-right (bytes_eq n name) k))) in
      (l', regroup (leaves rs) _ (message_leaves rest) e p)
  add_fields-leaves (object id name repeated optional sub rest) rs (distinct, hs, hd) h fresh =
      let new = fresh name (rw (bytes_eq_refl name)) in
      let (c, q) = add_fields-leaves sub no_columns hs tt (λ n k. refl) in
      let child = add_fields order sub no_columns in
      let (c', q') = copy-leaves order is_order child c in
      let f = subrecord_field name repeated optional in
      let col = nested f (copy order child) no_columns in
      let (l, e) = emplaced_nested f (copy order child) rs refl c' new h in
      let (l', p) = add_fields-leaves rest (emplace name col rs) hd l (
        emplaced-AreFresh name col rs rest (λ n. or-false (bytes_eq n name)) new distinct
          (λ n k. fresh n (or-right (bytes_eq n name) k))) in
      let both = below-Perm f (Perm.trans q' q) in
      rw (with_object-emplace name repeated optional child rs) (
        l',
        Perm.trans (regroup (leaves rs) _ (message_leaves rest) e p)
            (Perm.append_left (leaves rs) (Perm.append_right (message_leaves rest) both)),
      )

  -- If in no message type two fields have the same name, then the schema made from it has no
  -- destroyed columns, and its leaves are, in some order, the message type's fields that are no
  -- objects, with the types and encodings of fromProtobuf, inside the same objects.
  pub from_protobuf-leaves :
      (ms : MessageSchema)
      → AreDistinct ms
      → IsLive (from_protobuf order ms) × Perm (leaves (from_protobuf order ms)) (message_leaves ms)
  unfolding from_protobuf has_column
  from_protobuf-leaves ms hd = add_fields-leaves ms no_columns hd tt (λ n h. refl)
