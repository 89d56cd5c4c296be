-- ===== src/Schema/Flat/Added.antt =====
-- What an added column does to the flat columns.
use libcstable.Prelude.{
  ℕ, ◌≡◌, refl, ap, sym, ◌⊎◌, inl, inr, Bool, true, false, [], ◌∷◌, ◌++◌, append_assoc, Option,
  none, some, Bool-cases, Result, ok, undefined, ◌>>=◌,
}
use libcstable.Prelude.Bytes.{Bytes}
use libcstable.Format.{ColumnConfig, ColumnType, ColumnEncoding}
use libcstable.Schema.{
  Field, TableSchema, no_columns, live, nested, dangling, has_column, push_back, emplace,
  add_column,
}
use libcstable.Schema.Flat.{
  is_subrecord, rlevel_of, dlevel_of, flat_column, dot, list_flat_columns, flat_columns,
}
use libcstable.Schema.Flat.Paths.{IsLive, leaves}

-- Whatever the schema, listing its columns throws nothing.
abbrev Quiet : {A : Type 0} → Result A → Type 0
Quiet x = ((a : _) × (x ≡ ok a)) ⊎ (x ≡ undefined)

bind-Quiet :
    {A B : Type 0} (x : Result A) (f : A → Result B)
    → Quiet x
    → ((a : A) → Quiet (f a))
    → Quiet (x >>= f)
bind-Quiet x f (inl (a, e)) h = rw e (h a)
bind-Quiet x f (inr e) h = inr (rw e)

known-Quiet :
    (o : Option ColumnEncoding) (k : ColumnEncoding → ColumnConfig)
    → Quiet (elim o [ none ↦ undefined | some e ↦ ok (k e) ])
known-Quiet none k = inr refl
known-Quiet (some e) k = inl (k e, refl)

flat_column-Quiet :
    (blank : ColumnConfig) (prefix : Bytes) (r d : ℕ) (f : Field)
    → Quiet (flat_column blank prefix r d f)
unfolding flat_column
flat_column-Quiet blank prefix r d f = known-Quiet f.encoding (λ e. record blank {
  column_name = prefix ++ f.name;
  storage_type = e;
  logical_type = f.type;
  rlevel_max = rlevel_of f r;
  dlevel_max = dlevel_of f d;
})

list_flat_columns-Quiet :
    (blank : ColumnConfig) (prefix : Bytes) (r d : ℕ) (s : TableSchema)
    → Quiet (list_flat_columns blank prefix r d s)
unfolding list_flat_columns
list_flat_columns-Quiet blank prefix r d no_columns = inl ([], refl)
list_flat_columns-Quiet blank prefix r d (live f rest) =
    let rest_quiet = list_flat_columns-Quiet blank prefix r d rest in
    let col_quiet = flat_column-Quiet blank prefix r d f in
    elim (Bool-cases (is_subrecord f.type)) [
      | inl e ↦ inr (rw e)
      | inr e ↦
          rw e (bind-Quiet _ _ col_quiet (λ c. bind-Quiet _ _ rest_quiet (λ cs. inl (_, refl))))
    ]
list_flat_columns-Quiet blank prefix r d (nested f sub rest) =
    let rest_quiet = list_flat_columns-Quiet blank prefix r d rest in
    let sub_quiet =
      list_flat_columns-Quiet blank ((prefix ++ f.name) ++ dot) (rlevel_of f r) (dlevel_of f d)
        sub in
    let col_quiet = flat_column-Quiet blank prefix r d f in
    elim (Bool-cases (is_subrecord f.type)) [
      | inl e ↦
          rw e (bind-Quiet _ _ sub_quiet (λ c. bind-Quiet _ _ rest_quiet (λ cs. inl (_, refl))))
      | inr e ↦ rw e (
          bind-Quiet _ _ (bind-Quiet _ _ col_quiet (λ c. inl (_, refl)))
            (λ c. bind-Quiet _ _ rest_quiet (λ cs. inl (_, refl))))
    ]
list_flat_columns-Quiet blank prefix r d (dangling rest) = inr refl

bind-undefined :
    {A B : Type 0} (x : Result A) (f : A → Result B)
    → Quiet x
    → ((a : A) → f a ≡ undefined)
    → (x >>= f) ≡ undefined
bind-undefined x f (inl (a, e)) h = rw e (h a)
bind-undefined x f (inr e) h = rw e

dangling-undefined :
    (blank : ColumnConfig) (prefix : Bytes) (r d : ℕ) (s : TableSchema)
    → list_flat_columns blank prefix r d (push_back s (dangling no_columns)) ≡ undefined
unfolding list_flat_columns push_back
dangling-undefined blank prefix r d no_columns = refl
dangling-undefined blank prefix r d (live f rest) =
    let e = dangling-undefined blank prefix r d rest in
    let col_quiet = flat_column-Quiet blank prefix r d f in
    elim (Bool-cases (is_subrecord f.type)) [
      | inl h ↦ rw h
      | inr h ↦ rw (h, e) (bind-undefined _ _ col_quiet (λ c. refl))
    ]
dangling-undefined blank prefix r d (nested f sub rest) =
    let e = dangling-undefined blank prefix r d rest in
    let sub_quiet =
      list_flat_columns-Quiet blank ((prefix ++ f.name) ++ dot) (rlevel_of f r) (dlevel_of f d)
        sub in
    let col_quiet = flat_column-Quiet blank prefix r d f in
    elim (Bool-cases (is_subrecord f.type)) [
      | inl h ↦ rw (h, e) (bind-undefined _ _ sub_quiet (λ c. refl))
      | inr h ↦
          rw (h, e) (bind-undefined _ _ (bind-Quiet _ _ col_quiet (λ c. inl (_, refl))) (λ c. refl))
    ]
dangling-undefined blank prefix r d (dangling rest) = refl

-- If the schema already has a column of the name, then after adding another one under it
-- flatColumns reads a destroyed column: its behaviour is undefined.
pub add_column-taken :
    (blank : ColumnConfig) (name : Bytes) (type : ColumnType) (encoding : ColumnEncoding)
    (repeated optional : Bool) (type_size : ℕ) (s : TableSchema)
    → has_column name s ≡ true
    → flat_columns blank (add_column name type encoding repeated optional type_size s) ≡ undefined
unfolding add_column emplace flat_columns
add_column-taken blank name type encoding repeated optional type_size s h =
    rw h (dangling-undefined blank [] 0 0 s)

push_back-live :
    (s : TableSchema) (f : Field)
    → is_subrecord f.type ≡ false
    → ((e : _) × (f.encoding ≡ some e))
    → IsLive s
    → IsLive (push_back s (live f no_columns))
      × (leaves (push_back s (live f no_columns)) ≡ leaves s ++ (([], f) ∷ []))
unfolding push_back
push_back-live no_columns f ht he h = ((ht, he, tt), refl)
push_back-live (live g rest) f ht he (gt, ge, h) =
    let (l, e) = push_back-live rest f ht he h in ((gt, ge, l), ap (λ t. ([], g) ∷ t) e)
push_back-live (nested g sub rest) f ht he (gt, hs, h) =
    let (l, e) = push_back-live rest f ht he h in
    ((gt, hs, l), rw e (sym (append_assoc _ (leaves rest) (([], f) ∷ []))))
push_back-live (dangling rest) f ht he h = elim h [ ]

-- If the schema has no column of the name, none of its columns was destroyed, and the type is not
-- that of a subrecord, then after adding the column none is destroyed either, and the schema's
-- leaves are the old ones and, at the end, the new column.
pub add_column-new :
    (name : Bytes) (type : ColumnType) (encoding : ColumnEncoding) (repeated optional : Bool)
    (type_size : ℕ) (s : TableSchema)
    → has_column name s ≡ false
    → is_subrecord type ≡ false
    → IsLive s
    → IsLive (add_column name type encoding repeated optional type_size s)
      × (leaves (add_column name type encoding repeated optional type_size s)
          ≡ leaves s
            ++ ((
              [],
              record {
                name = name;
                type = type;
                encoding = some encoding;
                type_size = some type_size;
                repeated = repeated;
                optional = optional;
              },
            )
                ∷ []))
unfolding add_column emplace
add_column-new name type encoding repeated optional type_size s h ht hl =
    rw h (push_back-live s _ ht (encoding, refl) hl)
