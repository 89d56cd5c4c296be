-- ===== src/Shredder/Csv/Counted.antt =====
-- How many entries addRecordsFromCSV writes to each column (cstable/RecordShredder.cc).
use libcstable.Prelude.{
  ℕ, ◌+◌, ◌≡◌, refl, ◌∙◌, inl, inr, Bool, not, List, [], ◌∷◌, map, length, take, Option, none, some,
  Result, ok, need, check, not_found, runtime_error, Error, All, type_error, Bool-cases, ◌==◌,
  arith,
}
use libcstable.Prelude.Bytes.{Bytes, bytes_eq, bytes_eq→eq}
use libcstable.Prelude.Int.{ℤ}
use mathlib.Core.Path.{subst}
use libcstable.Stx.{Numerics}
use libcstable.Column.{ColumnSink}
use libcstable.Format.{
  ColumnType, subrecord, boolean, unsigned_int, signed_int, string, float, datetime, column_type,
  IsKnownType,
}
use libcstable.Shredder.Csv.Names.{hit, count_of, lookup-update}
use libcstable.Classes.Embed.{both-Succeeds}
use libcstable.Shredder.{Rows, lookup, update, on_column}
use libcstable.Shredder.Csv.{Human, write_value, write_cell, write_cells, write_missing}

module _ {N : Numerics} (H : Human) {K : Type 0} (S : ColumnSink N K)
    (type_of : K → ColumnType) where
  -- Columns that count their entries: each write that succeeds adds one.
  pub record IsCounted : Type 0 where
    pub entries : K → ℕ
    pub counts_null : (r d : ℕ) (k k' : K) → S.write_null r d k ≡ ok k' → entries k' ≡ entries k + 1
    pub counts_boolean :
        (r d : ℕ) (v : Bool) (k k' : K)
        → S.write_boolean r d v k ≡ ok k'
        → entries k' ≡ entries k + 1
    pub counts_unsigned_int :
        (r d v : ℕ) (k k' : K) → S.write_unsigned_int r d v k ≡ ok k' → entries k' ≡ entries k + 1
    pub counts_signed_int :
        (r d : ℕ) (v : ℤ) (k k' : K)
        → S.write_signed_int r d v k ≡ ok k'
        → entries k' ≡ entries k + 1
    pub counts_float :
        (r d : ℕ) (v : N.Double) (k k' : K)
        → S.write_float r d v k ≡ ok k'
        → entries k' ≡ entries k + 1
    pub counts_string :
        (r d : ℕ) (v : Bytes) (k k' : K)
        → S.write_string r d v k ≡ ok k'
        → entries k' ≡ entries k + 1
    pub counts_date_time :
        (r d v : ℕ) (k k' : K) → S.write_date_time r d v k ≡ ok k' → entries k' ≡ entries k + 1

  -- The columns have types that the enumeration names.
  abbrev pub AreKnown : Rows K → Type 0
  AreKnown t = (name : Bytes) (k : K) → lookup name t.writers ≡ some k → IsKnownType (type_of k)

  module _ (C : IsCounted) where
    open C use {entries}

    abbrev tally : Option K → ℕ
    tally none = 0
    tally (some k) = entries k

    -- The entries of a column of the table.
    abbrev pub entries_of : Bytes → Rows K → ℕ
    entries_of name t = tally (lookup name t.writers)

    -- What a step adds to a column, in a row.
    pub record Adds (name : Bytes) (n : ℕ) (t t' : Rows K) : Type 0 where
      pub added : entries_of name t' ≡ n + entries_of name t
      pub same_row : t'.num_rows ≡ t.num_rows

    pub need-some : {A : Type 0} (e : Error) (o : Option A) (a : A) → need e o ≡ ok a → o ≡ some a
    need-some e none a h = absurd cc
    need-some e (some b) a h = cc

    on_column-Adds :
        (name col : Bytes) (call : K → Result K) (t t' : Rows K)
        → ((k k' : K) → call k ≡ ok k' → entries k' ≡ entries k + 1)
        → on_column col call t ≡ ok t'
        → Adds name (hit name col) t t'
    unfolding on_column
    on_column-Adds name col call t t' one h =
        let k = both-Succeeds (need not_found (lookup col t.writers)) h in
        let k' = both-Succeeds (call k.value) k.after_is in
        let there = need-some not_found (lookup col t.writers) k.value k.step_is in
        let now = lookup-update name col k.value k'.value t.writers there in
        let same : record t { writers = update col k'.value t.writers } ≡ t' =
          let q = k'.after_is in cc in
        subst (λ (u : Rows K). Adds name (hit name col) t u) same
          (record {
            added = elim (Bool-cases (bytes_eq name col)) [
              | inl it ↦
                  let there' : lookup name t.writers ≡ some k.value =
                    rw (bytes_eq→eq name col it) there in
                  rw (now, it, there') (omega (arith, one k.value k'.value k'.step_is))
              | inr other ↦ rw (now, other) (omega arith)
            ];
            same_row = refl;
          })

    write_value-counts :
        (type : ColumnType) (val : Bytes) (k k' : K)
        → IsKnownType type
        → write_value H S type_of type val k ≡ ok k'
        → entries k' ≡ entries k + 1
    write_value-counts string val k k' h e = C.counts_string _ _ _ k k' e
    write_value-counts unsigned_int val k k' h e =
        let v = both-Succeeds (need type_error (N.stoull val)) e in
        C.counts_unsigned_int _ _ _ k k' v.after_is
    write_value-counts signed_int val k k' h e =
        let v = both-Succeeds (need type_error (N.stoll val)) e in
        C.counts_signed_int _ _ _ k k' v.after_is
    write_value-counts datetime val k k' h e =
        let v = both-Succeeds (need type_error (Human.parse_time H val)) e in
        C.counts_date_time _ _ _ k k' v.after_is
    write_value-counts float val k k' h e =
        let v = both-Succeeds (need type_error (N.stod val)) e in
        C.counts_float _ _ _ k k' v.after_is
    write_value-counts boolean val k k' h e = C.counts_boolean _ _ _ k k' e
    write_value-counts subrecord val k k' h e = absurd cc
    write_value-counts (column_type b) val k k' h e = absurd h

    write_cell-counts :
        (type : ColumnType) (val : Bytes) (k k' : K)
        → IsKnownType type
        → write_cell H S type_of type val k ≡ ok k'
        → entries k' ≡ entries k + 1
    unfolding write_cell
    write_cell-counts type val k k' h e = elim (Bool-cases (H.is_null_or_empty val)) [
      | inl null ↦
          let c =
            both-Succeeds (check (not (S.max_definition_level k == 0)) runtime_error)
              (rw null at e) in
          C.counts_null 0 0 k k' c.after_is
      | inr value ↦ write_value-counts type val k k' h (rw value at e)
    ]

    no_more-Adds : (name : Bytes) (t t' : Rows K) → ok t ≡ ok t' → Adds name 0 t t'
    no_more-Adds name t t' e =
        let same : t ≡ t' = cc in
        subst (λ (u : Rows K). Adds name 0 t u) same
          (record { added = omega arith; same_row = refl })

    pub write_cells-Adds :
        (name : Bytes) (cols : List (Bytes × ColumnType)) (row : List Bytes) (t t' : Rows K)
        → All (λ col. IsKnownType col.1) cols
        → write_cells H S type_of cols row t ≡ ok t'
        → Adds name (count_of name (take (length row) (map (λ col. col.0) cols))) t t'
    unfolding write_cells
    write_cells-Adds name [] [] t t' h e = no_more-Adds name t t' e
    write_cells-Adds name [] (val ∷ row) t t' h e = no_more-Adds name t t' e
    write_cells-Adds name (col ∷ cols) [] t t' h e = no_more-Adds name t t' e
    write_cells-Adds name (col ∷ cols) (val ∷ row) t t' (h, hs) e =
        let first = both-Succeeds (on_column col.0 (write_cell H S type_of col.1 val) t) e in
        let a =
          on_column-Adds name col.0 _ t first.value (λ k k'. write_cell-counts col.1 val k k' h)
            first.step_is in
        let b = write_cells-Adds name cols row first.value t' hs first.after_is in
        record { added = omega (arith, a.added, b.added); same_row = b.same_row ∙ a.same_row }

    pub write_missing-Adds :
        (name : Bytes) (cols : List Bytes) (t t' : Rows K)
        → write_missing H S type_of cols t ≡ ok t'
        → Adds name (count_of name cols) t t'
    unfolding write_missing
    write_missing-Adds name [] t t' e = no_more-Adds name t t' e
    write_missing-Adds name (col ∷ cols) t t' e =
        let first = both-Succeeds (on_column col (S.write_null 0 0) t) e in
        let a = on_column-Adds name col _ t first.value (C.counts_null 0 0) first.step_is in
        let b = write_missing-Adds name cols first.value t' first.after_is in
        record { added = omega (arith, a.added, b.added); same_row = b.same_row ∙ a.same_row }
