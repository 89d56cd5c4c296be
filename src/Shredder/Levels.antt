-- ===== src/Shredder/Levels.antt =====
-- The levels that the shredder writes lie within those of the flat columns.
use libcstable.Prelude.{
  ℕ, ◌+◌, ◌^◌, ◌≤◌, ◌<◌, ◌≡◌, refl, sym, ◌∙◌, Bool, true, false, ◌||◌, List, [], ◌∷◌, ◌++◌, All,
  map, append-nil, Option, none, some, Result, ok, need, index_error, type_error, ◌>>=◌, arith,
}
use native.Mathlib.Nat.{le_refl}
use mathlib.Core.Path.{subst}
use libcstable.Prelude.Bytes.{Bytes}
use libcstable.Stx.{Numerics}
use libcstable.Column.{ColumnSink}
use libcstable.Format.{ColumnConfig}
use libcstable.Schema.{Field, TableSchema, no_columns, live, nested, dangling}
use libcstable.Schema.Flat.{increment, rlevel_of, dlevel_of, dot, flat_columns}
use libcstable.Schema.Flat.Paths.{
  IsLive, depth, leaves, below, at, leaf_column, map-at-below, map-append, increment-count,
  increment-le, flat_columns-leaves,
}
use libcstable.Shredder.{
  Messages, Rows, on_column, write_proto_nulls, write_proto_field, write_typed, without_schema,
  add_proto_record_fields, add_record_from_protobuf,
}
use libcstable.Shredder.Safe.{
  Safe, bind-Safe, need-Safe, IsKept, IsBounded, AreKept, on_column-Safe, write_typed-Safe,
  each_match-Safe, unless_found-Safe,
}

All-left : {A : Type 0} (P : A → Type 0) (xs ys : List A) → All P (xs ++ ys) → All P xs
All-left P [] ys h = tt
All-left P (x ∷ xs) ys (h, hs) = (h, All-left P xs ys hs)

All-right : {A : Type 0} (P : A → Type 0) (xs ys : List A) → All P (xs ++ ys) → All P ys
All-right P [] ys h = h
All-right P (x ∷ xs) ys (h, hs) = All-right P xs ys hs

le_increment : (b : Bool) (n : ℕ) → n + 1 < 2 ^ 32 → n ≤ increment b n
le_increment true n h = omega arith
le_increment false n h = omega arith

increment-swap : (a b : Bool) (n : ℕ) → increment (a || b) n ≡ increment (b || a) n
increment-swap true true n = refl
increment-swap true false n = refl
increment-swap false true n = refl
increment-swap false false n = refl

-- For each subrecord of the table schema whose name is that of a message field, the field's schema,
-- if it is found, is not null, and matches the subrecord's schema.
abbrev pub Matches :
    {N : Numerics} (M : Messages N) → Messages.MessageSchema M → TableSchema → Type 0
Matches M ms no_columns = Unit
Matches M ms (live f rest) = Matches M ms rest
Matches M ms (nested f sub rest) =
    ((id : ℕ) (found : Option (Messages.MessageSchema M))
      → Messages.field_id M ms f.name ≡ some id
      → Messages.field_schema M ms id ≡ some found
      → (child : Messages.MessageSchema M) × (found ≡ some child) × Matches M child sub)
    × Matches M ms rest
Matches M ms (dangling rest) = Matches M ms rest

module _ {N : Numerics} {K : Type 0} (S : ColumnSink N K) (I : Bytes → K → Type 0)
    (blank : ColumnConfig) where
  -- The columns of a schema under a prefix and levels.
  abbrev AreBounded : Bytes → ℕ → ℕ → TableSchema → Type 0
  AreBounded prefix r d s = All (IsBounded S I) (map (at blank prefix r d) (leaves s))

  first_bounded :
      (prefix : Bytes) (r d : ℕ) (f : Field) (rest : TableSchema) (r' d' : ℕ)
      → AreBounded prefix r d (live f rest)
      → r + 1 < 2 ^ 32
      → d + 1 < 2 ^ 32
      → r' ≤ rlevel_of f r
      → d' ≤ dlevel_of f d
      → IsKept S I (prefix ++ f.name) r' d'
  first_bounded prefix r d f rest r' d' (h, hs) hr hd kr kd =
      h r' d' (omega (arith, increment-count f.repeated r hr))
        (omega (arith, increment-count (f.repeated || f.optional) d hd))

  children_bounded :
      (prefix : Bytes) (r d : ℕ) (f : Field) (sub rest : TableSchema)
      → AreBounded prefix r d (nested f sub rest)
      → r + 1 < 2 ^ 32
      → d + 1 < 2 ^ 32
      → AreBounded ((prefix ++ f.name) ++ dot) (rlevel_of f r) (dlevel_of f d) sub
  children_bounded prefix r d f sub rest h hr hd =
      let split = rw (map-append (at blank prefix r d) (below f (leaves sub)) (leaves rest)) at h in
      let first =
        All-left (IsBounded S I) (map (at blank prefix r d) (below f (leaves sub))) _ split in
      rw (map-at-below blank prefix r d f (leaves sub) hr hd) first

  rest_bounded :
      (prefix : Bytes) (r d : ℕ) (f : Field) (sub rest : TableSchema)
      → AreBounded prefix r d (nested f sub rest)
      → AreBounded prefix r d rest
  rest_bounded prefix r d f sub rest h =
      let split = rw (map-append (at blank prefix r d) (below f (leaves sub)) (leaves rest)) at h in
      All-right (IsBounded S I) (map (at blank prefix r d) (below f (leaves sub))) _ split

  nulls-Safe :
      (prefix : Bytes) (r_max d_max r d : ℕ) (s : TableSchema) (t : Rows K)
      → IsLive s
      → AreBounded prefix r_max d_max s
      → r_max + depth s < 2 ^ 32
      → d_max + depth s < 2 ^ 32
      → r ≤ r_max
      → d ≤ d_max
      → AreKept S I t
      → Safe (AreKept S I) (write_proto_nulls S r d prefix s t)
  unfolding write_proto_nulls
  nulls-Safe prefix r_max d_max r d no_columns t hl hb hr hd kr kd i = i
  nulls-Safe prefix r_max d_max r d (live f rest) t (ht, he, hl) hb hr hd kr kd i =
      let kept =
        first_bounded prefix r_max d_max f rest r d hb (omega arith) (omega arith)
          (omega (arith, le_increment f.repeated r_max (omega arith)))
          (omega (arith, le_increment (f.repeated || f.optional) d_max (omega arith))) in
      let after = λ (t' : Rows K).
        nulls-Safe prefix r_max d_max r d rest t' hl hb.1 (omega arith) (omega arith) kr kd in
      rw ht (
        bind-Safe (AreKept S I) (AreKept S I) (on_column (prefix ++ f.name) (S.write_null r d) t) _
          (on_column-Safe S I (prefix ++ f.name) (S.write_null r d) t i kept.null_kept) after)
  nulls-Safe prefix r_max d_max r d (nested f sub rest) t (ht, hs, hl) hb hr hd kr kd i =
      let r1 = increment-le f.repeated r_max (omega arith) in
      let d1 = increment-le (f.repeated || f.optional) d_max (omega arith) in
      let children =
        nulls-Safe ((prefix ++ f.name) ++ dot) (rlevel_of f r_max) (dlevel_of f d_max) r d sub t hs
          (children_bounded prefix r_max d_max f sub rest hb (omega arith) (omega arith))
          (omega (arith, r1)) (omega (arith, d1))
          (omega (arith, le_increment f.repeated r_max (omega arith)))
          (omega (arith, le_increment (f.repeated || f.optional) d_max (omega arith))) i in
      let after = λ (t' : Rows K).
        nulls-Safe prefix r_max d_max r d rest t' hl (rest_bounded prefix r_max d_max f sub rest hb)
          (omega arith) (omega arith) kr kd in
      rw ht (bind-Safe (AreKept S I) (AreKept S I) _ _ children after)
  nulls-Safe prefix r_max d_max r d (dangling rest) t hl hb hr hd kr kd i = elim hl [ ]

  -- The call of a subrecord's children, whose message schema is found.
  object-Safe :
      (M : Messages N) (ms : Messages.MessageSchema M) (id : ℕ) (sub : TableSchema) (t : Rows K)
      (children : Messages.MessageSchema M → Rows K → Result (Rows K))
      → ((found : Option (Messages.MessageSchema M))
          → Messages.field_schema M ms id ≡ some found
          → (child : Messages.MessageSchema M) × (found ≡ some child) × Matches M child sub)
      → ((child : Messages.MessageSchema M)
          → Matches M child sub
          → Safe (AreKept S I) (children child t))
      → Safe (AreKept S I) (
          need index_error (Messages.field_schema M ms id) >>= λ schema. elim schema [
            | none ↦ without_schema M S sub t
            | some o_schema ↦ children o_schema t
          ])
  object-Safe M ms id sub t children found h =
      need-Safe (AreKept S I) index_error (Messages.field_schema M ms id) _
        (λ o e. let (child, eo, m) = found o e in rw eo (h child m))

  -- A value of a leaf.
  leaf-Safe :
      (M : Messages N) (prefix : Bytes) (r_max d : ℕ) (f : Field) (r : ℕ) (o : Messages.Message M)
      (t : Rows K)
      → AreBounded prefix r_max d (live f no_columns)
      → r_max + 1 < 2 ^ 32
      → d + 1 < 2 ^ 32
      → r ≤ rlevel_of f r_max
      → AreKept S I t
      → Safe (AreKept S I) (
          write_proto_field M S r (increment (f.optional || f.repeated) d) o (prefix ++ f.name) f t)
  unfolding write_proto_field
  leaf-Safe M prefix r_max d f r o t hb hr hd kr i =
      let kept =
        first_bounded prefix r_max d f no_columns r (dlevel_of f d) hb hr hd kr (le_refl _) in
      rw (increment-swap f.optional f.repeated d) (
        on_column-Safe S I (prefix ++ f.name) (write_typed M S r (dlevel_of f d) o f.type) t i
          (λ k ik. write_typed-Safe S I M (prefix ++ f.name) r (dlevel_of f d) o f k kept ik))

  alone_bounded :
      (prefix : Bytes) (r d : ℕ) (f : Field) (sub rest : TableSchema)
      → AreBounded prefix r d (nested f sub rest)
      → AreBounded prefix r d (nested f sub no_columns)
  alone_bounded prefix r d f sub rest h =
      let split = rw (map-append (at blank prefix r d) (below f (leaves sub)) (leaves rest)) at h in
      rw (append-nil (below f (leaves sub)))
        (All-left (IsBounded S I) (map (at blank prefix r d) (below f (leaves sub))) _ split)

  fields-Safe :
      (M : Messages N) (r r_max d : ℕ) (msg : Messages.Message M) (ms : Messages.MessageSchema M)
      (prefix : Bytes) (s : TableSchema) (t : Rows K)
      → IsLive s
      → Matches M ms s
      → AreBounded prefix r_max d s
      → r_max + depth s < 2 ^ 32
      → d + depth s < 2 ^ 32
      → r ≤ r_max
      → AreKept S I t
      → Safe (AreKept S I) (add_proto_record_fields M S r r_max d msg ms prefix s t)
  unfolding add_proto_record_fields
  fields-Safe M r r_max d msg ms prefix no_columns t hl hm hb hr hd kr i = i
  fields-Safe M r r_max d msg ms prefix (live f rest) t (ht, he, hl) hm hb hr hd kr i =
      let after = λ (t' : Rows K).
        fields-Safe M r r_max d msg ms prefix rest t' hl hm hb.1 (omega arith) (omega arith) kr in
      let column = prefix ++ f.name in
      let r1 = le_increment f.repeated r_max (omega arith) in
      need-Safe (AreKept S I) index_error (Messages.field_id M ms f.name) _ (λ id eid.
        need-Safe (AreKept S I) type_error (Messages.as_object M msg) _ (λ os eos.
          bind-Safe (λ p. AreKept S I p.1) (AreKept S I) _ _
            (each_match-Safe S I M id _ (rlevel_of f r_max) r os t
              (λ r' o t' hr' i'. rw ht (
                leaf-Safe M prefix r_max d f r' o t' (hb.0, tt) (omega arith) (omega arith) hr' i'))
              (omega (arith, r1)) i)
            (λ p j.
              bind-Safe (AreKept S I) (AreKept S I) _ _
                (unless_found-Safe S I M f _ p j (λ t' i'.
                  nulls-Safe prefix r_max d r d (live f no_columns) t' (ht, he, tt) (hb.0, tt)
                    (omega arith) (omega arith) kr (le_refl d) i'))
                after)))
  fields-Safe M r r_max d msg ms prefix (nested f sub rest) t (ht, hs, hl) (hf, hm) hb hr hd kr i =
      let after = λ (t' : Rows K).
        fields-Safe M r r_max d msg ms prefix rest t' hl hm
          (rest_bounded prefix r_max d f sub rest hb) (omega arith) (omega arith) kr in
      let r0 = le_increment f.repeated r_max (omega arith) in
      let r1 = increment-le f.repeated r_max (omega arith) in
      let d1 = increment-le (f.optional || f.repeated) d (omega arith) in
      let next_d = increment (f.optional || f.repeated) d in
      let bounded : AreBounded ((prefix ++ f.name) ++ dot) (rlevel_of f r_max) next_d sub =
        subst (λ n. AreBounded ((prefix ++ f.name) ++ dot) (rlevel_of f r_max) n sub)
          (increment-swap f.repeated f.optional d)
          (children_bounded prefix r_max d f sub rest hb (omega arith) (omega arith)) in
      let children =
        λ (r' : ℕ) (o : Messages.Message M) (o_schema : Messages.MessageSchema M) (t' : Rows K).
          fields-Safe M r' (rlevel_of f r_max) next_d o o_schema ((prefix ++ f.name) ++ dot) sub t'
            hs in
      need-Safe (AreKept S I) index_error (Messages.field_id M ms f.name) _ (λ id eid.
        need-Safe (AreKept S I) type_error (Messages.as_object M msg) _ (λ os eos.
          bind-Safe (λ p. AreKept S I p.1) (AreKept S I) _ _
            (each_match-Safe S I M id _ (rlevel_of f r_max) r os t
              (λ r' o t' hr' i'. rw ht (
                object-Safe M ms id sub t'
                  (λ (o_schema : Messages.MessageSchema M) (t' : Rows K).
                    add_proto_record_fields M S r' (rlevel_of f r_max) next_d o o_schema
                      ((prefix ++ f.name) ++ dot) sub t')
                  (λ found e. hf id found eid e)
                  (λ child m.
                    children r' o child t' m bounded (omega (arith, r1)) (omega (arith, d1)) hr'
                      i')))
              (omega (arith, r0)) i)
            (λ p j.
              bind-Safe (AreKept S I) (AreKept S I) _ _
                (unless_found-Safe S I M f _ p j (λ t' i'.
                  nulls-Safe prefix r_max d r d (nested f sub no_columns) t' (ht, hs, tt)
                    (alone_bounded prefix r_max d f sub rest hb) (omega arith) (omega arith) kr
                    (le_refl d) i'))
                after)))
  fields-Safe M r r_max d msg ms prefix (dangling rest) t hl hm hb hr hd kr i = elim hl [ ]

  -- For a schema that is nested less than 2 ^ 32 deep, without destroyed columns, and matched by
  -- the message schema: let each column have a property that every write to it keeps whose levels
  -- are at most those that flatColumns gives it. Then adding a record keeps the properties of all
  -- columns, or throws; its behaviour is never undefined.
  pub add_record-within_levels :
      (M : Messages N) (msg : Messages.Message M) (ms : Messages.MessageSchema M)
      (schema : TableSchema) (cols : List ColumnConfig) (t : Rows K)
      → IsLive schema
      → depth schema < 2 ^ 32
      → Matches M ms schema
      → flat_columns blank schema ≡ ok cols
      → All (IsBounded S I) cols
      → AreKept S I t
      → Safe (AreKept S I) (add_record_from_protobuf M S msg ms schema t)
  unfolding add_record_from_protobuf
  add_record-within_levels M msg ms schema cols t hl hd hm e hb i =
      let e' : ok (map (leaf_column blank) (leaves schema)) ≡ ok cols =
        sym (flat_columns-leaves blank schema hl hd) ∙ e in
      let same : map (leaf_column blank) (leaves schema) ≡ cols = cc in
      bind-Safe (AreKept S I) (AreKept S I) _ _
        (fields-Safe M 0 0 0 msg ms [] schema t hl hm (rw same hb) (omega arith) (omega arith)
          (omega arith) i)
        (λ t' i'. i')
