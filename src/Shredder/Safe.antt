-- ===== src/Shredder/Safe.antt =====
-- Calls on columns that keep a property of every column.
use native.Mathlib.Nat.{le_refl}
use libcstable.Prelude.{
  ℕ, zero, suc, ◌≤◌, ◌≡◌, refl, inl, inr, Bool, ◌||◌, List, [], ◌∷◌, Option, none, some, Bool-cases,
  Result, ok, err, undefined, Error, need, not_found, type_error, ◌>>=◌, ◌==◌,
}
use libcstable.Prelude.Bytes.{Bytes, bytes_eq, bytes_eq→eq}
use libcstable.Stx.{Numerics}
use libcstable.Column.{ColumnSink}
use libcstable.Format.{
  ColumnConfig, ColumnType, subrecord, boolean, unsigned_int, signed_int, string, float, datetime,
  column_type,
}
use libcstable.Schema.{Field}
use libcstable.Shredder.{
  Messages, Rows, lookup, update, on_column, write_typed, each_match, unless_found,
}

-- A result that satisfies the property, or an exception, but never undefined behaviour.
abbrev pub Safe : {A : Type 0} → (A → Type 0) → Result A → Type 0
Safe P (ok a) = P a
Safe P (err e) = Unit
Safe P undefined = ⊥

pub bind-Safe :
    {A B : Type 0} (P : A → Type 0) (Q : B → Type 0) (x : Result A) (f : A → Result B)
    → Safe P x
    → ((a : A) → P a → Safe Q (f a))
    → Safe Q (x >>= f)
bind-Safe P Q (ok a) f h k = k a h
bind-Safe P Q (err e) f h k = tt
bind-Safe P Q undefined f h k = elim h [ ]

pub need-Safe :
    {A B : Type 0} (Q : B → Type 0) (e : Error) (o : Option A) (f : A → Result B)
    → ((a : A) → o ≡ some a → Safe Q (f a))
    → Safe Q (need e o >>= f)
need-Safe Q e none f k = tt
need-Safe Q e (some a) f k = k a refl

module _ {N : Numerics} {K : Type 0} (S : ColumnSink N K) (I : Bytes → K → Type 0) where
  -- Every write of these levels to the column keeps the column's property.
  pub record IsKept (column : Bytes) (r d : ℕ) : Type 0 where
    pub null_kept : (k : K) → I column k → Safe (I column) (S.write_null r d k)
    pub boolean_kept : (v : Bool) (k : K) → I column k → Safe (I column) (S.write_boolean r d v k)
    pub unsigned_kept :
        (v : ℕ) (k : K) → I column k → Safe (I column) (S.write_unsigned_int r d v k)
    pub float_kept : (v : N.Double) (k : K) → I column k → Safe (I column) (S.write_float r d v k)
    pub string_kept : (v : Bytes) (k : K) → I column k → Safe (I column) (S.write_string r d v k)
    pub date_time_kept : (v : ℕ) (k : K) → I column k → Safe (I column) (S.write_date_time r d v k)

  -- Writes within the levels of the column keep its property.
  abbrev pub IsBounded : ColumnConfig → Type 0
  IsBounded c = (r d : ℕ) → r ≤ c.rlevel_max → d ≤ c.dlevel_max → IsKept c.column_name r d

  abbrev pub AllHold : List (Bytes × K) → Type 0
  AllHold [] = Unit
  AllHold ((name, k) ∷ ws) = I name k × AllHold ws

  abbrev pub AreKept : Rows K → Type 0
  AreKept t = AllHold t.writers

  lookup-holds :
      (column : Bytes) (ws : List (Bytes × K)) (k : K)
      → AllHold ws
      → lookup column ws ≡ some k
      → I column k
  lookup-holds column [] k h e = cc
  lookup-holds column ((name, k') ∷ ws) k (h, hs) e = elim (Bool-cases (bytes_eq column name)) [
    | inl same ↦
        let e' : some k' ≡ some k = rw same at e in
        let q : k' ≡ k = cc in rw (bytes_eq→eq column name same, ← q) h
    | inr other ↦ lookup-holds column ws k hs (rw other at e)
  ]

  update-holds :
      (column : Bytes) (k : K) (ws : List (Bytes × K))
      → AllHold ws
      → I column k
      → AllHold (update column k ws)
  update-holds column k [] h i = tt
  update-holds column k ((name, k') ∷ ws) (h, hs) i =
      let rest = update-holds column k ws hs i in
      elim (Bool-cases (bytes_eq column name)) [
        | inl same ↦ rw same (rw (bytes_eq→eq column name same) at i, hs)
        | inr other ↦ rw other (h, rest)
      ]

  pub on_column-Safe :
      (column : Bytes) (call : K → Result K) (t : Rows K)
      → AreKept t
      → ((k : K) → I column k → Safe (I column) (call k))
      → Safe AreKept (on_column column call t)
  unfolding on_column
  on_column-Safe column call t h k = need-Safe AreKept not_found (lookup column t.writers) _ (λ w e.
      bind-Safe (I column) AreKept (call w) _ (k w (lookup-holds column t.writers w h e))
        (λ w' i. update-holds column w' t.writers h i))

  pub write_typed-Safe :
      (M : Messages N) (column : Bytes) (r d : ℕ) (msg : Messages.Message M) (f : Field) (k : K)
      → IsKept column r d
      → I column k
      → Safe (I column) (write_typed M S r d msg f.type k)
  write_typed-Safe M column r d msg f k kept i = typed f.type
    where
      typed : (type : ColumnType) → Safe (I column) (write_typed M S r d msg type k)
      typed string =
          need-Safe (I column) type_error (Messages.as_string M msg) _
            (λ v e. kept.string_kept v k i)
      typed unsigned_int =
          need-Safe (I column) type_error (Messages.as_uint64 M msg) _
            (λ v e. kept.unsigned_kept v k i)
      typed signed_int = tt
      typed datetime =
          need-Safe (I column) type_error (Messages.as_unix_time M msg) _
            (λ v e. kept.date_time_kept v k i)
      typed float =
          need-Safe (I column) type_error (Messages.as_double M msg) _
            (λ v e. kept.float_kept v k i)
      typed boolean =
          need-Safe (I column) type_error (Messages.as_bool M msg) _
            (λ v e. kept.boolean_kept v k i)
      typed subrecord = tt
      typed (column_type b) = i

  -- The loop keeps what `write` keeps, at every repetition level up to rmax.
  pub each_match-Safe :
      (M : Messages N) (field_id : ℕ) (write : ℕ → Messages.Message M → Rows K → Result (Rows K))
      (rmax r : ℕ) (os : List (Messages.Message M)) (t : Rows K)
      → ((r' : ℕ) (o : Messages.Message M) (t' : Rows K)
          → r' ≤ rmax
          → AreKept t'
          → Safe AreKept (write r' o t'))
      → r ≤ rmax
      → AreKept t
      → Safe (λ p. AreKept p.1) (each_match M S field_id write rmax r os t)
  unfolding each_match
  each_match-Safe M field_id write rmax r [] t h hr i = i
  each_match-Safe M field_id write rmax r (o ∷ os) t h hr i =
      let skipped = each_match-Safe M field_id write rmax r os t h hr i in
      let after =
        λ (t' : Rows K). each_match-Safe M field_id write rmax rmax os t' h (le_refl rmax) in
      elim (Bool-cases (Messages.id M o == field_id)) [
        | inl same ↦ rw same (
            bind-Safe AreKept (λ p. AreKept p.1) (write r o t) _ (h r o t hr i)
              (λ t' i'.
                bind-Safe (λ p. AreKept p.1) (λ p. AreKept p.1)
                  (each_match M S field_id write rmax rmax os t') _ (after t' i') (λ p j. j)))
        | inr other ↦ rw other skipped
      ]

  pub unless_found-Safe :
      (M : Messages N) (f : Field) (nulls : Rows K → Result (Rows K)) (p : ℕ × Rows K)
      → AreKept p.1
      → ((t : Rows K) → AreKept t → Safe AreKept (nulls t))
      → Safe AreKept (unless_found M S f nulls p)
  unless_found-Safe M f nulls (zero, t) i h = elim (Bool-cases (f.optional || f.repeated)) [
    | inl e ↦ rw e (h t i)
    | inr e ↦ rw e tt
  ]
  unless_found-Safe M f nulls (suc n, t) i h = i
