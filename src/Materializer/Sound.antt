-- ===== src/Materializer/Sound.antt =====
-- insertValue and insertNull read no index that is not there (cstable/RecordMaterializer.cc).
use libcstable.Prelude.{
  ℕ, zero, suc, ◌+◌, ◌≤◌, ◌<◌, ◌≡◌, refl, ap, ◌&&◌, List, [], ◌∷◌, length, Option, none, some,
  Result, need, type_error, invalid_conversion, if◌then◌else◌, ◌==◌, ltb, Bool-cases, inl, inr,
  arith, length-map,
}
use libcstable.Stx.{Numerics}
use libcstable.Format.{ColumnType, string, column_type, IsKnownType}
use libcstable.Schema.Protobuf.{FieldType, bool, uint32, text, uint64, double, date_time}
use libcstable.Shredder.Safe.{Safe, bind-Safe, need-Safe}
use libcstable.Materializer.{
  Parent, ColumnState, unsigned_of, text_of, float_of, get_unsigned_integer, get_string, get_float,
}
use libcstable.Materializer.Build.{
  Builder, Found, edited, missing, behind_child, grown, add_child, edit_child, on_child, value_of,
  field_value, insert_value, insert_null, count_up, next_indexes,
}

-- The indexes that the parents take.
abbrev pub repeated_in : List Parent → ℕ
repeated_in [] = 0
repeated_in (p ∷ parents) = let rest = repeated_in parents in if p.repeated then suc rest else rest

need-Holds : {A : Type 0} (o : Option A) → Safe (λ a. Unit) (need invalid_conversion o)
need-Holds none = tt
need-Holds (some a) = tt

count_up-Safe :
    (level : ℕ) (is : List ℕ)
    → level < length is
    → Safe (λ js. length js ≡ length is) (count_up level is)
unfolding count_up
count_up-Safe level [] h = absurd (omega arith)
count_up-Safe zero (i ∷ is) h = ap suc (length-map (λ (x : ℕ). 0) is)
count_up-Safe (suc level) (i ∷ is) h =
    bind-Safe (λ js. length js ≡ length is) (λ js. length js ≡ suc (length is)) (count_up level is)
      _ (count_up-Safe level is (omega arith)) (λ js e. ap suc e)

pub next_indexes-Safe :
    (level : ℕ) (is : List ℕ)
    → level ≤ length is
    → Safe (λ js. length js ≡ length is) (next_indexes level is)
unfolding next_indexes
next_indexes-Safe zero is h = refl
next_indexes-Safe (suc level) is h = count_up-Safe level is (omega arith)

module _ {N : Numerics} (B : Builder N) where
  open B use {Message, as_object}

  behind_child-Safe : (c : Message) (x : Found B) → Safe (λ y. Unit) (behind_child B c x)
  behind_child-Safe c (edited cs) = tt
  behind_child-Safe c (missing n) = tt

  module _ (id target : ℕ) (f : Message → Result Message)
      (h : (c : Message) → Safe (λ d. Unit) (f c)) where
    edit_child-Safe : (n : ℕ) (cs : List Message) → Safe (λ y. Unit) (edit_child B id target f n cs)
    unfolding edit_child
    edit_child-Safe n [] = tt
    edit_child-Safe n (c ∷ cs) =
        let m = if B.id c == id then n + 1 else n in
        let rest =
          bind-Safe (λ y. Unit) (λ y. Unit) (edit_child B id target f m cs) (behind_child B c)
            (edit_child-Safe m cs) (λ y u. behind_child-Safe c y) in
        elim (Bool-cases ((B.id c == id) && (n == target))) [
          | inl here ↦ rw here (bind-Safe (λ d. Unit) (λ y. Unit) (f c) _ (h c) (λ d u. tt))
          | inr there ↦ rw there rest
        ]

    grown-Safe : (cs : List Message) (x : Found B) → Safe (λ ds. Unit) (grown B id target f cs x)
    grown-Safe cs (edited ds) = tt
    grown-Safe cs (missing n) =
        bind-Safe (λ d. Unit) (λ ds. Unit) (f (B.new_object id)) _ (h (B.new_object id)) (λ d u. tt)

    on_child-Safe : (m : Message) → Safe (λ d. Unit) (on_child B id target f m)
    unfolding on_child
    on_child-Safe m =
        need-Safe (λ d. Unit) type_error (as_object m) _
          λ cs e.
            bind-Safe (λ x. Unit) (λ d. Unit) (edit_child B id target f 0 cs) _
              (edit_child-Safe 0 cs)
              λ x u.
                bind-Safe (λ ds. Unit) (λ d. Unit) (grown B id target f cs x) _ (grown-Safe cs x)
                  λ ds u'. tt

  module _ {K : Type 0} where
    unsigned_of-Safe :
        (t : ColumnType) (s : ColumnState N K) → IsKnownType t → Safe (λ v. Unit) (unsigned_of t s)
    unsigned_of-Safe string s h = need-Holds (N.stoull s.val_str)
    unsigned_of-Safe (column_type b) s h = h
    unsigned_of-Safe _ s h = tt

    text_of-Safe :
        (t : ColumnType) (s : ColumnState N K) → IsKnownType t → Safe (λ v. Unit) (text_of t s)
    text_of-Safe (column_type b) s h = h
    text_of-Safe _ s h = tt

    float_of-Safe :
        (t : ColumnType) (s : ColumnState N K) → IsKnownType t → Safe (λ v. Unit) (float_of t s)
    float_of-Safe string s h = need-Holds (N.stod s.val_str)
    float_of-Safe (column_type b) s h = h
    float_of-Safe _ s h = tt

    value_of-Safe :
        (t : FieldType) (s : ColumnState N K)
        → IsKnownType s.col_type
        → Safe (λ v. Unit) (value_of B t s)
    unfolding get_unsigned_integer get_string get_float
    value_of-Safe text s h =
        bind-Safe (λ v. Unit) (λ m. Unit) (text_of s.col_type s) _ (text_of-Safe s.col_type s h)
          (λ v u. tt)
    value_of-Safe double s h =
        bind-Safe (λ v. Unit) (λ m. Unit) (float_of s.col_type s) _ (float_of-Safe s.col_type s h)
          (λ v u. tt)
    value_of-Safe bool s h =
        bind-Safe (λ v. Unit) (λ m. Unit) (unsigned_of s.col_type s) _
          (unsigned_of-Safe s.col_type s h) (λ v u. tt)
    value_of-Safe uint32 s h =
        bind-Safe (λ v. Unit) (λ m. Unit) (unsigned_of s.col_type s) _
          (unsigned_of-Safe s.col_type s h) (λ v u. tt)
    value_of-Safe uint64 s h =
        bind-Safe (λ v. Unit) (λ m. Unit) (unsigned_of s.col_type s) _
          (unsigned_of-Safe s.col_type s h) (λ v u. tt)
    value_of-Safe date_time s h =
        bind-Safe (λ v. Unit) (λ m. Unit) (unsigned_of s.col_type s) _
          (unsigned_of-Safe s.col_type s h) (λ v u. tt)

    pub insert_value-Safe :
        (s : ColumnState N K) (parents : List Parent) (is : List ℕ) (m : Message)
        → IsKnownType s.col_type
        → repeated_in parents ≤ length is
        → Safe (λ d. Unit) (insert_value B s parents is m)
    unfolding insert_value field_value add_child
    insert_value-Safe s [] is m h n =
        bind-Safe (λ v. Unit) (λ d. Unit) (value_of B s.field_type s) _
          (value_of-Safe s.field_type s h)
          λ v u. need-Safe (λ d. Unit) type_error (as_object m) _ λ cs e. tt
    insert_value-Safe s (p ∷ parents) [] m h n = elim (Bool-cases p.repeated) [
      | inl many ↦ absurd (let q = rw many at n in omega (arith, q))
      | inr single ↦
          let q = rw single at n in
          rw single (
            on_child-Safe p.id 0 (insert_value B s parents [])
              (λ c. insert_value-Safe s parents [] c h q) m)
    ]
    insert_value-Safe s (p ∷ parents) (i ∷ is) m h n = elim (Bool-cases p.repeated) [
      | inl many ↦
          let q = rw many at n in
          rw many (
            on_child-Safe p.id i (insert_value B s parents is)
              (λ c. insert_value-Safe s parents is c h (omega (arith, q))) m)
      | inr single ↦
          let q = rw single at n in
          rw single (
            on_child-Safe p.id 0 (insert_value B s parents (i ∷ is))
              (λ c. insert_value-Safe s parents (i ∷ is) c h q) m)
    ]

    pub insert_null-Safe :
        (s : ColumnState N K) (parents : List Parent) (is : List ℕ) (m : Message)
        → repeated_in parents ≤ length is
        → Safe (λ d. Unit) (insert_null B s parents is m)
    unfolding insert_null
    insert_null-Safe s [] is m n = tt
    insert_null-Safe s (p ∷ parents) [] m n = elim (Bool-cases (ltb s.d p.dmax)) [
      | inl below ↦ rw below tt
      | inr within ↦ elim (Bool-cases p.repeated) [
        | inl many ↦ absurd (let q = rw many at n in omega (arith, q))
        | inr single ↦
            let q = rw single at n in
            rw (within, single)
              (on_child-Safe p.id 0 (insert_null B s parents [])
                (λ c. insert_null-Safe s parents [] c q) m)
      ]
    ]
    insert_null-Safe s (p ∷ parents) (i ∷ is) m n = elim (Bool-cases (ltb s.d p.dmax)) [
      | inl below ↦ rw below tt
      | inr within ↦ elim (Bool-cases p.repeated) [
        | inl many ↦
            let q = rw many at n in
            rw (within, many)
              (on_child-Safe p.id i (insert_null B s parents is)
                (λ c. insert_null-Safe s parents is c (omega (arith, q))) m)
        | inr single ↦
            let q = rw single at n in
            rw (within, single)
              (on_child-Safe p.id 0 (insert_null B s parents (i ∷ is))
                (λ c. insert_null-Safe s parents (i ∷ is) c q) m)
      ]
    ]
