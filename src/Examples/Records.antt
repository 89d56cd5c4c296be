-- ===== src/Examples/Records.antt =====
-- Records put together from a repeated column.
use libcstable.Prelude.{
  ℕ, ◌≡◌, refl, ap, Bool, true, false, List, [], ◌∷◌, ◌++◌, Option, none, some, Result, ok, arith,
}
use libcstable.Prelude.Bytes.{Bytes, fetch}
use libcstable.Prelude.Int.{pos}
use libcstable.Stx.Sample.{wire, packing, numerics}
use libcstable.Format.{unsigned_int}
use libcstable.Schema.Protobuf.{uint64}
use libcstable.V1
use libcstable.V1.{ColumnReader}
use libcstable.V1.Uint32
use libcstable.Classes.{AnyReader}
use libcstable.Classes.Readers
use libcstable.Classes.Finite.{class_source, class_source-IsFinite}
use libcstable.Materializer.{
  ColumnState, fetch_if_not_pending, consume, advance, get_unsigned_integer,
}
use libcstable.Materializer.Build.{
  Builder, add_child, edit_child, on_child, field_value, insert_value, load_entry, next_indexes,
  count_up, load_turn, load_loop, load_column,
}
use libcstable.Materializer.Columns.{Columns, skip_record, next_record}
use libcstable.Materializer.Aligned.{next_record-skip_record}
use libcstable.Materializer.Ends.{next_record-ends}
use libcstable.Materializer.Levels.{IsRead, IsLevelled}
use libcstable.Materializer.Indexed.{AreSound, next_record-IsSound}
use libcstable.Shredder.Safe.{Safe}
use libcstable.Materializer.Inserted.{children_at, insert_value-children_at}

-- Messages as trees.
mutual
  data Tree : Type 0 where
    node : ℕ → Forest → Tree
    number : ℕ → ℕ → Tree
    text : ℕ → Bytes → Tree
    flag : ℕ → Bool → Tree

  data Forest : Type 0 where
    nil : Forest
    cons : Tree → Forest → Forest

abbrev trees : Forest → List Tree
trees nil = []
trees (cons t ts) = t ∷ trees ts

abbrev forest : List Tree → Forest
forest [] = nil
forest (t ∷ ts) = cons t (forest ts)

trees-forest : (ts : List Tree) → trees (forest ts) ≡ ts
trees-forest [] = refl
trees-forest (t ∷ ts) = ap (λ (l : List Tree). t ∷ l) (trees-forest ts)

abbrev tree_id : Tree → ℕ
tree_id (node i ts) = i
tree_id (number i v) = i
tree_id (text i v) = i
tree_id (flag i v) = i

abbrev tree_object : Tree → Option (List Tree)
tree_object (node i ts) = some (trees ts)
tree_object _ = none

abbrev set_tree : List Tree → Tree → Tree
set_tree ts (node i old) = node i (forest ts)
set_tree ts t = t

tree_id-set_tree : (ts : List Tree) (t : Tree) → tree_id (set_tree ts t) ≡ tree_id t
tree_id-set_tree ts (node i old) = refl
tree_id-set_tree ts (number i v) = refl
tree_id-set_tree ts (text i v) = refl
tree_id-set_tree ts (flag i v) = refl

tree_object-set_tree :
    (ts old : List Tree) (t : Tree)
    → tree_object t ≡ some old
    → tree_object (set_tree ts t) ≡ some ts
tree_object-set_tree ts old (node i c) h = ap (λ (l : List Tree). some l) (trees-forest ts)
tree_object-set_tree ts old (number i v) h = absurd cc
tree_object-set_tree ts old (text i v) h = absurd cc
tree_object-set_tree ts old (flag i v) h = absurd cc

abbrev builder : Builder numerics
builder = record {
  Message = Tree;
  id = tree_id;
  as_object = tree_object;
  set_object = set_tree;
  new_object = λ i. node i nil;
  new_uint32 = number;
  new_uint64 = number;
  new_time = number;
  new_string = text;
  new_bool = flag;
  new_double = flag;
  id-set_object = tree_id-set_tree;
  as_object-set_object = tree_object-set_tree;
  id-new_object = λ i. refl;
  as_object-new_object = λ i. refl;
}

-- Three values, the first two of one record.
abbrev values_reader : AnyReader packing
values_reader = AnyReader.uint32 (record {
  r_max = 1;
  d_max = 0;
  vals_total = 3;
  vals_read = 0;
  rlvl_reader = (1, 0 ∷ 0 ∷ 0 ∷ 0 ∷ 1 ∷ 0 ∷ 0 ∷ 0 ∷ 0 ∷ 0 ∷ 0 ∷ 0 ∷ []);
  dlvl_reader = (0, []);
  data_reader = 5 ∷ 0 ∷ 0 ∷ 0 ∷ 6 ∷ 0 ∷ 0 ∷ 0 ∷ 7 ∷ 0 ∷ 0 ∷ 0 ∷ [];
})

abbrev values_state : ColumnState numerics (AnyReader packing)
values_state = record {
  reader = values_reader;
  r = 0;
  d = 0;
  pending = false;
  defined = false;
  parents = record { id = 3; repeated = true; dmax = 0 } ∷ [];
  field_id = 4;
  field_type = uint64;
  col_type = unsigned_int;
  val_str = [];
  val_uint = 0;
  val_sint = pos 0;
  val_float = false;
}

abbrev values_columns : Columns numerics (AnyReader packing)
values_columns = (118 ∷ [], values_state) ∷ []

next_record-ends_example :
    ((m : Result (Columns numerics (AnyReader packing) × Tree)) × (next_record
          (class_source numerics wire packing)
          builder
          4
          values_columns
          (node 0 nil)
        ≡ some m))
    × ((m : Result (Columns numerics (AnyReader packing))) × (skip_record
            (class_source numerics wire packing)
            4
            values_columns
          ≡ some m))
next_record-ends_example =
    next_record-ends (class_source numerics wire packing)
      (class_source-IsFinite numerics wire packing) builder 4 values_columns (node 0 nil)
      ((tt, omega arith), tt)

-- The third value is pending afterwards.
abbrev after_one : ColumnState numerics (AnyReader packing)
after_one = record values_state {
  reader = AnyReader.uint32 (record {
    r_max = 1;
    d_max = 0;
    vals_total = 3;
    vals_read = 3;
    rlvl_reader = (1, []);
    dlvl_reader = (0, []);
    data_reader = [];
  });
  pending = true;
  defined = true;
  val_uint = 7;
}

abbrev two_objects : Tree
two_objects =
    node 0 (cons (node 3 (cons (number 4 5) nil)) (cons (node 3 (cons (number 4 6) nil)) nil))

one_record :
    next_record (class_source numerics wire packing) builder 4 values_columns (node 0 nil)
    ≡ some (ok ((118 ∷ [], after_one) ∷ [], two_objects))
unfolding next_record load_column load_loop load_turn load_entry next_indexes count_up advance
    consume fetch_if_not_pending insert_value on_child edit_child field_value add_child
    get_unsigned_integer Readers.read_unsigned_int Readers.max_repetition_level Readers.eof_reached
    V1.eof_reached Uint32.read_unsigned_int fetch V1.read_value
one_record = refl

next_record-skip_record_example :
    skip_record (class_source numerics wire packing) 4 values_columns
    ≡ some (ok ((118 ∷ [], after_one) ∷ []))
next_record-skip_record_example =
    next_record-skip_record (class_source numerics wire packing) builder 4 values_columns
      ((118 ∷ [], after_one) ∷ []) (node 0 nil) two_objects one_record

second_value : field_value builder (record values_state { val_uint = 6 }) ≡ ok (number 4 6)
unfolding field_value get_unsigned_integer
second_value = refl

second_inserted :
    insert_value builder
      (record values_state { val_uint = 6 })
      (record { id = 3; repeated = true; dmax = 0 } ∷ [])
      (1 ∷ [])
      (node 0 (cons (node 3 nil) nil))
    ≡ ok (node 0 (cons (node 3 nil) (cons (node 3 (cons (number 4 6) nil)) nil)))
unfolding insert_value on_child edit_child field_value add_child get_unsigned_integer
second_inserted = refl

insert_value-children_at_example :
    children_at builder
      (record { id = 3; repeated = true; dmax = 0 } ∷ [])
      (1 ∷ [])
      (node 0 (cons (node 3 nil) (cons (node 3 (cons (number 4 6) nil)) nil)))
    ≡ children_at builder
        (record { id = 3; repeated = true; dmax = 0 } ∷ [])
        (1 ∷ [])
        (node 0 (cons (node 3 nil) nil))
      ++ (number 4 6 ∷ [])
insert_value-children_at_example =
    insert_value-children_at builder (record values_state { val_uint = 6 })
      (record { id = 3; repeated = true; dmax = 0 } ∷ []) (1 ∷ []) (node 0 (cons (node 3 nil) nil))
      (node 0 (cons (node 3 nil) (cons (node 3 (cons (number 4 6) nil)) nil))) (number 4 6)
      second_value second_inserted

-- The reader after each of its values.
abbrev reader_at : ℕ → Bytes → Bytes → AnyReader packing
reader_at n levels values = AnyReader.uint32 (record {
  r_max = 1;
  d_max = 0;
  vals_total = 3;
  vals_read = n;
  rlvl_reader = (1, levels);
  dlvl_reader = (0, []);
  data_reader = values;
})

data Position : AnyReader packing → Type 0 where
  first : Position values_reader
  second :
      Position
        (reader_at 1 (1 ∷ 0 ∷ 0 ∷ 0 ∷ 0 ∷ 0 ∷ 0 ∷ 0 ∷ []) (6 ∷ 0 ∷ 0 ∷ 0 ∷ 7 ∷ 0 ∷ 0 ∷ 0 ∷ []))
  third : Position (reader_at 2 (0 ∷ 0 ∷ 0 ∷ 0 ∷ []) (7 ∷ 0 ∷ 0 ∷ 0 ∷ []))
  last : Position (reader_at 3 [] [])

unsigned_int_reads :
    (k : AnyReader packing)
    → Position k
    → Safe
        (IsRead (class_source numerics wire packing) Position k)
        (Readers.read_unsigned_int numerics wire packing k)
unfolding Readers.read_unsigned_int Readers.max_repetition_level Uint32.read_unsigned_int
    V1.read_value fetch
unsigned_int_reads k first = (omega arith, refl, second)
unsigned_int_reads k second = (omega arith, refl, third)
unsigned_int_reads k third = (omega arith, refl, last)
unsigned_int_reads k last = tt

signed_int_reads :
    (k : AnyReader packing)
    → Position k
    → Safe
        (IsRead (class_source numerics wire packing) Position k)
        (Readers.read_signed_int numerics wire packing k)
unfolding Readers.read_signed_int Readers.max_repetition_level Uint32.read_unsigned_int
    Uint32.read_signed_int V1.read_value fetch
signed_int_reads k first = (omega arith, refl, second)
signed_int_reads k second = (omega arith, refl, third)
signed_int_reads k third = (omega arith, refl, last)
signed_int_reads k last = tt

float_reads :
    (k : AnyReader packing)
    → Position k
    → Safe
        (IsRead (class_source numerics wire packing) Position k)
        (Readers.read_float numerics wire packing k)
unfolding Readers.read_float Readers.max_repetition_level Uint32.read_unsigned_int Uint32.read_float
    V1.read_value fetch
float_reads k first = (omega arith, refl, second)
float_reads k second = (omega arith, refl, third)
float_reads k third = (omega arith, refl, last)
float_reads k last = tt

string_reads :
    (k : AnyReader packing)
    → Position k
    → Safe
        (IsRead (class_source numerics wire packing) Position k)
        (Readers.read_string numerics wire packing k)
unfolding Readers.read_string Readers.max_repetition_level Uint32.read_unsigned_int
    Uint32.read_string V1.read_value fetch
string_reads k first = (omega arith, refl, second)
string_reads k second = (omega arith, refl, third)
string_reads k third = (omega arith, refl, last)
string_reads k last = tt

values-IsLevelled : IsLevelled (class_source numerics wire packing) Position
values-IsLevelled = record {
  unsigned_int_reads = unsigned_int_reads;
  signed_int_reads = signed_int_reads;
  float_reads = float_reads;
  string_reads = string_reads;
}

values_columns-AreSound :
    AreSound (class_source numerics wire packing) Position values-IsLevelled builder values_columns
unfolding Readers.max_repetition_level
values_columns-AreSound = (
  record {
    type_known = tt;
    parents_fit = omega arith;
    level_fits = omega arith;
    reader_good = first;
    levels_are = refl;
  },
  tt,
)

next_record-IsSound_example :
    (m : Result (Columns numerics (AnyReader packing) × Tree)) × (next_record
        (class_source numerics wire packing)
        builder
        4
        values_columns
        (node 0 nil)
      ≡ some m)
    × Safe
        (λ q. AreSound (class_source numerics wire packing) Position values-IsLevelled builder q.0)
        m
next_record-IsSound_example =
    next_record-IsSound (class_source numerics wire packing) Position values-IsLevelled builder
      (class_source-IsFinite numerics wire packing) 4 values_columns (node 0 nil)
      ((tt, omega arith), tt) values_columns-AreSound
