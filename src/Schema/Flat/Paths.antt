-- ===== src/Schema/Flat/Paths.antt =====
-- The flat columns are the leaves of the schema, named by their paths.
use libcstable.Prelude.{
  ℕ, ◌+◌, ◌^◌, ◌≤◌, ◌<◌, max, ◌≡◌, refl, ap, sym, ◌∙◌, Bool, true, false, ◌||◌, List, [], ◌∷◌, ◌++◌,
  map, append_assoc, none, some, ok, if◌then◌else◌, arith,
}
use libcstable.Prelude.Bytes.{Bytes}
use libcstable.Format.{ColumnConfig}
use libcstable.Schema.{Field, TableSchema, no_columns, live, nested, dangling}
use libcstable.Schema.Flat.{
  is_subrecord, increment, rlevel_of, dlevel_of, flat_column, dot, list_flat_columns, flat_columns,
}

-- No pointer dangles, a subrecord has a subschema, and every other column an encoding and none.
abbrev pub IsLive : TableSchema → Type 0
IsLive no_columns = Unit
IsLive (live f rest) =
    (is_subrecord f.type ≡ false) × ((e : _) × (f.encoding ≡ some e)) × IsLive rest
IsLive (nested f sub rest) = (is_subrecord f.type ≡ true) × IsLive sub × IsLive rest
IsLive (dangling rest) = ⊥

abbrev pub depth : TableSchema → ℕ
depth no_columns = 0
depth (live f rest) = max 1 (depth rest)
depth (nested f sub rest) = max (1 + depth sub) (depth rest)
depth (dangling rest) = depth rest

-- A leaf: the subrecords around it, the outermost first, and its field.
abbrev pub Leaf : Type 0
Leaf = List Field × Field

abbrev pub below : Field → List Leaf → List Leaf
below f [] = []
below f ((parents, leaf) ∷ leaves) = (f ∷ parents, leaf) ∷ below f leaves

abbrev pub leaves : TableSchema → List Leaf
leaves no_columns = []
leaves (live f rest) = ([], f) ∷ leaves rest
leaves (nested f sub rest) = below f (leaves sub) ++ leaves rest
leaves (dangling rest) = leaves rest

abbrev pub path_name : List Field → Bytes
path_name [] = []
path_name (f ∷ parents) = f.name ++ (dot ++ path_name parents)

abbrev pub count : (Field → Bool) → List Field → ℕ
count p [] = 0
count p (f ∷ fs) = (if p f then 1 else 0) + count p fs

abbrev pub repeats : Field → Bool
repeats f = f.repeated

abbrev pub may_miss : Field → Bool
may_miss f = f.repeated || f.optional

-- The column of a leaf: the names on its path, joined by dots, and the numbers of repeated and of
-- repeated or optional fields on the path.
abbrev pub at : ColumnConfig → Bytes → ℕ → ℕ → Leaf → ColumnConfig
at blank prefix r d (parents, f) = record blank {
  column_name = prefix ++ (path_name parents ++ f.name);
  storage_type = elim f.encoding [ none ↦ blank.storage_type | some e ↦ e ];
  logical_type = f.type;
  rlevel_max = r + count repeats (parents ++ (f ∷ []));
  dlevel_max = d + count may_miss (parents ++ (f ∷ []));
}

abbrev pub leaf_column : ColumnConfig → Leaf → ColumnConfig
leaf_column blank leaf = at blank [] 0 0 leaf

pub map-append :
    {A B : Type 0} (f : A → B) (xs ys : List A) → map f (xs ++ ys) ≡ map f xs ++ map f ys
map-append f [] ys = refl
map-append f (x ∷ xs) ys = ap (λ t. f x ∷ t) (map-append f xs ys)

pub increment-count : (b : Bool) (n : ℕ) → n + 1 < 2 ^ 32 → increment b n ≡ n + (if b then 1 else 0)
increment-count true n h = omega arith
increment-count false n h = omega arith

pub increment-le : (b : Bool) (n : ℕ) → n + 1 < 2 ^ 32 → increment b n ≤ n + 1
increment-le true n h = omega arith
increment-le false n h = omega arith

-- A column with this name and these levels.
abbrev named : ColumnConfig → Field → Bytes → ℕ → ℕ → ColumnConfig
named blank f name r d = record blank {
  column_name = name;
  storage_type = elim f.encoding [ none ↦ blank.storage_type | some e ↦ e ];
  logical_type = f.type;
  rlevel_max = r;
  dlevel_max = d;
}

named-cong :
    (blank : ColumnConfig) (f : Field) {n n' : Bytes} {r r' d d' : ℕ}
    → n ≡ n'
    → r ≡ r'
    → d ≡ d'
    → named blank f n r d ≡ named blank f n' r' d'
named-cong blank f hn hr hd = rw (hn, hr, hd)

pub map-at-below :
    (blank : ColumnConfig) (prefix : Bytes) (r d : ℕ) (f : Field) (ls : List Leaf)
    → r + 1 < 2 ^ 32
    → d + 1 < 2 ^ 32
    → map (at blank ((prefix ++ f.name) ++ dot) (rlevel_of f r) (dlevel_of f d)) ls
      ≡ map (at blank prefix r d) (below f ls)
map-at-below blank prefix r d f [] hr hd = refl
map-at-below blank prefix r d f ((ps, g) ∷ ls) hr hd =
    let head : at blank ((prefix ++ f.name) ++ dot) (rlevel_of f r) (dlevel_of f d) (ps, g)
        ≡ at blank prefix r d (f ∷ ps, g) =
      named-cong blank g
        (append_assoc (prefix ++ f.name) dot (path_name ps ++ g.name)
          ∙ append_assoc prefix f.name (dot ++ (path_name ps ++ g.name))
          ∙ ap (λ t. prefix ++ t)
              (sym (
                append_assoc f.name (dot ++ path_name ps) g.name
                ∙ ap (λ t. f.name ++ t) (append_assoc dot (path_name ps) g.name))))
        (omega (arith, increment-count f.repeated r hr))
        (omega (arith, increment-count (f.repeated || f.optional) d hd)) in
    rw (head, map-at-below blank prefix r d f ls hr hd)

flat_column-at :
    (blank : ColumnConfig) (prefix : Bytes) (r d : ℕ) (f : Field)
    → ((e : _) × (f.encoding ≡ some e))
    → r + 1 < 2 ^ 32
    → d + 1 < 2 ^ 32
    → flat_column blank prefix r d f ≡ ok (at blank prefix r d ([], f))
unfolding flat_column
flat_column-at blank prefix r d f (e, h) hr hd =
    let er : rlevel_of f r ≡ r + ((if f.repeated then 1 else 0) + 0) =
      omega (arith, increment-count f.repeated r hr) in
    let ed : dlevel_of f d ≡ d + ((if may_miss f then 1 else 0) + 0) =
      omega (arith, increment-count (f.repeated || f.optional) d hd) in
    rw (h, flat_column, er, ed)

list_flat_columns-leaves :
    (blank : ColumnConfig) (prefix : Bytes) (r d : ℕ) (s : TableSchema)
    → IsLive s
    → r + depth s < 2 ^ 32
    → d + depth s < 2 ^ 32
    → list_flat_columns blank prefix r d s ≡ ok (map (at blank prefix r d) (leaves s))
unfolding list_flat_columns
list_flat_columns-leaves blank prefix r d no_columns h hr hd = refl
list_flat_columns-leaves blank prefix r d (live f rest) (ht, he, h) hr hd = rw (
  ht,
  flat_column-at blank prefix r d f he (omega arith) (omega arith),
  list_flat_columns-leaves blank prefix r d rest h (omega arith) (omega arith),
)
list_flat_columns-leaves blank prefix r d (nested f sub rest) (ht, hs, h) hr hd =
    rw
      (
        ht,
        list_flat_columns-leaves blank ((prefix ++ f.name) ++ dot) (rlevel_of f r) (dlevel_of f d)
            sub hs (omega (arith, increment-le f.repeated r (omega arith)))
            (omega (arith, increment-le (f.repeated || f.optional) d (omega arith))),
        list_flat_columns-leaves blank prefix r d rest h (omega arith) (omega arith),
        map-append (at blank prefix r d) (below f (leaves sub)) (leaves rest),
      )
      (ap (λ t. ok (t ++ map (at blank prefix r d) (leaves rest)))
        (map-at-below blank prefix r d f (leaves sub) (omega arith) (omega arith)))
list_flat_columns-leaves blank prefix r d (dangling rest) h hr hd = elim h [ ]

-- If no column of the schema was destroyed, subrecords have subschemas, other columns have an
-- encoding, and the schema is nested less than 2 ^ 32 deep, then flatColumns returns one column for
-- each leaf, in their order: its name is the names on the path joined by dots, its repetition level
-- the number of repeated fields on the path, and its definition level the number of fields that are
-- repeated or optional.
pub flat_columns-leaves :
    (blank : ColumnConfig) (s : TableSchema)
    → IsLive s
    → depth s < 2 ^ 32
    → flat_columns blank s ≡ ok (map (leaf_column blank) (leaves s))
unfolding flat_columns
flat_columns-leaves blank s h hd =
    list_flat_columns-leaves blank [] 0 0 s h (omega arith) (omega arith)
