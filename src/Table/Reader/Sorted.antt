-- ===== src/Table/Reader/Sorted.antt =====
-- Columns found by name, in any order: readHeader sorts the columns of a v0.1 file.
use libcstable.Prelude.{
  ◌≡◌, ◌≢◌, refl, ap, sym, ◌∙◌, Bool, true, false, List, [], ◌∷◌, All, Option, none, some,
  if◌then◌else◌,
}
use mathlib.Core.Path.{subst}
use mathlib.Core.List.{Permᴰ}
use mathlib.Core.List.Permᴰ
use libcstable.Stx.{Wire}
use libcstable.Stx.Sorting.{All-Permᴰ}
use libcstable.Prelude.Bytes.{Bytes, bytes_eq, bytes_eq→eq}
use libcstable.Format.{ColumnConfig}
use libcstable.Format.Open.{by_name, sort_columns}
use libcstable.Format.Order.{by_name-IsStrictOrder}

abbrev pub find_config : Bytes → List ColumnConfig → Option ColumnConfig
find_config name [] = none
find_config name (col ∷ cols) =
    if bytes_eq col.column_name name then some col else find_config name cols

abbrev pub AreDistinct : List ColumnConfig → Type 0
AreDistinct [] = Unit
AreDistinct (col ∷ cols) = All (λ c. col.column_name ≢ c.column_name) cols × AreDistinct cols

sort_columns-Permᴰ : (W : Wire) (cols : List ColumnConfig) → Permᴰ (sort_columns W cols) cols
unfolding sort_columns
sort_columns-Permᴰ W cols = W.sort-Permᴰ by_name cols by_name-IsStrictOrder

pub All-sort_columns :
    (W : Wire) (Q : ColumnConfig → Type 0) (cols : List ColumnConfig)
    → All Q cols
    → All Q (sort_columns W cols)
All-sort_columns W Q cols h = All-Permᴰ Q (Permᴰ.symm (sort_columns-Permᴰ W cols)) h

-- Two tests of a name of which one fails can be made in either order.
swap :
    {A : Type 0} (p q : Bool) (x y z : A)
    → (p ≡ true → q ≡ true → ⊥)
    → (if p then x else if q then y else z) ≡ (if q then y else if p then x else z)
swap true true x y z h = absurd (h refl refl)
swap true false x y z h = refl
swap false true x y z h = refl
swap false false x y z h = refl

-- Columns of different names are so in any order.
Permᴰ-AreDistinct : {xs ys : List ColumnConfig} → Permᴰ xs ys → AreDistinct xs → AreDistinct ys
Permᴰ-AreDistinct Permᴰ.nil h = tt
Permᴰ-AreDistinct (Permᴰ.cons {a} {b} {l₂ = l} e p) (h, hs) = (
  subst (λ (c : ColumnConfig). All (λ d. c.column_name ≢ d.column_name) l) e
      (All-Permᴰ (λ d. a.column_name ≢ d.column_name) p h),
  Permᴰ-AreDistinct p hs,
)
Permᴰ-AreDistinct (Permᴰ.swap {a} {b} {b' = d} {l = l} e f) ((h, hs), (k, ks)) =
    subst (λ (c : ColumnConfig). AreDistinct (c ∷ (d ∷ l))) f
      (subst (λ (c : ColumnConfig). AreDistinct (b ∷ (c ∷ l))) e ((λ q. h (sym q), k), (hs, ks)))
Permᴰ-AreDistinct (Permᴰ.trans p q) h = Permᴰ-AreDistinct q (Permᴰ-AreDistinct p h)

find_config-Permᴰ :
    (name : Bytes) {xs ys : List ColumnConfig}
    → Permᴰ xs ys
    → AreDistinct xs
    → find_config name xs ≡ find_config name ys
find_config-Permᴰ name Permᴰ.nil h = refl
find_config-Permᴰ name (Permᴰ.cons {a} {b} {l₂ = l} e p) (h, hs) =
    rw (find_config-Permᴰ name p hs) (ap (λ (c : ColumnConfig). find_config name (c ∷ l)) e)
find_config-Permᴰ name (Permᴰ.swap {a} {b} {b' = d} {l = l} e f) ((h, hs), ks) =
    swap (bytes_eq a.column_name name) (bytes_eq b.column_name name) (some a) (some b)
      (find_config name l) (λ p q. h (bytes_eq→eq _ _ p ∙ sym (bytes_eq→eq _ _ q)))
    ∙ ap (λ (c : ColumnConfig). find_config name (b ∷ (c ∷ l))) e
    ∙ ap (λ (c : ColumnConfig). find_config name (c ∷ (d ∷ l))) f
find_config-Permᴰ name (Permᴰ.trans p q) h =
    find_config-Permᴰ name p h ∙ find_config-Permᴰ name q (Permᴰ-AreDistinct p h)

-- Sorting columns of different names changes no search by name.
pub find_config-sort_columns :
    (W : Wire) (name : Bytes) (cols : List ColumnConfig)
    → AreDistinct cols
    → find_config name (sort_columns W cols) ≡ find_config name cols
find_config-sort_columns W name cols h =
    sym (find_config-Permᴰ name (Permᴰ.symm (sort_columns-Permᴰ W cols)) h)
