-- ===== src/Schema/Copied.antt =====
-- Copies of a schema have its leaves.
use libcstable.Prelude.{◌≡◌, refl, ap, List, [], ◌∷◌, map}
use libcstable.Schema.{Field, TableSchema, no_columns, live, nested, dangling, copy_columns, copy}
use libcstable.Schema.Flat.Paths.{IsLive, Leaf, leaves, below}
use mathlib.Core.List.{Perm}
use mathlib.Core.List.Perm

-- Visiting a hash map shows each of its columns once, in some order.
pub record IsMapOrder (order : TableSchema → TableSchema) : Type 0 where
  pub keeps_live : (s : TableSchema) → IsLive s → IsLive (order s)
  pub keeps_leaves : (s : TableSchema) → Perm (leaves (order s)) (leaves s)

below-map : (f : Field) (ls : List Leaf) → below f ls ≡ map (λ l. (f ∷ l.0, l.1)) ls
below-map f [] = refl
below-map f (l ∷ ls) = ap (λ t. (f ∷ l.0, l.1) ∷ t) (below-map f ls)

pub below-Perm : (f : Field) {xs ys : List Leaf} → Perm xs ys → Perm (below f xs) (below f ys)
below-Perm f {xs} {ys} p = rw (below-map f xs, below-map f ys) (Perm.map (λ l. (f ∷ l.0, l.1)) p)

module _ (order : TableSchema → TableSchema) (is_order : IsMapOrder order) where
  open is_order use {keeps_live, keeps_leaves}

  copy_columns-IsLive : (s : TableSchema) → IsLive s → IsLive (copy_columns order s)
  unfolding copy_columns
  copy_columns-IsLive no_columns h = tt
  copy_columns-IsLive (live f rest) (ht, he, h) = (ht, he, copy_columns-IsLive rest h)
  copy_columns-IsLive (nested f sub rest) (ht, hs, h) = (
    ht,
    keeps_live (copy_columns order sub) (copy_columns-IsLive sub hs),
    copy_columns-IsLive rest h,
  )
  copy_columns-IsLive (dangling rest) h = elim h [ ]

  copy_columns-Perm : (s : TableSchema) → Perm (leaves (copy_columns order s)) (leaves s)
  unfolding copy_columns
  copy_columns-Perm no_columns = Perm.nil
  copy_columns-Perm (live f rest) = Perm.cons ([], f) (copy_columns-Perm rest)
  copy_columns-Perm (nested f sub rest) =
      Perm.append
        (below-Perm f (Perm.trans (keeps_leaves (copy_columns order sub)) (copy_columns-Perm sub)))
        (copy_columns-Perm rest)
  copy_columns-Perm (dangling rest) = copy_columns-Perm rest

  -- In whatever order the hash map of columns is visited, a copy of a schema without destroyed
  -- columns has none either, and the same leaves in some order.
  pub copy-leaves :
      (s : TableSchema) → IsLive s → IsLive (copy order s) × Perm (leaves (copy order s)) (leaves s)
  unfolding copy
  copy-leaves s h = (
    keeps_live (copy_columns order s) (copy_columns-IsLive s h),
    Perm.trans (keeps_leaves (copy_columns order s)) (copy_columns-Perm s),
  )
