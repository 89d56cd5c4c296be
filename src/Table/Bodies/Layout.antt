-- ===== src/Table/Bodies/Layout.antt =====
-- The layout of a committed v0.1 table: the bodies lie behind its header.
use libcstable.Prelude.{
  ℕ, suc, ◌+◌, ◌%◌, ◌^◌, ◌<◌, ◌≡◌, refl, ap, List, [], ◌∷◌, ◌++◌, length, length-append, arith,
}
use libcstable.Stx.{Wire}
use libcstable.Format.{ColumnConfig, encoding_code}
use libcstable.Table.Bodies.{
  BodyWriter, BodyTable, commit_columns, place, header_size, as_uint32, version_part, count_part,
  write_column_v1, write_columns_v1, placed_columns, header_v1,
}

-- The bodies lie one behind the other from `start` on.
abbrev pub AreAdjacent : {K : Type 0} → ℕ → List (ColumnConfig × K) → Type 0
AreAdjacent start [] = Unit
AreAdjacent start ((col, k) ∷ cols) =
    (col.body_offset ≡ start) × AreAdjacent (start + col.body_size) cols

abbrev pub body_sizes : {K : Type 0} → List (ColumnConfig × K) → ℕ
body_sizes [] = 0
body_sizes ((col, k) ∷ cols) = col.body_size + body_sizes cols

module _ {K : Type 0} where
  place-AreAdjacent :
      (start : ℕ) (cols : List (ColumnConfig × K))
      → start + body_sizes cols < 2 ^ 64
      → AreAdjacent start (place start cols)
  unfolding place
  place-AreAdjacent start [] h = tt
  place-AreAdjacent start ((col, k) ∷ cols) h =
      let e : (start + col.body_size) % 2 ^ 64 ≡ start + col.body_size = omega arith in
      (refl, rw e (place-AreAdjacent (start + col.body_size) cols (omega arith)))

  header_size-place :
      (start : ℕ) (cols : List (ColumnConfig × K))
      → header_size (place start cols) ≡ header_size cols
  unfolding place header_size
  header_size-place start [] = refl
  header_size-place start ((col, k) ∷ cols) =
      omega (arith, header_size-place ((start + col.body_size) % 2 ^ 64) cols)

  pub length-place :
      (start : ℕ) (cols : List (ColumnConfig × K)) → length (place start cols) ≡ length cols
  unfolding place
  length-place start [] = refl
  length-place start ((col, k) ∷ cols) =
      ap suc (length-place ((start + col.body_size) % 2 ^ 64) cols)

  pub length-commit_columns :
      (B : BodyWriter K) (cols : List (ColumnConfig × K))
      → length (commit_columns B cols) ≡ length cols
  unfolding commit_columns
  length-commit_columns B [] = refl
  length-commit_columns B ((col, k) ∷ cols) = ap suc (length-commit_columns B cols)

  -- The size of the header.
  abbrev pub header_end : BodyWriter K → BodyTable K → ℕ
  header_end B t = 26 + header_size (commit_columns B t.columns)

module _ (W : Wire) where
  open W use {u16, u32, u64}

  length-write_column_v1 :
      (col : ColumnConfig) → length (write_column_v1 W col) ≡ 32 + length col.column_name
  unfolding write_column_v1
  length-write_column_v1 col =
      let a = u32 (encoding_code col.storage_type) in
      let b = u32 (as_uint32 (length col.column_name)) in
      let c = u32 (as_uint32 col.rlevel_max) in
      let d = u32 (as_uint32 col.dlevel_max) in
      let e = u64 col.body_offset in
      let f = u64 col.body_size in
      omega (
        arith,
        length-append a (b ++ (col.column_name ++ (c ++ (d ++ (e ++ f))))),
        length-append b (col.column_name ++ (c ++ (d ++ (e ++ f)))),
        length-append col.column_name (c ++ (d ++ (e ++ f))),
        length-append c (d ++ (e ++ f)),
        length-append d (e ++ f),
        length-append e f,
        W.length-u32 (encoding_code col.storage_type),
        W.length-u32 (as_uint32 (length col.column_name)),
        W.length-u32 (as_uint32 col.rlevel_max),
        W.length-u32 (as_uint32 col.dlevel_max),
        W.length-u64 col.body_offset,
        W.length-u64 col.body_size,
      )

  length-write_columns_v1 :
      {K : Type 0} (cols : List (ColumnConfig × K))
      → length (write_columns_v1 W cols) ≡ header_size cols
  unfolding write_columns_v1 header_size
  length-write_columns_v1 [] = refl
  length-write_columns_v1 ((col, k) ∷ cols) = omega (
    arith,
    length-append (write_column_v1 W col) (write_columns_v1 W cols),
    length-write_column_v1 col,
    length-write_columns_v1 cols,
  )

  length-start : (n m : ℕ) → length (version_part W ++ count_part W n m) ≡ 26
  length-start n m = omega (
    arith,
    length-append (u32 0x17231723 ++ u16 1) (count_part W n m),
    length-append (u32 0x17231723) (u16 1),
    length-append (u64 0) (u64 n ++ u32 (as_uint32 m)),
    length-append (u64 n) (u32 (as_uint32 m)),
    W.length-u32 0x17231723,
    W.length-u16 1,
    W.length-u64 0,
    W.length-u64 n,
    W.length-u32 (as_uint32 m),
  )

  -- If the header and all bodies together are shorter than 2 ^ 64, then the first body begins where
  -- the written header ends, and each other body where the one before it ends.
  pub placed_columns-AreAdjacent :
      {K : Type 0} (B : BodyWriter K) (t : BodyTable K)
      → header_end B t + body_sizes (commit_columns B t.columns) < 2 ^ 64
      → AreAdjacent (length (header_v1 W B t)) (placed_columns W B t)
  unfolding header_v1 placed_columns
  placed_columns-AreAdjacent B t h =
      let cols = commit_columns B t.columns in
      let start = version_part W ++ count_part W t.num_rows (length t.columns) in
      let s = length-start t.num_rows (length t.columns) in
      let e : (length start + header_size cols) % 2 ^ 64 ≡ 26 + header_size cols =
        omega (arith, s) in
      let n : length (header_v1 W B t) ≡ 26 + header_size cols = omega (
        arith,
        s,
        length-append (version_part W) (
            count_part W t.num_rows (length t.columns)
            ++ write_columns_v1 W (placed_columns W B t)),
        length-append (count_part W t.num_rows (length t.columns))
            (write_columns_v1 W (placed_columns W B t)),
        length-append (version_part W) (count_part W t.num_rows (length t.columns)),
        length-write_columns_v1 (placed_columns W B t),
        header_size-place ((length start + header_size cols) % 2 ^ 64) cols,
      ) in
      rw (n, e) (place-AreAdjacent (26 + header_size cols) cols h)
