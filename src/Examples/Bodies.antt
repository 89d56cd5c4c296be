-- ===== src/Examples/Bodies.antt =====
-- A v0.1 table of two columns whose bodies are plain bytes.
use libcstable.Prelude.{
  ◌+◌, List, map, none, ◌^◌, ◌<◌, ◌≡◌, [], ◌∷◌, ◌++◌, length, drop, All, ok, arith, refl, replicate,
}
use libcstable.Prelude.Bytes.{Bytes, store}
use libcstable.Stx.Sample.{wire}
use libcstable.Format.{ColumnConfig, unsigned_int, uint64_plain, v0_1_0}
use libcstable.Format.Open.{open_header}
use libcstable.Pages.{page_manager}
use libcstable.Table.Bodies.{
  BodyWriter, BodyTable, commit_columns, place, header_size, placed_columns, header_v1, commit_v1,
}
use libcstable.Table.Bodies.Layout.{AreAdjacent, header_end, body_sizes, placed_columns-AreAdjacent}
use libcstable.Table.Bodies.Written.{AreWritable, HoldsBodies, commit_v1_lem}
use mathlib.Core.List.{Perm}
use libcstable.Stx.Sorting.{IsAscending}
use libcstable.Format.Open.{by_name}
use libcstable.Table.Bodies.Header.{IsColumnV1, configs, restored_v1, header_v1_round_trip}

abbrev plain_bodies : BodyWriter Bytes
plain_bodies = record {
  commit_body = λ k. k;
  body_size = λ k. length k;
  write_body = λ k buf. ok (k ++ drop (length k) buf);
}

abbrev unplaced : Bytes → ColumnConfig
unplaced name = record {
  column_id = 0;
  column_name = name;
  storage_type = uint64_plain;
  logical_type = unsigned_int;
  rlevel_max = 0;
  dlevel_max = 1;
  body_offset = 0;
  body_size = 0;
}

abbrev two_columns : BodyTable Bytes
two_columns = record {
  columns = (unplaced (98 ∷ []), 1 ∷ 2 ∷ 3 ∷ []) ∷ (unplaced (97 ∷ []), 4 ∷ 5 ∷ []) ∷ [];
  num_rows = 3;
  manager = page_manager v0_1_0 (record { content = []; log = [] }) 0;
}

bodies_fit :
    header_end plain_bodies two_columns
      + body_sizes (commit_columns plain_bodies two_columns.columns)
    < 2 ^ 64
unfolding commit_columns header_size
bodies_fit = omega arith

placed_columns-AreAdjacent_example :
    AreAdjacent
      (length (header_v1 wire plain_bodies two_columns))
      (placed_columns wire plain_bodies two_columns)
placed_columns-AreAdjacent_example =
    placed_columns-AreAdjacent wire plain_bodies two_columns bodies_fit

columns_fit : All IsColumnV1 (configs (placed_columns wire plain_bodies two_columns))
unfolding placed_columns commit_columns place header_size store
columns_fit = (
  record {
    encoding_known = tt;
    name_fits = omega arith;
    rlevel_fits = omega arith;
    dlevel_fits = omega arith;
    offset_fits = omega arith;
    size_fits = omega arith;
  },
  (
    record {
      encoding_known = tt;
      name_fits = omega arith;
      rlevel_fits = omega arith;
      dlevel_fits = omega arith;
      offset_fits = omega arith;
      size_fits = omega arith;
    },
    tt,
  ),
)

header_v1_round_trip_example :
    (cols : List ColumnConfig) × (open_header wire
        (unplaced [])
        (header_v1 wire plain_bodies two_columns ++ (1 ∷ 2 ∷ []))
      ≡ ok (record {
        version = v0_1_0;
        header = record { columns = cols; num_rows = 3 };
        metablock = none;
        free_index = none;
      }))
    × Perm cols
        (map (restored_v1 (unplaced [])) (configs (placed_columns wire plain_bodies two_columns)))
    × IsAscending by_name cols
header_v1_round_trip_example =
    header_v1_round_trip wire plain_bodies two_columns (unplaced []) (1 ∷ 2 ∷ []) (omega arith)
      (omega arith) columns_fit

columns_writable :
    AreWritable plain_bodies (λ n. replicate n 0) (placed_columns wire plain_bodies two_columns)
unfolding placed_columns commit_columns place header_size store
columns_writable = ((1 ∷ 2 ∷ 3 ∷ [], refl, refl), ((4 ∷ 5 ∷ [], refl, refl), tt))

commit_v1_lem_example :
    (t : BodyTable Bytes) × (commit_v1 wire plain_bodies (λ n. replicate n 0) two_columns ≡ ok t)
    × ((rest : Bytes) × (t.manager.file.content ≡ header_v1 wire plain_bodies two_columns ++ rest))
    × HoldsBodies plain_bodies
        (λ n. replicate n 0)
        t.manager.file.content
        (placed_columns wire plain_bodies two_columns)
    × (t.columns ≡ placed_columns wire plain_bodies two_columns)
    × (t.num_rows ≡ 3)
commit_v1_lem_example =
    commit_v1_lem wire plain_bodies (λ n. replicate n 0) two_columns bodies_fit columns_writable
