-- ===== src/Table/Bodies.antt =====
-- The commit of a v0.1 table: CSTableWriter::commitV1 (cstable/CSTableWriter.cc).
pub mod Layout
pub mod Header
pub mod Written
use libcstable.Prelude.{
  ℕ, ◌+◌, ◌%◌, ◌^◌, ◌≡◌, List, [], ◌∷◌, ◌++◌, length, Result, ok, runtime_error, check, ◌>>=◌, ◌>>◌,
  ◌==◌,
}
use libcstable.Prelude.Bytes.{Bytes}
use libcstable.Stx.{Wire}
use libcstable.Format.{ColumnConfig, PageRef, encoding_code}
use libcstable.Pages.{PageManager, write_page}

-- What the commit calls on a v1::ColumnWriter: commit, bodySize, and write into a buffer.
pub record BodyWriter (K : Type 0) : Type 0 where
  pub commit_body : K → K
  pub body_size : K → ℕ
  pub write_body : K → Bytes → Result Bytes

-- The table writer, with each column's configuration beside its writer.
pub record BodyTable (K : Type 0) : Type 0 where
  pub columns : List (ColumnConfig × K)
  pub num_rows : ℕ
  pub manager : PageManager

-- The first loop: the columns are committed, and their sizes noted.
unfoldable pub commit_columns :
    {K : Type 0} → BodyWriter K → List (ColumnConfig × K) → List (ColumnConfig × K)
commit_columns B [] = []
commit_columns B ((col, k) ∷ cols) =
    let k' = BodyWriter.commit_body B k in
    (record col { body_size = BodyWriter.body_size B k' }, k') ∷ commit_columns B cols

-- The offsets of the bodies, one behind the other, in size_t arithmetic.
unfoldable pub place : {K : Type 0} → ℕ → List (ColumnConfig × K) → List (ColumnConfig × K)
place offset [] = []
place offset ((col, k) ∷ cols) =
    (record col { body_offset = offset }, k) ∷ place ((offset + col.body_size) % 2 ^ 64) cols

-- The size that the second loop reckons for the columns' part of the header.
unfoldable pub header_size : {K : Type 0} → List (ColumnConfig × K) → ℕ
header_size [] = 0
header_size ((col, k) ∷ cols) = 32 + length col.column_name + header_size cols

abbrev pub as_uint32 : ℕ → ℕ
as_uint32 n = n % 2 ^ 32

module _ (W : Wire) where
  open W use {u16, u32, u64}

  -- The magic bytes and the version; the flags, the number of rows and that of columns.
  abbrev pub version_part : Bytes
  version_part = u32 0x17231723 ++ u16 1

  abbrev pub count_part : ℕ → ℕ → Bytes
  count_part num_rows ncols = u64 0 ++ (u64 num_rows ++ u32 (as_uint32 ncols))

  unfoldable pub write_column_v1 : ColumnConfig → Bytes
  write_column_v1 col =
      u32 (encoding_code col.storage_type)
      ++ (u32 (as_uint32 (length col.column_name))
          ++ (col.column_name
              ++ (u32 (as_uint32 col.rlevel_max)
                  ++ (u32 (as_uint32 col.dlevel_max)
                      ++ (u64 col.body_offset ++ u64 col.body_size)))))

  unfoldable pub write_columns_v1 : {K : Type 0} → List (ColumnConfig × K) → Bytes
  unfolding write_column_v1
  write_columns_v1 [] = []
  write_columns_v1 ((col, k) ∷ cols) = write_column_v1 col ++ write_columns_v1 cols

  -- The columns with their places, as the second and third loop leave them.
  unfoldable pub placed_columns :
      {K : Type 0} → BodyWriter K → BodyTable K → List (ColumnConfig × K)
  unfolding commit_columns place header_size
  placed_columns B t =
      let cols = commit_columns B t.columns in
      let start = version_part ++ count_part t.num_rows (length t.columns) in
      place ((length start + header_size cols) % 2 ^ 64) cols

  unfoldable pub header_v1 : {K : Type 0} → BodyWriter K → BodyTable K → Bytes
  unfolding placed_columns write_columns_v1
  header_v1 B t =
      version_part
      ++ (count_part t.num_rows (length t.columns) ++ write_columns_v1 (placed_columns B t))

  -- The last loop. `fresh` is the content of a new buffer of a size.
  unfoldable pub write_bodies :
      {K : Type 0}
      → BodyWriter K
      → (ℕ → Bytes)
      → List (ColumnConfig × K)
      → PageManager
      → Result PageManager
  write_bodies B fresh [] pm = ok pm
  write_bodies B fresh ((col, k) ∷ cols) pm = do
    buf ← BodyWriter.write_body B k (fresh col.body_size)
    check (length buf == col.body_size) runtime_error
    let page : PageRef = record { offset = col.body_offset; size = col.body_size }
    write_bodies B fresh cols (write_page page buf pm)

  unfoldable pub commit_v1 :
      {K : Type 0} → BodyWriter K → (ℕ → Bytes) → BodyTable K → Result (BodyTable K)
  unfolding header_v1 write_bodies
  commit_v1 B fresh t = do
    let cols = placed_columns B t
    let header = header_v1 B t
    let page : PageRef = record { offset = 0; size = length header }
    manager ← write_bodies B fresh cols (write_page page header t.manager)
    ok (record t { columns = cols; manager = manager })
