-- ===== src/Table.antt =====
-- The table writer (cstable/CSTableWriter.cc) over a v0.2 file: its rows and its commits.
use libcstable.Prelude.{
  ℕ, ◌+◌, ◌%◌, ◌^◌, ◌≡◌, Bool, List, [], ◌∷◌, Option, none, some, Result, ok, err, ◌>>=◌, ◌>>◌,
}
use libcstable.Prelude.Bytes.{Bytes}
use libcstable.Stx.{Wire}
use libcstable.Format.{ColumnConfig, MetaBlock, PageRef, ColumnType, unsigned_int}
use libcstable.Pages.{write_transaction}
use libcstable.Pages.Index
use libcstable.Pages.Index.{Store}
use libcstable.V2.{UnsignedIntColumn, unsigned_int_column}
pub mod Commits
pub mod Slots
pub mod Bodies
pub mod Reader
pub mod Create
pub mod EndToEnd

pub record TableWriter : Type 0 where
  pub store : Store
  pub columns : List ColumnConfig
  pub current_txid : ℕ
  pub num_rows : ℕ
  pub free_idx_ptr : Option PageRef
  pub cur_idx_ptr : Option PageRef

unfoldable pub add_row : TableWriter → TableWriter
add_row t = record t { num_rows = (t.num_rows + 1) % 2 ^ 64 }

unfoldable pub add_rows : ℕ → TableWriter → TableWriter
add_rows n t = record t { num_rows = (t.num_rows + n) % 2 ^ 64 }

-- The metablock of a commit.
unfoldable pub meta_block : PageRef → Store → TableWriter → MetaBlock
meta_block head store t = record {
  transaction_id = (t.current_txid + 1) % 2 ^ 64;
  num_rows = t.num_rows;
  head_index_page_offset = head.offset;
  head_index_page_size = head.size;
  file_size = store.manager.offset;
}

unfoldable pub commit_v2 : Wire → TableWriter → Result TableWriter
commit_v2 W t = do
  (head, store) ← Index.write W t.free_idx_ptr t.store
  manager ← write_transaction W (meta_block head store t) store.manager
  ok (record t {
    store = record store { manager = manager };
    free_idx_ptr = t.cur_idx_ptr;
    cur_idx_ptr = some head;
  })
