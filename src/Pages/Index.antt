-- ===== src/Pages/Index.antt =====
-- The page index (cstable/io/PageIndex.cc) and the writers that it points to. Writers are shared
-- by the columns and the index, so they stand in a store, and the index holds their numbers.
use libcstable.Prelude.{
  ℕ, zero, suc, ◌+◌, ◌-◌, ◌%◌, ◌^◌, max, min, List, [], ◌∷◌, ◌++◌, length, take, get_elem?, Option,
  none, some, Result, ok, err, undefined, not_implemented, runtime_error, check, ◌>>=◌, ◌>>◌, ◌==◌,
}
use libcstable.Prelude.Bytes.{Bytes}
use libcstable.Stx.{Wire}
use libcstable.Format.{PageRef}
use libcstable.Pages.{PageManager, alloc_page, write_page}
use libcstable.Pages.Writer.{
  PageIndexKey, PageWriter, page_writer, append_value, write_index, entry_code,
}

pub record Store : Type 0 where
  pub manager : PageManager
  pub writers : List PageWriter
  pub index : List (PageIndexKey × ℕ)

unfoldable pub add_page_writer : PageIndexKey → ℕ → Store → Store
add_page_writer key writer s = record s { index = s.index ++ ((key, writer) ∷ []) }

-- The constructor of UInt64PageWriter, which registers the writer with the index.
unfoldable pub new_page_writer : PageIndexKey → Store → ℕ × Store
unfolding add_page_writer page_writer
new_page_writer key s =
    let id = length s.writers in
    (id, add_page_writer key id (record s { writers = s.writers ++ (page_writer key ∷ []) }))

abbrev pub replace : List PageWriter → ℕ → PageWriter → List PageWriter
replace [] i pw = []
replace (w ∷ ws) zero pw = pw ∷ ws
replace (w ∷ ws) (suc i) pw = w ∷ replace ws i pw

-- appendValue through a pointer; one that names no writer is undefined.
unfoldable pub append_to : Wire → ℕ → ℕ → Store → Result Store
append_to W writer value s = elim (get_elem? s.writers writer) [
  | none ↦ undefined
  | some pw ↦
      let p = append_value W value pw s.manager in
      ok (record s { manager = p.1; writers = replace s.writers writer p.0 })
]

abbrev pub key_bytes : Wire → PageIndexKey → Bytes
key_bytes W key = Wire.varuint W (entry_code key.entry_type) ++ Wire.varuint W key.column_id

-- The first loop of PageIndex::write: the bytes of every entry, in the order of registration.
unfoldable pub build_index :
    Wire → List PageWriter → List (PageIndexKey × ℕ) → PageManager → Result (Bytes × PageManager)
build_index W writers [] pm = ok ([], pm)
build_index W writers ((key, writer) ∷ index) pm =
    let rest = build_index W writers index in
    elim (get_elem? writers writer) [
      | none ↦ undefined
      | some pw ↦
          let p = write_index W pw pm in rest p.1 >>= λ q. ok (key_bytes W key ++ (p.0 ++ q.0), q.1)
    ]

abbrev pub index_page_size : ℕ
index_page_size = 524288

abbrev pub index_page_overhead : ℕ
index_page_overhead = 16

-- The pages that hold the index: one new page, unless pages are to be used again.
unfoldable pub alloc_index : ℕ → Option PageRef → PageManager → Result (List PageRef × PageManager)
alloc_index zero head pm = ok ([], pm)
alloc_index (suc n) none pm =
    let p = alloc_page (max index_page_size (suc n + index_page_overhead) % 2 ^ 32) pm in
    ok (p.0 ∷ [], p.1)
alloc_index (suc n) (some page) pm = err not_implemented

-- The rest of PageIndex::write. An index page has room for the whole index or not; `used` is the
-- smaller of the two in uint32_t. Without a page the result `pages[0]` is undefined.
unfoldable pub write_pages :
    Wire → Bytes → List PageRef → PageManager → Result (PageRef × PageManager)
write_pages W buf [] pm = undefined
write_pages W buf (page ∷ pages) pm = do
  let used = min ((page.size + 2 ^ 32 - index_page_overhead) % 2 ^ 32) (length buf % 2 ^ 32)
  let bytes = Wire.u64 W 0 ++ (Wire.u32 W 0 ++ (Wire.u32 W used ++ take used buf))
  check (used == length buf) runtime_error
  ok (page, write_page page bytes pm)

unfoldable pub write : Wire → Option PageRef → Store → Result (PageRef × Store)
unfolding build_index alloc_index write_pages
write W head s = do
  (buf, pm1) ← build_index W s.writers s.index s.manager
  (pages, pm2) ← alloc_index (length buf) head pm1
  (page, pm3) ← write_pages W buf pages pm2
  ok (page, record s { manager = pm3 })
