-- ===== src/Pages/Writer.antt =====
-- The writer of a column's 64-bit pages: UInt64PageWriter (cstable/columns/UInt64PageWriter.cc).
use libcstable.Prelude.{
  ℕ, ◌+◌, Bool, true, false, not, ◌||◌, List, [], ◌∷◌, ◌++◌, length, if◌then◌else◌, ltb,
}
use libcstable.Prelude.Bytes.{Bytes}
use libcstable.Stx.{Wire}
use libcstable.Format.{PageRef}
use libcstable.Pages.{PageManager, alloc_page, write_page}

pub data PageIndexEntryType : Type 0 where
  data_entry rlevel dlevel : PageIndexEntryType

abbrev pub entry_code : PageIndexEntryType → ℕ
entry_code data_entry = 1
entry_code rlevel = 2
entry_code dlevel = 3

pub record PageIndexKey : Type 0 where
  pub column_id : ℕ
  pub entry_type : PageIndexEntryType

abbrev pub page_size : ℕ
page_size = 1024

pub record PageWriter : Type 0 where
  pub key : PageIndexKey
  pub has_page : Bool
  pub page : PageRef
  pub page_buf : Bytes
  pub pages : List (PageRef × ℕ)

-- The constructor; the page stays unassigned, and stands as an empty one here. Its registration
-- with the index is `Pages.Index.new_page_writer`.
unfoldable pub page_writer : PageIndexKey → PageWriter
page_writer key = record {
  key = key;
  has_page = false;
  page = record { offset = 0; size = 0 };
  page_buf = [];
  pages = [];
}

-- The page list with the current page, and the file with that page written, if there is one.
unfoldable pub write_current : PageWriter → PageManager → List (PageRef × ℕ) × PageManager
write_current pw pm =
    let with_page : List (PageRef × ℕ) × PageManager =
      (pw.pages ++ ((pw.page, length pw.page_buf) ∷ []), write_page pw.page pw.page_buf pm) in
    let without : List (PageRef × ℕ) × PageManager = (pw.pages, pm) in
    if pw.has_page then with_page else without

-- Writes the current page out and begins another. The buffer is kept as it is.
unfoldable pub turn_page : PageWriter → PageManager → PageWriter × PageManager
unfolding write_current
turn_page pw pm =
    let written = write_current pw pm in
    let (page, pm') = alloc_page page_size written.1 in
    (record pw { has_page = true; page = page; pages = written.0 }, pm')

unfoldable pub append_value : Wire → ℕ → PageWriter → PageManager → PageWriter × PageManager
unfolding turn_page
append_value W value pw pm =
    let same : PageWriter × PageManager = (pw, pm) in
    let ready =
      if not pw.has_page || ltb pw.page.size (length pw.page_buf + 8)
      then turn_page pw pm
      else same in
    (record ready.0 { page_buf = ready.0.page_buf ++ Wire.u64 W value }, ready.1)

unfoldable pub append_values : Wire → List ℕ → PageWriter → PageManager → PageWriter × PageManager
append_values W [] pw pm = (pw, pm)
append_values W (v ∷ vs) pw pm =
    let (pw', pm') = append_value W v pw pm in append_values W vs pw' pm'

abbrev pub index_entries : Wire → List (PageRef × ℕ) → Bytes
index_entries W [] = []
index_entries W ((page, used) ∷ pages) =
    Wire.varuint W page.offset
    ++ (Wire.varuint W page.size ++ (Wire.varuint W used ++ index_entries W pages))

-- The index bytes of the writer, and the file with the current page written out. The writer itself
-- stays.
unfoldable pub write_index : Wire → PageWriter → PageManager → Bytes × PageManager
unfolding write_current
write_index W pw pm =
    let written = write_current pw pm in
    (Wire.varuint W (length written.0) ++ index_entries W written.0, written.1)
