-- ===== src/Pages/Reopen.antt =====
-- A committed transaction is what the file is opened at.
use libcstable.Prelude.{
  ◌%◌, ◌^◌, ◌<◌, ◌≤◌, ◌≡◌, refl, ◌∙◌, List, ◌++◌, length, All, map, Option, none, some, ok, arith,
  if◌then◌else◌, ◌==◌, Bool-cases, inl, inr, length-append,
}
use libcstable.Prelude.Bytes.{Bytes}
use libcstable.Stx.{Wire}
use libcstable.Format.{MetaBlock, ColumnConfig, FileHeader, PageRef}
use libcstable.Format.Checksum.{IsMetaBlock}
use libcstable.Format.Header.{write_header}
use libcstable.Format.RoundTrip.{
  IsColumn, IsSlot, written-IsSlot, restored, with_slots, length-header,
}
use libcstable.Format.Open.{open_header, index_page}
use libcstable.Format.Latest.{newest, older_index, opened, open_header-newest}
use libcstable.Pages.{PageManager, write_transaction}
use libcstable.Pages.Transaction.{IsManagerOf, write_transaction_lem, new_slot_a, new_slot_b}

abbrev pub IsNewer : MetaBlock → Option MetaBlock → Type 0
IsNewer mb none = Unit
IsNewer mb (some other) = other.transaction_id < mb.transaction_id

-- What the slot that the transaction leaves alone holds.
abbrev pub kept : MetaBlock → Option MetaBlock → Option MetaBlock → Option MetaBlock
kept mb found_a found_b = if mb.transaction_id % 2 == 0 then found_b else found_a

abbrev pub index_page_of : Option MetaBlock → Option PageRef
index_page_of none = none
index_page_of (some mb) = some (index_page mb)

newest_first :
    (columns : List ColumnConfig) (mb : MetaBlock) (other : Option MetaBlock)
    → IsNewer mb other
    → opened columns (newest (some mb) other) (older_index (some mb) other)
      ≡ opened columns (some mb) (index_page_of other)
newest_first columns mb none h = refl
newest_first columns mb (some o) h = ground arith

newest_second :
    (columns : List ColumnConfig) (mb : MetaBlock) (other : Option MetaBlock)
    → IsNewer mb other
    → opened columns (newest other (some mb)) (older_index other (some mb))
      ≡ opened columns (some mb) (index_page_of other)
newest_second columns mb none h = refl
newest_second columns mb (some o) h = ground arith

module _ (W : Wire) where
  open_written :
      (blank : ColumnConfig) (hdr : FileHeader) (header pages slot_a slot_b : Bytes)
      (found_a found_b : Option MetaBlock) (mb : MetaBlock)
      → All IsColumn hdr.columns
      → length hdr.columns < 2 ^ 64
      → write_header W hdr ≡ ok header
      → IsSlot W slot_a found_a
      → IsSlot W slot_b found_b
      → IsMetaBlock mb
      → IsNewer mb (kept mb found_a found_b)
      → open_header W blank
          (with_slots W (header ++ pages) (new_slot_a W mb slot_a) (new_slot_b W mb slot_b))
        ≡ opened
            (map (restored blank) hdr.columns)
            (some mb)
            (index_page_of (kept mb found_a found_b))
  open_written blank hdr header pages slot_a slot_b found_a found_b mb h hn hw sa sb hm newer =
      let columns = map (restored blank) hdr.columns in
      let new = written-IsSlot W mb hm in
      elim (Bool-cases (mb.transaction_id % 2 == 0)) [
        | inl even ↦ rw even (
            open_header-newest W blank hdr header pages _ slot_b (some mb) found_b h hn hw new sb
            ∙ newest_first columns mb found_b (rw even at newer))
        | inr odd ↦ rw odd (
            open_header-newest W blank hdr header pages slot_a _ found_a (some mb) h hn hw sa new
            ∙ newest_second columns mb found_a (rw odd at newer))
      ]

  -- On a v0.2 file with a written header, any pages and any two slots, writeTransaction of a
  -- metablock that is newer than the one in the slot it keeps succeeds, and opening the file
  -- afterwards gives the header's columns and that metablock, with the index page of the kept
  -- metablock (if there is one) as free. The values of columns and metablock fit their types, and
  -- there are fewer than 2 ^ 64 columns.
  pub reopen_after_commit :
      (blank : ColumnConfig) (hdr : FileHeader) (header pages slot_a slot_b : Bytes)
      (found_a found_b : Option MetaBlock) (mb : MetaBlock) (pm : PageManager)
      → All IsColumn hdr.columns
      → length hdr.columns < 2 ^ 64
      → write_header W hdr ≡ ok header
      → IsSlot W slot_a found_a
      → IsSlot W slot_b found_b
      → IsMetaBlock mb
      → IsNewer mb (kept mb found_a found_b)
      → IsManagerOf (with_slots W (header ++ pages) slot_a slot_b) pm
      → (pm' : PageManager) × (write_transaction W mb pm ≡ ok pm')
        × (open_header W blank pm'.file.content
            ≡ opened
                (map (restored blank) hdr.columns)
                (some mb)
                (index_page_of (kept mb found_a found_b)))
  reopen_after_commit blank hdr header pages slot_a slot_b found_a found_b mb pm h hn hw sa sb hm
        newer m =
      let long : 14 ≤ length (header ++ pages) =
        omega (arith, length-append header pages, length-header W hdr header hw) in
      let (pm', e, m', log, offset) =
        write_transaction_lem W mb (header ++ pages) slot_a slot_b pm long sa.slot_size sb.slot_size
          m in
      (
        pm',
        e,
        rw (m'.content_is) (
            open_written blank hdr header pages slot_a slot_b found_a found_b mb h hn hw sa sb hm
              newer),
      )
