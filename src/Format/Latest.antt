-- ===== src/Format/Latest.antt =====
-- Which state of a v0.2 file is seen when it is opened.
use libcstable.Prelude.{
  ◌^◌, ◌<◌, ◌≡◌, refl, ◌∙◌, List, [], ◌∷◌, ◌++◌, length, All, map, Option, none, some, Result, ok,
  err, runtime_error, ◌>>=◌, leb, le→leb, arith, if◌then◌else◌,
}
use libcstable.Prelude.Bytes.{Bytes, store, bytes_eq}
use libcstable.Stx.{Wire}
use libcstable.Format.{MetaBlock, ColumnConfig, FileHeader, PageRef, v0_2_0}
use libcstable.Format.Header.{push, preamble, write_header, read_header}
use libcstable.Format.RoundTrip.{
  IsColumn, IsSlot, restored, with_slots, header_round_trip, write_header-front,
}
use libcstable.Format.Open.{Opened, open_header, opened_v2, choose, index_page}

-- The valid metablock of the highest transaction.
abbrev pub newest : Option MetaBlock → Option MetaBlock → Option MetaBlock
newest none b = b
newest (some a) none = some a
newest (some a) (some b) = some (if leb a.transaction_id b.transaction_id then b else a)

-- The index page of the other metablock, where both are valid.
abbrev pub older_index : Option MetaBlock → Option MetaBlock → Option PageRef
older_index (some a) (some b) =
    some (index_page (if leb a.transaction_id b.transaction_id then a else b))
older_index _ _ = none

-- What opening the file answers: an error if no metablock is valid.
abbrev pub opened : List ColumnConfig → Option MetaBlock → Option PageRef → Result Opened
opened columns none free = err runtime_error
opened columns (some mb) free = ok (record {
  version = v0_2_0;
  header = record { columns = columns; num_rows = 0 };
  metablock = some mb;
  free_index = free;
})

choose-newest :
    (columns : List ColumnConfig) (a b : Option MetaBlock)
    → (choose (push a (push b [])) >>= λ q. opened columns (some q.0) q.1)
      ≡ opened columns (newest a b) (older_index a b)
unfolding choose
choose-newest columns none none = refl
choose-newest columns none (some b) = refl
choose-newest columns (some a) none = refl
choose-newest columns (some a) (some b) = ground arith

module _ (W : Wire) where
  -- Magic bytes and version, as the six bytes of a v0.2 file.
  six_bytes : (x : Bytes) → preamble W ++ x ≡ 0x23 ∷ 0x17 ∷ 0x23 ∷ 0x17 ∷ 2 ∷ 0 ∷ (W.u64 0 ++ x)
  unfolding preamble store
  six_bytes x = rw (W.u16-store 2)

  abbrev six : Bytes → Bytes
  six y = 0x23 ∷ 0x17 ∷ 0x23 ∷ 0x17 ∷ 2 ∷ 0 ∷ y

  open_header-six :
      (blank : ColumnConfig) (y : Bytes) → open_header W blank (six y) ≡ opened_v2 W blank y
  unfolding open_header bytes_eq
  open_header-six blank y = rw (le→leb 6 (length (six y)) (omega arith))

  opened_v2-choose :
      (blank : ColumnConfig) (y rest : Bytes) (columns : List ColumnConfig) (a b : Option MetaBlock)
      → read_header W blank y ≡ ok (columns, push a (push b []), rest)
      → opened_v2 W blank y ≡ opened columns (newest a b) (older_index a b)
  opened_v2-choose blank y rest columns a b r = unfold opened_v2 in rw r (choose-newest columns a b)

  -- A v0.2 file, of a header with anything in its two metablock slots and of pages, is opened at the valid metablock of the
  -- highest transaction (the second slot's, if they are equal), with the columns of the header and
  -- the index page of the other metablock as free; if neither slot is valid, with an error. The
  -- columns' values fit their types, and there are fewer than 2 ^ 64 of them.
  pub open_header-newest :
      (blank : ColumnConfig) (hdr : FileHeader) (header pages slot_a slot_b : Bytes)
      (found_a found_b : Option MetaBlock)
      → All IsColumn hdr.columns
      → length hdr.columns < 2 ^ 64
      → write_header W hdr ≡ ok header
      → IsSlot W slot_a found_a
      → IsSlot W slot_b found_b
      → open_header W blank (with_slots W (header ++ pages) slot_a slot_b)
        ≡ opened
            (map (restored blank) hdr.columns)
            (newest found_a found_b)
            (older_index found_a found_b)
  open_header-newest blank hdr header pages slot_a slot_b found_a found_b h hn hw sa sb =
      let (x, e) = write_header-front W hdr header pages slot_a slot_b hw in
      let (rest, r) =
        header_round_trip W blank hdr header pages slot_a slot_b found_a found_b h hn hw sa sb in
      let s = e ∙ six_bytes x in
      rw s (
        open_header-six blank (W.u64 0 ++ x)
        ∙ opened_v2-choose blank (W.u64 0 ++ x) rest (map (restored blank) hdr.columns) found_a
            found_b (rw s at r))
