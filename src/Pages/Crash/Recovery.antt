-- ===== src/Pages/Crash/Recovery.antt =====
-- After a crash in PageManager::writeTransaction (cstable/io/PageManager.cc) the file is opened
-- by readHeader and the next transaction is written to it.
use libcstable.Prelude.{
  ◌^◌, ◌<◌, ◌≡◌, sym, ap, ◌∙◌, ◌++◌, length, All, map, Option, none, some, ok, arith,
}
use mathlib.Core.Path.{subst}
use libcstable.Prelude.Bytes.{Bytes}
use libcstable.Stx.{Wire}
use libcstable.Format.{MetaBlock, ColumnConfig, FileHeader, PageRef}
use libcstable.Format.Checksum.{IsMetaBlock}
use libcstable.Format.Header.{write_header}
use libcstable.Format.RoundTrip.{IsColumn, IsSlot, restored, with_slots}
use libcstable.Format.Open.{open_header}
use libcstable.Format.Latest.{opened}
use libcstable.Pages.{PageManager, write_transaction}
use libcstable.Pages.Transaction.{IsManagerOf}
use libcstable.Pages.Reopen.{IsNewer, kept, index_page_of, reopen_after_commit}
use libcstable.Pages.Crash.{Disk, idle, next_id, restart, Reach, visible}
use libcstable.Pages.Crash.Durable.{reachable_opens}
use libcstable.Pages.Crash.Invariant.{
  IsDurable, own, newest-visible, blank-IsDurable, Reach-IsDurable, Step-IsDurable,
}

next-IsNewer :
    (mb : MetaBlock) (committed : Option MetaBlock)
    → mb.transaction_id ≡ next_id committed
    → IsNewer mb committed
next-IsNewer mb none h = tt
next-IsNewer mb (some old) h = omega (arith, h)

module _ (W : Wire) where
  -- The slot that the next transaction keeps has what was committed.
  kept-committed :
      (s : Disk) (d : IsDurable W s) (mb : MetaBlock)
      → mb.transaction_id ≡ next_id s.committed
      → kept mb d.found_a d.found_b ≡ s.committed
  kept-committed s d mb e = ap (λ n. own n d.found_a d.found_b) e ∙ d.own_is

  -- From two slots that hold no metablock, through any sequence of transactions with ids counted
  -- from one, torn writes, crashes and restarts, wherever the last of them stands, on a file with a
  -- written header (of fewer than 2 ^ 64 columns whose values fit their types) and any pages:
  -- opening the file gives the header's columns and what is visible (an error, if that is none);
  -- then writeTransaction, through a page manager of the file, of any metablock whose values fit
  -- their types and whose id follows succeeds; and opening the file left gives the same columns and
  -- that metablock, with the index page of what was visible before as free.
  pub reachable_recovers :
      (blank : ColumnConfig) (hdr : FileHeader) (header pages slot_a slot_b : Bytes) (s : Disk)
      (mb : MetaBlock) (pm : PageManager)
      → All IsColumn hdr.columns
      → length hdr.columns < 2 ^ 64
      → write_header W hdr ≡ ok header
      → IsSlot W slot_a none
      → IsSlot W slot_b none
      → Reach W (record { slot_a = slot_a; slot_b = slot_b; committed = none; phase = idle }) s
      → IsManagerOf (with_slots W (header ++ pages) s.slot_a s.slot_b) pm
      → IsMetaBlock mb
      → mb.transaction_id ≡ next_id (visible s)
      → ((free : Option PageRef) × (open_header W blank pm.file.content
            ≡ opened (map (restored blank) hdr.columns) (visible s) free))
        × ((pm' : PageManager) × (write_transaction W mb pm ≡ ok pm')
            × (open_header W blank pm'.file.content
                ≡ opened (map (restored blank) hdr.columns) (some mb) (index_page_of (visible s))))
  reachable_recovers blank hdr header pages slot_a slot_b s mb pm h hn hw ha hb r m fits is_next =
      let d = Reach-IsDurable W (blank-IsDurable W slot_a slot_b ha hb) r in
      let same = newest-visible W s d in
      let reopened = restart s d.found_a d.found_b d.is_a d.is_b in
      let d' = Step-IsDurable W reopened d in
      let is_next' = is_next ∙ ap next_id (sym same) in
      let is_kept = kept-committed _ d' mb is_next' ∙ same in
      let (free, e) = reachable_opens W blank hdr header pages slot_a slot_b s h hn hw ha hb r in
      let (pm', ew, eo) =
        reopen_after_commit W blank hdr header pages s.slot_a s.slot_b d'.found_a d'.found_b mb pm h
          hn hw d'.is_a d'.is_b fits
          (subst (IsNewer mb) (sym is_kept) (next-IsNewer mb (visible s) is_next)) m in
      (
        (free, ap (open_header W blank) m.content_is ∙ e),
        (
          pm',
          ew,
          eo
              ∙ ap
                  (λ other.
                    opened (map (restored blank) hdr.columns) (some mb) (index_page_of other))
                  is_kept,
        ),
      )
