-- ===== src/Pages/Crash/Durable.antt =====
-- No committed transaction is lost, whenever the program or the machine stops.
use libcstable.Prelude.{◌^◌, ◌<◌, ◌≡◌, ap, ◌∙◌, ◌++◌, length, All, map, Option, none, ok}
use libcstable.Prelude.Bytes.{Bytes}
use libcstable.Stx.{Wire}
use libcstable.Format.{MetaBlock, ColumnConfig, FileHeader, PageRef}
use libcstable.Format.Header.{write_header}
use libcstable.Format.RoundTrip.{IsColumn, IsSlot, restored, with_slots}
use libcstable.Format.Open.{open_header}
use libcstable.Format.Latest.{older_index, opened, open_header-newest}
use libcstable.Pages.Crash.{idle, Disk, Reach, visible}
use libcstable.Pages.Crash.Invariant.{newest-visible, blank-IsDurable, Reach-IsDurable}

module _ (W : Wire) where
  -- From two slots that hold no metablock, through any sequence of transactions with ids counted
  -- from one, each of which may write its metablock, leave a torn slot, complete, or be cut off at
  -- any point by a crash and a restart: a file with a written header (of fewer than 2 ^ 64 columns
  -- whose values fit their types), any pages and the slots reached is opened at the header's
  -- columns and the last committed metablock, or at the one under way if it is on disk as a whole.
  -- So no committed transaction is lost and no half of one is seen. Before the first metablock is
  -- on disk, opening is an error.
  pub reachable_opens :
      (blank : ColumnConfig) (hdr : FileHeader) (header pages slot_a slot_b : Bytes) (t : Disk)
      → All IsColumn hdr.columns
      → length hdr.columns < 2 ^ 64
      → write_header W hdr ≡ ok header
      → IsSlot W slot_a none
      → IsSlot W slot_b none
      → Reach W (record { slot_a = slot_a; slot_b = slot_b; committed = none; phase = idle }) t
      → (free : Option PageRef) × (open_header W blank
            (with_slots W (header ++ pages) t.slot_a t.slot_b)
          ≡ opened (map (restored blank) hdr.columns) (visible t) free)
  reachable_opens blank hdr header pages slot_a slot_b t h hn hw ha hb r =
      let d = Reach-IsDurable W (blank-IsDurable W slot_a slot_b ha hb) r in
      let columns = map (restored blank) hdr.columns in
      (
        older_index d.found_a d.found_b,
        open_header-newest W blank hdr header pages t.slot_a t.slot_b d.found_a d.found_b h hn hw
              d.is_a d.is_b
            ∙ ap (λ (mb : Option MetaBlock). opened columns mb (older_index d.found_a d.found_b))
                (newest-visible W t d),
      )
