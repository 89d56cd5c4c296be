-- ===== src/Table/Bodies/Written.antt =====
-- The file that the commit of a v0.1 table leaves.
use libcstable.Prelude.{
  ℕ, ◌+◌, ◌^◌, ◌≤◌, ◌<◌, ◌≡◌, refl, ap, sym, ◌∙◌, List, [], ◌∷◌, ◌++◌, length, take, drop,
  take-append, drop-append, length-append, append_assoc, ok, arith, ==_refl,
}
use libcstable.Prelude.Bytes.{Bytes}
use libcstable.Stx.{Wire}
use libcstable.Format.{ColumnConfig, PageRef}
use libcstable.Pages.{PageManager, write_page}
use libcstable.Pages.Overwrite.{write_page-front}
use libcstable.Table.Bodies.{
  BodyWriter, BodyTable, commit_columns, placed_columns, header_v1, write_bodies, commit_v1,
}
use libcstable.Table.Bodies.Layout.{AreAdjacent, body_sizes, header_end, placed_columns-AreAdjacent}

module _ {K : Type 0} (B : BodyWriter K) (fresh : ℕ → Bytes) where
  -- Each body can be written to a new buffer of its size, and fills it.
  abbrev pub AreWritable : List (ColumnConfig × K) → Type 0
  AreWritable [] = Unit
  AreWritable ((col, k) ∷ cols) =
      ((buf : Bytes) × (BodyWriter.write_body B k (fresh col.body_size) ≡ ok buf)
        × (length buf ≡ col.body_size))
      × AreWritable cols

  -- Each column's region lies in the file and holds its body.
  abbrev pub HoldsBodies : Bytes → List (ColumnConfig × K) → Type 0
  HoldsBodies file [] = Unit
  HoldsBodies file ((col, k) ∷ cols) =
      ((col.body_offset + col.body_size ≤ length file)
        × (BodyWriter.write_body B k (fresh col.body_size)
            ≡ ok (take col.body_size (drop col.body_offset file))))
      × HoldsBodies file cols

-- The region behind a known part of the file.
region :
    (file front buf rest : Bytes) (col : ColumnConfig)
    → file ≡ (front ++ buf) ++ rest
    → col.body_offset ≡ length front
    → length buf ≡ col.body_size
    → (col.body_offset + col.body_size ≤ length file)
      × (take col.body_size (drop col.body_offset file) ≡ buf)
region file front buf rest col e ho hl =
    let n = ap (λ (bytes : Bytes). length bytes) e in
    (
      omega (arith, n, length-append (front ++ buf) rest, length-append front buf),
      rw (
        e,
        append_assoc front buf rest,
        drop-append col.body_offset front (buf ++ rest) ho,
        take-append col.body_size buf rest (sym hl),
      ),
    )

module _ {K : Type 0} (W : Wire) (B : BodyWriter K) (fresh : ℕ → Bytes) where
  pub write_bodies-HoldsBodies :
      (front old : Bytes) (cols : List (ColumnConfig × K)) (pm : PageManager)
      → pm.file.content ≡ front ++ old
      → AreAdjacent (length front) cols
      → AreWritable B fresh cols
      → (pm' : PageManager) × (write_bodies W B fresh cols pm ≡ ok pm')
        × ((rest : Bytes) × (pm'.file.content ≡ front ++ rest))
        × HoldsBodies B fresh pm'.file.content cols
  unfolding write_bodies
  write_bodies-HoldsBodies front old [] pm hc ha hw = (pm, refl, (old, hc), tt)
  write_bodies-HoldsBodies front old ((col, k) ∷ cols) pm hc (ho, ha) ((buf, ew, hl), hw) =
      let page : PageRef = record { offset = col.body_offset; size = col.body_size } in
      let pm1 = write_page page buf pm in
      let hc1 : pm1.file.content ≡ (front ++ buf) ++ drop (length buf) old =
        write_page-front page front old buf pm ho (sym hl) hc
        ∙ sym (append_assoc front buf (drop (length buf) old)) in
      let n : length (front ++ buf) ≡ length front + col.body_size =
        omega (arith, length-append front buf, hl) in
      let (pm', e, (rest, er), held) =
        write_bodies-HoldsBodies (front ++ buf) (drop (length buf) old) cols pm1 hc1 (rw n ha) hw in
      (
        pm',
        rw (ew, hl, ==_refl col.body_size) e,
        (buf ++ rest, er ∙ append_assoc front buf rest),
        (
          (
            (region pm'.file.content front buf rest col er ho hl).0,
            ew ∙ ap ok (sym (region pm'.file.content front buf rest col er ho hl).1),
          ),
          held,
        ),
      )

  -- If the header and the bodies together are shorter than 2 ^ 64, and each body can be written to a
  -- buffer of its size and fills it, then commitV1 succeeds whatever the file held: the file begins
  -- with the header, each column's region lies in the file and holds exactly the bytes of its body,
  -- and the writer's columns are the placed ones.
  pub commit_v1_lem :
      (t : BodyTable K)
      → header_end B t + body_sizes (commit_columns B t.columns) < 2 ^ 64
      → AreWritable B fresh (placed_columns W B t)
      → (t' : BodyTable K) × (commit_v1 W B fresh t ≡ ok t')
        × ((rest : Bytes) × (t'.manager.file.content ≡ header_v1 W B t ++ rest))
        × HoldsBodies B fresh t'.manager.file.content (placed_columns W B t)
        × (t'.columns ≡ placed_columns W B t)
        × (t'.num_rows ≡ t.num_rows)
  unfolding commit_v1
  commit_v1_lem t h hw =
      let header = header_v1 W B t in
      let cols = placed_columns W B t in
      let page : PageRef = record { offset = 0; size = length header } in
      let hc = write_page-front page [] t.manager.file.content header t.manager refl refl refl in
      let (pm', e, held_front, held) =
        write_bodies-HoldsBodies header (drop (length header) t.manager.file.content) cols
          (write_page page header t.manager) hc (placed_columns-AreAdjacent W B t h) hw in
      (record t { columns = cols; manager = pm' }, rw e, held_front, held, refl, refl)
