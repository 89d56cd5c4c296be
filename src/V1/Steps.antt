-- ===== src/V1/Steps.antt =====
-- A column's state after a sequence of writes, and the values of a sequence of reads.
use libcstable.Prelude.{
  ℕ, suc, ◌+◌, ◌^◌, ◌≤◌, ◌<◌, ◌≡◌, refl, ap, ◌∙◌, List, [], ◌∷◌, length, All, Option, ok, need,
  buffer_overflow, arith,
}
use libcstable.Stx.{Packing, Yields}
use libcstable.V1.{
  ColumnWriter, ColumnReader, write_null, append_datum, as_u32, read_levels, read_value,
}
use libcstable.V1.Entries.{
  Entry, null, datum, rlvls, dlvls, values, IsEntry, cells, write_all, read_all,
}
use mathlib.Core.List.{foldl}

pub as_u32-le : (n max : ℕ) → n ≤ max → max < 2 ^ 32 → as_u32 n ≡ n
as_u32-le n max h k = omega arith

suc_later : {V : Type 0} (n : ℕ) (es : List V) → n + 1 + length es ≡ n + suc (length es)
suc_later n es = omega arith

module _ (P : Packing) {A V : Type 0} (put : A → V → A) (Fits : V → Type 0) where
  open P use {encode}

  -- The state of the writer after the entries.
  pub write_all_lem :
      (r_max d_max : ℕ) (es : List (Entry V)) (w : ColumnWriter P A)
      → r_max < 2 ^ 32
      → d_max < 2 ^ 32
      → All (IsEntry r_max d_max Fits) es
      → write_all (write_null P) (append_datum P put) es w ≡ record w {
        rlvl_writer = foldl encode w.rlvl_writer (rlvls es);
        dlvl_writer = foldl encode w.dlvl_writer (dlvls es);
        num_vals = w.num_vals + length es;
        data_writer = foldl put w.data_writer (values es);
      }
  unfolding write_null append_datum
  write_all_lem r_max d_max [] w hr hd h = ap (λ n. record w { num_vals = n }) (omega arith)
  write_all_lem r_max d_max (null r d ∷ es) w hr hd (h, hs) =
      write_all_lem r_max d_max es (write_null P r d w) hr hd hs
      ∙ rw (as_u32-le r r_max h.0 hr, as_u32-le d d_max (omega arith) hd, suc_later w.num_vals es)
  write_all_lem r_max d_max (datum r d v ∷ es) w hr hd (h, hs) =
      write_all_lem r_max d_max es (append_datum P put r d v w) hr hd hs
      ∙ rw (as_u32-le r r_max h.0 hr, as_u32-le d d_max (omega arith) hd, suc_later w.num_vals es)

module _ (P : Packing) {B V : Type 0} (get : B → Option (V × B)) (none_value : V) where
  open P use {next}

  pub read_all_lem :
      (d_max : ℕ) (Fits : V → Type 0) (r_max : ℕ) (es : List (Entry V)) (rd : ColumnReader P B)
      → rd.d_max ≡ d_max
      → All (IsEntry r_max d_max Fits) es
      → Yields next rd.rlvl_reader (rlvls es)
      → Yields next rd.dlvl_reader (dlvls es)
      → Yields get rd.data_reader (values es)
      → (rd' : ColumnReader P B) × (read_all
            (read_value P (λ b. need buffer_overflow (get b)) none_value)
            (length es)
            rd
          ≡ ok (cells none_value es, rd'))
        × (rd'.vals_read ≡ rd.vals_read + length es)
        × (rd'.vals_total ≡ rd.vals_total)
  unfolding read_value read_levels
  read_all_lem d_max Fits r_max [] rd hd h yr yd yv = (rd, refl, omega arith, refl)
  read_all_lem d_max Fits r_max (null r d ∷ es) rd hd (h, hs) (r', er, yr) (d', ed, yd) yv =
      let now = record rd { rlvl_reader = r'; dlvl_reader = d'; vals_read = rd.vals_read + 1 } in
      let (rd', e, n, t) = read_all_lem d_max Fits r_max es now hd hs yr yd yv in
      (rd', ground arith, omega arith, t)
  read_all_lem d_max Fits r_max (datum r d v ∷ es) rd hd (h, hs) (r', er, yr) (d', ed, yd)
        (b', ev, yv) =
      let now = record rd {
        rlvl_reader = r';
        dlvl_reader = d';
        data_reader = b';
        vals_read = rd.vals_read + 1;
      } in
      let (rd', e, n, t) = read_all_lem d_max Fits r_max es now hd hs yr yd yv in
      (rd', ground arith, omega arith, t)
