-- ===== src/Classes/Finite/Counted.antt =====
-- Each read of a v0.1 reader (cstable/columns/v1/ColumnReader.h) counts one entry.
use libcstable.Prelude.{
  ℕ, ◌+◌, ◌≡◌, refl, Result, ok, need, buffer_overflow, ◌==◌, Bool-cases, inl, inr,
}
use mathlib.Core.Path.{subst}
use libcstable.Prelude.Bytes.{Bytes}
use libcstable.Stx.{Packing}
use libcstable.V1.{ColumnReader, Cell, read_levels, read_value}
use libcstable.V1.Sink.{convert, parse}
use libcstable.Classes.Embed.{both-Succeeds}
use libcstable.Materializer.Ends.{when_true, when_false}

module _ {R : Type 0} (total count : R → ℕ) where
  -- A read that counts up the values read, and leaves their total.
  abbrev pub Counts : {V : Type 0} → (R → Result (Cell V × R)) → Type 0
  Counts {V} read =
      (rd rd' : R) (c : Cell V)
      → read rd ≡ ok (c, rd')
      → (total rd' ≡ total rd) × (count rd' ≡ count rd + 1)

  pub convert-Counts :
      {V U : Type 0} (f : V → U) (z : U) (read : R → Result (Cell V × R))
      → Counts read
      → Counts (convert f z read)
  convert-Counts f z read h rd rd' c e =
      let p = both-Succeeds (read rd) e in
      let same : p.value.1 ≡ rd' = let q = p.after_is in cc in
      subst (λ (r : R). (total r ≡ total rd) × (count r ≡ count rd + 1)) same
        (h rd p.value.1 p.value.0 p.step_is)

  pub parse-Counts :
      {U : Type 0} (f : Bytes → Result U) (z : U) (read : R → Result (Cell Bytes × R))
      → Counts read
      → Counts (parse f z read)
  parse-Counts f z read h rd rd' c e =
      let p = both-Succeeds (read rd) e in
      let d = p.value.0.defined in
      let same : p.value.1 ≡ rd' = elim (Bool-cases d) [
        | inl defined ↦
            let v = both-Succeeds (f p.value.0.value) (when_true d _ _ p.after_is defined) in
            let q = v.after_is in cc
        | inr undefined_value ↦ let q = when_false d _ _ p.after_is undefined_value in cc
      ] in
      subst (λ (r : R). (total r ≡ total rd) × (count r ≡ count rd + 1)) same
        (h rd p.value.1 p.value.0 p.step_is)

module _ {P : Packing} {A : Type 0} where
  pub levels-Counts :
      (rd rd' : ColumnReader P A) (r d : ℕ)
      → read_levels P rd ≡ ok (r, d, rd')
      → (rd'.vals_total ≡ rd.vals_total) × (rd'.vals_read ≡ rd.vals_read + 1)
  unfolding read_levels
  levels-Counts rd rd' r d e =
      let a = both-Succeeds (need buffer_overflow (P.next rd.rlvl_reader)) e in
      let b = both-Succeeds (need buffer_overflow (P.next rd.dlvl_reader)) a.after_is in
      let same : record rd {
        vals_read = rd.vals_read + 1;
        rlvl_reader = a.value.1;
        dlvl_reader = b.value.1;
      }
          ≡ rd' =
        let q = b.after_is in cc in
      subst
        (λ (t : ColumnReader P A).
          (t.vals_total ≡ rd.vals_total) × (t.vals_read ≡ rd.vals_read + 1))
        same (refl, refl)

  pub value-Counts :
      {V : Type 0} (get : A → Result (V × A)) (z : V)
      → Counts {R = ColumnReader P A}
          (λ rd. rd.vals_total)
          (λ rd. rd.vals_read)
          (read_value P get z)
  unfolding read_value
  value-Counts get z rd rd' c e =
      let l = both-Succeeds (read_levels P rd) e in
      let n = levels-Counts rd l.value.2 l.value.0 l.value.1 l.step_is in
      let at_value = l.value.1 == l.value.2.d_max in
      elim (Bool-cases at_value) [
        | inl there ↦
            let g =
              both-Succeeds (get l.value.2.data_reader) (when_true at_value _ _ l.after_is there) in
            let same : record l.value.2 { data_reader = g.value.1 } ≡ rd' =
              let q = g.after_is in cc in
            subst
              (λ (t : ColumnReader P A).
                (t.vals_total ≡ rd.vals_total) × (t.vals_read ≡ rd.vals_read + 1))
              same n
        | inr absent ↦
            let same : l.value.2 ≡ rd' = let q = when_false at_value _ _ l.after_is absent in cc in
            subst
              (λ (t : ColumnReader P A).
                (t.vals_total ≡ rd.vals_total) × (t.vals_read ≡ rd.vals_read + 1))
              same n
      ]
