-- ===== src/V1/Frame.antt =====
-- The layout of a column body: four counts and three regions, which v1::ColumnWriter::write lays
-- out and the constructor of v1::ColumnReader finds again.
use libcstable.Prelude.{
  ℕ, ◌+◌, ◌^◌, ◌≤◌, ◌<◌, ◌≡◌, refl, ap, sym, ◌∙◌, ◌++◌, length, drop, take-append, drop-append,
  take-all, length-append, length-drop, append_assoc, Result, ok, err, buffer_overflow, ◌>>=◌,
  arith, le→leb, leb, Bool-cases, inl, inr, if◌then◌else◌,
}
use libcstable.Prelude.Bytes.{Bytes}
use libcstable.Stx.{Wire, Packing}
use libcstable.V1.{ColumnWriter, ColumnReader, as_u32, body_size, body, write, open_reader}

module _ (W : Wire) where
  -- The four counts and the three regions.
  abbrev pub frame : ℕ → Bytes → Bytes → Bytes → Bytes
  frame n rl dl x =
      Wire.u64 W n
      ++ (Wire.u64 W (length rl)
          ++ (Wire.u64 W (length dl) ++ (Wire.u64 W (length x) ++ (rl ++ (dl ++ x)))))

  frame-head :
      (n : ℕ) (rl dl x : Bytes)
      → frame n rl dl x
        ≡ (Wire.u64 W n
            ++ (Wire.u64 W (length rl) ++ (Wire.u64 W (length dl) ++ Wire.u64 W (length x))))
          ++ (rl ++ (dl ++ x))
  frame-head n rl dl x = simp append_assoc

  -- The four counts take up 32 bytes.
  drop-frame : (n : ℕ) (rl dl x : Bytes) → drop 32 (frame n rl dl x) ≡ rl ++ (dl ++ x)
  drop-frame n rl dl x =
      let a = Wire.u64 W n in
      let b = Wire.u64 W (length rl) in
      let c = Wire.u64 W (length dl) in
      let e = Wire.u64 W (length x) in
      let head = a ++ (b ++ (c ++ e)) in
      ap (drop 32) (frame-head n rl dl x)
      ∙ drop-append 32 head (rl ++ (dl ++ x)) (
          omega (
            arith,
            length-append a (b ++ (c ++ e)),
            length-append b (c ++ e),
            length-append c e,
            W.length-u64 n,
            W.length-u64 (length rl),
            W.length-u64 (length dl),
            W.length-u64 (length x),
          ))

module _ (W : Wire) (P : Packing) {A : Type 0} where
  open P use {decoder}

  abbrev pub opened : ℕ → ℕ → ℕ → Bytes → Bytes → A → ColumnReader P A
  opened r d n rl dl x = record {
    r_max = r;
    d_max = d;
    vals_total = n;
    vals_read = 0;
    rlvl_reader = decoder (as_u32 r) rl;
    dlvl_reader = decoder (as_u32 d) dl;
    data_reader = x;
  }

  -- The reader finds the three regions that the writer laid out.
  pub open_reader-frame :
      (open_data : Bytes → Result A) (r d n : ℕ) (rl dl x : Bytes)
      → n < 2 ^ 64
      → length rl + length dl + length x < 2 ^ 64
      → open_reader P W open_data r d (frame W n rl dl x)
        ≡ (open_data x >>= λ data_reader. ok (opened r d n rl dl data_reader))
  unfolding open_reader
  open_reader-frame open_data r d n rl dl x hn hl = rw (
    drop-frame W n rl dl x,
    W.get_u64-u64 n _ hn,
    W.get_u64-u64 (length rl) _ (omega arith),
    W.get_u64-u64 (length dl) _ (omega arith),
    W.get_u64-u64 (length x) _ (omega arith),
    le→leb (length rl + length dl + length x) (length (rl ++ (dl ++ x)))
        (omega (arith, length-append rl (dl ++ x), length-append dl x)),
    take-append (length rl) rl (dl ++ x) refl,
    drop-append (length rl) rl (dl ++ x) refl,
    take-append (length dl) dl x refl,
    ap (drop (length rl + length dl)) (sym (append_assoc rl dl x)),
    drop-append (length rl + length dl) (rl ++ dl) x (omega (arith, length-append rl dl)),
    take-all (length x) x (omega arith),
  )

module _ (W : Wire) (P : Packing) {A : Type 0} (size : A → ℕ) (payload : A → Bytes) where
  open P use {packed}

  length-body :
      (w : ColumnWriter P A)
      → length (body P W size payload w)
        ≡ 32
          + length (packed w.rlvl_writer)
          + length (packed w.dlvl_writer)
          + length (payload w.data_writer)
  unfolding body
  length-body w =
      let a = W.u64 w.num_vals in
      let b = W.u64 (length (packed w.rlvl_writer)) in
      let c = W.u64 (length (packed w.dlvl_writer)) in
      let d = W.u64 (size w.data_writer) in
      let rl = packed w.rlvl_writer in
      let dl = packed w.dlvl_writer in
      let x = payload w.data_writer in
      omega (
        arith,
        length-append a (b ++ (c ++ (d ++ (rl ++ (dl ++ x))))),
        length-append b (c ++ (d ++ (rl ++ (dl ++ x)))),
        length-append c (d ++ (rl ++ (dl ++ x))),
        length-append d (rl ++ (dl ++ x)),
        length-append rl (dl ++ x),
        length-append dl x,
        W.length-u64 w.num_vals,
        W.length-u64 (length (packed w.rlvl_writer)),
        W.length-u64 (length (packed w.dlvl_writer)),
        W.length-u64 (size w.data_writer),
      )

  -- write fills the buffer with the frame; what it leaves of the buffer ends the data region.
  pub write-frame :
      (w : ColumnWriter P A) (buf : Bytes)
      → length (payload w.data_writer) ≤ size w.data_writer
      → length buf ≡ body_size P size w
      → (junk : Bytes) × (length (payload w.data_writer ++ junk) ≡ size w.data_writer)
        × (write P W size payload w buf
            ≡ ok (
                frame W w.num_vals
                  (packed w.rlvl_writer)
                  (packed w.dlvl_writer)
                  (payload w.data_writer ++ junk)))
  unfolding write body body_size
  write-frame w buf hp hb =
      let rl = packed w.rlvl_writer in
      let dl = packed w.dlvl_writer in
      let out = body P W size payload w in
      let e = length-body w in
      let junk = drop (length out) buf in
      let hj : length (payload w.data_writer ++ junk) ≡ size w.data_writer =
        omega
          (arith, length-append (payload w.data_writer) junk, length-drop (length out) buf, e) in
      (
        junk,
        hj,
        rw (le→leb (length out) (length buf) (omega (arith, e)), hj) (ap ok (simp append_assoc)),
      )

  -- What write leaves in the buffer is as long as the buffer.
  pub length-write :
      (w : ColumnWriter P A) (buf : Bytes) {bytes : Bytes}
      → write P W size payload w buf ≡ ok bytes
      → length bytes ≡ length buf
  unfolding write
  length-write w buf h = whole (body P W size payload w) buf h
    where
      filled :
          (out buf bytes : Bytes)
          → length out ≤ length buf
          → ◌≡◌ {A = Result Bytes} (ok (out ++ drop (length out) buf)) (ok bytes)
          → length bytes ≡ length buf
      filled out buf bytes le e =
          let n : out ++ drop (length out) buf ≡ bytes = cc in
          ap (λ (bs : Bytes). length bs) (sym n)
          ∙ omega (arith, length-append out (drop (length out) buf), length-drop (length out) buf)

      whole :
          (out buf : Bytes) {bytes : Bytes}
          → (if leb (length out) (length buf)
              then ok (out ++ drop (length out) buf)
              else err buffer_overflow)
            ≡ ok bytes
          → length bytes ≡ length buf
      whole out buf {bytes} e = elim (Bool-cases (leb (length out) (length buf))) [
        | inl fits ↦ filled out buf bytes (ground arith) (rw fits at e)
        | inr not_fits ↦ absurd (let e' = rw not_fits at e in cc)
      ]
