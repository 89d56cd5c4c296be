-- ===== src/V1/RoundTrip.antt =====
-- Writing entries to a column and reading them back, for every column class at once: the classes
-- differ in how they append a value and take it off again.
use libcstable.Prelude.{
  ℕ, ◌+◌, ◌^◌, ◌≤◌, ◌<◌, ◌≡◌, refl, ap, true, List, [], ◌∷◌, ◌++◌, length, All, length-append,
  append_assoc, append-nil, Option, some, Result, ok, need, buffer_overflow, arith, le→leb,
}
use libcstable.Prelude.Bytes.{Bytes}
use libcstable.Stx.{Wire, Packing, Yields}
use libcstable.V1.{
  ColumnWriter, column_writer, write_null, append_datum, commit, as_u32, body_size, write,
  open_reader, read_value, eof_reached,
}
use libcstable.V1.Entries.{
  Entry, rlvls, dlvls, values, IsEntry, cells, write_all, read_back, rlvls-le, dlvls-le,
  values-Fits,
}
use mathlib.Core.List.{foldl}
use libcstable.V1.Steps.{as_u32-le, write_all_lem, read_all_lem}
use libcstable.V1.Frame.{opened, open_reader-frame, write-frame}

-- commit of a class whose own part is `finish`.
abbrev pub committed : (P : Packing) {A : Type 0} → (A → A) → ColumnWriter P A → ColumnWriter P A
committed P finish w = let w' = commit P w in record w' { data_writer = finish w'.data_writer }

-- The committed column after the entries.
abbrev pub written :
    (P : Packing) {A V : Type 0}
    → (A → V → A)
    → (A → A)
    → A
    → ℕ
    → ℕ
    → List (Entry V)
    → ColumnWriter P A
written P put finish start r_max d_max es =
    committed P finish
      (write_all (write_null P) (append_datum P put) es (column_writer P r_max d_max start))

module _ (P : Packing) {A V : Type 0} where
  open P use {encoder, encode, flush}

  -- The same in closed form.
  abbrev filled : (A → V → A) → (A → A) → A → ℕ → ℕ → List (Entry V) → ColumnWriter P A
  filled put finish start r_max d_max es = record {
    r_max = r_max;
    d_max = d_max;
    rlvl_writer = flush (foldl encode (encoder (as_u32 r_max)) (rlvls es));
    dlvl_writer = flush (foldl encode (encoder (as_u32 d_max)) (dlvls es));
    num_vals = 0 + length es;
    data_writer = finish (foldl put start (values es));
  }

-- The round trip of every class: entries written to a new column, the body, and the body read.
module _ (W : Wire) (P : Packing) {A B V : Type 0} where
  open P use {packed}

  -- What a class has to show: for values that fit, its payload is not longer than its size, and
  -- its reader takes them off the payload, whatever ends the data region.
  pub record IsCodec (put : A → V → A) (finish : A → A) (size : A → ℕ) (payload : A → Bytes)
      (open_data : Bytes → Result B) (get : B → Option (V × B)) (start : A) (Fits : V → Type 0)
      : Type 0 where
    pub payload-le-size :
        (vs : List V)
        → All Fits vs
        → length (payload (finish (foldl put start vs))) ≤ size (finish (foldl put start vs))
    pub reads :
        (vs : List V) (junk : Bytes)
        → All Fits vs
        → length (payload (finish (foldl put start vs)) ++ junk)
          ≡ size (finish (foldl put start vs))
        → (b : B) × (open_data (payload (finish (foldl put start vs)) ++ junk) ≡ ok b)
          × Yields get b vs

  filled_round_trip :
      (put : A → V → A) (finish : A → A) (size : A → ℕ) (payload : A → Bytes)
      (open_data : Bytes → Result B) (get : B → Option (V × B)) (start : A) (Fits : V → Type 0)
      → IsCodec put finish size payload open_data get start Fits
      → (none_value : V) (r_max d_max : ℕ) (es : List (Entry V)) (buf : Bytes) → r_max < 2 ^ 32
      → d_max < 2 ^ 32
      → length es < 2 ^ 64
      → All (IsEntry r_max d_max Fits) es
      → length buf ≡ body_size P size (filled P put finish start r_max d_max es)
      → length buf < 2 ^ 64
      → read_back
          (open_reader P W open_data r_max d_max)
          (read_value P (λ b. need buffer_overflow (get b)) none_value)
          (eof_reached P)
          (length es)
          (write P W size payload (filled P put finish start r_max d_max es) buf)
        ≡ ok (cells none_value es, true)
  unfolding eof_reached body_size
  filled_round_trip put finish size payload open_data get start Fits c none_value r_max d_max es buf
        hr hd hn h hb hl =
      let w = filled P put finish start r_max d_max es in
      let rl = packed w.rlvl_writer in
      let dl = packed w.dlvl_writer in
      let fits = values-Fits r_max d_max Fits es h in
      let (junk, hj, ew) =
        write-frame W P size payload w buf (c.payload-le-size (values es) fits) hb in
      let (b, eb, yb) = c.reads (values es) junk fits hj in
      let er = as_u32-le r_max r_max (omega arith) hr in
      let ed = as_u32-le d_max d_max (omega arith) hd in
      let yr =
        P.unpack (as_u32 r_max) (rlvls es) (omega arith)
          (rw (← er) at (rlvls-le r_max d_max Fits es h)) in
      let yd =
        P.unpack (as_u32 d_max) (dlvls es) (omega arith)
          (rw (← ed) at (dlvls-le r_max d_max Fits es h)) in
      let (rd', e, n, t) =
        read_all_lem P get none_value d_max Fits r_max es
          (opened W P r_max d_max (0 + length es) rl dl b) refl h yr yd yb in
      rw (
        ew,
        open_reader-frame W P open_data r_max d_max (0 + length es) rl dl
            (payload w.data_writer ++ junk) (omega arith) (omega (arith, hj, hb)),
        eb,
        e,
        le→leb rd'.vals_total rd'.vals_read (omega (arith, n, t)),
      )

  pub round_trip :
      {put : A → V → A} {finish : A → A} {size : A → ℕ} {payload : A → Bytes}
      {open_data : Bytes → Result B} {get : B → Option (V × B)} {start : A} {Fits : V → Type 0}
      → IsCodec put finish size payload open_data get start Fits
      → (none_value : V) (r_max d_max : ℕ) (es : List (Entry V)) (buf : Bytes) → r_max < 2 ^ 32
      → d_max < 2 ^ 32
      → length es < 2 ^ 64
      → All (IsEntry r_max d_max Fits) es
      → length buf ≡ body_size P size (written P put finish start r_max d_max es)
      → length buf < 2 ^ 64
      → read_back
          (open_reader P W open_data r_max d_max)
          (read_value P (λ b. need buffer_overflow (get b)) none_value)
          (eof_reached P)
          (length es)
          (write P W size payload (written P put finish start r_max d_max es) buf)
        ≡ ok (cells none_value es, true)
  unfolding commit column_writer
  round_trip {put} {finish} {size} {payload} {open_data} {get} {start} {Fits} c none_value r_max
        d_max es buf hr hd hn h hb hl =
      let e =
        ap (committed P finish)
          (write_all_lem P put Fits r_max d_max es (column_writer P r_max d_max start) hr hd h) in
      rw e (
        filled_round_trip put finish size payload open_data get start Fits c none_value r_max d_max
          es buf hr hd hn h (rw e at hb) hl)

-- The classes whose values are appended one after another as bytes.
module _ (W : Wire) (P : Packing) {V : Type 0} (encoded : V → Bytes)
    (get : Bytes → Option (V × Bytes)) (Fits : V → Type 0)
    (get-encoded : (v : V) (rest : Bytes) → Fits v → get (encoded v ++ rest) ≡ some (v, rest)) where
  abbrev pub put_encoded : Bytes → V → Bytes
  put_encoded bs v = bs ++ encoded v

  encoded-Yield :
      (vs : List V) (bs junk : Bytes)
      → All Fits vs
      → (b : Bytes) × (foldl put_encoded bs vs ++ junk ≡ bs ++ b) × Yields get b vs
  encoded-Yield [] bs junk h = (junk, refl, tt)
  encoded-Yield (v ∷ vs) bs junk (hv, hvs) =
      let (b, e, y) = encoded-Yield vs (bs ++ encoded v) junk hvs in
      (encoded v ++ b, rw (e, append_assoc), (b, get-encoded v b hv, y))

  pub plain-IsCodec :
      (size : Bytes → ℕ)
      → ((bs : Bytes) → length bs ≤ size bs)
      → IsCodec W P put_encoded (λ bs. bs) size (λ bs. bs) ok get [] Fits
  plain-IsCodec size h = record {
    payload-le-size = λ vs hvs. h _;
    reads = λ vs junk hvs hj. let (b, e, y) = encoded-Yield vs [] junk hvs in (b, ap ok e, y);
  }

-- Bytes that add nothing to the length are none.
pub no_junk : (xs junk : Bytes) → length (xs ++ junk) ≡ length xs → xs ++ junk ≡ xs
no_junk xs [] h = append-nil xs
no_junk xs (j ∷ junk) h = absurd (omega (arith, length-append xs (j ∷ junk)))
