-- ===== src/V1/Sink.antt =====
-- The typed writes of v1::ColumnWriter (cstable/columns/v1/ColumnWriter.cc): each passes the bytes
-- of its value in memory to the class's addDatum. And what the classes' typed reads share.
use libcstable.Prelude.{
  ℕ, ◌≡◌, refl, Bool, true, false, Result, ok, err, undefined, ◌>>=◌, if◌then◌else◌, ◌==◌, List,
  ◌∷◌, zero, suc, map,
}
use libcstable.Prelude.Bytes.{Bytes, store}
use libcstable.Prelude.Int.{ℤ, to_bits}
use libcstable.Stx.{Packing, Numerics}
use libcstable.Column.{ColumnSink}
use libcstable.V1.{ColumnWriter, Cell, cell, write_null}
use libcstable.V1.Entries.{read_all, read_back}

module _ (N : Numerics) (P : Packing) {A : Type 0}
    (add_datum : ℕ → ℕ → Bytes → ColumnWriter P A → Result (ColumnWriter P A)) where
  abbrev pub write_boolean : ℕ → ℕ → Bool → ColumnWriter P A → Result (ColumnWriter P A)
  write_boolean r d v w = add_datum r d (store 8 (if v then 1 else 0)) w

  abbrev pub write_unsigned_int : ℕ → ℕ → ℕ → ColumnWriter P A → Result (ColumnWriter P A)
  write_unsigned_int r d v w = add_datum r d (store 8 v) w

  abbrev pub write_signed_int : ℕ → ℕ → ℤ → ColumnWriter P A → Result (ColumnWriter P A)
  write_signed_int r d v w = add_datum r d (store 8 (to_bits v)) w

  abbrev pub write_float : ℕ → ℕ → N.Double → ColumnWriter P A → Result (ColumnWriter P A)
  write_float r d v w = add_datum r d (store 8 (N.to_bytes v)) w

  abbrev pub write_string : ℕ → ℕ → Bytes → ColumnWriter P A → Result (ColumnWriter P A)
  write_string r d v w = add_datum r d v w

  abbrev pub write_date_time : ℕ → ℕ → ℕ → ColumnWriter P A → Result (ColumnWriter P A)
  write_date_time r d micros w = add_datum r d (store 8 micros) w

  abbrev pub column_sink : ColumnSink N (ColumnWriter P A)
  column_sink = record {
    write_null = λ r d w. ok (write_null P r d w);
    write_boolean = write_boolean;
    write_unsigned_int = write_unsigned_int;
    write_signed_int = write_signed_int;
    write_float = write_float;
    write_string = write_string;
    write_date_time = write_date_time;
    max_repetition_level = λ w. w.r_max;
    max_definition_level = λ w. w.d_max;
  }

-- A read through another read: the value is converted where there is one, and `z` where there is
-- none.
module _ {V U : Type 0} (f : V → U) (z : U) where
  abbrev pub convert_cell : Cell V → Cell U
  convert_cell c = cell c.defined c.rlvl c.dlvl (if c.defined then f c.value else z)

  abbrev pub converted_cell : {R : Type 0} → Cell V × R → Result (Cell U × R)
  converted_cell p = ok (convert_cell p.0, p.1)

  abbrev pub convert : {R : Type 0} → (R → Result (Cell V × R)) → R → Result (Cell U × R)
  convert read rd = read rd >>= converted_cell

  abbrev pub converted : {R : Type 0} → List (Cell V) × R → Result (List (Cell U) × R)
  converted q = ok (map convert_cell q.0, q.1)

  convert_rest :
      {R : Type 0} (p : Cell V × R) (m : Result (List (Cell V) × R))
      → ((m >>= converted) >>= λ q. ok (convert_cell p.0 ∷ q.0, q.1))
        ≡ ((m >>= λ q. ok (p.0 ∷ q.0, q.1)) >>= converted)
  convert_rest p (ok q) = refl
  convert_rest p (err e) = refl
  convert_rest p undefined = refl

  convert_first :
      {R : Type 0} (m : Result (Cell V × R)) (g : R → Result (List (Cell V) × R))
      (h : R → Result (List (Cell U) × R))
      → ((rd : R) → h rd ≡ (g rd >>= converted))
      → ((m >>= converted_cell) >>= λ p. h p.1 >>= λ q. ok (p.0 ∷ q.0, q.1))
        ≡ ((m >>= λ p. g p.1 >>= λ q. ok (p.0 ∷ q.0, q.1)) >>= converted)
  convert_first (ok p) g h ih = rw (ih p.1) (convert_rest p (g p.1))
  convert_first (err e) g h ih = refl
  convert_first undefined g h ih = refl

  -- Converting each read converts each cell.
  pub read_all-convert :
      {R : Type 0} (read : R → Result (Cell V × R)) (n : ℕ) (rd : R)
      → read_all (convert read) n rd ≡ (read_all read n rd >>= converted)
  read_all-convert read zero rd = refl
  read_all-convert read (suc n) rd =
      convert_first (read rd) (read_all read n) (read_all (convert read) n)
        (λ rd'. read_all-convert read n rd')

  convert_eof :
      {R : Type 0} (eof : R → Bool) (m : Result (List (Cell V) × R))
      → ((m >>= converted) >>= λ p. ok (p.0, eof p.1))
        ≡ ((m >>= λ p. ok (p.0, eof p.1)) >>= converted)
  convert_eof eof (ok q) = refl
  convert_eof eof (err e) = refl
  convert_eof eof undefined = refl

  convert_opened :
      {R : Type 0} (read : R → Result (Cell V × R)) (eof : R → Bool) (n : ℕ) (m : Result R)
      → (m >>= λ rd. read_all (convert read) n rd >>= λ p. ok (p.0, eof p.1))
        ≡ ((m >>= λ rd. read_all read n rd >>= λ p. ok (p.0, eof p.1)) >>= converted)
  convert_opened read eof n (ok rd) =
      rw (read_all-convert read n rd) (convert_eof eof (read_all read n rd))
  convert_opened read eof n (err e) = refl
  convert_opened read eof n undefined = refl

  -- So does reading a whole column.
  pub read_back-convert :
      {R : Type 0} (open_column : Bytes → Result R) (read : R → Result (Cell V × R))
      (eof : R → Bool) (n : ℕ) (bytes : Result Bytes)
      → read_back open_column (convert read) eof n bytes
        ≡ (read_back open_column read eof n bytes >>= converted)
  read_back-convert open_column read eof n (ok bs) = convert_opened read eof n (open_column bs)
  read_back-convert open_column read eof n (err e) = refl
  read_back-convert open_column read eof n undefined = refl

-- A read through a text, whose conversion may throw.
abbrev pub parse :
    {U R : Type 0}
    → (Bytes → Result U)
    → U
    → (R → Result (Cell Bytes × R))
    → R
    → Result (Cell U × R)
parse f z read rd = read rd >>= λ p.
    let c = p.0 in
    if c.defined
    then (f c.value >>= λ v. ok (cell true c.rlvl c.dlvl v, p.1))
    else ok (cell false c.rlvl c.dlvl z, p.1)

-- skipValue and copyValue, over the class's own read and the typed write that it copies by.
abbrev pub skip : {V R : Type 0} → (R → Result (Cell V × R)) → R → Result R
skip read rd = read rd >>= λ p. ok p.1

abbrev pub copy :
    {N : Numerics} {K V R : Type 0}
    → ColumnSink N K
    → (ℕ → ℕ → V → K → Result K)
    → ℕ
    → (R → Result (Cell V × R))
    → R
    → K
    → Result (R × K)
copy S write d_max read rd sink = read rd >>= λ p.
    let c = p.0 in
    (if c.dlvl == d_max then write c.rlvl c.dlvl c.value sink else S.write_null c.rlvl c.dlvl sink)
    >>= λ sink'. ok (p.1, sink')
