-- ===== src/Classes/Embed.antt =====
-- Reading a column of one class through a type that holds all classes is reading that column.
use libcstable.Prelude.{ℕ, zero, suc, ◌≡◌, refl, Bool, List, ◌∷◌, Result, ok, err, undefined, ◌>>=◌}
use libcstable.Prelude.Bytes.{Bytes}
use libcstable.V1.{Cell}
use libcstable.V1.Entries.{read_all, read_back}

-- A step and what follows it, both of which succeed.
pub record Succeeds {A B : Type 0} (step : Result A) (after : A → Result B) (last : B)
    : Type 0 where
  pub value : A
  pub step_is : step ≡ ok value
  pub after_is : after value ≡ ok last

pub both-Succeeds :
    {A B : Type 0} (step : Result A) {after : A → Result B} {last : B}
    → (step >>= after) ≡ ok last
    → Succeeds step after last
both-Succeeds (ok value) e = record { value = value; step_is = refl; after_is = e }
both-Succeeds (err kind) e = absurd cc
both-Succeeds undefined e = absurd cc

abbrev ended :
    {V R : Type 0} → (R → Bool) → Result (List (Cell V) × R) → Result (List (Cell V) × Bool)
ended eof m = m >>= λ p. ok (p.0, eof p.1)

-- `n` reads, and the question for the end.
abbrev pub read_out :
    {V R : Type 0} → (R → Result (Cell V × R)) → (R → Bool) → ℕ → R → Result (List (Cell V) × Bool)
read_out read eof n rd = ended eof (read_all read n rd)

-- A column that reads back was written and opened.
pub record IsReadBack {V R : Type 0} (open_column : Bytes → Result R)
    (read : R → Result (Cell V × R)) (eof : R → Bool) (n : ℕ) (written : Result Bytes)
    (result : List (Cell V) × Bool) : Type 0 where
  pub bytes : Bytes
  pub bytes_are : written ≡ ok bytes
  pub reader : R
  pub reader_is : open_column bytes ≡ ok reader
  pub reads : read_out read eof n reader ≡ ok result

module _ {V R : Type 0} where
  pub read_back-eq-ok :
      (open_column : Bytes → Result R) (read : R → Result (Cell V × R)) (eof : R → Bool) (n : ℕ)
      (written : Result Bytes) {result : List (Cell V) × Bool}
      → read_back open_column read eof n written ≡ ok result
      → IsReadBack open_column read eof n written result
  read_back-eq-ok open_column read eof n written h =
      let w = both-Succeeds written h in
      let o = both-Succeeds (open_column w.value) w.after_is in
      record {
        bytes = w.value;
        bytes_are = w.step_is;
        reader = o.value;
        reader_is = o.step_is;
        reads = o.after_is;
      }

  module _ {S : Type 0} (embed : R → S) where
    -- A read, with its reader embedded.
    abbrev pub embedded : Result (Cell V × R) → Result (Cell V × S)
    embedded m = m >>= λ p. ok (p.0, embed p.1)

    abbrev with_embedded : Result (List (Cell V) × R) → Result (List (Cell V) × S)
    with_embedded m = m >>= λ p. ok (p.0, embed p.1)

    rest_embedded :
        (c : Cell V) (m : Result (List (Cell V) × R))
        → (with_embedded m >>= λ q. ok (c ∷ q.0, q.1))
          ≡ with_embedded (m >>= λ q. ok (c ∷ q.0, q.1))
    rest_embedded c (ok q) = refl
    rest_embedded c (err e) = refl
    rest_embedded c undefined = refl

    first_embedded :
        (m : Result (Cell V × R)) (g : R → Result (List (Cell V) × R))
        (h : S → Result (List (Cell V) × S))
        → ((rd : R) → h (embed rd) ≡ with_embedded (g rd))
        → (embedded m >>= λ p. h p.1 >>= λ q. ok (p.0 ∷ q.0, q.1))
          ≡ with_embedded (m >>= λ p. g p.1 >>= λ q. ok (p.0 ∷ q.0, q.1))
    first_embedded (ok p) g h ih = rw (ih p.1) (rest_embedded p.0 (g p.1))
    first_embedded (err e) g h ih = refl
    first_embedded undefined g h ih = refl

    eof_embedded :
        (eof : R → Bool) (eof' : S → Bool)
        → ((rd : R) → eof' (embed rd) ≡ eof rd)
        → (m : Result (List (Cell V) × R)) → ended eof' (with_embedded m) ≡ ended eof m
    eof_embedded eof eof' h (ok q) = rw (h q.1)
    eof_embedded eof eof' h (err e) = refl
    eof_embedded eof eof' h undefined = refl

    module _ (read : R → Result (Cell V × R)) (read' : S → Result (Cell V × S))
        (same : (rd : R) → read' (embed rd) ≡ embedded (read rd)) where
      read_all-embed :
          (n : ℕ) (rd : R) → read_all read' n (embed rd) ≡ with_embedded (read_all read n rd)
      read_all-embed zero rd = refl
      read_all-embed (suc n) rd = rw (same rd) (
          first_embedded (read rd) (read_all read n) (read_all read' n)
            (λ rd'. read_all-embed n rd'))

      -- The reads through the embedding return the same, and so does the question for the end.
      pub read_out-embed :
          (eof : R → Bool) (eof' : S → Bool)
          → ((rd : R) → eof' (embed rd) ≡ eof rd)
          → (n : ℕ) (rd : R) → read_out read' eof' n (embed rd) ≡ read_out read eof n rd
      read_out-embed eof eof' h n rd =
          rw (read_all-embed n rd) (eof_embedded eof eof' h (read_all read n rd))
