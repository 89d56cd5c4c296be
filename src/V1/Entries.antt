-- ===== src/V1/Entries.antt =====
-- A sequence of values and nulls with their levels: what a client writes to a column, and reads
-- back from it.
use libcstable.Prelude.{
  ℕ, zero, suc, ◌≤◌, ◌<◌, ◌≡◌, Bool, true, false, List, [], ◌∷◌, All, Result, ok, ◌>>=◌, arith,
}
use libcstable.Prelude.Bytes.{Bytes}
use libcstable.V1.{Cell, cell}

pub data Entry (V : Type 0) : Type 0 where
  null : ℕ → ℕ → Entry V
  datum : ℕ → ℕ → V → Entry V

module _ {V : Type 0} where
  abbrev pub rlvls : List (Entry V) → List ℕ
  rlvls [] = []
  rlvls (null r d ∷ es) = r ∷ rlvls es
  rlvls (datum r d v ∷ es) = r ∷ rlvls es

  abbrev pub dlvls : List (Entry V) → List ℕ
  dlvls [] = []
  dlvls (null r d ∷ es) = d ∷ dlvls es
  dlvls (datum r d v ∷ es) = d ∷ dlvls es

  abbrev pub values : List (Entry V) → List V
  values [] = []
  values (null r d ∷ es) = values es
  values (datum r d v ∷ es) = v ∷ values es

  -- Within the column's levels; a value has the full definition level, a null a smaller one.
  abbrev pub IsEntry : ℕ → ℕ → (V → Type 0) → Entry V → Type 0
  IsEntry r_max d_max Fits (null r d) = (r ≤ r_max) × (d < d_max)
  IsEntry r_max d_max Fits (datum r d v) = (r ≤ r_max) × (d ≡ d_max) × Fits v

  -- What the reads of the entries return.
  abbrev pub cells : V → List (Entry V) → List (Cell V)
  cells none_value [] = []
  cells none_value (null r d ∷ es) = cell false r d none_value ∷ cells none_value es
  cells none_value (datum r d v ∷ es) = cell true r d v ∷ cells none_value es

  -- Writes the entries, over a class's writes of a null and of a value.
  abbrev pub write_all :
      {W : Type 0} → (ℕ → ℕ → W → W) → (ℕ → ℕ → V → W → W) → List (Entry V) → W → W
  write_all put_null put [] w = w
  write_all put_null put (null r d ∷ es) w = write_all put_null put es (put_null r d w)
  write_all put_null put (datum r d v ∷ es) w = write_all put_null put es (put r d v w)

  -- Reads `n` times.
  abbrev pub read_all :
      {R : Type 0} → (R → Result (Cell V × R)) → ℕ → R → Result (List (Cell V) × R)
  read_all read zero rd = ok ([], rd)
  read_all read (suc n) rd = read rd >>= λ p. read_all read n p.1 >>= λ q. ok (p.0 ∷ q.0, q.1)

module _ {V : Type 0} (r_max d_max : ℕ) (Fits : V → Type 0) where
  pub rlvls-le :
      (es : List (Entry V)) → All (IsEntry r_max d_max Fits) es → All (λ r. r ≤ r_max) (rlvls es)
  rlvls-le [] h = tt
  rlvls-le (null r d ∷ es) (h, hs) = (h.0, rlvls-le es hs)
  rlvls-le (datum r d v ∷ es) (h, hs) = (h.0, rlvls-le es hs)

  pub dlvls-le :
      (es : List (Entry V)) → All (IsEntry r_max d_max Fits) es → All (λ d. d ≤ d_max) (dlvls es)
  dlvls-le [] h = tt
  dlvls-le (null r d ∷ es) (h, hs) = (omega arith, dlvls-le es hs)
  dlvls-le (datum r d v ∷ es) (h, hs) = (omega arith, dlvls-le es hs)

  pub values-Fits : (es : List (Entry V)) → All (IsEntry r_max d_max Fits) es → All Fits (values es)
  values-Fits [] h = tt
  values-Fits (null r d ∷ es) (h, hs) = values-Fits es hs
  values-Fits (datum r d v ∷ es) (h, hs) = (h.2, values-Fits es hs)

-- Opens the bytes, reads `n` times, and asks for the end.
abbrev pub read_back :
    {V R : Type 0}
    → (Bytes → Result R)
    → (R → Result (Cell V × R))
    → (R → Bool)
    → ℕ
    → Result Bytes
    → Result (List (Cell V) × Bool)
read_back open_column read eof n written =
    written >>= λ bytes. open_column bytes >>= λ rd. read_all read n rd >>= λ p. ok (p.0, eof p.1)
