-- ===== src/Prelude/Bytes.antt =====
-- Bytes, and objects in memory: a number is stored as its bytes, lowest first, as on the x86
-- machines for which the program is written.
use Prim.Native.Nat.{ℕ, zero, suc, ◌+◌, ◌*◌, ◌/◌, ◌%◌, ◌^◌, ◌<◌}
use mathlib.Core.Path.{◌≡◌, refl, ap}
use mathlib.Core.Option.{Option, none, some}
use mathlib.Core.List.{List, [], ◌∷◌, ◌++◌}
use native.Mathlib.Omega.{arith}
use native.Mathlib.Nat.{pow-suc}
use libcstable.Prelude.Lists.{length}
use libcstable.Prelude.Tests.{◌==◌, ==_refl}
use mathlib.Core.Bool.{Bool, true, false, ◌&&◌, ◌||◌}

abbrev pub Bytes : Type 0
Bytes = List ℕ

-- The `width` bytes of a number, and the number that some bytes hold.
unfoldable pub store : ℕ → ℕ → Bytes
store zero n = []
store (suc width) n = (n % 256) ∷ store width (n / 256)

unfoldable pub load : Bytes → ℕ
load [] = 0
load (b ∷ bs) = b + 256 * load bs

-- Takes the first `width` bytes off as a number; `none` if there are fewer.
unfoldable pub fetch : ℕ → Bytes → Option (ℕ × Bytes)
fetch zero bs = some (0, bs)
fetch (suc width) [] = none
fetch (suc width) (b ∷ bs) = elim (fetch width bs) [
  | none ↦ none
  | some (n, rest) ↦ some (b + 256 * n, rest)
]

pub length-store : (width n : ℕ) → length (store width n) ≡ width
unfolding store
length-store zero n = refl
length-store (suc width) n = ap suc (length-store width (n / 256))

pub load-store : (width n : ℕ) → n < 256 ^ width → load (store width n) ≡ n
unfolding load store
load-store zero n h = omega arith
load-store (suc width) n h =
    omega (arith, load-store width (n / 256) (omega (arith, pow-suc 256 width)))

pub fetch-store :
    (width n : ℕ) (rest : Bytes)
    → n < 256 ^ width
    → fetch width (store width n ++ rest) ≡ some (n, rest)
unfolding fetch store
fetch-store zero n rest h = ap (λ m. some (m, rest)) (omega arith)
fetch-store (suc width) n rest h =
    ground (arith, fetch-store width (n / 256) rest (omega (arith, pow-suc 256 width)))

-- Equality and the lexicographic order of byte strings.
unfoldable pub bytes_eq : Bytes → Bytes → Bool
bytes_eq [] [] = true
bytes_eq [] (b ∷ bs) = false
bytes_eq (a ∷ rest) [] = false
bytes_eq (a ∷ rest) (b ∷ bs) = (a == b) && bytes_eq rest bs

abbrev pub is_member : Bytes → List Bytes → Bool
is_member name [] = false
is_member name (n ∷ names) = bytes_eq n name || is_member name names

pub bytes_eq_refl : (bs : Bytes) → bytes_eq bs bs ≡ true
unfolding bytes_eq
bytes_eq_refl [] = refl
bytes_eq_refl (b ∷ bs) = rw (==_refl b, bytes_eq_refl bs)

pub bytes_eq→eq : (xs ys : Bytes) → bytes_eq xs ys ≡ true → xs ≡ ys
unfolding bytes_eq
bytes_eq→eq [] [] h = refl
bytes_eq→eq [] (y ∷ ys) h = cc
bytes_eq→eq (x ∷ xs) [] h = cc
bytes_eq→eq (x ∷ xs) (y ∷ ys) h = ground (arith, bytes_eq→eq xs ys)
