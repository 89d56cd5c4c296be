-- ===== src/Format/Order.antt =====
-- The order in which readHeader sorts the columns of a v0.1 file (cstable/cstable.cc).
use libcstable.Prelude.{◌≡◌, refl, true, false, [], ◌∷◌, arith}
use libcstable.Prelude.Bytes.{Bytes}
use libcstable.Stx.Sorting.{IsStrictOrder}
use libcstable.Format.Open.{bytes_lt, by_name}

bytes_lt-asymmetric : (xs ys : Bytes) → bytes_lt xs ys ≡ true → bytes_lt ys xs ≡ false
unfolding bytes_lt
bytes_lt-asymmetric [] [] h = refl
bytes_lt-asymmetric [] (y ∷ ys) h = refl
bytes_lt-asymmetric (x ∷ xs) [] h = absurd cc
bytes_lt-asymmetric (x ∷ xs) (y ∷ ys) h = ground (arith, bytes_lt-asymmetric xs ys)

bytes_lt-not_below :
    (xs ys zs : Bytes) → bytes_lt ys xs ≡ false → bytes_lt zs ys ≡ false → bytes_lt zs xs ≡ false
unfolding bytes_lt
bytes_lt-not_below [] ys [] h k = refl
bytes_lt-not_below [] [] (z ∷ zs) h k = refl
bytes_lt-not_below [] (y ∷ ys) (z ∷ zs) h k = refl
bytes_lt-not_below (x ∷ xs) [] zs h k = absurd cc
bytes_lt-not_below (x ∷ xs) (y ∷ ys) [] h k = absurd cc
bytes_lt-not_below (x ∷ xs) (y ∷ ys) (z ∷ zs) h k = ground (arith, bytes_lt-not_below xs ys zs)

pub by_name-IsStrictOrder : IsStrictOrder by_name
by_name-IsStrictOrder = record {
  asymmetric = λ x y. bytes_lt-asymmetric x.column_name y.column_name;
  not_below = λ x y z. bytes_lt-not_below x.column_name y.column_name z.column_name;
}
