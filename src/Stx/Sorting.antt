-- ===== src/Stx/Sorting.antt =====
-- What std::sort needs of an order and promises of its result, and a sort that keeps the promise.
use libcstable.Prelude.{
  ◌≡◌, refl, Bool, true, false, List, [], ◌∷◌, All, if◌then◌else◌, Bool-cases, inl, inr,
}
use mathlib.Core.Path.{subst}
use mathlib.Core.List.{Permᴰ}
use mathlib.Core.List.Permᴰ

module _ {A : Type 0} where
  -- What holds for all elements holds for them in another order.
  pub All-Permᴰ : (P : A → Type 0) {xs ys : List A} → Permᴰ xs ys → All P xs → All P ys
  All-Permᴰ P Permᴰ.nil h = tt
  All-Permᴰ P (Permᴰ.cons e p) (h, hs) = (subst P e h, All-Permᴰ P p hs)
  All-Permᴰ P (Permᴰ.swap e f) (h, (k, hs)) = (subst P f k, (subst P e h, hs))
  All-Permᴰ P (Permᴰ.trans p q) h = All-Permᴰ P q (All-Permᴰ P p h)

module _ {A : Type 0} (lt : A → A → Bool) where
  -- A strict weak order.
  pub record IsStrictOrder : Type 0 where
    pub asymmetric : (x y : A) → lt x y ≡ true → lt y x ≡ false
    pub not_below : (x y z : A) → lt y x ≡ false → lt z y ≡ false → lt z x ≡ false

  -- No element is below one that stands before it.
  abbrev pub IsAscending : List A → Type 0
  IsAscending [] = Unit
  IsAscending (x ∷ xs) = All (λ y. lt y x ≡ false) xs × IsAscending xs

  abbrev pub put_in : A → List A → List A
  put_in x [] = x ∷ []
  put_in x (y ∷ ys) = let rest = put_in x ys in if lt y x then y ∷ rest else x ∷ (y ∷ ys)

  abbrev pub put_all : List A → List A
  put_all [] = []
  put_all (x ∷ xs) = put_in x (put_all xs)

  put_in-Permᴰ : (x : A) (ys : List A) → Permᴰ (put_in x ys) (x ∷ ys)
  put_in-Permᴰ x [] = Permᴰ.refl (x ∷ [])
  put_in-Permᴰ x (y ∷ ys) = elim (Bool-cases (lt y x)) [
    | inl below ↦
        rw below (Permᴰ.trans (Permᴰ.cons refl (put_in-Permᴰ x ys)) (Permᴰ.swap refl refl))
    | inr above ↦ rw above (Permᴰ.refl (x ∷ (y ∷ ys)))
  ]

  pub put_all-Permᴰ : (xs : List A) → Permᴰ (put_all xs) xs
  put_all-Permᴰ [] = Permᴰ.nil
  put_all-Permᴰ (x ∷ xs) =
      Permᴰ.trans (put_in-Permᴰ x (put_all xs)) (Permᴰ.cons refl (put_all-Permᴰ xs))

  All-mapped : (P Q : A → Type 0) (xs : List A) → ((x : A) → P x → Q x) → All P xs → All Q xs
  All-mapped P Q [] f h = tt
  All-mapped P Q (x ∷ xs) f (h, hs) = (f x h, All-mapped P Q xs f hs)

  module _ (order : IsStrictOrder) where
    put_in-IsAscending : (x : A) (ys : List A) → IsAscending ys → IsAscending (put_in x ys)
    put_in-IsAscending x [] h = (tt, tt)
    put_in-IsAscending x (y ∷ ys) (h, hs) = elim (Bool-cases (lt y x)) [
      | inl below ↦ rw below (
        All-Permᴰ (λ z. lt z y ≡ false) (Permᴰ.symm (put_in-Permᴰ x ys))
            (order.asymmetric y x below, h),
        put_in-IsAscending x ys hs,
      )
      | inr above ↦ rw above (
        (
          above,
          All-mapped (λ z. lt z y ≡ false) (λ z. lt z x ≡ false) ys
              (λ z. order.not_below x y z above) h,
        ),
        (h, hs),
      )
    ]

    pub put_all-IsAscending : (xs : List A) → IsAscending (put_all xs)
    put_all-IsAscending [] = tt
    put_all-IsAscending (x ∷ xs) = put_in-IsAscending x (put_all xs) (put_all-IsAscending xs)
