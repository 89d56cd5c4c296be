-- ===== src/Materializer/Indexed.antt =====
-- The loops of the materializer stay within the indexes of a record
-- (cstable/RecordMaterializer.cc).
use libcstable.Prelude.{
  ℕ, zero, suc, ◌≤◌, ◌≡◌, refl, sym, ◌∙◌, List, [], ◌∷◌, length, replicate, Option, none, some,
  Result, ok, err, undefined, if◌then◌else◌, arith, length-replicate,
}
use mathlib.Core.Path.{subst}
use libcstable.Stx.{Numerics}
use libcstable.Column.{ColumnSource}
use libcstable.Shredder.Safe.{Safe, bind-Safe}
use libcstable.Materializer.{
  ColumnState, Turn, more, done, repeat, and_then, fetch_if_not_pending, advance,
}
use libcstable.Materializer.Build.{
  Builder, insert_value, insert_null, next_indexes, load_entry, with_record, load_turn, load_loop,
  load_column,
}
use libcstable.Materializer.Columns.{Columns, next_record}
use libcstable.Materializer.Sound.{
  repeated_in, next_indexes-Safe, insert_value-Safe, insert_null-Safe,
}
use libcstable.Materializer.Ends.{IsFinite, IsEnough, next_record-ends}
use libcstable.Materializer.Levels.{
  TurnHolds, if-Safe, IsLevelled, IsSoundFor, IsSound, fetched-IsSound, advance-IsSound,
}

-- A loop that ends well, and what follows it.
and_then-Safe :
    {A C : Type 0} (P : A → Type 0) (Q : C → Type 0) (m : Option (Result A))
    (f : A → Option (Result C)) (r : Result C)
    → ((x : Result A) → m ≡ some x → Safe P x)
    → ((a : A) → P a → (y : Result C) → f a ≡ some y → Safe Q y)
    → and_then m f ≡ some r
    → Safe Q r
and_then-Safe P Q none f r h k e = absurd cc
and_then-Safe P Q (some (ok a)) f r h k e = k a (h (ok a) refl) r e
and_then-Safe {C} P Q (some (err kind)) f r h k e =
    let same : err kind ≡ r = cc in subst (λ (x : Result C). Safe Q x) same tt
and_then-Safe P Q (some undefined) f r h k e = absurd (h undefined refl)

module _ {N : Numerics} {K : Type 0} (S : ColumnSource N K) where
  module _ (is_good : K → Type 0) (L : IsLevelled S is_good) (n : ℕ) where
    module _ (B : Builder N) where
      open B use {Message}

      load_entry-Safe :
          (is : List ℕ) (m : Message) (s : ColumnState N K)
          → IsSoundFor S is_good n s
          → length is ≡ n
          → Safe (λ l. length l.0 ≡ n) (load_entry S B is m s)
      unfolding load_entry
      load_entry-Safe is m s h e =
          bind-Safe (λ js. length js ≡ length is) (λ l. length l.0 ≡ n) (next_indexes s.r is) _
            (next_indexes-Safe s.r is (omega (arith, h.level_fits, e)))
            λ js f.
              let fits : repeated_in s.parents ≤ length js = omega (arith, h.parents_fit, e, f) in
              bind-Safe (λ (d : Message). Unit) (λ l. length l.0 ≡ n)
                (if s.defined
                  then insert_value B s s.parents js m
                  else insert_null B s s.parents js m)
                _
                (if-Safe (λ (d : Message). Unit) s.defined (insert_value B s s.parents js m)
                  (insert_null B s s.parents js m)
                  (insert_value-Safe B s s.parents js m h.type_known fits)
                  (insert_null-Safe B s s.parents js m fits))
                (λ d u. f ∙ e)

      abbrev IsLoaded : ColumnState N K × List ℕ × Message → Type 0
      IsLoaded t = IsSoundFor S is_good n t.0 × (length t.1 ≡ n)

      with_record-IsLoaded :
          (l : List ℕ × Message) (u : Turn (ColumnState N K))
          → length l.0 ≡ n
          → TurnHolds (IsSoundFor S is_good n) u
          → Safe (TurnHolds IsLoaded) (with_record l u)
      with_record-IsLoaded l (more s) e h = (h, e)
      with_record-IsLoaded l (done s) e h = (h, e)

      load_turn-Safe :
          (is : List ℕ) (m : Message) (s : ColumnState N K)
          → IsSoundFor S is_good n s
          → length is ≡ n
          → Safe (TurnHolds IsLoaded) (load_turn S B is m s)
      unfolding load_turn
      load_turn-Safe is m s h e =
          bind-Safe (IsSoundFor S is_good n) (TurnHolds IsLoaded) (fetch_if_not_pending S s) _
            (fetched-IsSound S is_good L n s h)
            λ s1 h1.
              bind-Safe (λ l. length l.0 ≡ n) (TurnHolds IsLoaded) (load_entry S B is m s1) _
                (load_entry-Safe is m s1 h1 e)
                λ l f.
                  bind-Safe (TurnHolds (IsSoundFor S is_good n)) (TurnHolds IsLoaded) (advance S s1)
                    _ (advance-IsSound S is_good L n s1 h1) (λ t ht. with_record-IsLoaded l t f ht)

      -- A loop that ends, ends well.
      load_loop-Safe :
          (fuel : ℕ) (is : List ℕ) (m : Message) (s : ColumnState N K)
          (r : Result (ColumnState N K × Message))
          → IsSoundFor S is_good n s
          → length is ≡ n
          → load_loop S B fuel is m s ≡ some r
          → Safe (λ p. IsSoundFor S is_good n p.0) r
      unfolding load_loop
      load_loop-Safe zero is m s r h e q = absurd cc
      load_loop-Safe (suc fuel) is m s r h e q =
          after_turn (load_turn S B is m s) (load_turn-Safe is m s h e) q
            (λ t k. load_loop-Safe fuel t.1 t.2 t.0 r k.0 k.1)
        where
          after_turn :
              (x : Result (Turn (ColumnState N K × List ℕ × Message)))
              → Safe (TurnHolds IsLoaded) x
              → repeat (λ t. load_loop S B fuel t.1 t.2 t.0) (λ t. (t.0, t.2)) x ≡ some r
              → ((t : ColumnState N K × List ℕ × Message)
                  → IsLoaded t
                  → load_loop S B fuel t.1 t.2 t.0 ≡ some r
                  → Safe (λ p. IsSoundFor S is_good n p.0) r)
              → Safe (λ p. IsSoundFor S is_good n p.0) r
          after_turn (ok (more t)) k q ih = ih t k q
          after_turn (ok (done t)) k q ih =
              let same : ok (t.0, t.2) ≡ r = cc in
              subst
                (λ (x : Result (ColumnState N K × Message)).
                  Safe (λ p. IsSoundFor S is_good n p.0) x)
                same k.0
          after_turn (err kind) k q ih =
              let same : err kind ≡ r = cc in
              subst
                (λ (x : Result (ColumnState N K × Message)).
                  Safe (λ p. IsSoundFor S is_good n p.0) x)
                same tt
          after_turn undefined k q ih = absurd k

  module _ (is_good : K → Type 0) (L : IsLevelled S is_good) (B : Builder N) where
    load_column-Safe :
        (fuel : ℕ) (s : ColumnState N K) (m : B.Message) (r : Result (ColumnState N K × B.Message))
        → IsSound S is_good s
        → load_column S B fuel s m ≡ some r
        → Safe (λ p. IsSound S is_good p.0) r
    unfolding load_column
    load_column-Safe fuel s m (ok p) h q =
        let n = S.max_repetition_level s.reader in
        let t =
          load_loop-Safe is_good L n B fuel (replicate n 0) m s (ok p) h (length-replicate n 0) q in
        subst (λ k. IsSoundFor S is_good k p.0) (sym t.levels_are) t
    load_column-Safe fuel s m (err e) h q = tt
    load_column-Safe fuel s m undefined h q =
        let n = S.max_repetition_level s.reader in
        load_loop-Safe is_good L n B fuel (replicate n 0) m s undefined h (length-replicate n 0) q

    abbrev pub AreSound : Columns N K → Type 0
    AreSound [] = Unit
    AreSound ((name, s) ∷ cols) = IsSound S is_good s × AreSound cols

    next_record-Safe :
        (fuel : ℕ) (cols : Columns N K) (m : B.Message) (r : Result (Columns N K × B.Message))
        → AreSound cols
        → next_record S B fuel cols m ≡ some r
        → Safe (λ q. AreSound q.0) r
    unfolding next_record
    next_record-Safe fuel [] m r h q =
        let same : ok ([], m) ≡ r = cc in
        subst (λ (x : Result (Columns N K × B.Message)). Safe (λ q. AreSound q.0) x) same tt
    next_record-Safe fuel ((name, s) ∷ cols) m r (h, hs) q =
        and_then-Safe (λ p. IsSound S is_good p.0) (λ q. AreSound q.0) (load_column S B fuel s m) _
          r (λ x e. load_column-Safe fuel s m x h e)
          (λ p hp y e.
            and_then-Safe (λ q. AreSound q.0) (λ q. AreSound q.0) (next_record S B fuel cols p.1) _
              y (λ x e'. next_record-Safe fuel cols p.1 x hs e')
              (λ q hq z e'. joined p.0 q z hp hq e') e)
          q
      where
        joined :
            (s' : ColumnState N K) (q : Columns N K × B.Message)
            (z : Result (Columns N K × B.Message))
            → IsSound S is_good s'
            → AreSound q.0
            → some (ok ((name, s') ∷ q.0, q.1)) ≡ some z
            → Safe (λ q. AreSound q.0) z
        joined s' q z k ks e =
            let same : ok ((name, s') ∷ q.0, q.1) ≡ z = cc in
            subst (λ (x : Result (Columns N K × B.Message)). Safe (λ q. AreSound q.0) x) same
              (k, ks)

    -- For columns of finite sources, of types that the enumeration names and with a repetition level
    -- for each of their repeated parents, whose pending entries have repetition levels within the
    -- column's maximum, and whose readers are in states, closed under reading, from which every read
    -- is defined (it may throw) and returns a level within that maximum: with more fuel than any
    -- column has entries left, nextRecord ends with a record or an exception, without undefined
    -- behaviour such as an index that is not there; and if it returns a record, the columns meet the
    -- same conditions for the next one.
    pub next_record-IsSound :
        (F : IsFinite S) (fuel : ℕ) (cols : Columns N K) (record_ : B.Message)
        → IsEnough S F fuel cols
        → AreSound cols
        → (m : Result (Columns N K × B.Message)) × (next_record S B fuel cols record_ ≡ some m)
          × Safe (λ q. AreSound q.0) m
    next_record-IsSound F fuel cols record_ enough sound =
        let (m, e) = (next_record-ends S F B fuel cols record_ enough).0 in
        (m, e, next_record-Safe fuel cols record_ m sound e)
