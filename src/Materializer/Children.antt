-- ===== src/Materializer/Children.antt =====
-- The child of a message that insertValue and insertNull work on.
use libcstable.Prelude.{
  ℕ, zero, suc, ◌+◌, ◌-◌, ◌≤◌, ◌≡◌, ◌⊎◌, refl, ◌∙◌, Bool, true, false, ◌&&◌, List, [], ◌∷◌, ◌++◌,
  Option, none, some, Result, ok, replicate, need, type_error, ◌>>=◌, if◌then◌else◌, ◌==◌, ==_refl,
  Bool-cases, inl, inr, arith,
}
use mathlib.Core.Path.{subst}
use libcstable.Stx.{Numerics}
use libcstable.Classes.Embed.{both-Succeeds}
use libcstable.Materializer.Ends.{when_true, when_false}
use libcstable.Materializer.Build.{
  Builder, Found, edited, missing, behind_child, grown, edit_child, on_child,
}

pub needed_object :
    {A : Type 0} (o : Option A) {a : A} → ◌≡◌ {A = Result A} (need type_error o) (ok a) → o ≡ some a
needed_object none h = absurd cc
needed_object (some a) h = cc

module _ {N : Numerics} (B : Builder N) where
  open B use {Message, as_object, set_object, new_object}

  -- The child of the id that is at the index, counted from `this_index`.
  abbrev pub child_at : ℕ → ℕ → ℕ → List Message → Option Message
  child_at id target this_index [] = none
  child_at id target this_index (c ∷ cs) =
      let is_child = B.id c == id in
      let rest = child_at id target (if is_child then this_index + 1 else this_index) cs in
      if is_child && (this_index == target) then some c else rest

  abbrev pub children_of : Option (List Message) → List Message
  children_of none = []
  children_of (some cs) = cs

  -- What the search for a child finds, or leaves to be added.
  abbrev IsSearched : ℕ → ℕ → (Message → Result Message) → ℕ → List Message → Found B → Type 0
  IsSearched id target f this_index cs (edited cs') =
      (c : Message) × (c' : Message) × (child_at id target this_index cs ≡ some c)
      × (f c ≡ ok c')
      × (child_at id target this_index cs' ≡ some c')
  IsSearched id target f this_index cs (missing n) =
      (child_at id target this_index cs ≡ none)
      × (n ≤ target)
      × ((ds : List Message) → child_at id target this_index (cs ++ ds) ≡ child_at id target n ds)

  module _ (id target : ℕ) (f : Message → Result Message)
      (same_id : (c c' : Message) → f c ≡ ok c' → B.id c' ≡ B.id c) where
    abbrev next_index : ℕ → Message → ℕ
    next_index this_index c = if B.id c == id then this_index + 1 else this_index

    abbrev is_target : ℕ → Message → Bool
    is_target this_index c = (B.id c == id) && (this_index == target)

    next_index-le :
        (this_index : ℕ) (c : Message)
        → this_index ≤ target
        → is_target this_index c ≡ false
        → next_index this_index c ≤ target
    next_index-le this_index c h e = ground arith

    target_stays :
        (this_index : ℕ) (c c' : Message)
        → B.id c' ≡ B.id c
        → is_target this_index c ≡ true
        → is_target this_index c' ≡ true
    target_stays this_index c c' same e = rw same e

    passed :
        (this_index : ℕ) (c : Message) (cs : List Message) (found found' : Found B)
        → is_target this_index c ≡ false
        → IsSearched id target f (next_index this_index c) cs found
        → behind_child B c found ≡ ok found'
        → IsSearched id target f this_index (c ∷ cs) found'
    passed this_index c cs (edited cs') (edited all') e (o, o', h, hf, h') k =
        let same : all' ≡ c ∷ cs' = cc in (o, o', rw e h, hf, rw (same, e) h')
    passed this_index c cs (edited cs') (missing n) e s k = absurd cc
    passed this_index c cs (missing n) (edited all') e s k = absurd cc
    passed this_index c cs (missing n) (missing m) e (h, le, later) k =
        let same : m ≡ n = cc in (rw e h, omega (arith, same), λ ds. rw (e, same) (later ds))

    reached :
        (this_index : ℕ) (c : Message) (cs : List Message) (found : Found B)
        → is_target this_index c ≡ true
        → (f c >>= λ c'. ok (edited (c' ∷ cs))) ≡ ok found
        → IsSearched id target f this_index (c ∷ cs) found
    reached this_index c cs (edited cs') e h =
        let p = both-Succeeds (f c) h in
        let t = target_stays this_index c p.value (same_id c p.value p.step_is) e in
        let same : cs' ≡ p.value ∷ cs = let q = p.after_is in cc in
        (c, p.value, rw e, p.step_is, rw (same, t))
    reached this_index c cs (missing n) e h =
        let p = both-Succeeds (f c) h in let q = p.after_is in absurd cc

    edit_child_lem :
        (this_index : ℕ) (cs : List Message) (found : Found B)
        → this_index ≤ target
        → edit_child B id target f this_index cs ≡ ok found
        → IsSearched id target f this_index cs found
    unfolding edit_child
    edit_child_lem this_index [] (edited cs') h e = absurd cc
    edit_child_lem this_index [] (missing n) h e =
        let same : n ≡ this_index = cc in (refl, omega (arith, same), λ ds. rw same)
    edit_child_lem this_index (c ∷ cs) found h e = elim (Bool-cases (is_target this_index c)) [
      | inl here ↦
          reached this_index c cs found here (when_true (is_target this_index c) _ _ e here)
      | inr behind ↦
          let p =
            both-Succeeds (edit_child B id target f (next_index this_index c) cs)
              (when_false (is_target this_index c) _ _ e behind) in
          passed this_index c cs p.value found behind
            (edit_child_lem (next_index this_index c) cs p.value
              (next_index-le this_index c h behind) p.step_is)
            p.after_is
    ]

  -- After new objects up to the index comes the child that is worked on.
  padded :
      (id target : ℕ) (c : Message) (k n : ℕ)
      → B.id c ≡ id
      → n + k ≡ target
      → child_at id target n (replicate k (new_object id) ++ (c ∷ [])) ≡ some c
  padded id target c zero n hi e =
      let here : (n == target) ≡ true = ground arith in rw (hi, ==_refl id, here)
  padded id target c (suc k) n hi e =
      let before : (n == target) ≡ false = ground arith in
      rw (B.id-new_object id, ==_refl id, before) (padded id target c k (n + 1) hi (omega arith))

  -- What was worked on, and where it stands then.
  pub record IsWorkedOn (id target : ℕ) (f : Message → Result Message) (m m' : Message)
      : Type 0 where
    pub old : Message
    pub new : Message
    pub worked : f old ≡ ok new
    pub was_there :
        (child_at id target 0 (children_of (as_object m)) ≡ some old)
        ⊎ ((child_at id target 0 (children_of (as_object m)) ≡ none) × (old ≡ new_object id))
    pub is_there : child_at id target 0 (children_of (as_object m')) ≡ some new

  module _ (id target : ℕ) (f : Message → Result Message)
      (same_id : (c c' : Message) → f c ≡ ok c' → B.id c' ≡ B.id c) where
    placed :
        (m : Message) (cs cs' : List Message) (found : Found B)
        → as_object m ≡ some cs
        → IsSearched id target f 0 cs found
        → grown B id target f cs found ≡ ok cs'
        → IsWorkedOn id target f m (set_object cs' m)
    placed m cs cs' (edited all) e (c, c', h, hf, h') g =
        let same : all ≡ cs' = cc in
        record {
          old = c;
          new = c';
          worked = hf;
          was_there = inl (rw e h);
          is_there = rw (B.as_object-set_object cs' cs m e, ← same) h';
        }
    placed m cs cs' (missing n) e (h, le, later) g =
        let p = both-Succeeds (f (new_object id)) g in
        let i : B.id p.value ≡ id =
          same_id (new_object id) p.value p.step_is ∙ B.id-new_object id in
        let added = replicate (target - n) (new_object id) ++ (p.value ∷ []) in
        let same : cs ++ added ≡ cs' = let q = p.after_is in cc in
        record {
          old = new_object id;
          new = p.value;
          worked = p.step_is;
          was_there = inr (rw e h, refl);
          is_there =
              rw (B.as_object-set_object cs' cs m e, ← same)
                (later added ∙ padded id target p.value (target - n) n i (omega arith));
        }

    pub on_child_lem :
        (m m' : Message) → on_child B id target f m ≡ ok m' → IsWorkedOn id target f m m'
    unfolding on_child
    on_child_lem m m' e =
        let a = both-Succeeds (need type_error (as_object m)) e in
        let b = both-Succeeds (edit_child B id target f 0 a.value) a.after_is in
        let c = both-Succeeds (grown B id target f a.value b.value) b.after_is in
        let same : set_object c.value m ≡ m' = let q = c.after_is in cc in
        subst (λ (t : Message). IsWorkedOn id target f m t) same
          (placed m a.value c.value b.value (needed_object (as_object m) a.step_is)
            (edit_child_lem id target f same_id 0 a.value b.value (omega arith) b.step_is)
            c.step_is)

    pub on_child-id : (m m' : Message) → on_child B id target f m ≡ ok m' → B.id m' ≡ B.id m
    unfolding on_child
    on_child-id m m' e =
        let a = both-Succeeds (need type_error (as_object m)) e in
        let b = both-Succeeds (edit_child B id target f 0 a.value) a.after_is in
        let c = both-Succeeds (grown B id target f a.value b.value) b.after_is in
        let same : set_object c.value m ≡ m' = let q = c.after_is in cc in
        rw (← same) (B.id-set_object c.value m)
