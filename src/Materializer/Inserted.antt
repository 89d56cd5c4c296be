-- ===== src/Materializer/Inserted.antt =====
-- Where insertValue puts a value.
use libcstable.Prelude.{
  ℕ, ◌≡◌, ap, ◌∙◌, List, [], ◌∷◌, ◌++◌, Option, none, some, Result, ok, need, type_error,
  if◌then◌else◌, Bool-cases, inl, inr,
}
use libcstable.Stx.{Numerics}
use libcstable.Classes.Embed.{both-Succeeds}
use libcstable.Materializer.{Parent, ColumnState}
use libcstable.Materializer.Ends.{when_true, when_false}
use libcstable.Materializer.Children.{
  child_at, children_of, needed_object, IsWorkedOn, on_child_lem, on_child-id,
}
use libcstable.Materializer.Build.{Builder, add_child, on_child, field_value, insert_value}

module _ {N : Numerics} (B : Builder N) where
  open B use {Message, as_object, set_object, new_object}

  abbrev seen_by : (Message → List Message) → Option Message → List Message
  seen_by g none = []
  seen_by g (some c) = g c

  -- The children of the object that a value of these parents and indexes belongs to; none, if there
  -- is no such object yet.
  abbrev pub children_at : List Parent → List ℕ → Message → List Message
  children_at [] indexes m = children_of B (as_object m)
  children_at (p ∷ parents) [] m =
      let single =
        seen_by (children_at parents []) (child_at B p.id 0 0 (children_of B (as_object m))) in
      if p.repeated then [] else single
  children_at (p ∷ parents) (i ∷ indexes) m =
      let many =
        seen_by (children_at parents indexes) (child_at B p.id i 0 (children_of B (as_object m))) in
      let single =
        seen_by (children_at parents (i ∷ indexes))
          (child_at B p.id 0 0 (children_of B (as_object m))) in
      if p.repeated then many else single

  module _ (id target : ℕ) (f : Message → Result Message)
      (same_id : (c c' : Message) → f c ≡ ok c' → B.id c' ≡ B.id c) where
    -- What the work adds to a view of the child, it adds to the view of the parent.
    seen_by-on_child :
        (g : Message → List Message) (v m m' : Message)
        → ((c c' : Message) → f c ≡ ok c' → g c' ≡ g c ++ (v ∷ []))
        → g (new_object id) ≡ []
        → on_child B id target f m ≡ ok m'
        → seen_by g (child_at B id target 0 (children_of B (as_object m')))
          ≡ seen_by g (child_at B id target 0 (children_of B (as_object m))) ++ (v ∷ [])
    seen_by-on_child g v m m' grows empty e =
        let w = on_child_lem B id target f same_id m m' e in
        rw w.is_there
          (grows w.old w.new w.worked ∙ ap (λ (l : List Message). l ++ (v ∷ [])) (before w))
      where
        before :
            (w : IsWorkedOn B id target f m m')
            → g w.old ≡ seen_by g (child_at B id target 0 (children_of B (as_object m)))
        before w = elim (w.was_there) [
          | inl there ↦ rw there
          | inr (absent, new) ↦ rw (absent, new) empty
        ]

  -- A new object has no children, at any place.
  children_at-new_object :
      (id : ℕ) (parents : List Parent) (indexes : List ℕ)
      → children_at parents indexes (new_object id) ≡ []
  children_at-new_object id [] indexes = rw (B.as_object-new_object id)
  children_at-new_object id (p ∷ parents) [] = elim (Bool-cases p.repeated) [
    | inl many ↦ rw many
    | inr single ↦ rw (single, B.as_object-new_object id)
  ]
  children_at-new_object id (p ∷ parents) (i ∷ indexes) = elim (Bool-cases p.repeated) [
    | inl many ↦ rw (many, B.as_object-new_object id)
    | inr single ↦ rw (single, B.as_object-new_object id)
  ]

  add_child-id : (v m m' : Message) → add_child B v m ≡ ok m' → B.id m' ≡ B.id m
  unfolding add_child
  add_child-id v m m' e =
      let a = both-Succeeds (need type_error (as_object m)) e in
      let same : set_object (a.value ++ (v ∷ [])) m ≡ m' = let q = a.after_is in cc in
      rw (← same) (B.id-set_object (a.value ++ (v ∷ [])) m)

  add_child-children :
      (v m m' : Message)
      → add_child B v m ≡ ok m'
      → children_of B (as_object m') ≡ children_of B (as_object m) ++ (v ∷ [])
  unfolding add_child
  add_child-children v m m' e =
      let a = both-Succeeds (need type_error (as_object m)) e in
      let same : set_object (a.value ++ (v ∷ [])) m ≡ m' = let q = a.after_is in cc in
      let there = needed_object (as_object m) a.step_is in
      rw (← same) (
        ap (children_of B) (B.as_object-set_object (a.value ++ (v ∷ [])) a.value m there)
        ∙ rw there)

  module _ {K : Type 0} (s : ColumnState N K) where
    insert_value-id :
        (parents : List Parent) (indexes : List ℕ) (m m' : Message)
        → insert_value B s parents indexes m ≡ ok m'
        → B.id m' ≡ B.id m
    unfolding insert_value
    insert_value-id [] indexes m m' e =
        let v = both-Succeeds (field_value B s) e in add_child-id v.value m m' v.after_is
    insert_value-id (p ∷ parents) [] m m' e = elim (Bool-cases p.repeated) [
      | inl many ↦ absurd (let q = when_true p.repeated _ _ e many in cc)
      | inr single ↦
          on_child-id B p.id 0 (insert_value B s parents []) (insert_value-id parents []) m m'
            (when_false p.repeated _ _ e single)
    ]
    insert_value-id (p ∷ parents) (i ∷ indexes) m m' e = elim (Bool-cases p.repeated) [
      | inl many ↦
          on_child-id B p.id i (insert_value B s parents indexes) (insert_value-id parents indexes)
            m m' (when_true p.repeated _ _ e many)
      | inr single ↦
          on_child-id B p.id 0 (insert_value B s parents (i ∷ indexes))
            (insert_value-id parents (i ∷ indexes)) m m' (when_false p.repeated _ _ e single)
    ]

    -- If insertValue succeeds, then the children of the object at the place that the parents and
    -- the indexes name are those that were there, or none if there was no such object, and behind
    -- them the field's value; for any record and any parents, repeated or not.
    pub insert_value-children_at :
        (parents : List Parent) (indexes : List ℕ) (m m' v : Message)
        → field_value B s ≡ ok v
        → insert_value B s parents indexes m ≡ ok m'
        → children_at parents indexes m' ≡ children_at parents indexes m ++ (v ∷ [])
    unfolding insert_value
    insert_value-children_at [] indexes m m' v hv e = add_child-children v m m' (rw hv at e)
    insert_value-children_at (p ∷ parents) [] m m' v hv e = elim (Bool-cases p.repeated) [
      | inl many ↦ absurd (let q = when_true p.repeated _ _ e many in cc)
      | inr single ↦ rw single (
          seen_by-on_child p.id 0 (insert_value B s parents []) (insert_value-id parents [])
            (children_at parents []) v m m'
            (λ c c' k. insert_value-children_at parents [] c c' v hv k)
            (children_at-new_object p.id parents []) (when_false p.repeated _ _ e single))
    ]
    insert_value-children_at (p ∷ parents) (i ∷ indexes) m m' v hv e =
        elim (Bool-cases p.repeated) [
          | inl many ↦ rw many (
              seen_by-on_child p.id i (insert_value B s parents indexes)
                (insert_value-id parents indexes) (children_at parents indexes) v m m'
                (λ c c' k. insert_value-children_at parents indexes c c' v hv k)
                (children_at-new_object p.id parents indexes) (when_true p.repeated _ _ e many))
          | inr single ↦ rw single (
              seen_by-on_child p.id 0 (insert_value B s parents (i ∷ indexes))
                (insert_value-id parents (i ∷ indexes)) (children_at parents (i ∷ indexes)) v m m'
                (λ c c' k. insert_value-children_at parents (i ∷ indexes) c c' v hv k)
                (children_at-new_object p.id parents (i ∷ indexes))
                (when_false p.repeated _ _ e single))
        ]
