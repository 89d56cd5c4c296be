-- ===== src/Materializer/Build.antt =====
-- The records that the materializer builds: insertValue, insertNull, loadColumn, nextRecord and
-- createColumns (cstable/RecordMaterializer.cc).
use libcstable.Prelude.{
  ℕ, zero, suc, ◌+◌, ◌-◌, ◌%◌, ◌^◌, ◌≡◌, Bool, ◌&&◌, List, [], ◌∷◌, ◌++◌, map, replicate, Option,
  none, some, Result, ok, undefined, need, type_error, ◌>>=◌, if◌then◌else◌, ltb, ◌==◌,
}
use libcstable.Prelude.Bytes.{Bytes}
use libcstable.Stx.{Numerics}
use libcstable.Column.{ColumnSource}
use libcstable.Schema.Protobuf.{FieldType, bool, uint32, text, uint64, double, date_time}
use libcstable.Materializer.{
  Parent, ColumnState, get_unsigned_integer, get_string, get_float, Turn, more, done, repeat,
  fetch_if_not_pending, advance,
}

-- stx::msg::MessageObject as the materializer uses it: asObject, which throws (`none`) on an object
-- of another type, an assignment through the reference that it returns, and the constructors that
-- addChild calls. Objects without a value have no children yet.
pub record Builder (N : Numerics) : Type 1 where
  pub Message : Type 0
  pub id : Message → ℕ
  pub as_object : Message → Option (List Message)
  pub set_object : List Message → Message → Message
  pub new_object : ℕ → Message
  pub new_uint32 : ℕ → ℕ → Message
  pub new_uint64 : ℕ → ℕ → Message
  pub new_time : ℕ → ℕ → Message
  pub new_string : ℕ → Bytes → Message
  pub new_bool : ℕ → Bool → Message
  pub new_double : ℕ → N.Double → Message
  pub id-set_object : (children : List Message) (m : Message) → id (set_object children m) ≡ id m
  pub as_object-set_object :
      (children old : List Message) (m : Message)
      → as_object m ≡ some old
      → as_object (set_object children m) ≡ some children
  pub id-new_object : (i : ℕ) → id (new_object i) ≡ i
  pub as_object-new_object : (i : ℕ) → as_object (new_object i) ≡ some []

module _ {N : Numerics} (B : Builder N) where
  open B use {Message, as_object, set_object, new_object}

  unfoldable pub add_child : Message → Message → Result Message
  add_child child record_ = do
    children ← need type_error (as_object record_)
    ok (set_object (children ++ (child ∷ [])) record_)

  -- The loop over the children: the one of the id that is at the index is worked on, or their number
  -- is left.
  pub data Found : Type 0 where
    edited : List Message → Found
    missing : ℕ → Found

  abbrev pub behind_child : Message → Found → Result Found
  behind_child c (edited cs) = ok (edited (c ∷ cs))
  behind_child c (missing n) = ok (missing n)

  unfoldable pub edit_child : ℕ → ℕ → (Message → Result Message) → ℕ → List Message → Result Found
  edit_child id target f this_index [] = ok (missing this_index)
  edit_child id target f this_index (c ∷ cs) =
      let is_child = B.id c == id in
      let rest = edit_child id target f (if is_child then this_index + 1 else this_index) cs in
      let here : Result Found = f c >>= λ c'. ok (edited (c' ∷ cs)) in
      if is_child && (this_index == target) then here else (rest >>= behind_child c)

  -- Children are added until the index is reached, and then the one that is worked on.
  abbrev pub grown :
      ℕ → ℕ → (Message → Result Message) → List Message → Found → Result (List Message)
  grown id target f children (edited cs) = ok cs
  grown id target f children (missing n) = f (new_object id) >>= λ c.
      ok (children ++ (replicate (target - n) (new_object id) ++ (c ∷ [])))

  -- The child of a message for a parent, by its id and its index among the children of the id.
  unfoldable pub on_child : ℕ → ℕ → (Message → Result Message) → Message → Result Message
  unfolding edit_child
  on_child id target f record_ = do
    children ← need type_error (as_object record_)
    found ← edit_child id target f 0 children
    children' ← grown id target f children found
    ok (set_object children' record_)

  module _ {K : Type 0} where
    -- The switch at the end of insertValue.
    abbrev pub value_of : FieldType → ColumnState N K → Result Message
    value_of uint32 s = get_unsigned_integer s >>= λ v. ok (B.new_uint32 s.field_id (v % 2 ^ 32))
    value_of uint64 s = get_unsigned_integer s >>= λ v. ok (B.new_uint64 s.field_id v)
    value_of date_time s = get_unsigned_integer s >>= λ v. ok (B.new_time s.field_id v)
    value_of text s = get_string s >>= λ v. ok (B.new_string s.field_id v)
    value_of bool s = get_unsigned_integer s >>= λ v. ok (B.new_bool s.field_id (v == 1))
    value_of double s = get_float s >>= λ v. ok (B.new_double s.field_id v)

    unfoldable pub field_value : ColumnState N K → Result Message
    unfolding get_unsigned_integer get_string get_float
    field_value s = value_of s.field_type s

    -- A parent that is not repeated is the first child of its id, which is the one at index 0. An
    -- index that is not there is read behind the end of the vector.
    unfoldable pub insert_value : ColumnState N K → List Parent → List ℕ → Message → Result Message
    unfolding on_child field_value add_child
    insert_value s [] indexes record_ = field_value s >>= λ v. add_child v record_
    insert_value s (p ∷ parents) [] record_ =
        let single = on_child p.id 0 (insert_value s parents []) record_ in
        if p.repeated then undefined else single
    insert_value s (p ∷ parents) (i ∷ indexes) record_ =
        let many = on_child p.id i (insert_value s parents indexes) record_ in
        let single = on_child p.id 0 (insert_value s parents (i ∷ indexes)) record_ in
        if p.repeated then many else single

    unfoldable pub insert_null : ColumnState N K → List Parent → List ℕ → Message → Result Message
    unfolding on_child
    insert_null s [] indexes record_ = ok record_
    insert_null s (p ∷ parents) [] record_ =
        let single = on_child p.id 0 (insert_null s parents []) record_ in
        if ltb s.d p.dmax then ok record_ else if p.repeated then undefined else single
    insert_null s (p ∷ parents) (i ∷ indexes) record_ =
        let many = on_child p.id i (insert_null s parents indexes) record_ in
        let single = on_child p.id 0 (insert_null s parents (i ∷ indexes)) record_ in
        if ltb s.d p.dmax then ok record_ else if p.repeated then many else single

-- The indexes at an entry of a repetition level: that of the level is counted up, and those below
-- it begin again.
unfoldable pub count_up : ℕ → List ℕ → Result (List ℕ)
count_up level [] = undefined
count_up zero (i ∷ indexes) = ok (((i + 1) % 2 ^ 64) ∷ map (λ x. 0) indexes)
count_up (suc level) (i ∷ indexes) = count_up level indexes >>= λ rest. ok (i ∷ rest)

unfoldable pub next_indexes : ℕ → List ℕ → Result (List ℕ)
unfolding count_up
next_indexes zero indexes = ok indexes
next_indexes (suc level) indexes = count_up level indexes

-- The record and the indexes beside the state.
abbrev pub with_record : {A R : Type 0} → List ℕ × R → Turn A → Result (Turn (A × List ℕ × R))
with_record l (more s) = ok (more (s, l.0, l.1))
with_record l (done s) = ok (done (s, l.0, l.1))

module _ {N : Numerics} {K : Type 0} (S : ColumnSource N K) (B : Builder N) where
  -- What a round of loadColumn does with the entry.
  unfoldable pub load_entry : List ℕ → B.Message → ColumnState N K → Result (List ℕ × B.Message)
  unfolding next_indexes insert_value insert_null
  load_entry indexes record_ s = do
    indexes' ← next_indexes s.r indexes
    record' ←
        (if s.defined
          then insert_value B s s.parents indexes' record_
          else insert_null B s s.parents indexes' record_)
    ok (indexes', record')

  unfoldable pub load_turn :
      List ℕ → B.Message → ColumnState N K → Result (Turn (ColumnState N K × List ℕ × B.Message))
  unfolding fetch_if_not_pending load_entry advance
  load_turn indexes record_ s = do
    s1 ← fetch_if_not_pending S s
    l ← load_entry indexes record_ s1
    t ← advance S s1
    with_record l t

  -- The loop of loadColumn; `none` means that the fuel ran out.
  unfoldable pub load_loop :
      ℕ → List ℕ → B.Message → ColumnState N K → Option (Result (ColumnState N K × B.Message))
  unfolding load_turn
  load_loop zero indexes record_ s = none
  load_loop (suc fuel) indexes record_ s =
      repeat (λ t. load_loop fuel t.1 t.2 t.0) (λ t. (t.0, t.2)) (load_turn indexes record_ s)

  unfoldable pub load_column :
      ℕ → ColumnState N K → B.Message → Option (Result (ColumnState N K × B.Message))
  unfolding load_loop
  load_column fuel s record_ =
      load_loop fuel (replicate (S.max_repetition_level s.reader) 0) record_ s
