-- ===== src/Alert/Evaluator/Scopes.antt =====
-- What the maps of an evaluation hold for a scope, and what its loops do to the state of one.
use ripestream.Base.{
  Bool, true, false, ◌&&◌, ◌||◌, List, [], ◌∷◌, Option, none, some, String, Bytes, if◌then◌else◌,
  ◌≡◌, refl, ◌∙◌, arith, inl, inr, Bool-cases,
}
use ripestream.Base.Assoc.{Dict, lookup, put, is_some, member, lookup-put}
use ripestream.Base.Int.{ℤ}
use ripestream.Base.Float.{Float}
use ripestream.Base.Text.{bytes_eq, bytes_eq_iff}
use ripestream.Alert.Rule.{Rule, compare}
use ripestream.Alert.Database.{
  State, Event, Database, find_state, replace_row, upsert_state, add_event,
}
use ripestream.Alert.Evaluator.{ScopeRow, is_firing, firing_map, prior_map, each}

-- `a`, or else `b`.
abbrev pub or_else {ℓ} : {A : Type ℓ} → Option A → Option A → Option A
or_else none b = b
or_else (some a) b = some a

or_else_if {ℓ} :
    {A : Type ℓ} (o : Option A) (b : Bool) (a : A) (d : Option A)
    → or_else o (if b then some a else d) ≡ or_else (or_else o (if b then some a else none)) d
or_else_if none true a d = refl
or_else_if none false a d = refl
or_else_if (some x) b a d = refl

or_else-none {ℓ} : {A : Type ℓ} (o d : Option A) → or_else o d ≡ or_else (or_else o none) d
or_else-none none d = refl
or_else-none (some a) d = refl

either_none {ℓ} :
    {A : Type ℓ} (b c : Bool) (t o : Option A)
    → (if c then or_else t (if b then or_else t o else o) else (if b then or_else t o else o))
      ≡ (if b || c then or_else t o else o)
either_none true true none o = refl
either_none true true (some t) o = refl
either_none true false t o = refl
either_none false true t o = refl
either_none false false t o = refl

if_same : {A : Type 0} (b : Bool) (x : A) → x ≡ (if b then x else x)
if_same true x = refl
if_same false x = refl

pub was_some : (o : Option String) → is_firing o ≡ true → is_some o ≡ true
was_some none h = ground arith
was_some (some s) h = refl

pub or_else_right : {A : Type 0} (o : Option A) → or_else o none ≡ o
or_else_right none = refl
or_else_right (some a) = refl

-- The value of an option, or else `d`.
abbrev pub get_or {ℓ} : {A : Type ℓ} → A → Option A → A
get_or d none = d
get_or d (some a) = a

pub get_or_if {ℓ} :
    {A : Type ℓ} (d a : A) (b : Bool) (o : Option A)
    → get_or (if b then a else d) o ≡ get_or d (or_else o (if b then some a else none))
get_or_if d a true none = refl
get_or_if d a false none = refl
get_or_if d a b (some x) = refl

pub if-get_or {ℓ} :
    {A : Type ℓ} (d a : A) (b : Bool) (o : Option A)
    → (if b then a else get_or d o) ≡ get_or d (or_else (if b then some a else none) o)
if-get_or d a true o = refl
if-get_or d a false o = refl

-- The order in which a map is visited reaches exactly its keys.
abbrev pub Visits : (List Bytes → List Bytes) → Type 0
Visits visit = (ks : List Bytes) (k : Bytes) → member k (visit ks) ≡ member k ks

module _ {fl : Float} {C : Type 0} where
  -- The last row of a scope that meets the threshold of the rule.
  abbrev pub latest : Rule fl → Bytes → List (ScopeRow fl C) → Option (ScopeRow fl C)
  latest r key [] = none
  latest r key (row ∷ rows) =
      let here = compare fl r.comparison row.value r.threshold && bytes_eq row.scope_key key in
      or_else (latest r key rows) (if here then some row else none)

  -- Whether the last stored state of a scope is a firing one.
  abbrev pub status_before : Bytes → List (State fl C) → Option String
  status_before key [] = none
  status_before key (st ∷ sts) =
      or_else (status_before key sts) (if bytes_eq st.scope_key key then some st.status else none)

  pub lookup-firing_map :
      (r : Rule fl) (key : Bytes) (m : Dict (ScopeRow fl C)) (rows : List (ScopeRow fl C))
      → lookup key (firing_map m r rows) ≡ or_else (latest r key rows) (lookup key m)
  unfolding firing_map
  lookup-firing_map r key m [] = refl
  lookup-firing_map r key m (row ∷ rows) =
      elim (Bool-cases (compare fl r.comparison row.value r.threshold)) [
        | inl c ↦ rw c (
            lookup-firing_map r key (put m row.scope_key row) rows
            ∙ rw (lookup-put m key row.scope_key row)
                (or_else_if (latest r key rows) (bytes_eq row.scope_key key) row (lookup key m)))
        | inr c ↦
            rw c (lookup-firing_map r key m rows ∙ or_else-none (latest r key rows) (lookup key m))
      ]

  pub lookup-prior_map :
      (key : Bytes) (m : Dict String) (sts : List (State fl C))
      → lookup key (prior_map m sts) ≡ or_else (status_before key sts) (lookup key m)
  unfolding prior_map
  lookup-prior_map key m [] = refl
  lookup-prior_map key m (st ∷ sts) =
      lookup-prior_map key (put m st.scope_key st.status) sts
      ∙ rw (lookup-put m key st.scope_key st.status)
          (or_else_if (status_before key sts) (bytes_eq st.scope_key key) st.status (lookup key m))

  find_state-replace_row :
      (sts : List (State fl C)) (st : State fl C) (key : Bytes)
      → find_state st.rule_id key (replace_row sts st)
        ≡ (if bytes_eq st.scope_key key then some st else find_state st.rule_id key sts)
  unfolding find_state replace_row
  find_state-replace_row [] st key = ground arith
  find_state-replace_row (old ∷ sts) st key = ground (
    arith,
    find_state-replace_row sts st key,
    bytes_eq_iff old.scope_key st.scope_key,
    bytes_eq_iff old.scope_key key,
    bytes_eq_iff st.scope_key key,
  )

  -- A loop whose round at a key changes the state of that key alone.
  pub find_state-each :
      (id : ℤ) (target : Bytes → Option (State fl C)) (step : Database fl C → Bytes → Database fl C)
      → ((db : Database fl C) (j k : Bytes)
          → find_state id k (step db j).states ≡ (
              if bytes_eq j k
              then or_else (target k) (find_state id k db.states)
              else find_state id k db.states))
      → (db : Database fl C) (ks : List Bytes) (k : Bytes)
      → find_state id k (each step db ks).states ≡ (
          if member k ks
          then or_else (target k) (find_state id k db.states)
          else find_state id k db.states)
  find_state-each id target step h db [] k = refl
  find_state-each id target step h db (j ∷ ks) k =
      rw (find_state-each id target step h (step db j) ks k, h db j k)
        (either_none (bytes_eq j k) (member k ks) (target k) (find_state id k db.states))

  pub states-add_event :
      (ok : Bool) (db : Database fl C) (ev : Event fl C) → (add_event ok db ev).states ≡ db.states
  states-add_event false db ev = refl
  states-add_event true db ev = refl

  pub find_state-upsert_state :
      (ok : Bool) (db : Database fl C) (st : State fl C) (k : Bytes)
      → find_state st.rule_id k (upsert_state ok db st).states ≡ (
          if bytes_eq st.scope_key k
          then or_else (if ok then some st else none) (find_state st.rule_id k db.states)
          else find_state st.rule_id k db.states)
  find_state-upsert_state false db st k =
      if_same (bytes_eq st.scope_key k) (find_state st.rule_id k db.states)
  find_state-upsert_state true db st k = find_state-replace_row db.states st k
