-- ===== src/Resources/Manager/Calls.antt =====
-- resources/resource_manager.cpp: histories of calls, and what each call does to an entry.
use graphics_engine.Common.{
  ltb, ◌==◌, if◌then◌else◌, max_u64, ==_iff, Bool-cases, Option-cases, length, get_or, set, Result,
  err, ok, Result-cases, ℕ, zero, suc, ◌+◌, ◌<◌, ◌≡◌, refl, ◌≢◌, ◌⊎◌, inl, inr, true, ◌&&◌, Option,
  none, List, [], ◌∷◌, arith,
}
use graphics_engine.Resources.Types.{
  Identity, identity_is_valid, unloaded, state_eq, ResourceHandle, handle_is_valid,
  ResourceOperation, Entry, new_entry,
}
use graphics_engine.Resources.Entries.{
  begin_loading, publish_ready, fail, request_unload, complete_unload, emptied,
}
use graphics_engine.Resources.Manager.{
  Manager, find, erase, entry_at, claim, request, validate_untyped, validate, put, on_entry,
  begin_load, publish, report_failure, unload, finish_unload, forget,
}

pub data Call : Type 0 where
  requests : Identity → ℕ → Call
  loads : ResourceHandle → ℕ → Call
  publishes : ResourceOperation → ℕ → Option ℕ → Call
  fails : ResourceOperation → ℕ → ℕ → Call
  unloads : ResourceHandle → ℕ → Call
  finishes : ResourceHandle → ℕ → Call
  forgets : ResourceHandle → ℕ → Call

-- A call that throws leaves the manager as it was, but for `forget`, which says what it leaves.
abbrev pub or_unchanged : Manager → Result Manager → Manager
or_unchanged m (ok changed) = changed
or_unchanged m (err thrown) = m

abbrev pub changed_by {ℓ} : {A : Type ℓ} → Manager → Result (A × Manager) → Manager
changed_by m (ok (value, changed)) = changed
changed_by m (err thrown) = m

unfoldable pub after_call : Call → Manager → Manager
unfolding request begin_load publish report_failure unload finish_unload forget
after_call (requests identity type) m = changed_by m (request identity type m)
after_call (loads h type) m = changed_by m (begin_load h type m)
after_call (publishes o type resource) m = or_unchanged m (publish o type resource m)
after_call (fails o type error) m = or_unchanged m (report_failure o type error m)
after_call (unloads h type) m = or_unchanged m (unload h type m)
after_call (finishes h type) m = or_unchanged m (finish_unload h type m)
after_call (forgets h type) m = (forget h type m).1

unfoldable pub run_calls : List Call → Manager → Manager
unfolding after_call
run_calls [] m = m
run_calls (c ∷ cs) m = run_calls cs (after_call c m)

-- A step of one entry: by an operation on an occupied one, by `Forget`, or by `Request`.
pub data Change (e : Entry) : Entry → Type 0 where
  begins : (f : Entry) (g : ℕ) → begin_loading e ≡ ok (f, g) → Change e f
  becomes_ready : (f : Entry) (g : ℕ) (p : Option ℕ) → publish_ready g p e ≡ ok f → Change e f
  becomes_failed : (f : Entry) (g x : ℕ) → fail g x e ≡ ok f → Change e f
  starts_unload : (f : Entry) → request_unload e ≡ ok f → Change e f
  ends_unload : (f : Entry) → complete_unload e ≡ ok f → Change e f

abbrev pub SamePlace : Entry → Entry → Type 0
SamePlace e f =
    (f.occupied ≡ e.occupied)
    × ((f.identity ≡ e.identity) × ((f.type_index ≡ e.type_index) × (f.generation ≡ e.generation)))

pub Change-SamePlace : {e f : Entry} → Change e f → SamePlace e f
unfolding begin_loading publish_ready fail request_unload complete_unload
Change-SamePlace {e} (begins f g h) = ground (arith, h)
Change-SamePlace {e} (becomes_ready f g p h) = ground (arith, h)
Change-SamePlace {e} (becomes_failed f g x h) = ground (arith, h)
Change-SamePlace {e} (starts_unload f h) = ground (arith, h)
Change-SamePlace {e} (ends_unload f h) = ground (arith, h)

-- What a valid handle says of its entry.
pub record IsCurrent (h : ResourceHandle) (type : ℕ) (m : Manager) (e : Entry) : Type 0 where
  pub owned : h.owner_id ≡ m.owner_id
  pub in_range : h.slot_index < length m.entries
  pub is_occupied : e.occupied ≡ true
  pub same_generation : e.generation ≡ h.generation
  pub same_type : e.type_index ≡ type
  pub is_entry : e ≡ entry_at m h.slot_index

pub validate-IsCurrent :
    (h : ResourceHandle) (type : ℕ) (m : Manager) (e : Entry)
    → validate h type m ≡ ok e
    → IsCurrent h type m e
unfolding validate validate_untyped handle_is_valid
validate-IsCurrent h type m e v = record {
  owned = ground (arith, v);
  in_range = ground (arith, v);
  is_occupied = ground (arith, v);
  same_generation = ground (arith, v);
  same_type = ground (arith, v);
  is_entry = ground (arith, v);
}

pub get_or-set :
    (xs : List Entry) (i j : ℕ) (v d : Entry)
    → get_or (set xs i v) j d ≡ (if i == j && ltb i (length xs) then v else get_or xs j d)
get_or-set [] i j v d = ground arith
get_or-set (x ∷ xs) zero zero v d = ground arith
get_or-set (x ∷ xs) zero (suc j) v d = ground arith
get_or-set (x ∷ xs) (suc i) zero v d = ground arith
get_or-set (x ∷ xs) (suc i) (suc j) v d = ground (arith, get_or-set xs i j v d)

pub entry_at-put :
    (m : Manager) (h : ResourceHandle) (type : ℕ) (e f : Entry)
    → IsCurrent h type m e
    → (j : ℕ)
    → get_or (set m.entries h.slot_index f) j new_entry
      ≡ (if h.slot_index == j then f else entry_at m j)
entry_at-put m h type e f current j =
    ground (arith, get_or-set m.entries h.slot_index j f new_entry, current.in_range)

-- What a call did to the manager.
pub data Effect (m : Manager) : Manager → Type 0 where
  nothing : Effect m m
  operates :
      (h : ResourceHandle) (type : ℕ) (e f : Entry)
      → IsCurrent h type m e
      → Change e f
      → Effect m (put h f m)
  claims :
      (identity : Identity) (type : ℕ) (k : ℕ × ℕ) (m' : Manager)
      → identity_is_valid identity ≡ true
      → find identity m.identity_index ≡ none
      → claim identity type m ≡ ok (k, m')
      → Effect m m'
  releases :
      (h : ResourceHandle) (type : ℕ) (e f : Entry)
      → IsCurrent h type m e
      → state_eq e.state unloaded ≡ true
      → (f ≡ emptied e) × (e.generation ≡ max_u64)
        ⊎ (f ≡ record (emptied e) { generation = e.generation + 1 }) × (e.generation ≢ max_u64)
      → Effect m (put h f (record m { identity_index = erase e.identity m.identity_index }))

on_entry-Effect :
    (h : ResourceHandle) (type : ℕ) (change : Entry → Result Entry) (m : Manager)
    → ((e f : Entry) → change e ≡ ok f → Change e f)
    → Effect m (or_unchanged m (on_entry h type change m))
unfolding on_entry
on_entry-Effect h type change m law = elim (Result-cases (validate h type m)) [
  | inl (thrown, v) ↦ rw v nothing
  | inr (e, v) ↦ elim (Result-cases (change e)) [
    | inl (thrown, c) ↦ rw (v, c) nothing
    | inr (f, c) ↦ rw (v, c) (operates h type e f (validate-IsCurrent h type m e v) (law e f c))
  ]
]

begin_load-Effect :
    (h : ResourceHandle) (type : ℕ) (m : Manager) → Effect m (changed_by m (begin_load h type m))
unfolding begin_load
begin_load-Effect h type m = elim (Result-cases (validate h type m)) [
  | inl (thrown, v) ↦ rw v nothing
  | inr (e, v) ↦ elim (Result-cases (begin_loading e)) [
    | inl (thrown, c) ↦ rw (v, c) nothing
    | inr ((f, g), c) ↦
        rw (v, c) (operates h type e f (validate-IsCurrent h type m e v) (begins f g c))
  ]
]

forget-Effect : (h : ResourceHandle) (type : ℕ) (m : Manager) → Effect m (forget h type m).1
unfolding forget
forget-Effect h type m = elim (Result-cases (validate h type m)) [
  | inl (thrown, v) ↦ rw (v, forget) nothing
  | inr (e, v) ↦ elim (Bool-cases (state_eq e.state unloaded)) [
    | inr n ↦ rw (v, forget) (rw n nothing)
    | inl y ↦ elim (Bool-cases (e.generation == max_u64)) [
      | inl full ↦
          rw (v, forget)
            (rw (y, full)
              (releases h type e (emptied e) (validate-IsCurrent h type m e v) y
                (inl (refl, (==_iff e.generation max_u64).0 full))))
      | inr room ↦
          rw (v, forget)
            (rw (y, room)
              (releases h type e (record (emptied e) { generation = e.generation + 1 })
                (validate-IsCurrent h type m e v) y (inr (refl, λ q. ground arith))))
    ]
  ]
]

request-Effect :
    (identity : Identity) (type : ℕ) (m : Manager)
    → Effect m (changed_by m (request identity type m))
unfolding request
request-Effect identity type m = elim (Bool-cases (identity_is_valid identity)) [
  | inr n ↦ rw n nothing
  | inl y ↦ elim (Option-cases (find identity m.identity_index)) [
    | inr (slot, f) ↦ elim (Bool-cases ((entry_at m slot).type_index == type)) [
      | inl same ↦ rw (y, f) (rw same nothing)
      | inr other ↦ rw (y, f) (rw other nothing)
    ]
    | inl f ↦ elim (Result-cases (claim identity type m)) [
      | inl (thrown, c) ↦ rw (y, f) (rw c nothing)
      | inr ((k, m'), c) ↦ rw (y, f) (rw c (claims identity type k m' y f c))
    ]
  ]
]

pub after_call-Effect : (c : Call) (m : Manager) → Effect m (after_call c m)
unfolding after_call publish report_failure unload finish_unload
after_call-Effect (requests identity type) m = request-Effect identity type m
after_call-Effect (loads h type) m = begin_load-Effect h type m
after_call-Effect (publishes o type resource) m =
    on_entry-Effect o.handle type (publish_ready o.generation resource) m
      (λ e f h. becomes_ready f o.generation resource h)
after_call-Effect (fails o type error) m =
    on_entry-Effect o.handle type (fail o.generation error) m
      (λ e f h. becomes_failed f o.generation error h)
after_call-Effect (unloads h type) m =
    on_entry-Effect h type request_unload m (λ e f q. starts_unload f q)
after_call-Effect (finishes h type) m =
    on_entry-Effect h type complete_unload m (λ e f q. ends_unload f q)
after_call-Effect (forgets h type) m = forget-Effect h type m
