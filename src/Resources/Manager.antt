-- ===== src/Resources/Manager.antt =====
-- resources/resource_manager.h and .cpp: `ResourceManager`. Every public method holds the lock of the
-- manager while it runs, so that a history is a sequence of calls. The identity index is an
-- association list.
pub mod Calls
pub mod Claims
pub mod Invariant
pub mod Stale
pub mod Leases
use graphics_engine.Common.{
  leb, ◌==◌, if◌then◌else◌, max_u64, u64, length, get_or, set, invalid_argument, invalid_state,
  Result, err, ok, throw_if, ◌>>=◌, ◌>>◌, ℕ, suc, ◌+◌, Bool, not, ◌||◌, Option, none, some, List,
  [], ◌∷◌, ◌++◌,
}
use graphics_engine.Resources.Types.{
  Identity, identity_eq, identity_is_valid, ResourceState, unloaded, ready, state_eq,
  ResourceHandle, handle_is_valid, ResourceOperation, ResourceLease, Entry, new_entry,
}
use graphics_engine.Resources.Entries.{
  begin_loading, publish_ready, fail, request_unload, complete_unload, emptied, claimed,
}

pub record Manager : Type 0 where
  pub owner_id : ℕ
  pub entries : List Entry
  pub identity_index : List (Identity × ℕ)

-- The counter of all managers goes in and comes out; it wraps.
unfoldable pub acquire_owner_id : ℕ → Result ℕ × ℕ
acquire_owner_id next = (if next == 0 then err invalid_state else ok next, u64 (next + 1))

unfoldable pub new_manager : ℕ → Result Manager
unfolding acquire_owner_id
new_manager next = (acquire_owner_id next).0 >>= λ id.
    ok (record { owner_id = id; entries = []; identity_index = [] })

unfoldable pub find : Identity → List (Identity × ℕ) → Option ℕ
find identity [] = none
find identity ((known, slot) ∷ rest) =
    let other = find identity rest in if identity_eq known identity then some slot else other

unfoldable pub erase : Identity → List (Identity × ℕ) → List (Identity × ℕ)
erase identity [] = []
erase identity ((known, slot) ∷ rest) =
    let kept = erase identity rest in
    if identity_eq known identity then kept else (known, slot) ∷ kept

abbrev pub entry_at : Manager → ℕ → Entry
entry_at m slot = get_or m.entries slot new_entry

-- The first entry that is free, or the number of entries.
unfoldable pub free_slot : List Entry → ℕ
free_slot [] = 0
free_slot (e ∷ es) = let next = suc (free_slot es) in if e.occupied then next else 0

abbrev pub with_slot : ℕ → List Entry → List Entry
with_slot slot entries = if slot == length entries then entries ++ new_entry ∷ [] else entries

-- The second half of `Request`, for an identity that is not in the index.
unfoldable pub claim : Identity → ℕ → Manager → Result ((ℕ × ℕ) × Manager)
unfolding free_slot
claim identity type m =
    let slot = free_slot m.entries in
    let entries = with_slot slot m.entries in
    let e = get_or entries slot new_entry in
    throw_if (e.generation == max_u64) invalid_state
    >> ok (
      (slot, e.generation + 1),
      record m {
        entries = set entries slot (claimed identity type e);
        identity_index = (identity, slot) ∷ m.identity_index;
      },
    )

abbrev pub found_or_claimed : Option ℕ → Identity → ℕ → Manager → Result ((ℕ × ℕ) × Manager)
found_or_claimed (some slot) identity type m =
    throw_if (not ((entry_at m slot).type_index == type)) invalid_argument
    >> ok ((slot, (entry_at m slot).generation), m)
found_or_claimed none identity type m = claim identity type m

abbrev pub typed_handle : Manager → ℕ × ℕ → ResourceHandle
typed_handle m (slot, generation) = record {
  owner_id = m.owner_id;
  slot_index = slot;
  generation = generation;
}

unfoldable pub request : Identity → ℕ → Manager → Result (ResourceHandle × Manager)
unfolding identity_is_valid find claim
request identity type m =
    throw_if (not (identity_is_valid identity)) invalid_argument
    >> (found_or_claimed (find identity m.identity_index) identity type m >>= λ (h, m').
        ok (typed_handle m h, m'))

unfoldable pub validate_untyped : ℕ → ℕ → ℕ → Manager → Result Entry
validate_untyped owner_id slot generation m = do
  throw_if (owner_id == 0 || not (owner_id == m.owner_id)) invalid_argument
  throw_if (leb (length m.entries) slot) invalid_argument
  throw_if (not (entry_at m slot).occupied || not ((entry_at m slot).generation == generation))
      invalid_state
  ok (entry_at m slot)

unfoldable pub validate : ResourceHandle → ℕ → Manager → Result Entry
unfolding handle_is_valid validate_untyped
validate h type m =
    let typed = validate_untyped h.owner_id h.slot_index h.generation m >>= λ e.
    throw_if (not (e.type_index == type)) invalid_argument >> ok e in
    let untyped = validate_untyped 0 h.slot_index h.generation m in
    if handle_is_valid h then typed else untyped

-- An operation on the entry of a handle.
abbrev pub put : ResourceHandle → Entry → Manager → Manager
put h e m = record m { entries = set m.entries h.slot_index e }

unfoldable pub on_entry : ResourceHandle → ℕ → (Entry → Result Entry) → Manager → Result Manager
unfolding validate
on_entry h type change m = do e ← validate h type m; changed ← change e; ok (put h changed m)

unfoldable pub begin_load : ResourceHandle → ℕ → Manager → Result (ResourceOperation × Manager)
unfolding validate begin_loading
begin_load h type m = do
  e ← validate h type m
  begun ← begin_loading e
  ok (record { handle = h; generation = begun.1 }, put h begun.0 m)

unfoldable pub publish : ResourceOperation → ℕ → Option ℕ → Manager → Result Manager
unfolding on_entry publish_ready
publish o type resource m = on_entry o.handle type (publish_ready o.generation resource) m

unfoldable pub report_failure : ResourceOperation → ℕ → ℕ → Manager → Result Manager
unfolding on_entry fail
report_failure o type error m = on_entry o.handle type (fail o.generation error) m

unfoldable pub unload : ResourceHandle → ℕ → Manager → Result Manager
unfolding on_entry request_unload
unload h type m = on_entry h type request_unload m

unfoldable pub finish_unload : ResourceHandle → ℕ → Manager → Result Manager
unfolding on_entry complete_unload
finish_unload h type m = on_entry h type complete_unload m

-- The state that `Forget` leaves and whether it throws: where the generations are used up, it throws
-- only after it has emptied the entry.
unfoldable pub forget : ResourceHandle → ℕ → Manager → Result (Unit {0}) × Manager
unfolding validate erase
forget h type m = elim (validate h type m) [
  | err thrown ↦ (err thrown, m)
  | ok e ↦
      let rest : Manager = record m { identity_index = erase e.identity m.identity_index } in
      if not (state_eq e.state unloaded)
      then (err invalid_state, m)
      else if e.generation == max_u64
      then (err invalid_state, put h (emptied e) rest)
      else (ok tt, put h (record (emptied e) { generation = e.generation + 1 }) rest)
]

unfoldable pub get_cpu_resource : ResourceHandle → ℕ → Manager → Result (Option ℕ)
unfolding validate
get_cpu_resource h type m =
    validate h type m >>= λ e. ok (if state_eq e.state ready then e.cpu_resource else none)

abbrev pub lease_of : ResourceHandle → Entry → ResourceState → Option ℕ → Option ResourceLease
lease_of h e ready (some resource) =
    some (record { handle = h; version = e.published_version; resource = resource })
lease_of h e _ _ = none

unfoldable pub try_acquire : ResourceHandle → Manager → Result (Option ResourceLease)
unfolding handle_is_valid validate_untyped
try_acquire h m =
    let found = validate_untyped h.owner_id h.slot_index h.generation m >>= λ e.
    ok (lease_of h e e.state e.cpu_resource) in
    if handle_is_valid h then found else ok none

unfoldable pub is_cancellation_requested : ResourceOperation → ℕ → Manager → Result Bool
unfolding validate
is_cancellation_requested o type m =
    validate o.handle type m >>= λ e. ok (e.cancelled_operation_generation == o.generation)

unfoldable pub get_state : ResourceHandle → ℕ → Manager → Result ResourceState
unfolding validate
get_state h type m = validate h type m >>= λ e. ok e.state

unfoldable pub get_identity : ResourceHandle → ℕ → Manager → Result Identity
unfolding validate
get_identity h type m = validate h type m >>= λ e. ok e.identity

unfoldable pub get_failure : ResourceHandle → ℕ → Manager → Result (Option ℕ)
unfolding validate
get_failure h type m = validate h type m >>= λ e. ok e.failure
