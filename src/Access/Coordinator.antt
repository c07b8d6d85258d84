-- ===== src/Access/Coordinator.antt =====
-- ecs/internal/access_coordinator.cpp: the coordinator's state and the critical sections of its
-- methods. One section runs under the coordinator's lock, so it is one step of the model; between two
-- sections of a method any other thread's sections may run.
pub mod Serial
pub mod Final
pub mod Sealed
use graphics_engine.Common.{
  ℕ, zero, suc, ◌+◌, ◌-◌, Bool, true, false, not, ◌&&◌, ◌||◌, Option, none, some, List, [], ◌∷◌,
  ◌++◌, ◌≡◌, any, length, get_or, set, Result, ok, err, ◌>>=◌, ◌>>◌, throw_if, invalid_argument,
  invalid_state, ◌==◌, ltb, leb, if◌then◌else◌, max_u64, sort_unique,
}
use graphics_engine.Access.Types.{DataDomainKey, Footprint, domain_eq}
use graphics_engine.Access.Scopes.{normalize_footprints}
use graphics_engine.Access.Operations.{
  OperationKey, OperationStatus, waiting, queued, running, completed, failed, cancelled, Operation,
  Found, AccessConflict, is_waiting, is_queued, is_running, is_terminal, holds_access,
  default_operation, operation_at, with_status, make_key, find_conflicts, scan, find_retired,
  cancel_pending,
}

-- A lifetime token is known by a number.
pub record Domain : Type 0 where
  pub key : DataDomainKey
  pub lifetime : Option ℕ

pub record Coordinator : Type 0 where
  pub owner : ℕ
  pub domains : List Domain
  pub operations : List Operation
  pub running_count : ℕ
  pub retiring_count : ℕ
  pub is_closed : Bool
  pub is_sealed : Bool
  pub is_seal_completed : Bool
  pub on_drained : Option ℕ
  pub has_failure : Bool

abbrev pub new_coordinator : ℕ → Coordinator
new_coordinator owner = record {
  owner = owner;
  domains = [];
  operations = [];
  running_count = 0;
  retiring_count = 0;
  is_closed = false;
  is_sealed = false;
  is_seal_completed = false;
  on_drained = none;
  has_failure = false;
}

-- The process-wide counter of owners gives the value and moves on.
abbrev pub create : ℕ → Result (Coordinator × ℕ)
create next_owner = do
  throw_if (next_owner == max_u64) invalid_state
  ok (new_coordinator next_owner, next_owner + 1)

abbrev pub put_operation : ℕ → Operation → Coordinator → Coordinator
put_operation i o c = record c { operations = set c.operations i o }

unfoldable pub resolve : Coordinator → OperationKey → Result ℕ
resolve c k = do
  throw_if (not (k.owner == c.owner) || k.sequence == 0 || ltb (length c.operations) k.sequence)
      invalid_argument
  ok (k.sequence - 1)

unfoldable pub resolve_all : Coordinator → List OperationKey → Result (List ℕ)
unfolding resolve
resolve_all c [] = ok []
resolve_all c (k ∷ ks) = do i ← resolve c k; rest ← resolve_all c ks; ok (i ∷ rest)

abbrev same_storage : DataDomainKey → Domain → Bool
same_storage key d = d.key.owner_id == key.owner_id && d.key.type_id == key.type_id

abbrev uses_domain : DataDomainKey → Operation → Bool
uses_domain key o = holds_access o && any (λ f. domain_eq f.domain key) o.footprints

-- The loop over the registered domains: the first of the same storage is replaced.
unfoldable pub replace_domain : List Operation → Domain → List Domain → Result (List Domain)
replace_domain os new [] = ok (new ∷ [])
replace_domain os new (d ∷ ds) =
    let rest = replace_domain os new ds in
    if same_storage new.key d
    then (do
      throw_if (leb new.key.generation d.key.generation) invalid_argument
      throw_if (any (uses_domain d.key) os) invalid_state
      ok (new ∷ ds))
    else (do replaced ← rest; ok (d ∷ replaced))

abbrev is_some : Option ℕ → Bool
is_some none = false
is_some (some x) = true

unfoldable pub register_domain : DataDomainKey → Option ℕ → Coordinator → Result Coordinator
unfolding replace_domain
register_domain key lifetime c = do
  throw_if (key.owner_id == 0 || key.type_id == 0 || key.generation == 0 || not (is_some lifetime))
      invalid_argument
  throw_if (c.is_closed || c.has_failure) invalid_state
  domains ← replace_domain c.operations (record { key = key; lifetime = lifetime }) c.domains
  ok (record c { domains = domains })

-- Every footprint names a registered domain.
unfoldable pub are_registered : List Domain → List Footprint → Bool
are_registered ds [] = true
are_registered ds (f ∷ fs) = any (λ d. domain_eq d.key f.domain) ds && are_registered ds fs

-- The operation that `Schedule` appends.
abbrev pub new_operation : List Footprint → List ℕ → Found → Operation
new_operation footprints dependencies found = record {
  footprints = footprints;
  has_function = true;
  dependencies = sort_unique (dependencies ++ found.predecessors);
  conflicts = found.found_conflicts;
  status = waiting;
  failure = none;
  is_retiring = false;
}

abbrev pub append_operation : Operation → Coordinator → Coordinator
append_operation o c = record c { operations = c.operations ++ o ∷ [] }

-- The locked part of `Schedule`.
unfoldable pub admit :
    List Footprint → List OperationKey → Coordinator → Result (OperationKey × Coordinator)
unfolding are_registered resolve_all find_conflicts
admit footprints keys c = do
  throw_if (c.is_closed || c.has_failure) invalid_state
  throw_if (not (are_registered c.domains footprints)) invalid_argument
  dependencies ← resolve_all c keys
  throw_if (length c.operations == max_u64) invalid_state
  let found = find_conflicts c.owner 0 c.operations footprints
  let o = new_operation footprints dependencies found
  ok (make_key c.owner (length c.operations), append_operation o c)

unfoldable pub schedule :
    List Footprint → Bool → List OperationKey → Coordinator → Result (OperationKey × Coordinator)
unfolding admit
schedule footprints has_function keys c = do
  throw_if (not has_function) invalid_argument
  normal ← normalize_footprints footprints
  admit normal keys c

-- The locked part of `Progress`, and the operation that it hands to the task system.
unfoldable pub progress : Coordinator → Coordinator × Option ℕ
unfolding scan
progress c =
    let (os, ready) = scan (length c.operations) 0 c.operations in
    (record c { operations = os }, ready)

-- The task system refused the operation: the handler in `Progress`.
unfoldable pub submit_failed : ℕ → ℕ → Coordinator → Coordinator
submit_failed i fault c =
    let o = operation_at c.operations i in
    if is_queued o.status
    then record (put_operation i (record o { status = failed; failure = some fault }) c) {
      has_failure = true;
    }
    else c

-- `Run` up to the call of the function: whether it goes on, and the state.
unfoldable pub begin_run : ℕ → Coordinator → Coordinator × Bool
begin_run i c =
    let o = operation_at c.operations i in
    if is_queued o.status
    then (
      record (put_operation i (record o { status = running; has_function = false }) c) {
        running_count = c.running_count + 1;
      },
      true,
    )
    else (c, false)

abbrev pub outcome_of : Option ℕ → OperationStatus
outcome_of none = completed
outcome_of (some fault) = failed

-- `Run` after the function returned or threw.
unfoldable pub end_run : ℕ → Option ℕ → Coordinator → Coordinator
end_run i fault c =
    let o = operation_at c.operations i in
    record (put_operation i (record o { status = outcome_of fault; failure = fault }) c) {
      has_failure = c.has_failure || is_some fault;
      running_count = c.running_count - 1;
    }

abbrev pub begin_retire_at : Option ℕ → Coordinator → Coordinator
begin_retire_at none c = c
begin_retire_at (some i) c =
    let o = operation_at c.operations i in
    record (put_operation i (record o { has_function = false; is_retiring = true }) c) {
      retiring_count = c.retiring_count + 1;
    }

-- The locked parts of `ReleaseTerminalFunctions`, before and after the function is destroyed.
unfoldable pub begin_retire : Coordinator → Coordinator
unfolding find_retired
begin_retire c = begin_retire_at (find_retired 0 c.operations) c

unfoldable pub end_retire : ℕ → Coordinator → Coordinator
end_retire i c =
    let o = operation_at c.operations i in
    record (put_operation i (record o { is_retiring = false }) c) {
      retiring_count = c.retiring_count - 1;
    }

abbrev pub is_drained : Coordinator → Bool
is_drained c = c.running_count == 0 && c.retiring_count == 0 && not (any holds_access c.operations)

-- `CompleteSeal`, with the callback that it runs.
unfoldable pub complete_seal : Coordinator → Coordinator × Option ℕ
complete_seal c =
    if not c.is_sealed || c.is_seal_completed || not (is_drained c)
    then (c, none)
    else (record c { is_seal_completed = true; domains = []; on_drained = none }, c.on_drained)

abbrev pub cancel_at : ℕ → Coordinator → Coordinator × Bool
cancel_at i c =
    let o = operation_at c.operations i in
    if is_waiting o.status || is_queued o.status
    then (put_operation i (with_status cancelled o) c, true)
    else (c, false)

-- The locked part of `Cancel`, with its answer.
unfoldable pub cancel : OperationKey → Coordinator → Result (Coordinator × Bool)
unfolding resolve
cancel k c = do i ← resolve c k; ok (cancel_at i c)

unfoldable pub get_status : OperationKey → Coordinator → Result OperationStatus
unfolding resolve
get_status k c = do i ← resolve c k; ok (operation_at c.operations i).status

unfoldable pub get_error : OperationKey → Coordinator → Result (Option ℕ)
unfolding resolve
get_error k c = do i ← resolve c k; ok (operation_at c.operations i).failure

abbrev make_keys : ℕ → List ℕ → List OperationKey
make_keys owner [] = []
make_keys owner (i ∷ is) = make_key owner i ∷ make_keys owner is

unfoldable pub get_dependencies : OperationKey → Coordinator → Result (List OperationKey)
unfolding resolve
get_dependencies k c = do
  i ← resolve c k
  ok (make_keys c.owner (operation_at c.operations i).dependencies)

unfoldable pub get_conflicts : OperationKey → Coordinator → Result (List AccessConflict)
unfolding resolve
get_conflicts k c = do i ← resolve c k; ok (operation_at c.operations i).conflicts

unfoldable pub seal : Option ℕ → Coordinator → Result Coordinator
seal callback c = do
  throw_if c.is_closed invalid_state
  ok (record c { is_closed = true; is_sealed = true; on_drained = callback })

-- The first locked part of `Stop`, which only a thread of the host may call.
unfoldable pub stop : Bool → Coordinator → Result Coordinator
unfolding cancel_pending
stop is_worker c = do
  throw_if is_worker invalid_state
  ok (record c { is_closed = true; operations = cancel_pending c.operations })

-- What `Stop` waits for.
abbrev pub has_stopped : Coordinator → Bool
has_stopped c = c.running_count == 0 && c.retiring_count == 0

-- The last loop of `Stop`: the next token that is still held is released.
unfoldable pub release_lifetime : List Domain → List Domain
release_lifetime [] = []
release_lifetime (d ∷ ds) =
    let rest = release_lifetime ds in
    if is_some d.lifetime then record d { lifetime = none } ∷ ds else d ∷ rest
