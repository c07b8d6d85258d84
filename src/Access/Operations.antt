-- ===== src/Access/Operations.antt =====
-- ecs/internal/access_coordinator.cpp: the operations that a coordinator keeps, their conflicts, and
-- the scans over them that run under its lock.
pub mod Rules
pub mod Conflicts
pub mod Admission
pub mod Scans
use graphics_engine.Common.{
  ℕ, zero, suc, ◌+◌, Bool, true, false, not, ◌&&◌, ◌||◌, Option, none, some, List, [], ◌∷◌, ◌++◌,
  any, length, get_or, set, ◌==◌, if◌then◌else◌,
}
use graphics_engine.Access.Types.{DataDomainKey, AccessScope, Footprint, domain_eq, is_read}
use graphics_engine.Access.Scopes.{overlaps}

pub record OperationKey : Type 0 where
  pub owner : ℕ
  pub sequence : ℕ

pub data OperationStatus : Type 0 where
  waiting queued running completed failed cancelled : OperationStatus

pub record AccessConflict : Type 0 where
  pub predecessor : OperationKey
  pub domain : DataDomainKey
  pub earlier_scope : AccessScope
  pub later_scope : AccessScope

-- An exception is known by a number.
pub record Operation : Type 0 where
  pub footprints : List Footprint
  pub has_function : Bool
  pub dependencies : List ℕ
  pub conflicts : List AccessConflict
  pub status : OperationStatus
  pub failure : Option ℕ
  pub is_retiring : Bool

abbrev pub is_waiting : OperationStatus → Bool
is_waiting waiting = true
is_waiting _ = false

abbrev pub is_queued : OperationStatus → Bool
is_queued queued = true
is_queued _ = false

abbrev pub is_running : OperationStatus → Bool
is_running running = true
is_running _ = false

abbrev pub is_completed : OperationStatus → Bool
is_completed completed = true
is_completed _ = false

abbrev pub is_terminal : OperationStatus → Bool
is_terminal completed = true
is_terminal failed = true
is_terminal cancelled = true
is_terminal _ = false

abbrev pub holds_access : Operation → Bool
holds_access o = not (is_terminal o.status) || o.has_function || o.is_retiring

abbrev pub default_operation : Operation
default_operation = record {
  footprints = [];
  has_function = false;
  dependencies = [];
  conflicts = [];
  status = waiting;
  failure = none;
  is_retiring = false;
}

abbrev pub operation_at : List Operation → ℕ → Operation
operation_at os i = get_or os i default_operation

abbrev pub with_status : OperationStatus → Operation → Operation
with_status s o = record o { status = s }

-- The test on a pair of footprints in `Schedule`.
abbrev pub accesses_conflict : Footprint → Footprint → Bool
accesses_conflict l r =
    domain_eq l.domain r.domain
    && (not (is_read l.requirement) || not (is_read r.requirement))
    && overlaps l.scope r.scope

abbrev pub make_key : ℕ → ℕ → OperationKey
make_key owner index = record { owner = owner; sequence = index + 1 }

module _ (owner index : ℕ) where
  unfoldable pub conflicts_of : Footprint → List Footprint → List AccessConflict
  conflicts_of left [] = []
  conflicts_of left (right ∷ rights) =
      let rest = conflicts_of left rights in
      let found : AccessConflict = record {
        predecessor = make_key owner index;
        domain = left.domain;
        earlier_scope = left.scope;
        later_scope = right.scope;
      } in
      if accesses_conflict left right then found ∷ rest else rest

  unfoldable pub conflicts_with : List Footprint → List Footprint → List AccessConflict
  unfolding conflicts_of
  conflicts_with [] rights = []
  conflicts_with (left ∷ lefts) rights = conflicts_of left rights ++ conflicts_with lefts rights

-- One dependency is pushed with every conflict.
abbrev pub repeat_for : ℕ → List AccessConflict → List ℕ
repeat_for index [] = []
repeat_for index (c ∷ cs) = index ∷ repeat_for index cs

-- The loop over the earlier operations, from the one at `index` on.
pub record Found : Type 0 where
  pub predecessors : List ℕ
  pub found_conflicts : List AccessConflict

unfoldable pub find_conflicts : ℕ → ℕ → List Operation → List Footprint → Found
unfolding conflicts_with
find_conflicts owner index [] footprints = record { predecessors = []; found_conflicts = [] }
find_conflicts owner index (o ∷ os) footprints =
    let rest = find_conflicts owner (suc index) os footprints in
    let here = conflicts_with owner index o.footprints footprints in
    if holds_access o
    then (record {
      predecessors = repeat_for index here ++ rest.predecessors;
      found_conflicts = here ++ rest.found_conflicts;
    })
    else rest

-- What the scan of `Progress` decides on a waiting operation.
pub data Verdict : Type 0 where
  keep drop reserve : Verdict

-- A predecessor that failed or was cancelled decides at once.
abbrev pub judge_by : OperationStatus → Verdict → Verdict
judge_by failed rest = drop
judge_by cancelled rest = drop
judge_by _ rest = rest

unfoldable pub judge : List Operation → List ℕ → Bool → Verdict
judge os [] ready = if ready then reserve else keep
judge os (p ∷ ps) ready =
    let rest = judge os ps (ready && is_completed (operation_at os p).status) in
    judge_by (operation_at os p).status rest

unfoldable pub verdict_at : List Operation → ℕ → Verdict
unfolding judge
verdict_at os i =
    let o = operation_at os i in if is_waiting o.status then judge os o.dependencies true else keep

abbrev pub settle : Verdict → List Operation → ℕ → List Operation
settle keep os i = os
settle drop os i = set os i (with_status cancelled (operation_at os i))
settle reserve os i = set os i (with_status queued (operation_at os i))

abbrev pub choose :
    Verdict → ℕ → List Operation → List Operation × Option ℕ → List Operation × Option ℕ
choose reserve i os rest = (os, some i)
choose keep i os rest = rest
choose drop i os rest = rest

-- The scan of `Progress` over `left` operations from the one at `i` on: an operation after a failed
-- or cancelled one is cancelled, and the first that is ready is reserved and ends the scan.
unfoldable pub scan : ℕ → ℕ → List Operation → List Operation × Option ℕ
unfolding verdict_at
scan zero i os = (os, none)
scan (suc left) i os =
    let verdict = verdict_at os i in
    let settled = settle verdict os i in choose verdict i settled (scan left (suc i) settled)

-- The first terminal operation whose function is still held.
unfoldable pub find_retired : ℕ → List Operation → Option ℕ
find_retired i [] = none
find_retired i (o ∷ os) =
    let rest = find_retired (suc i) os in
    if is_terminal o.status && o.has_function then some i else rest

-- What `Stop` does to each operation.
unfoldable pub cancel_pending : List Operation → List Operation
cancel_pending [] = []
cancel_pending (o ∷ os) =
    (if is_running o.status || is_terminal o.status then o else with_status cancelled o)
    ∷ cancel_pending os
