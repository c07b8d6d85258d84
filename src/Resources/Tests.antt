-- ===== src/Resources/Tests.antt =====
-- Tests of the resource manager, and the theorems at small inputs.
use graphics_engine.Common.{ok, ◌≡◌, refl, ◌≢◌, some, [], ◌∷◌}
use graphics_engine.Resources.Types.{
  Identity, loading, ready, unloading, ResourceHandle, ResourceOperation, Entry, new_entry,
}
use graphics_engine.Resources.Entries.{claimed}
use graphics_engine.Resources.Manager.{
  Manager, new_manager, request, validate, begin_load, publish, report_failure, unload, forget,
  try_acquire,
}
use graphics_engine.Resources.Manager.Calls.{requests, loads, finishes, run_calls}
use graphics_engine.Resources.Manager.Invariant.{
  IsConsistent, new_manager-IsConsistent, run_calls-IsConsistent,
}
use graphics_engine.Resources.Manager.Stale.{forgotten_stays_stale, superseded_operation}
use graphics_engine.Resources.Manager.Leases.{request_again, try_acquire-publish}

abbrev empty_manager : Manager
empty_manager = record { owner_id = 1; entries = []; identity_index = [] }

abbrev mesh : Identity
mesh = record { resource_class = 109 ∷ []; key = 97 ∷ [] }

abbrev handle_0 : ResourceHandle
handle_0 = record { owner_id = 1; slot_index = 0; generation = 1 }

abbrev operation_0 : ResourceOperation
operation_0 = record { handle = handle_0; generation = 1 }

-- The manager after the request, and after the begin of a loading.
abbrev requested : Manager
requested = record {
  owner_id = 1;
  entries = claimed mesh 5 new_entry ∷ [];
  identity_index = (mesh, 0) ∷ [];
}

abbrev loading_entry : Entry
loading_entry = record (claimed mesh 5 new_entry) { operation_generation = 1; state = loading }

abbrev loading_manager : Manager
loading_manager = record requested { entries = loading_entry ∷ [] }

requests_first : request mesh 5 empty_manager ≡ ok (handle_0, requested)
unfolding request
requests_first = refl

begins_first : begin_load handle_0 5 requested ≡ ok (operation_0, loading_manager)
unfolding begin_load
begins_first = refl

request_again_example : request mesh 5 requested ≡ ok (handle_0, requested)
request_again_example = request_again mesh 5 empty_manager requested handle_0 requests_first

new_manager_1 : new_manager 1 ≡ ok empty_manager
unfolding new_manager
new_manager_1 = refl

run_calls-IsConsistent_example :
    IsConsistent (run_calls (requests mesh 5 ∷ loads handle_0 5 ∷ []) empty_manager)
run_calls-IsConsistent_example =
    run_calls-IsConsistent (requests mesh 5 ∷ loads handle_0 5 ∷ []) empty_manager
      (new_manager-IsConsistent 1 empty_manager new_manager_1)

forgets_first : (forget handle_0 5 requested).0 ≡ ok tt
unfolding forget
forgets_first = refl

forgotten_stays_stale_example :
    validate handle_0 5 (run_calls (requests mesh 5 ∷ []) (forget handle_0 5 requested).1)
    ≢ ok (claimed mesh 5 new_entry)
forgotten_stays_stale_example =
    forgotten_stays_stale handle_0 5 requested forgets_first (requests mesh 5 ∷ []) 5
      (claimed mesh 5 new_entry)

abbrev unloading_manager : Manager
unloading_manager = record requested {
  entries =
      record loading_entry {
        cancelled_operation_generation = 1;
        operation_generation = 2;
        state = unloading;
      }
      ∷ [];
}

unloads_first : unload handle_0 5 (run_calls [] loading_manager) ≡ ok unloading_manager
unfolding unload run_calls
unloads_first = refl

superseded_operation_example :
    (publish operation_0 5 (some 3) (run_calls (finishes handle_0 5 ∷ []) unloading_manager)
      ≢ ok requested)
    × (report_failure operation_0 5 9 (run_calls (finishes handle_0 5 ∷ []) unloading_manager)
        ≢ ok requested)
superseded_operation_example =
    superseded_operation handle_0 5 requested loading_manager unloading_manager operation_0 []
      (finishes handle_0 5 ∷ []) begins_first unloads_first 5 (some 3) 9 requested

abbrev published_manager : Manager
published_manager = record requested {
  entries =
      record loading_entry { published_version = 1; cpu_resource = some 3; state = ready } ∷ [];
}

publishes_first : publish operation_0 5 (some 3) loading_manager ≡ ok published_manager
unfolding publish
publishes_first = refl

try_acquire-publish_example :
    try_acquire handle_0 published_manager
    ≡ ok (some (record { handle = handle_0; version = 1; resource = 3 }))
try_acquire-publish_example =
    try_acquire-publish operation_0 5 3 loading_manager published_manager publishes_first
