-- ===== src/Resources/Entries.antt =====
-- resources/resource_manager.cpp: what the operations of the manager do to one entry.
use graphics_engine.Common.{
  ◌==◌, if◌then◌else◌, max_u64, invalid_argument, invalid_state, Result, ok, throw_if, ◌>>◌, ℕ, ◌+◌,
  Bool, true, false, not, ◌&&◌, ◌||◌, Option, none, some,
}
use graphics_engine.Resources.Types.{
  Identity, unloaded, loading, ready, failed, unloading, state_eq, void_type, no_identity, Entry,
}

unfoldable pub begin_loading : Entry → Result (Entry × ℕ)
begin_loading e = do
  throw_if (not (state_eq e.state unloaded) && not (state_eq e.state failed)) invalid_state
  throw_if (e.operation_generation == max_u64) invalid_state
  ok (
    record e {
      operation_generation = e.operation_generation + 1;
      cancelled_operation_generation = 0;
      state = loading;
      cpu_resource = none;
      failure = none;
    },
    e.operation_generation + 1,
  )

abbrev pub is_null : Option ℕ → Bool
is_null none = true
is_null (some payload) = false

-- No loading is under way, or it is another operation's.
abbrev pub has_no_loading : Entry → ℕ → Bool
has_no_loading e operation =
    not (state_eq e.state loading) || not (e.operation_generation == operation)

unfoldable pub publish_ready : ℕ → Option ℕ → Entry → Result Entry
publish_ready operation resource e = do
  throw_if (is_null resource) invalid_argument
  throw_if (has_no_loading e operation) invalid_state
  throw_if (e.published_version == max_u64) invalid_state
  ok (record e {
    published_version = e.published_version + 1;
    cpu_resource = resource;
    failure = none;
    state = ready;
  })

unfoldable pub fail : ℕ → ℕ → Entry → Result Entry
fail operation error e = do
  throw_if (has_no_loading e operation) invalid_state
  ok (record e { cpu_resource = none; failure = some error; state = failed })

unfoldable pub request_unload : Entry → Result Entry
request_unload e = do
  throw_if
      (not (state_eq e.state loading)
        && (not (state_eq e.state ready) && not (state_eq e.state failed)))
      invalid_state
  throw_if (e.operation_generation == max_u64) invalid_state
  ok (record e {
    cancelled_operation_generation = if state_eq e.state loading then e.operation_generation else 0;
    operation_generation = e.operation_generation + 1;
    cpu_resource = none;
    failure = none;
    state = unloading;
  })

unfoldable pub complete_unload : Entry → Result Entry
complete_unload e = do
  throw_if (not (state_eq e.state unloading)) invalid_state
  ok (record e { cpu_resource = none; failure = none; state = unloaded })

-- The entry that `Forget` leaves, before it moves the generation on.
abbrev pub emptied : Entry → Entry
emptied e = record e {
  occupied = false;
  identity = no_identity;
  type_index = void_type;
  cancelled_operation_generation = 0;
  published_version = 0;
  cpu_resource = none;
  failure = none;
}

-- The entry that `Request` makes of a free one.
abbrev pub claimed : Identity → ℕ → Entry → Entry
claimed identity type e = record e {
  generation = e.generation + 1;
  occupied = true;
  identity = identity;
  type_index = type;
  state = unloaded;
  cancelled_operation_generation = 0;
  published_version = 0;
  cpu_resource = none;
  failure = none;
}
