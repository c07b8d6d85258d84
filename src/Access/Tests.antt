-- ===== src/Access/Tests.antt =====
-- ecs/internal/access_coordinator.cpp: a run with two writers of one storage.
use graphics_engine.Common.{
  length, insert, sort_by, unique_after, unique_by, elem, ok, ℕ, ◌+◌, ◌<◌, ◌≡◌, refl, ◌↔◌, inl, inr,
  true, none, some, List, [], ◌∷◌, arith,
}
use graphics_engine.Access.Types.{
  DataDomainKey, whole_storage, chunk, entity_set, AccessScope, write, Footprint,
}
use graphics_engine.Access.Scopes.{normalize_scope, overlaps, normalize_each, normalize_footprints}
use graphics_engine.Access.Scopes.Exact.{
  Normal, InScope, Share, overlaps-Share, normalize_scope-Normal,
}
use graphics_engine.Access.Operations.{
  is_terminal, holds_access, operation_at, conflicts_of, conflicts_with, find_conflicts, judge,
  verdict_at, scan,
}
use graphics_engine.Access.Operations.Conflicts.{conflicts_here, elem-find_conflicts}
use graphics_engine.Access.Operations.Rules.{was_started, operations_conflict, Ordered}
use graphics_engine.Access.Coordinator.{
  Coordinator, new_coordinator, resolve_all, replace_domain, register_domain, are_registered, admit,
  schedule, progress, begin_run, end_run, complete_seal, seal,
}
use graphics_engine.Access.Coordinator.Sealed.{CompletesOnce, complete_seal_once}
use graphics_engine.Access.Coordinator.Serial.{run-Ordered, run_serial}
use graphics_engine.Access.Sections.{
  Section, registers, schedules, progresses, begins_run, ends_run, completes_seal, seals, releases,
  after, History, run,
}

abbrev storage : DataDomainKey
storage = record { owner_id = 1; type_id = 1; generation = 1 }

abbrev whole : AccessScope
whole = record { kind = whole_storage; begin = 0; count = 0; elements = [] }

abbrev writes : List Footprint
writes = record { domain = storage; scope = whole; requirement = write } ∷ []

-- Two writers are admitted, and the first one runs to its end.
abbrev two_writers : List Section
two_writers =
    registers storage (some 5)
    ∷ schedules writes true []
    ∷ schedules writes true []
    ∷ progresses
    ∷ begins_run 0
    ∷ ends_run 0 none
    ∷ progresses
    ∷ []

abbrev fresh : Coordinator
fresh = new_coordinator 1

two_writers-History : History fresh two_writers
unfolding after register_domain replace_domain schedule admit are_registered resolve_all
    find_conflicts conflicts_with conflicts_of normalize_footprints normalize_each normalize_scope
    sort_by insert unique_by unique_after overlaps progress scan verdict_at judge begin_run end_run
two_writers-History = (tt, (tt, (tt, (tt, (tt, ((omega arith, refl), (tt, tt)))))))

abbrev ended : Coordinator
ended = run two_writers fresh

ended_length : 1 < length ended.operations
unfolding run after register_domain replace_domain schedule admit are_registered resolve_all
    find_conflicts conflicts_with conflicts_of normalize_footprints normalize_each normalize_scope
    sort_by insert unique_by unique_after overlaps progress scan verdict_at judge begin_run end_run
ended_length = omega arith

ended_conflict :
    operations_conflict (operation_at ended.operations 0) (operation_at ended.operations 1) ≡ true
unfolding run after register_domain replace_domain schedule admit are_registered resolve_all
    find_conflicts conflicts_with conflicts_of normalize_footprints normalize_each normalize_scope
    sort_by insert unique_by unique_after overlaps progress scan verdict_at judge begin_run end_run
ended_conflict = refl

ended_started : was_started (operation_at ended.operations 1).status ≡ true
unfolding run after register_domain replace_domain schedule admit are_registered resolve_all
    find_conflicts conflicts_with conflicts_of normalize_footprints normalize_each normalize_scope
    sort_by insert unique_by unique_after overlaps progress scan verdict_at judge begin_run end_run
ended_started = refl

run-Ordered_example : Ordered (run two_writers fresh).operations
run-Ordered_example = run-Ordered 1 two_writers two_writers-History

run_serial_example : is_terminal (operation_at ended.operations 0).status ≡ true
run_serial_example =
    run_serial 1 0 1 two_writers two_writers-History (omega arith) ended_length ended_conflict
      ended_started

abbrev low : AccessScope
low = record { kind = chunk; begin = 2; count = 4; elements = [] }

abbrev picked : AccessScope
picked = record { kind = entity_set; begin = 0; count = 0; elements = 5 ∷ 9 ∷ [] }

low-Normal : Normal low
low-Normal = (omega arith, omega arith, refl)

picked-Normal : Normal picked
picked-Normal = (refl, refl, (λ e. cc), (omega arith, tt))

overlaps-Share_example : (overlaps low picked ≡ true) ↔ Share low picked
overlaps-Share_example =
    overlaps-Share low picked (inl refl) (inr (inr refl)) low-Normal picked-Normal

abbrev shuffled : AccessScope
shuffled = record { kind = entity_set; begin = 0; count = 0; elements = 9 ∷ 5 ∷ 9 ∷ [] }

shuffled_normal : normalize_scope shuffled ≡ ok picked
unfolding normalize_scope sort_by insert unique_by unique_after
shuffled_normal = refl

normalize_scope-Normal_example :
    Normal picked
    × (picked.kind ≡ shuffled.kind)
    × ((e : ℕ) → InScope picked e ↔ InScope shuffled e)
normalize_scope-Normal_example = normalize_scope-Normal shuffled (omega arith) shuffled_normal

elem-find_conflicts_example :
    (elem 1 (find_conflicts 1 0 ended.operations writes).predecessors ≡ true) ↔ (
      (j : ℕ) × (j < length ended.operations)
      × (1 ≡ 0 + j)
      × (holds_access (operation_at ended.operations j) ≡ true)
      × (conflicts_here 1 writes (operation_at ended.operations j) ≡ true))
elem-find_conflicts_example = elem-find_conflicts 1 writes 0 1 ended.operations

-- One writer runs to its end, and the seal of the coordinator can be completed.
abbrev sealed_writer : List Section
sealed_writer =
    registers storage (some 5)
    ∷ schedules writes true []
    ∷ seals (some 8)
    ∷ progresses
    ∷ begins_run 0
    ∷ ends_run 0 none
    ∷ []

abbrev late_sections : List Section
late_sections = schedules writes true [] ∷ seals (some 9) ∷ completes_seal ∷ releases ∷ []

runs_callback : (complete_seal (run sealed_writer fresh)).1 ≡ some 8
unfolding run after register_domain replace_domain schedule admit are_registered resolve_all
    find_conflicts conflicts_with conflicts_of normalize_footprints normalize_each normalize_scope
    sort_by insert unique_by unique_after overlaps progress scan verdict_at judge begin_run end_run
    seal complete_seal
runs_callback = refl

complete_seal_once_example : CompletesOnce (run sealed_writer fresh) late_sections
complete_seal_once_example =
    complete_seal_once 1 sealed_writer late_sections (tt, (tt, (tt, (tt, tt))))
