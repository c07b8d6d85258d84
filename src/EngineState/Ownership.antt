-- ===== src/EngineState/Ownership.antt =====
-- engine/runtime/engine_state_manager.cpp: which caller of `BeginStop` cleans up after a run.
use graphics_engine.Common.{ℕ, ◌≤◌, ◌≡◌, refl, ap, subst, ◌⊎◌, inl, inr, true, arith}
use graphics_engine.EngineState.{
  StateManager, new_manager, advance_generation, mark_running, enter_stopping, StopClaim, refused,
  waits, owned, begin_stop, is_wait_over, complete_stop, rollback_start, start,
}
use graphics_engine.EngineState.Steps.{
  Step, starts, begins_stop, fails, completes_stop, Steps, ends, goes, IsSound, new_manager-IsSound,
  Started, refuses, rolls_back, rolls_back_late, runs, start-Started, Asked, idles, queues,
  is_stale, claims, begin_stop-Asked, Asked-IsSound, Step-IsSound, Steps-IsSound,
}

-- After its stop was claimed for a generation: it goes on, or it is over.
abbrev IsClaimed : ℕ → StateManager → Type 0
IsClaimed observed x =
    ((x.stop_in_progress ≡ true) × (x.generation ≡ observed))
    ⊎ (observed ≤ x.completed_stop_generation)

Started-IsClaimed :
    (observed : ℕ) (x y : StateManager)
    → Started x y
    → IsSound x
    → IsClaimed observed x
    → IsClaimed observed y
unfolding rollback_start advance_generation mark_running
Started-IsClaimed observed x _ refuses s c = c
Started-IsClaimed observed x _ (rolls_back y) s c =
    let old = s.completed_bound in inr (elim c [ inl (h, e) ↦ omega arith | inr l ↦ omega arith ])
Started-IsClaimed observed x _ (rolls_back_late y) s c =
    let old = s.completed_bound in inr (elim c [ inl (h, e) ↦ omega arith | inr l ↦ omega arith ])
Started-IsClaimed observed x _ (runs y) s (inl (h, e)) = absurd (let live = s.owner_runs h in cc)
Started-IsClaimed observed x _ (runs y) s (inr l) = inr l

Asked-IsClaimed :
    (observed o : ℕ) (x : StateManager) (r : StopClaim × StateManager)
    → Asked o x r
    → IsClaimed observed x
    → IsClaimed observed r.1
unfolding enter_stopping
Asked-IsClaimed observed o x _ (idles y) c = c
Asked-IsClaimed observed o x _ (queues y) c = c
Asked-IsClaimed observed o x _ is_stale c = c
Asked-IsClaimed observed o x _ (claims n m e) (inl (h, same)) = inl (refl, same)
Asked-IsClaimed observed o x _ (claims n m e) (inr l) = inr l

Step-IsClaimed :
    (observed : ℕ) (x y : StateManager)
    → Step x y
    → IsSound x
    → IsClaimed observed x
    → IsClaimed observed y
unfolding enter_stopping complete_stop
Step-IsClaimed observed x _ (starts fault) s c =
    Started-IsClaimed observed x (start fault x).0 (start-Started fault x) s c
Step-IsClaimed observed x _ (begins_stop o) s c =
    Asked-IsClaimed observed o x (begin_stop o x) (begin_stop-Asked o x) c
Step-IsClaimed observed x _ (fails live) s c = c
Step-IsClaimed observed x _ (completes_stop h) s c =
    let current = s.owner_current h in
    let old = s.completed_bound in inr (elim c [ inl (_, e) ↦ omega arith | inr l ↦ omega arith ])

Steps-IsClaimed :
    (observed : ℕ) (x y : StateManager)
    → Steps x y
    → IsSound x
    → IsClaimed observed x
    → IsClaimed observed y
Steps-IsClaimed observed x _ ends s c = c
Steps-IsClaimed observed x y (goes {y = m} a rest) s c =
    Steps-IsClaimed observed m y rest (Step-IsSound x m a s) (Step-IsClaimed observed x m a s c)

owned-IsClaimed :
    (observed : ℕ) (x y : StateManager) (r : StopClaim × StateManager)
    → Asked observed x r
    → r ≡ (owned, y)
    → IsClaimed observed y
unfolding enter_stopping
owned-IsClaimed observed x y _ (idles i) e =
    absurd (let bad : refused ≡ owned = ap (λ r. r.0) e in cc)
owned-IsClaimed observed x y _ (queues q) e =
    absurd (let bad : waits ≡ owned = ap (λ r. r.0) e in cc)
owned-IsClaimed observed x y _ is_stale e =
    absurd (let bad : refused ≡ owned = ap (λ r. r.0) e in cc)
owned-IsClaimed observed x y _ (claims n m same) e =
    subst (IsClaimed observed) (ap (λ r. r.1) e) (inl (refl, same))

not_owned_again :
    (observed : ℕ) (x : StateManager) (r : StopClaim × StateManager)
    → Asked observed x r
    → IsSound x
    → IsClaimed observed x
    → r.0 ≡ owned
    → ⊥
not_owned_again observed x _ (idles i) s c e = cc
not_owned_again observed x _ (queues q) s c e = cc
not_owned_again observed x _ is_stale s c e = cc
not_owned_again observed x _ (claims n m same) s (inl (h, _)) e = cc
not_owned_again observed x _ (claims n m same) s (inr l) e =
    let open_run = s.still_open n in omega arith

is_wait_over_claimed :
    (observed : ℕ) (x : StateManager)
    → IsClaimed observed x
    → ((x.stop_in_progress ≡ true) × (x.generation ≡ observed)) ⊎ (is_wait_over observed x ≡ true)
unfolding is_wait_over
is_wait_over_claimed observed x (inl h) = inl h
is_wait_over_claimed observed x (inr l) = inr (ground (arith, l))

-- In every history of a new engine, once a call of `Stop` owns the cleanup of a generation, no call
-- owns it again, and where its cleanup is over, the callers that wait for it can go on, whatever runs
-- and stops come after.
pub stop_owned_once :
    (observed : ℕ) (x y z : StateManager)
    → Steps new_manager x
    → begin_stop observed x ≡ (owned, y)
    → Steps y z
    → ((begin_stop observed z).0 ≡ owned → ⊥)
      × (((z.stop_in_progress ≡ true) × (z.generation ≡ observed))
          ⊎ (is_wait_over observed z ≡ true))
stop_owned_once observed x y z before own after =
    let s = Steps-IsSound new_manager x before new_manager-IsSound in
    let asked = begin_stop-Asked observed x in
    let s' : IsSound y =
      subst IsSound (ap (λ r. r.1) own)
        (Asked-IsSound observed x (begin_stop observed x) asked s) in
    let c = owned-IsClaimed observed x y (begin_stop observed x) asked own in
    let c' = Steps-IsClaimed observed y z after s' c in
    (
      not_owned_again observed z (begin_stop observed z) (begin_stop-Asked observed z)
          (Steps-IsSound y z after s') c',
      is_wait_over_claimed observed z c',
    )
