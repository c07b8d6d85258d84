-- ===== src/Access/Coordinator/Final.antt =====
-- ecs/internal/access_coordinator.cpp: a coordinator whose seal is complete stays as it is.
use graphics_engine.Common.{
  Bool-cases, Option-cases, length, any, Result-cases, ℕ, zero, suc, ◌<◌, ◌≡◌, refl, sym, ap, subst,
  inl, inr, Bool, true, false, ◌||◌, Option, none, List, [], ◌∷◌, arith,
}
use graphics_engine.Access.Types.{DataDomainKey, Footprint}
use graphics_engine.Access.Scopes.{normalize_footprints}
use graphics_engine.Access.Operations.{
  OperationKey, running, Operation, is_waiting, is_queued, is_terminal, holds_access, operation_at,
  find_retired,
}
use graphics_engine.Access.Operations.Rules.{Evolves}
use graphics_engine.Access.Operations.Scans.{scan-keeps, Evolves-cancel_pending}
use graphics_engine.Access.Coordinator.{
  Coordinator, resolve, register_domain, admit, schedule, progress, submit_failed, begin_run,
  begin_retire, complete_seal, cancel, seal, stop, release_lifetime,
}
use graphics_engine.Access.Sections.{
  Section, registers, schedules, progresses, refuses, begins_run, ends_run, begins_retire,
  ends_retire, completes_seal, cancels, seals, stops, releases, or_same, second, first, after,
  Enabled, History, run,
}
use graphics_engine.Access.Sections.Evolution.{resolve-ok, in_range, find_retired-lt}

-- Nothing holds access.
abbrev pub Released : List Operation → Type 0
Released os = (i : ℕ) → i < length os → holds_access (operation_at os i) ≡ false

pub any-Released : (os : List Operation) → any holds_access os ≡ false → Released os
any-Released [] h i l = elim l [ ]
any-Released (o ∷ os) h zero l = ground arith
any-Released (o ∷ os) h (suc i) l = any-Released os (ground arith) i (omega arith)

pub Released-any : (os : List Operation) → Released os → any holds_access os ≡ false
Released-any [] r = refl
Released-any (o ∷ os) r =
    let first = r 0 (omega arith) in
    let rest = Released-any os (λ i l. r (suc i) (omega arith)) in ground arith

Released-Evolves : (os ps : List Operation) → Evolves os ps → Released os → Released ps
Released-Evolves os ps e r i l =
    let l' : i < length os = omega (arith, e.0) in (e.1 i l').3 (r i l')

-- What the completion of a seal waits for.
pub record CanComplete (c : Coordinator) : Type 0 where
  pub sealed : c.is_sealed ≡ true
  pub pending : c.is_seal_completed ≡ false
  pub none_runs : c.running_count ≡ 0
  pub none_retires : c.retiring_count ≡ 0
  pub released : Released c.operations

-- What stays of a coordinator whose seal is complete.
pub record IsFinal (c : Coordinator) : Type 0 where
  pub closed : c.is_closed ≡ true
  pub completed : c.is_seal_completed ≡ true
  pub no_domains : c.domains ≡ []
  pub none_runs : c.running_count ≡ 0
  pub none_retires : c.retiring_count ≡ 0
  pub released : Released c.operations

module _ (os : List Operation) (r : Released os) where
  Released-queued : (i : ℕ) → is_queued (operation_at os i).status ≡ false
  Released-queued i = elim (Bool-cases (is_queued (operation_at os i).status)) [
    | inl y ↦ let h = r i (in_range os i y) in ground arith
    | inr n ↦ n
  ]

  Released-terminal : (i : ℕ) → i < length os → is_terminal (operation_at os i).status ≡ true
  Released-terminal i l = let h = r i l in ground arith

  Released-find_retired : find_retired 0 os ≡ none
  Released-find_retired = elim (Option-cases (find_retired 0 os)) [
    | inl n ↦ n
    | inr (j, y) ↦
        let (k, e, l, t, f) = find_retired-lt 0 os y in let h = r k l in absurd (ground arith)
  ]

-- A coordinator that is closed takes on nothing more.
register_domain-closed :
    (key : DataDomainKey) (lifetime : Option ℕ) (c : Coordinator)
    → c.is_closed ≡ true
    → or_same c (register_domain key lifetime c) ≡ c
unfolding register_domain
register_domain-closed key lifetime c h = ground arith

schedule-closed :
    (footprints : List Footprint) (has_function : Bool) (keys : List OperationKey) (c : Coordinator)
    → c.is_closed ≡ true
    → or_same c (second (schedule footprints has_function keys c)) ≡ c
unfolding schedule admit
schedule-closed footprints has_function keys c h =
    elim (Result-cases (normalize_footprints footprints)) [
      | inl (e, q) ↦ ground arith
      | inr (normal, q) ↦ ground arith
    ]

seal-closed :
    (callback : Option ℕ) (c : Coordinator) → c.is_closed ≡ true → or_same c (seal callback c) ≡ c
unfolding seal
seal-closed callback c h = ground arith

module _ (c : Coordinator) (f : IsFinal c) where
  submit_failed-final : (i fault : ℕ) → submit_failed i fault c ≡ c
  unfolding submit_failed
  submit_failed-final i fault = rw (Released-queued c.operations f.released i) refl

  begin_run-final : (i : ℕ) → (begin_run i c).0 ≡ c
  unfolding begin_run
  begin_run-final i = rw (Released-queued c.operations f.released i) refl

  begin_retire-final : begin_retire c ≡ c
  unfolding begin_retire
  begin_retire-final = rw (Released-find_retired c.operations f.released) refl

  pub complete_seal-final : complete_seal c ≡ (c, none)
  unfolding complete_seal
  complete_seal-final = let h = f.completed in ground arith

  cancel-final : (k : OperationKey) → or_same c (first (cancel k c)) ≡ c
  unfolding cancel
  cancel-final k = elim (Result-cases (resolve c k)) [
    | inl (e, q) ↦ rw q refl
    | inr (i, q) ↦
        let h = Released-terminal c.operations f.released i (resolve-ok c k q) in
        let idle : (is_waiting (operation_at c.operations i).status
              || is_queued (operation_at c.operations i).status)
            ≡ false =
          ground arith in
        rw q (rw idle refl)
  ]

progress-IsFinal : (c : Coordinator) → IsFinal c → IsFinal (progress c).0
unfolding progress
progress-IsFinal c f = record {
  closed = f.closed;
  completed = f.completed;
  no_domains = f.no_domains;
  none_runs = f.none_runs;
  none_retires = f.none_retires;
  released =
      scan-keeps Released Released-Evolves (length c.operations) 0 c.operations (omega arith)
        f.released;
}

stop-IsFinal :
    (is_worker : Bool) (c : Coordinator) → IsFinal c → IsFinal (or_same c (stop is_worker c))
unfolding stop
stop-IsFinal true c f = f
stop-IsFinal false c f = record {
  closed = refl;
  completed = f.completed;
  no_domains = f.no_domains;
  none_runs = f.none_runs;
  none_retires = f.none_retires;
  released = Released-Evolves c.operations _ (Evolves-cancel_pending c.operations) f.released;
}

releases-IsFinal :
    (c : Coordinator) → IsFinal c → IsFinal (record c { domains = release_lifetime c.domains })
unfolding release_lifetime
releases-IsFinal c f = record {
  closed = f.closed;
  completed = f.completed;
  no_domains = ap release_lifetime f.no_domains;
  none_runs = f.none_runs;
  none_retires = f.none_retires;
  released = f.released;
}

running-ne-over : (o : Operation) → o.status ≡ running → is_terminal o.status ≡ true → ⊥
running-ne-over o r t = absurd (let bad : is_terminal running ≡ true = rw r at t in cc)

-- No section changes a coordinator whose seal is complete back.
after-IsFinal : (s : Section) (c : Coordinator) → Enabled s c → IsFinal c → IsFinal (after s c)
unfolding after
after-IsFinal (registers key lifetime) c e f =
    subst IsFinal (sym (register_domain-closed key lifetime c f.closed)) f
after-IsFinal (schedules footprints has_function keys) c e f =
    subst IsFinal (sym (schedule-closed footprints has_function keys c f.closed)) f
after-IsFinal progresses c e f = progress-IsFinal c f
after-IsFinal (refuses i fault) c e f = subst IsFinal (sym (submit_failed-final c f i fault)) f
after-IsFinal (begins_run i) c e f = subst IsFinal (sym (begin_run-final c f i)) f
after-IsFinal (ends_run i fault) c (l, r) f =
    let over = Released-terminal c.operations f.released i l in
    absurd (running-ne-over (operation_at c.operations i) r over)
after-IsFinal begins_retire c e f = subst IsFinal (sym (begin_retire-final c f)) f
after-IsFinal (ends_retire i) c (l, r) f = let h = f.released i l in absurd (ground arith)
after-IsFinal completes_seal c e f = subst IsFinal (sym (ap (λ r. r.0) (complete_seal-final c f))) f
after-IsFinal (cancels k) c e f = subst IsFinal (sym (cancel-final c f k)) f
after-IsFinal (seals callback) c e f = subst IsFinal (sym (seal-closed callback c f.closed)) f
after-IsFinal (stops is_worker) c e f = stop-IsFinal is_worker c f
after-IsFinal releases c e f = releases-IsFinal c f

pub run-IsFinal :
    (ss : List Section) (c : Coordinator) → History c ss → IsFinal c → IsFinal (run ss c)
unfolding run
run-IsFinal [] c h f = f
run-IsFinal (s ∷ ss) c h f = run-IsFinal ss (after s c) h.1 (after-IsFinal s c h.0 f)
