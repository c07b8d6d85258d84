-- ===== src/Resources/Manager/Stale.antt =====
-- resources/resource_manager.cpp: handles and operations that are over stay over.
use graphics_engine.Common.{
  ◌==◌, max_u64, ==_iff, Bool-cases, get_or, set, Error, Result, err, ok, Result-cases, >>=-eq-ok,
  ok-injective, ℕ, ◌+◌, ◌≤◌, ◌<◌, ◌≡◌, refl, sym, ap, subst, ◌∙◌, ◌≢◌, inl, inr, Option, List, [],
  ◌∷◌, arith,
}
use graphics_engine.Resources.Types.{
  unloaded, state_eq, ResourceHandle, ResourceOperation, Entry, new_entry,
}
use graphics_engine.Resources.Entries.{
  begin_loading, publish_ready, fail, request_unload, complete_unload, emptied, claimed,
}
use graphics_engine.Resources.Manager.{
  Manager, entry_at, validate, put, on_entry, begin_load, publish, report_failure, unload, forget,
}
use graphics_engine.Resources.Manager.Calls.{
  Call, after_call, run_calls, Change, begins, becomes_ready, becomes_failed, starts_unload,
  ends_unload, IsCurrent, validate-IsCurrent, entry_at-put, Effect, nothing, operates, claims,
  releases, after_call-Effect,
}
use graphics_engine.Resources.Manager.Claims.{claim-Claimed}

-- The generations of an entry never go back.
abbrev Later : Entry → Entry → Type 0
Later e f = (e.generation ≤ f.generation) × (e.operation_generation ≤ f.operation_generation)

Change-Later : {e f : Entry} → Change e f → Later e f
unfolding begin_loading publish_ready fail request_unload complete_unload
Change-Later {e} (begins f g h) = ground (arith, h)
Change-Later {e} (becomes_ready f g p h) = ground (arith, h)
Change-Later {e} (becomes_failed f g x h) = ground (arith, h)
Change-Later {e} (starts_unload f h) = ground (arith, h)
Change-Later {e} (ends_unload f h) = ground (arith, h)

Later-refl : (e : Entry) → Later e e
Later-refl e = omega arith

entry_at-changed :
    (m : Manager) (h : ResourceHandle) (type : ℕ) (e f : Entry)
    → IsCurrent h type m e
    → Later e f
    → (j : ℕ) → Later (entry_at m j) (get_or (set m.entries h.slot_index f) j new_entry)
entry_at-changed m h type e f current later j =
    subst (Later (entry_at m j)) (sym (entry_at-put m h type e f current j))
      (elim (Bool-cases (h.slot_index == j)) [
        | inl y ↦
            let same : e ≡ entry_at m j =
              current.is_entry ∙ ap (entry_at m) ((==_iff h.slot_index j).0 y) in
            rw y (subst (λ x. Later x f) same later)
        | inr n ↦ rw n (Later-refl (entry_at m j))
      ])

Effect-Later : {m m' : Manager} → Effect m m' → (j : ℕ) → Later (entry_at m j) (entry_at m' j)
Effect-Later {m} nothing j = Later-refl (entry_at m j)
Effect-Later {m} (operates h type e f current change) j =
    entry_at-changed m h type e f current (Change-Later change) j
Effect-Later {m} (claims identity type k m' valid fresh made) j =
    let claimed_it = claim-Claimed identity type m k m' made in
    subst (Later (entry_at m j)) (sym (claimed_it.entries j)) (elim (Bool-cases (k.0 == j)) [
      | inl y ↦
          let same : k.0 ≡ j = (==_iff k.0 j).0 y in
          rw y (
            subst (λ x. Later x (claimed identity type (entry_at m k.0))) (ap (entry_at m) same)
              (omega arith))
      | inr n ↦ rw n (Later-refl (entry_at m j))
    ])
Effect-Later {m} (releases h type e f current idle (inl (same, full))) j =
    entry_at-changed m h type e f current (subst (Later e) (sym same) (omega arith)) j
Effect-Later {m} (releases h type e f current idle (inr (same, room))) j =
    entry_at-changed m h type e f current (subst (Later e) (sym same) (omega arith)) j

run_calls-Later :
    (cs : List Call) (m : Manager) (j : ℕ) → Later (entry_at m j) (entry_at (run_calls cs m) j)
unfolding run_calls
run_calls-Later [] m j = Later-refl (entry_at m j)
run_calls-Later (c ∷ cs) m j =
    let (a, b) = Effect-Later (after_call-Effect c m) j in
    let (a', b') = run_calls-Later cs (after_call c m) j in (omega arith, omega arith)

thrown-ne-done : {e : Error} → ◌≡◌ {A = Result (Unit {0})} (err e) (ok tt) → ⊥
thrown-ne-done h = cc

pub entry_at-put_self :
    (m : Manager) (h : ResourceHandle) (type : ℕ) (e f : Entry)
    → IsCurrent h type m e
    → get_or (set m.entries h.slot_index f) h.slot_index new_entry ≡ f
entry_at-put_self m h type e f current =
    entry_at-put m h type e f current h.slot_index
    ∙ (rw ((==_iff h.slot_index h.slot_index).1 refl) refl)

pub on_entry-parts :
    (h : ResourceHandle) (type : ℕ) (change : Entry → Result Entry) (m m' : Manager)
    → on_entry h type change m ≡ ok m'
    → (e : Entry) × (f : Entry) × (validate h type m ≡ ok e)
      × IsCurrent h type m e
      × (change e ≡ ok f)
      × (put h f m ≡ m')
unfolding on_entry
on_entry-parts h type change m m' q =
    let (e, v, rest) = >>=-eq-ok (validate h type m) _ q in
    let (f, made, same) = >>=-eq-ok (change e) _ rest in
    (e, f, v, validate-IsCurrent h type m e v, made, ok-injective same)

forget-generation :
    (h : ResourceHandle) (type : ℕ) (m : Manager)
    → (forget h type m).0 ≡ ok tt
    → h.generation < (entry_at (forget h type m).1 h.slot_index).generation
unfolding forget
forget-generation h type m done = elim (Result-cases (validate h type m)) [
  | inl (thrown, v) ↦ absurd (thrown-ne-done (rw (v, forget) at done))
  | inr (e, v) ↦
      let current = validate-IsCurrent h type m e v in
      elim (Bool-cases (state_eq e.state unloaded)) [
        | inr n ↦ absurd (thrown-ne-done (rw n at (rw (v, forget) at done)))
        | inl y ↦ elim (Bool-cases (e.generation == max_u64)) [
          | inl full ↦ absurd (thrown-ne-done (rw (y, full) at (rw (v, forget) at done)))
          | inr room ↦
              rw (v, forget)
                (rw (y, room)
                  (subst (λ (x : Entry). h.generation < x.generation)
                    (sym (
                      entry_at-put_self m h type e
                        (record (emptied e) { generation = e.generation + 1 }) current))
                    (omega (arith, current.same_generation))))
        ]
      ]
]

-- Once a resource was forgotten, its handle is refused for ever, whatever is requested, loaded or
-- forgotten afterwards.
pub forgotten_stays_stale :
    (h : ResourceHandle) (type : ℕ) (m : Manager)
    → (forget h type m).0 ≡ ok tt
    → (cs : List Call) (type' : ℕ) (e : Entry)
    → validate h type' (run_calls cs (forget h type m).1) ≢ ok e
forgotten_stays_stale h type m done cs type' e v =
    let current = validate-IsCurrent h type' (run_calls cs (forget h type m).1) e v in
    let (later, _) = run_calls-Later cs (forget h type m).1 h.slot_index in
    let same = current.same_generation in
    let is = ap (λ (x : Entry). x.generation) current.is_entry in
    omega (arith, forget-generation h type m done)

begin_load-generation :
    (h : ResourceHandle) (type : ℕ) (m m' : Manager) (o : ResourceOperation)
    → begin_load h type m ≡ ok (o, m')
    → (o.handle ≡ h) × (o.generation ≡ (entry_at m' h.slot_index).operation_generation)
unfolding begin_load begin_loading
begin_load-generation h type m m' o b =
    let (e, v, rest) = >>=-eq-ok (validate h type m) _ b in
    let ((f, g), begun, same) = >>=-eq-ok (begin_loading e) _ rest in
    let made = ok-injective same in
    let current = validate-IsCurrent h type m e v in
    let is_f = entry_at-put_self m h type e f current in
    let own : f.operation_generation ≡ g = ground (arith, begun) in
    subst
      (λ (p : ResourceOperation × Manager).
        (p.0.handle ≡ h) × (p.0.generation ≡ (entry_at p.1 h.slot_index).operation_generation))
      made (refl, sym (ap (λ (x : Entry). x.operation_generation) is_f ∙ own))

unload-generation :
    (h : ResourceHandle) (type : ℕ) (m m' : Manager)
    → unload h type m ≡ ok m'
    → (entry_at m h.slot_index).operation_generation
      < (entry_at m' h.slot_index).operation_generation
unfolding unload on_entry request_unload
unload-generation h type m m' u =
    let (e, f, v, current, made, same) = on_entry-parts h type request_unload m m' u in
    let is_f = entry_at-put_self m h type e f current in
    let grown : e.operation_generation < f.operation_generation = ground (arith, made) in
    subst
      (λ (m' : Manager).
        (entry_at m h.slot_index).operation_generation
        < (entry_at m' h.slot_index).operation_generation)
      same
      (subst
        (λ (x : Entry). (entry_at m h.slot_index).operation_generation < x.operation_generation)
        (sym is_f)
        (subst (λ (x : Entry). x.operation_generation < f.operation_generation) current.is_entry
          grown))

publish-generation :
    (h : ResourceHandle) (type g : ℕ) (p : Option ℕ) (m m' : Manager)
    → on_entry h type (publish_ready g p) m ≡ ok m'
    → (entry_at m h.slot_index).operation_generation ≡ g
unfolding publish_ready
publish-generation h type g p m m' q =
    let (e, f, v, current, made, same) = on_entry-parts h type (publish_ready g p) m m' q in
    ap (λ (x : Entry). x.operation_generation) (sym current.is_entry)
    ∙ (let own : e.operation_generation ≡ g =
          ground (arith, made, ==_iff e.operation_generation g) in
        own)

fail-generation :
    (h : ResourceHandle) (type g x : ℕ) (m m' : Manager)
    → on_entry h type (fail g x) m ≡ ok m'
    → (entry_at m h.slot_index).operation_generation ≡ g
unfolding fail
fail-generation h type g x m m' q =
    let (e, f, v, current, made, same) = on_entry-parts h type (fail g x) m m' q in
    ap (λ (x : Entry). x.operation_generation) (sym current.is_entry)
    ∙ (let own : e.operation_generation ≡ g =
          ground (arith, made, ==_iff e.operation_generation g) in
        own)

-- Once a resource whose loading had begun was told to unload, the operation of that loading can
-- never publish a resource or report a failure, whatever calls come before and after.
pub superseded_operation :
    (h : ResourceHandle) (type : ℕ) (m m1 m2 : Manager) (o : ResourceOperation)
    (before after : List Call)
    → begin_load h type m ≡ ok (o, m1)
    → unload h type (run_calls before m1) ≡ ok m2
    → (type' : ℕ) (payload : Option ℕ) (error : ℕ) (m3 : Manager)
    → (publish o type' payload (run_calls after m2) ≢ ok m3)
      × (report_failure o type' error (run_calls after m2) ≢ ok m3)
unfolding publish report_failure
superseded_operation h type m m1 m2 o before after b u type' payload error m3 =
    let (handle, generation) = begin_load-generation h type m m1 o b in
    let (_, l1) = run_calls-Later before m1 h.slot_index in
    let l2 = unload-generation h type (run_calls before m1) m2 u in
    let (_, l3) = run_calls-Later after m2 h.slot_index in
    let slot = ap (λ (h : ResourceHandle). h.slot_index) handle in
    let late : o.generation < (entry_at (run_calls after m2) h.slot_index).operation_generation =
      omega arith in
    let late' : o.generation
        < (entry_at (run_calls after m2) o.handle.slot_index).operation_generation =
      subst (λ s. o.generation < (entry_at (run_calls after m2) s).operation_generation) (sym slot)
        late in
    (
      λ q.
          omega (
            arith,
            publish-generation o.handle type' o.generation payload (run_calls after m2) m3 q,
          ),
      λ q.
          omega
            (arith, fail-generation o.handle type' o.generation error (run_calls after m2) m3 q),
    )
