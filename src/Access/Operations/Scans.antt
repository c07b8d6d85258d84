-- ===== src/Access/Operations/Scans.antt =====
-- ecs/internal/access_coordinator.cpp: the scan of `Progress` and the loop of `Stop` move operations
-- legally, and the scan leaves no waiting operation behind one that failed.
use graphics_engine.Common.{
  ℕ, zero, suc, ◌+◌, ◌<◌, ◌≤◌, ◌≡◌, refl, sym, ◌∙◌, ap, subst, inl, inr, Bool, true, ◌&&◌, ◌||◌,
  Option, List, [], ◌∷◌, length, arith, elem, ◌==◌, ==_iff, if◌then◌else◌, Bool-cases,
}
use graphics_engine.Access.Operations.{
  OperationStatus, waiting, queued, running, completed, failed, cancelled, Operation, is_completed,
  is_waiting, is_running, is_terminal, operation_at, with_status, judge, judge_by, Verdict, keep,
  drop, reserve, verdict_at, settle, choose, scan, cancel_pending,
}
use graphics_engine.Access.Operations.Rules.{
  DependenciesCompleted, Moves, Evolves, Evolves-refl, Evolves-set,
}

judge_by-reserve :
    (s : OperationStatus) (rest : Verdict) → judge_by s rest ≡ reserve → rest ≡ reserve
judge_by-reserve waiting rest h = h
judge_by-reserve queued rest h = h
judge_by-reserve running rest h = h
judge_by-reserve completed rest h = h
judge_by-reserve failed rest h = cc
judge_by-reserve cancelled rest h = cc

to_completed : (s : OperationStatus) → is_completed s ≡ true → s ≡ completed
to_completed completed h = refl
to_completed waiting h = cc
to_completed queued h = cc
to_completed running h = cc
to_completed failed h = cc
to_completed cancelled h = cc

-- An operation is reserved only if every one before it is completed.
judge-reserve :
    (os : List Operation) (ps : List ℕ) (ready : Bool)
    → judge os ps ready ≡ reserve
    → (ready ≡ true) × ((k : ℕ) → elem k ps ≡ true → (operation_at os k).status ≡ completed)
unfolding judge
judge-reserve os [] ready h = (ground arith, λ k m. cc)
judge-reserve os (p ∷ ps) ready h =
    let s = (operation_at os p).status in
    let (r, all) =
      judge-reserve os ps (ready && is_completed s)
        (judge_by-reserve s (judge os ps (ready && is_completed s)) h) in
    let c : s ≡ completed = to_completed s (ground arith) in
    (
      ground arith,
      λ k m. elim (Bool-cases (p == k)) [
        | inl y ↦ ap (λ j. (operation_at os j).status) (sym ((==_iff p k).0 y)) ∙ c
        | inr n ↦ all k (ground arith)
      ],
    )

verdict-drop :
    (os : List Operation) (i : ℕ)
    → verdict_at os i ≡ drop
    → is_waiting (operation_at os i).status ≡ true
unfolding verdict_at
verdict-drop os i h = ground arith

verdict-reserve :
    (os : List Operation) (i : ℕ)
    → verdict_at os i ≡ reserve
    → (is_waiting (operation_at os i).status ≡ true) × DependenciesCompleted os (operation_at os i)
unfolding verdict_at
verdict-reserve os i h = elim (Bool-cases (is_waiting (operation_at os i).status)) [
  | inl y ↦ (y, (judge-reserve os (operation_at os i).dependencies true (rw y at h)).1)
  | inr n ↦ absurd (ground arith)
]

settle-Evolves :
    (os : List Operation) (i : ℕ)
    → i < length os
    → (v : Verdict) → verdict_at os i ≡ v
    → Evolves os (settle v os i)
settle-Evolves os i l keep h = Evolves-refl os
settle-Evolves os i l drop h =
    let w : is_waiting (operation_at os i).status ≡ true = verdict-drop os i h in
    Evolves-set os i (with_status cancelled (operation_at os i)) l
      (refl, refl, (λ t. ground arith), (λ f. ground arith), (λ s. cc))
settle-Evolves os i l reserve h =
    let (w, d) = verdict-reserve os i h in
    Evolves-set os i (with_status queued (operation_at os i)) l
      (refl, refl, (λ t. ground arith), (λ f. ground arith), (λ s. inr d))

module _ {ℓ} (P : List Operation → Type ℓ)
    (closed : (os ps : List Operation) → Evolves os ps → P os → P ps) where
  -- The scan of `Progress` keeps whatever legal moves keep.
  pub scan-keeps :
      (left i : ℕ) (os : List Operation) → i + left ≤ length os → P os → P (scan left i os).0
  unfolding scan
  scan-keeps zero i os l p = p
  scan-keeps (suc left) i os l p =
      let v = verdict_at os i in
      let e = settle-Evolves os i (omega arith) v refl in
      let p' : P (settle v os i) = closed os (settle v os i) e p in
      chosen (settle v os i) (scan left (suc i) (settle v os i)) v p'
        (scan-keeps left (suc i) (settle v os i) (omega (arith, e.0)) p')
    where
      chosen :
          (qs : List Operation) (rest : List Operation × Option ℕ) (v : Verdict)
          → P qs
          → P rest.0
          → P (choose v i qs rest).0
      chosen qs rest reserve p q = p
      chosen qs rest keep p q = q
      chosen qs rest drop p q = q

length-cancel_pending : (os : List Operation) → length (cancel_pending os) ≡ length os
unfolding cancel_pending
length-cancel_pending [] = refl
length-cancel_pending (o ∷ os) = ap suc (length-cancel_pending os)

-- What `Stop` makes of one operation.
abbrev pub stopped : Operation → Operation
stopped o = if is_running o.status || is_terminal o.status then o else with_status cancelled o

cancel_pending-at :
    (os : List Operation) (i : ℕ)
    → i < length os
    → operation_at (cancel_pending os) i ≡ stopped (operation_at os i)
unfolding cancel_pending
cancel_pending-at [] i l = elim l [ ]
cancel_pending-at (o ∷ os) zero l = refl
cancel_pending-at (o ∷ os) (suc i) l = cancel_pending-at os i (omega arith)

stopped-Moves : (os : List Operation) (o : Operation) → Moves os o (stopped o)
stopped-Moves os o = elim (Bool-cases (is_running o.status || is_terminal o.status)) [
  | inl y ↦ rw y (refl, refl, (λ t. refl), (λ f. f), (λ s. inl s))
  | inr n ↦ rw n (refl, refl, (λ t. ground arith), (λ f. ground arith), (λ s. cc))
]

pub Evolves-cancel_pending : (os : List Operation) → Evolves os (cancel_pending os)
Evolves-cancel_pending os = (
  length-cancel_pending os,
  λ i l.
      subst (Moves os (operation_at os i)) (sym (cancel_pending-at os i l))
        (stopped-Moves os (operation_at os i)),
)
