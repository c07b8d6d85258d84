-- ===== src/RenderGraph/Order/Contents.antt =====
-- renderer/render_graph.cpp: in the order that `Compile` finds, nothing is read before it was written.
use graphics_engine.Common.{
  ◌==◌, ==_iff, Bool-cases, length, get_or, invalid_argument, ok, throw_if, >>=-eq-ok, ok-injective,
  ℕ, zero, suc, ◌+◌, ◌≤◌, ◌<◌, ◌≡◌, refl, sym, ap, subst, ◌∙◌, inl, inr, Bool, true, false, not,
  List, [], ◌∷◌, ◌++◌, append-nil, append_assoc, arith,
}
use graphics_engine.RenderGraph.Types.{
  AttachmentLoad, load, clear, discard, AttachmentStore, store, GraphId, ResourceUse, Attachment,
}
use graphics_engine.RenderGraph.Validation.{is_undefined}
use graphics_engine.RenderGraph.Builder.{Builder, resolve_resource}
use graphics_engine.RenderGraph.Hazards.{update, resource_at}
use graphics_engine.RenderGraph.Order.{
  no_pass, is_defined_after, attachments, check_reads, check_load, check_loads, apply_store,
  apply_stores, run_contents, Progress, take, take_all, start, require_initialized, order_passes,
}

abbrev pub is_stored : AttachmentStore → Bool
is_stored store = true
is_stored discard = false

abbrev pub is_cleared : AttachmentLoad → Bool
is_cleared clear = true
is_cleared _ = false

abbrev pub is_loaded : AttachmentLoad → Bool
is_loaded load = true
is_loaded _ = false

-- A resource has defined contents after the attachments of a history, the latest first: it was
-- imported with such; or the last attachment of it stored what it cleared, or what it loaded and was
-- defined.
pub data Defined (b : Builder) (r : ℕ) : List Attachment → Type 0 where
  imported : is_undefined (resource_at b r).initial_usage ≡ false → Defined b r []
  elsewhere :
      (a : Attachment) (history : List Attachment)
      → (a.resource.index == r) ≡ false
      → Defined b r history
      → Defined b r (a ∷ history)
  cleared :
      (a : Attachment) (history : List Attachment)
      → (a.resource.index == r) ≡ true
      → is_cleared a.load ≡ true
      → is_stored a.store ≡ true
      → Defined b r (a ∷ history)
  loaded :
      (a : Attachment) (history : List Attachment)
      → (a.resource.index == r) ≡ true
      → is_loaded a.load ≡ true
      → is_stored a.store ≡ true
      → Defined b r history
      → Defined b r (a ∷ history)

-- The attachments of a pass come on top of the history in their order.
abbrev pub extend : List Attachment → List Attachment → List Attachment
extend [] history = history
extend (a ∷ others) history = extend others (a ∷ history)

module _ (b : Builder) where
  abbrev pub ReadsDefined : List Attachment → List ResourceUse → Type 0
  ReadsDefined history [] = Unit {0}
  ReadsDefined history (u ∷ us) = Defined b u.resource.index history × ReadsDefined history us

  abbrev pub LoadsDefined : List Attachment → List Attachment → Type 0
  LoadsDefined history [] = Unit {0}
  LoadsDefined history (a ∷ others) =
      (is_loaded a.load ≡ true → Defined b a.resource.index history) × LoadsDefined history others

  -- Passes that run in this order after a history read and load defined contents only, and leave
  -- every resource defined.
  abbrev pub RunsDefined : List Attachment → List ℕ → Type 0
  RunsDefined history [] = (r : ℕ) → r < length b.resources → Defined b r history
  RunsDefined history (index ∷ order) =
      ReadsDefined history (get_or b.passes index no_pass).reads
      × (LoadsDefined history (attachments (get_or b.passes index no_pass))
          × RunsDefined (extend (attachments (get_or b.passes index no_pass)) history) order)

  abbrev Tracks : (ℕ → Bool) → List Attachment → Type 0
  Tracks c history = (r : ℕ) → c r ≡ true → Defined b r history

  check_reads-Defined :
      (c : ℕ → Bool) (history : List Attachment) (us : List ResourceUse)
      → Tracks c history
      → check_reads b c us ≡ ok tt
      → ReadsDefined history us
  unfolding check_reads resolve_resource
  check_reads-Defined c history [] t e = tt
  check_reads-Defined c history (u ∷ us) t e = (
    t u.resource.index (ground (arith, e)),
    check_reads-Defined c history us t (ground (arith, e)),
  )

  check_load-Defined :
      (c : ℕ → Bool) (history : List Attachment) (a : Attachment) (l : AttachmentLoad)
      → Tracks c history
      → check_load b c a l ≡ ok tt
      → is_loaded l ≡ true
      → Defined b a.resource.index history
  unfolding resolve_resource
  check_load-Defined c history a load t e h = t a.resource.index (ground (arith, e))
  check_load-Defined c history a clear t e h = cc
  check_load-Defined c history a discard t e h = cc

  check_loads-Defined :
      (c : ℕ → Bool) (history others : List Attachment)
      → Tracks c history
      → check_loads b c others ≡ ok tt
      → LoadsDefined history others
  unfolding check_loads
  check_loads-Defined c history [] t e = tt
  check_loads-Defined c history (a ∷ others) t e =
      let (u, first, rest) = >>=-eq-ok (check_load b c a a.load) (λ _. check_loads b c others) e in
      (check_load-Defined c history a a.load t first, check_loads-Defined c history others t rest)

  store-Defined :
      (a : Attachment) (history : List Attachment) (l : AttachmentLoad) (s : AttachmentStore)
      (r : ℕ) (held : Bool)
      → a.load ≡ l
      → a.store ≡ s
      → (a.resource.index == r) ≡ true
      → (held ≡ true → Defined b r history)
      → is_defined_after l s held ≡ true
      → Defined b r (a ∷ history)
  store-Defined a history load store r held el es same d h =
      loaded a history same (rw el refl) (rw es refl) (d h)
  store-Defined a history clear store r held el es same d h =
      cleared a history same (rw el refl) (rw es refl)
  store-Defined a history discard store r held el es same d h = cc
  store-Defined a history load discard r held el es same d h = cc
  store-Defined a history clear discard r held el es same d h = cc
  store-Defined a history discard discard r held el es same d h = cc

  resolve_resource-index : (id : GraphId) (i : ℕ) → resolve_resource b id ≡ ok i → id.index ≡ i
  unfolding resolve_resource
  resolve_resource-index id i e = ground arith

  apply_store-Tracks :
      (a : Attachment) (c c' : ℕ → Bool) (history : List Attachment)
      → Tracks c history
      → apply_store b a c ≡ ok c'
      → Tracks c' (a ∷ history)
  unfolding apply_store
  apply_store-Tracks a c c' history t e r d =
      let i = a.resource.index in
      let (j, found, stored) = >>=-eq-ok (resolve_resource b a.resource) _ e in
      let made : update c i (is_defined_after a.load a.store (c i)) ≡ c' =
        subst (λ i. update c i (is_defined_after a.load a.store (c i)) ≡ c')
          (sym (resolve_resource-index a.resource j found)) (ok-injective stored) in
      let d' : update c i (is_defined_after a.load a.store (c i)) r ≡ true =
        ap (λ (f : ℕ → Bool). f r) made ∙ d in
      elim (Bool-cases (i == r)) [
        | inl y ↦
            let same : i ≡ r = (==_iff i r).0 y in
            store-Defined a history a.load a.store r (c i) refl refl y
              (λ h. t r (subst (λ k. c k ≡ true) same h)) (rw y at d')
        | inr n ↦ elsewhere a history n (t r (rw n at d'))
      ]

  apply_stores-Tracks :
      (others : List Attachment) (c c' : ℕ → Bool) (history : List Attachment)
      → Tracks c history
      → apply_stores b others c ≡ ok c'
      → Tracks c' (extend others history)
  unfolding apply_stores apply_store
  apply_stores-Tracks [] c c' history t e = subst (λ c. Tracks c history) (ok-injective e) t
  apply_stores-Tracks (a ∷ others) c c' history t e =
      let (m, first, rest) = >>=-eq-ok (apply_store b a c) (apply_stores b others) e in
      apply_stores-Tracks others m c' (a ∷ history) (apply_store-Tracks a c m history t first) rest

  require_initialized-all :
      (r left : ℕ) (c : ℕ → Bool) (k : ℕ)
      → require_initialized b r left c ≡ ok tt
      → r ≤ k
      → k < r + left
      → c k ≡ true
  unfolding require_initialized
  require_initialized-all r zero c k e l h = absurd (omega arith)
  require_initialized-all r (suc left) c k e l h = elim (Bool-cases (r == k)) [
    | inl y ↦
        let same : r ≡ k = (==_iff r k).0 y in subst (λ k. c k ≡ true) same (ground (arith, e))
    | inr n ↦
        require_initialized-all (suc r) left c k (ground (arith, e)) (ground arith) (omega arith)
  ]

  module _ (edges : List (ℕ × ℕ)) where
    end-Runs :
        (p q : Progress b) (history : List Attachment)
        → Tracks p.initialized history
        → p ≡ q
        → require_initialized b 0 (length b.resources) q.initialized ≡ ok tt
        → (order : List ℕ) × (q.passes ≡ p.passes ++ order) × RunsDefined history order
    end-Runs p q history t e f = (
      [],
      sym (append-nil p.passes ∙ ap (λ (p : Progress b). p.passes) e),
      λ r l.
          subst (λ p. Tracks p.initialized history) e t r
            (require_initialized-all 0 (length b.resources) q.initialized r f (omega arith)
              (omega arith)),
    )

    -- The rest of the loop, from the state in which the passes of `history` have run.
    take_all-Runs :
        (fuel : ℕ) (p q : Progress b) (ready : List ℕ) (history : List Attachment)
        → Tracks p.initialized history
        → take_all b fuel edges p ready ≡ ok q
        → require_initialized b 0 (length b.resources) q.initialized ≡ ok tt
        → (order : List ℕ) × (q.passes ≡ p.passes ++ order) × RunsDefined history order
    unfolding take_all take run_contents
    take_all-Runs zero p q ready history t e f = end-Runs p q history t (ok-injective e) f
    take_all-Runs (suc fuel) p q [] history t e f = end-Runs p q history t (ok-injective e) f
    take_all-Runs (suc fuel) p q (index ∷ rest) history t e f =
        let pass = get_or b.passes index no_pass in
        let (m, taken, more) = >>=-eq-ok (take b edges index rest p) _ e in
        let (c, ran, made) = >>=-eq-ok (run_contents b pass p.initialized) _ taken in
        let (u, reads, e1) = >>=-eq-ok (check_reads b p.initialized pass.reads) _ ran in
        let (v, loads, stores) = >>=-eq-ok (check_loads b p.initialized (attachments pass)) _ e1 in
        let same = ok-injective made in
        let next = apply_stores-Tracks (attachments pass) p.initialized c history t stores in
        let (order, grown, runs) =
          take_all-Runs fuel m q m.ready (extend (attachments pass) history)
            (subst (λ (m : Progress b). Tracks m.initialized (extend (attachments pass) history))
              same next)
            more f in
        (
          index ∷ order,
          grown
              ∙ (ap (λ (m : Progress b). m.passes ++ order) (sym same)
                  ∙ append_assoc p.passes (index ∷ []) order),
          (
            check_reads-Defined p.initialized history pass.reads t reads,
            (check_loads-Defined p.initialized history (attachments pass) t loads, runs),
          ),
        )

  -- In an order that is found, every read and every attachment that is loaded finds contents that
  -- were imported or written before, and at the end every resource has such contents.
  pub order_passes-RunsDefined :
      (edges : List (ℕ × ℕ)) (order : List ℕ)
      → order_passes b edges ≡ ok order
      → RunsDefined [] order
  unfolding order_passes start
  order_passes-RunsDefined edges order h =
      let (p, taken, e1) =
        >>=-eq-ok (take_all b (suc (length b.passes)) edges (start b edges) (start b edges).ready) _
          h in
      let (u, full, e2) =
        >>=-eq-ok (throw_if (not (length p.passes == length b.passes)) invalid_argument) _ e1 in
      let (v, final, e3) =
        >>=-eq-ok (require_initialized b 0 (length b.resources) p.initialized) _ e2 in
      let (found, same, runs) =
        take_all-Runs edges (suc (length b.passes)) (start b edges) p (start b edges).ready []
          (λ r d. imported (ground (arith, d))) taken final in
      subst (RunsDefined []) (sym same ∙ ok-injective e3) runs
