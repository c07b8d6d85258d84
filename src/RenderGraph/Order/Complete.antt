-- ===== src/RenderGraph/Order/Complete.antt =====
-- renderer/render_graph.cpp: where the contents of the resources stay defined, the loop of `Compile`
-- finds an order whenever the edges have no cycle.
use graphics_engine.Common.{
  ltb, ◌==◌, ==_iff, length, get_or, all, ok, ℕ, zero, suc, ◌+◌, ◌≤◌, ◌<◌, ◌≡◌, refl, subst, Bool,
  true, false, not, ◌&&◌, List, [], ◌∷◌, ◌++◌, arith,
}
use graphics_engine.RenderGraph.Types.{
  AttachmentLoad, load, clear, discard, AttachmentStore, store, GraphId, ResourceUse, Attachment,
  GraphicsPass,
}
use graphics_engine.RenderGraph.Validation.{is_undefined}
use graphics_engine.RenderGraph.Builder.{Builder, resolve_resource}
use graphics_engine.RenderGraph.Hazards.{update, unknown_resource}
use graphics_engine.RenderGraph.Order.{
  outgoing, release, no_pass, is_defined_after, attachments, check_reads, check_load, check_loads,
  apply_store, apply_stores, run_contents, Progress, take, take_all, start, require_initialized,
  order_passes,
}
use graphics_engine.RenderGraph.Order.Counts.{one_if, occurrences}
use graphics_engine.RenderGraph.Order.Releases.{InRange, has_edge}
use graphics_engine.RenderGraph.Order.Topological.{
  Good, start-Good, take-Good, take_all-Good, all_taken,
}

module _ (b : Builder) where
  abbrev pub is_known : GraphId → Bool
  is_known id = id.graph == b.identity && ltb id.index (length b.resources)

  -- An attachment that keeps what it holds, or clears it, and stores it.
  abbrev pub keeps : AttachmentLoad → AttachmentStore → Bool
  keeps load store = true
  keeps clear store = true
  keeps _ _ = false

  abbrev pub pass_keeps : GraphicsPass → Bool
  pass_keeps pass =
      all (λ u. is_known u.resource) pass.reads
      && all (λ a. is_known a.resource && keeps a.load a.store) (attachments pass)

  -- Every resource is imported with defined contents, and no pass leaves it without.
  abbrev pub always_defined : Bool
  always_defined =
      all (λ r. not (is_undefined r.initial_usage)) b.resources && all pass_keeps b.passes

  abbrev AllDefined : (ℕ → Bool) → Type 0
  AllDefined c = (r : ℕ) → r < length b.resources → c r ≡ true

  resolve-known : (id : GraphId) → is_known id ≡ true → resolve_resource b id ≡ ok id.index
  unfolding resolve_resource
  resolve-known id h = rw h

  check_reads-ok :
      (c : ℕ → Bool) (us : List ResourceUse)
      → AllDefined c
      → all (λ u. is_known u.resource) us ≡ true
      → check_reads b c us ≡ ok tt
  unfolding check_reads
  check_reads-ok c [] d h = refl
  check_reads-ok c (u ∷ us) d h =
      rw (resolve-known u.resource (ground arith), d u.resource.index (ground arith))
        (check_reads-ok c us d (ground arith))

  abbrev kept : Attachment → Bool
  kept a = is_known a.resource && keeps a.load a.store

  check_load-ok :
      (c : ℕ → Bool) (a : Attachment) (l : AttachmentLoad)
      → AllDefined c
      → is_known a.resource ≡ true
      → check_load b c a l ≡ ok tt
  check_load-ok c a load d h = rw (resolve-known a.resource h, d a.resource.index (ground arith))
  check_load-ok c a clear d h = refl
  check_load-ok c a discard d h = refl

  check_loads-ok :
      (c : ℕ → Bool) (others : List Attachment)
      → AllDefined c
      → all kept others ≡ true
      → check_loads b c others ≡ ok tt
  unfolding check_loads
  check_loads-ok c [] d h = refl
  check_loads-ok c (a ∷ others) d h =
      rw (check_load-ok c a a.load d (ground arith)) (check_loads-ok c others d (ground arith))

  is_defined-kept :
      (l : AttachmentLoad) (s : AttachmentStore)
      → keeps l s ≡ true
      → is_defined_after l s true ≡ true
  is_defined-kept load store h = refl
  is_defined-kept clear store h = refl
  is_defined-kept discard store h = h
  is_defined-kept load discard h = h
  is_defined-kept clear discard h = h
  is_defined-kept discard discard h = h

  apply_stores-ok :
      (others : List Attachment) (c : ℕ → Bool)
      → AllDefined c
      → all kept others ≡ true
      → (c' : ℕ → Bool) × (apply_stores b others c ≡ ok c') × AllDefined c'
  unfolding apply_stores apply_store
  apply_stores-ok [] c d h = (c, refl, d)
  apply_stores-ok (a ∷ others) c d h =
      let i = a.resource.index in
      let next = update c i (is_defined_after a.load a.store (c i)) in
      let here : c i ≡ true = d i (ground arith) in
      let after : is_defined_after a.load a.store (c i) ≡ true =
        rw here (is_defined-kept a.load a.store (ground arith)) in
      let (c', e, d') = apply_stores-ok others next (λ r l. ground (arith, d r l)) (ground arith) in
      (c', rw (resolve-known a.resource (ground arith)) e, d')

  run_contents-ok :
      (pass : GraphicsPass) (c : ℕ → Bool)
      → AllDefined c
      → pass_keeps pass ≡ true
      → (c' : ℕ → Bool) × (run_contents b pass c ≡ ok c') × AllDefined c'
  unfolding run_contents
  run_contents-ok pass c d h =
      let (c', e, d') = apply_stores-ok (attachments pass) c d (ground arith) in
      (
        c',
        rw
            (
              check_reads-ok c pass.reads d (ground arith),
              check_loads-ok c (attachments pass) d (ground arith),
            )
            e,
        d',
      )

  require_initialized-ok :
      (r left : ℕ) (c : ℕ → Bool)
      → AllDefined c
      → r + left ≤ length b.resources
      → require_initialized b r left c ≡ ok tt
  unfolding require_initialized
  require_initialized-ok r zero c d l = refl
  require_initialized-ok r (suc left) c d l =
      rw (d r (omega arith)) (require_initialized-ok (suc r) left c d (omega arith))

  all-get_or :
      {A : Type 0} (p : A → Bool) (xs : List A) (i : ℕ) (d : A)
      → all p xs ≡ true
      → i < length xs
      → p (get_or xs i d) ≡ true
  all-get_or p [] i d h l = absurd (omega arith)
  all-get_or p (x ∷ xs) zero d h l = ground arith
  all-get_or p (x ∷ xs) (suc i) d h l = all-get_or p xs i d (ground arith) (omega arith)

  take-ok :
      (edges : List (ℕ × ℕ)) (index : ℕ) (rest : List ℕ) (p : Progress b) (c : ℕ → Bool)
      → run_contents b (get_or b.passes index no_pass) p.initialized ≡ ok c
      → take b edges index rest p
        ≡ ok (
            let released = release (outgoing edges index) (p.incoming, rest) in
            record {
              ready = released.1;
              incoming = released.0;
              initialized = c;
              passes = p.passes ++ index ∷ [];
            })
  unfolding take
  take-ok edges index rest p c ran = rw ran

  module _ (edges : List (ℕ × ℕ)) (range : InRange (length b.passes) edges)
      (defined : always_defined ≡ true) where
    -- The loop runs to its end: no pass finds a resource undefined.
    take_all-ok :
        (fuel : ℕ) (p : Progress b) (ready : List ℕ)
        → p.ready ≡ ready
        → Good b edges p
        → AllDefined p.initialized
        → (q : Progress b) × (take_all b fuel edges p ready ≡ ok q) × AllDefined q.initialized
    unfolding take_all
    take_all-ok zero p ready e g d = (p, refl, d)
    take_all-ok (suc fuel) p [] e g d = (p, refl, d)
    take_all-ok (suc fuel) p (index ∷ rest) e g d =
        let in_range : index < length b.passes = ground (
          arith,
          subst
              (λ l.
                occurrences index p.passes + occurrences index l
                ≡ one_if (ltb index (length b.passes) && p.incoming index == 0))
              e (g.placed index),
          ==_iff index index,
        ) in
        let (c, ran, d') =
          run_contents-ok (get_or b.passes index no_pass) p.initialized d
            (all-get_or pass_keeps b.passes index no_pass (ground arith) in_range) in
        let released = release (outgoing edges index) (p.incoming, rest) in
        let next : Progress b = record {
          ready = released.1;
          incoming = released.0;
          initialized = c;
          passes = p.passes ++ index ∷ [];
        } in
        let taken : take b edges index rest p ≡ ok next = take-ok edges index rest p c ran in
        let (g', grown) = take-Good b edges range index rest p next e g taken in
        let (q, e', d'') = take_all-ok fuel next next.ready refl g' d' in (q, rw taken e', d'')

    -- Where every resource is imported with defined contents and every pass leaves it with such, an
    -- order of the passes is found whenever the edges can be ranked, that is, have no cycle.
    pub order_passes_complete :
        (rank : ℕ → ℕ)
        → ((a c : ℕ) → has_edge a c edges ≡ true → rank a < rank c)
        → (order : List ℕ) × (order_passes b edges ≡ ok order)
    unfolding order_passes start
    order_passes_complete rank ranked =
        let (p, e, d) =
          take_all-ok (suc (length b.passes)) (start b edges) (start b edges).ready refl
            (start-Good b edges)
            (λ r l.
              all-get_or (λ r. not (is_undefined r.initial_usage)) b.resources r unknown_resource
                (ground arith) l) in
        let (g, empty) =
          take_all-Good b edges range (suc (length b.passes)) (start b edges) p
            (start b edges).ready refl (omega arith) (start-Good b edges) e in
        let full = all_taken b edges range rank ranked p g empty in
        (
          p.passes,
          rw (
            e,
            full,
            (==_iff (length b.passes) (length b.passes)).1 refl,
            require_initialized-ok 0 (length b.resources) p.initialized d (omega arith),
          ),
        )
