-- ===== src/ResourceState/Ranges/Source.antt =====
-- `FindBufferRangeSource` against the state of every byte that it is asked about.
use Prim.Native.Nat.{min}
use native.Mathlib.Decide.{dec_lt}
use graphics_engine.Common.{
  invalid_argument, ℕ, zero, suc, ◌+◌, ◌-◌, ◌<◌, ◌≤◌, ◌≡◌, refl, sym, ◌∙◌, ◌≢◌, ◌⊎◌, inl, inr, Bool,
  true, false, Option, none, some, List, [], ◌∷◌, ltb, arith, Bool-cases, Option-cases, Result, ok,
  err, ltb→lt, ltb→le, ap,
}
use graphics_engine.ResourceState.Types.{Vulkan, BufferState, BufferRange, state_equals}
use graphics_engine.ResourceState.Ranges.{
  range_end, end_of, covers, find_range, agree, source_loop, find_buffer_range_source,
}
use graphics_engine.ResourceState.Ranges.Lookup.{IsRange, range_end-bounds, All, state_at}
use graphics_engine.ResourceState.Ranges.Disjoint.{Apart, Disjoint, Tracked}

pub state_equals-eq : (x y : BufferState) → state_equals x y ≡ true → x ≡ y
state_equals-eq x y e = ground arith

pub state_equals-ne : (x y : BufferState) → state_equals x y ≡ false → x ≢ y
state_equals-ne x y e q = ground arith

module _ (vk : Vulkan) where
  pub find_range-All {κ} :
      (P : BufferRange → Type κ) (rs : List BufferRange) (b p : ℕ) {r : BufferRange}
      → All vk P rs
      → find_range vk rs b p ≡ some r
      → P r × (covers vk r b p ≡ true)
  unfolding find_range
  find_range-All P [] b p {r = r} a e = cc
  find_range-All P (x ∷ xs) b p {r = r} a e = elim (Bool-cases (covers vk x b p)) [
    | inl c ↦ let q : x ≡ r = ground arith in rw (← q) (a.0, c)
    | inr c ↦ find_range-All P xs b p a.1 (rw c at e)
  ]

  pub find_range-covers :
      (rs : List BufferRange) (b p : ℕ) {r : BufferRange}
      → find_range vk rs b p ≡ some r
      → covers vk r b p ≡ true
  unfolding find_range
  find_range-covers [] b p {r = r} e = cc
  find_range-covers (x ∷ xs) b p {r = r} e = ground (arith, find_range-covers xs b p {r = r})

  -- A tracked range is found at every byte of it.
  pub find_range-uniform :
      (rs : List BufferRange) (b p q : ℕ) {r : BufferRange}
      → Disjoint vk rs
      → find_range vk rs b p ≡ some r
      → covers vk r b q ≡ true
      → find_range vk rs b q ≡ some r
  unfolding find_range
  find_range-uniform [] b p q {r = r} d e c = cc
  find_range-uniform (x ∷ xs) b p q {r = r} d e c = elim (Bool-cases (covers vk x b p)) [
    | inl h ↦ ground arith
    | inr h ↦
        let e' : find_range vk xs b p ≡ some r = rw h at e in
        ground (
          arith,
          find_range-uniform xs b p q {r = r} d.1 e',
          find_range-All (Apart vk x) xs b p {r = r} d.0 e',
        )
  ]

  module _ (rs : List BufferRange) (b from stop : ℕ) where
    -- Two bytes of the asked range are in different states.
    abbrev pub IsMixed : Type 0
    IsMixed =
        (p : ℕ) × (q : ℕ) × (x : BufferState) × (y : BufferState) × (from ≤ p)
        × (p < stop)
        × (from ≤ q)
        × (q < stop)
        × (state_at vk rs b p ≡ some x)
        × (state_at vk rs b q ≡ some y)
        × (x ≢ y)

    -- What an answer says of the bytes from `from` up to `stop`.
    abbrev pub Answer : Bool → Result (Option BufferState) → Type 0
    Answer mixed (ok (some state)) = (p : ℕ) → from ≤ p → p < stop → state_at vk rs b p ≡ some state
    Answer mixed (ok none) =
        ((p : ℕ) × (from ≤ p) × (p < stop) × (state_at vk rs b p ≡ none))
        ⊎ ((mixed ≡ false) × IsMixed)
    Answer mixed (err e) = (mixed ≡ true) × (e ≡ invalid_argument) × IsMixed

    abbrev Known : Option BufferState → ℕ → Type 0
    Known none covered = covered ≡ from
    Known (some state) covered =
        (from < covered) × ((p : ℕ) → from ≤ p → p < covered → state_at vk rs b p ≡ some state)

    Known-Answer :
        (mixed : Bool) (source : Option BufferState) (covered : ℕ)
        → from < stop
        → stop ≤ covered
        → Known source covered
        → Answer mixed (ok source)
    Known-Answer mixed none covered l c k = absurd (omega arith)
    Known-Answer mixed (some state) covered l c k = λ p lp up. k.1 p lp (omega arith)

    extend :
        (r : BufferRange) (covered : ℕ)
        → Disjoint vk rs
        → find_range vk rs b covered ≡ some r
        → covered < stop
        → ((p : ℕ) → from ≤ p → p < covered → state_at vk rs b p ≡ some r.state)
        → (p : ℕ) → from ≤ p
        → p < min (end_of vk r) stop
        → state_at vk rs b p ≡ some r.state
    extend r covered d f l k p lp up = elim (dec_lt p covered) [
      | yes h ↦ k p lp h
      | no h ↦ rw (
          find_range-uniform rs b covered p {r = r} d f
            (ground (arith, find_range-covers rs b covered {r = r} f)))
    ]

    module _ (d : Disjoint vk rs) (mixed : Bool) (range : from < stop) where
      grown :
          (r : BufferRange) (covered : ℕ)
          → find_range vk rs b covered ≡ some r
          → from ≤ covered
          → from ≤ min (end_of vk r) stop
      grown r covered e l = ground (arith, find_range-covers rs b covered {r = r} e)

      refuel :
          (r : BufferRange) (covered fuel : ℕ)
          → find_range vk rs b covered ≡ some r
          → stop ≤ covered + suc fuel
          → stop ≤ min (end_of vk r) stop + fuel
      refuel r covered fuel e l = ground (arith, find_range-covers rs b covered {r = r} e)

      past :
          (r : BufferRange) (covered : ℕ)
          → find_range vk rs b covered ≡ some r
          → from ≤ covered
          → from < min (end_of vk r) stop
      past r covered e l = ground (arith, find_range-covers rs b covered {r = r} e)

      -- One round at the range found: the answer is final, or the loop goes on with more known.
      round :
          (fuel covered : ℕ) (source : Option BufferState) (r : BufferRange)
          → from ≤ covered
          → covered < stop
          → find_range vk rs b covered ≡ some r
          → Known source covered
          → ((state : BufferState)
              → Known (some state) (min (end_of vk r) stop)
              → Answer mixed
                  (source_loop vk fuel rs b mixed stop (min (end_of vk r) stop) (some state)))
          → Answer mixed (elim (agree vk mixed source r.state) [
            | err e ↦ err e
            | ok none ↦ ok none
            | ok (some state) ↦
                source_loop vk fuel rs b mixed stop (min (end_of vk r) stop) (some state)
          ])
      round fuel covered none r l m e k go =
          go r.state (past r covered e l, extend r covered d e m (λ p lp up. absurd (omega arith)))
      round fuel covered (some state) r l m e k go =
          elim (Bool-cases (state_equals state r.state)) [
            | inl same ↦
                let q : state ≡ r.state = state_equals-eq state r.state same in
                rw same (
                  go state (
                    past r covered e l,
                    rw q (extend r covered d e m (λ p lp up. k.1 p lp up ∙ ap some q)),
                  ))
            | inr other ↦
                let mix : IsMixed = (
                  from,
                  covered,
                  state,
                  r.state,
                  omega arith,
                  range,
                  l,
                  m,
                  k.1 from (omega arith) k.0,
                  rw e,
                  state_equals-ne state r.state other,
                ) in
                rw other (elim (Bool-cases mixed) [
                  | inl y ↦ rw y (refl, refl, mix)
                  | inr n ↦ rw n (inr (refl, mix))
                ])
          ]

      pub source_loop-Answer :
          (fuel covered : ℕ) (source : Option BufferState)
          → from ≤ covered
          → stop ≤ covered + fuel
          → Known source covered
          → Answer mixed (source_loop vk fuel rs b mixed stop covered source)
      unfolding source_loop
      source_loop-Answer zero covered source l f k =
          Known-Answer mixed source covered range (omega arith) k
      source_loop-Answer (suc fuel) covered source l f k = elim (Bool-cases (ltb covered stop)) [
        | inr done ↦
            rw (done, source_loop)
              (Known-Answer mixed source covered range (ltb→le covered stop done) k)
        | inl more ↦ elim (Option-cases (find_range vk rs b covered)) [
          | inl e ↦
              rw (more, source_loop)
                (rw (e, source_loop) (inl (covered, l, ltb→lt covered stop more, rw e)))
          | inr (r, e) ↦
              rw (more, source_loop)
                (rw (e, source_loop)
                  (round fuel covered source r l (ltb→lt covered stop more) e k (λ state k'.
                    source_loop-Answer fuel (min (end_of vk r) stop) (some state)
                      (grown r covered e l) (refuel r covered fuel e f) k')))
        ]
      ]

  module _ (rs : List BufferRange) (t : Tracked vk rs) (b offset size : ℕ)
      (v : IsRange vk offset size) where
    -- For a valid range and valid, disjoint tracked ranges the answer is exact: a state is that of every byte of the range;
    -- "none" means that a byte is untracked, or, where mixing is allowed, that two bytes differ;
    -- and it throws only where mixing is an error and two bytes differ.
    pub find_buffer_range_source-Answer :
        (mixed : Bool)
        → Answer rs b offset
            (range_end vk offset size)
            mixed
            (find_buffer_range_source vk rs b offset size mixed)
    unfolding find_buffer_range_source
    find_buffer_range_source-Answer mixed =
        let (lower, upper) = range_end-bounds vk offset size v in
        source_loop-Answer rs b offset (range_end vk offset size) t.disjoint mixed lower
          (range_end vk offset size - offset) offset none (omega arith) (omega arith) refl

    -- If all bytes of a valid range are in one state, then the answer is that state, whether mixing is
    -- an error or not; the tracked ranges are valid and disjoint.
    pub find_buffer_range_source_complete :
        (mixed : Bool) (state : BufferState)
        → ((p : ℕ) → offset ≤ p → p < range_end vk offset size → state_at vk rs b p ≡ some state)
        → find_buffer_range_source vk rs b offset size mixed ≡ ok (some state)
    find_buffer_range_source_complete mixed state h =
        decide_answer (find_buffer_range_source vk rs b offset size mixed)
          (find_buffer_range_source-Answer mixed)
      where
        same :
            (p : ℕ) (x : BufferState)
            → offset ≤ p
            → p < range_end vk offset size
            → state_at vk rs b p ≡ some x
            → x ≡ state
        same p x l u e = let q : some x ≡ some state = sym e ∙ h p l u in cc q

        decide_answer :
            (r : Result (Option BufferState))
            → Answer rs b offset (range_end vk offset size) mixed r
            → r ≡ ok (some state)
        decide_answer (err e) (m, i, (p, q, x, y, lp, up, lq, uq, ep, eq, ne)) =
            absurd (ne (same p x lp up ep ∙ sym (same q y lq uq eq)))
        decide_answer (ok none) (inl (p, l, u, e)) = cc (h p l u)
        decide_answer (ok none) (inr (m, (p, q, x, y, lp, up, lq, uq, ep, eq, ne))) =
            absurd (ne (same p x lp up ep ∙ sym (same q y lq uq eq)))
        decide_answer (ok (some x)) a =
            let (lower, upper) = range_end-bounds vk offset size v in
            ap (λ z. ok (some z)) (same offset x (omega arith) lower (a offset (omega arith) lower))
