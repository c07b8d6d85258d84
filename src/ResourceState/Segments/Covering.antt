-- ===== src/ResourceState/Segments/Covering.antt =====
-- The covering loop: its segments partition the range, each in the one state that its bytes have.
use Prim.Native.Nat.{min}
use graphics_engine.Common.{
  ◌>>=◌, ℕ, zero, suc, ◌+◌, ◌<◌, ◌≤◌, ◌≡◌, refl, inl, inr, Bool, true, false, some, List, [], ◌∷◌,
  ok, ltb, arith, Bool-cases, Option-cases, >>=-eq-ok, ltb→lt, ltb→le, max_u64,
}
use graphics_engine.ResourceState.Types.{Vulkan, BufferState, BufferRange, BufferTransition}
use graphics_engine.ResourceState.Ranges.{range_end, end_of, find_range, has_buffer_range_overlap}
use graphics_engine.ResourceState.Ranges.Lookup.{range_end-after, Valid, state_at}
use graphics_engine.ResourceState.Ranges.Disjoint.{Disjoint}
use graphics_engine.ResourceState.Ranges.Source.{find_range-covers, find_range-uniform}
use graphics_engine.ResourceState.Segments.{
  Cover, untracked, segments, prepend, segment_of, cover_loop,
}

module _ (vk : Vulkan) where
  module _ (rs : List BufferRange) (t : BufferTransition) (stop : ℕ) where
    -- The segments follow one another from `from` to `stop`, and each tells the state of its bytes.
    abbrev pub Chain : ℕ → List BufferRange → Type 0
    Chain from [] = stop ≤ from
    Chain from (s ∷ rest) =
        (s.buffer ≡ t.buffer)
        × (s.offset ≡ from)
        × Valid vk s
        × (end_of vk s ≤ stop)
        × ((p : ℕ) → from ≤ p → p < end_of vk s → state_at vk rs t.buffer p ≡ some s.state)
        × Chain (end_of vk s) rest

    abbrev pub Covered : ℕ → Bool → Cover → Type 0
    Covered from is_first untracked =
        (is_first ≡ true) × (has_buffer_range_overlap vk rs t.buffer t.offset t.size ≡ false)
    Covered from is_first (segments ss) = Chain from ss

    IsRange-segment :
        (from to : ℕ) (state : BufferState)
        → from < to
        → to ≤ max_u64
        → Valid vk (segment_of vk t from to state)
    IsRange-segment from to state l u = ground (arith, vk.whole_size_max)

    segment-Chain :
        (is_first : Bool) (covered : ℕ) (r : BufferRange) (c : Cover)
        → Disjoint vk rs
        → stop ≤ max_u64
        → covered < stop
        → find_range vk rs t.buffer covered ≡ some r
        → Covered (min (end_of vk r) stop) false c
        → Covered covered is_first
            (prepend vk (segment_of vk t covered (min (end_of vk r) stop) r.state) c)
    unfolding prepend
    segment-Chain is_first covered r untracked d m l e (q, o) = cc q
    segment-Chain is_first covered r (segments rest) d m l e k =
        let c = find_range-covers vk rs t.buffer covered {r = r} e in
        let to = min (end_of vk r) stop in
        let lt : covered < to = ground (arith, c) in
        let top : to ≤ max_u64 = omega (arith) in
        let ends : range_end vk covered (segment_of vk t covered to r.state).size ≡ to =
          range_end-after vk covered to lt top in
        (
          refl,
          refl,
          IsRange-segment covered to r.state lt top,
          rw ends (omega arith),
          (λ p lp up.
              rw (find_range-uniform vk rs t.buffer covered p {r = r} d e (ground (arith, c)))),
          rw ends k,
        )

    refuel :
        (covered fuel : ℕ) (r : BufferRange)
        → stop ≤ covered + suc fuel
        → find_range vk rs t.buffer covered ≡ some r
        → stop ≤ min (end_of vk r) stop + fuel
    refuel covered fuel r f e = ground (arith, find_range-covers vk rs t.buffer covered {r = r} e)

    pub cover_loop-Covered :
        (fuel covered : ℕ) (is_first : Bool) {c : Cover}
        → Disjoint vk rs
        → stop ≤ max_u64
        → stop ≤ covered + fuel
        → cover_loop vk fuel rs t stop covered is_first ≡ ok c
        → Covered covered is_first c
    unfolding cover_loop
    cover_loop-Covered zero covered is_first {c = c} d m f e =
        let q : c ≡ segments [] = ground arith in rw q (omega arith)
    cover_loop-Covered (suc fuel) covered is_first {c = c} d m f e =
        elim (Bool-cases (ltb covered stop)) [
          | inr done ↦ let q : c ≡ segments [] = ground arith in rw q (ltb→le covered stop done)
          | inl more ↦ elim (Option-cases (find_range vk rs t.buffer covered)) [
            | inl n ↦ let q : c ≡ untracked = ground arith in rw q (ground arith, ground arith)
            | inr (r, f') ↦
                let l = ltb→lt covered stop more in
                let e' : (cover_loop vk fuel rs t stop (min (end_of vk r) stop) false >>= λ rest.
                ok (prepend vk (segment_of vk t covered (min (end_of vk r) stop) r.state) rest))
                    ≡ ok c =
                  rw (f', cover_loop) at (rw (more, cover_loop) at e) in
                let (rest, g, h) =
                  >>=-eq-ok (cover_loop vk fuel rs t stop (min (end_of vk r) stop) false) _ e' in
                let q : c
                    ≡ prepend vk (segment_of vk t covered (min (end_of vk r) stop) r.state) rest =
                  ground arith in
                rw q (
                  segment-Chain is_first covered r rest d m l f' (
                    cover_loop-Covered fuel (min (end_of vk r) stop) false d m
                      (refuel covered fuel r f f') g))
          ]
        ]
