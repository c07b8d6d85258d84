-- ===== src/RenderGraph/Order/Releases.antt =====
-- renderer/render_graph.cpp: what one round of the loop of `Compile` does to the counts of the edges
-- that still enter each pass.
use graphics_engine.Common.{
  ltb, ◌==◌, if◌then◌else◌, ==_iff, Bool-cases, any, insert, elem, ℕ, ◌+◌, ◌-◌, ◌≤◌, ◌<◌, ◌≡◌, refl,
  inl, inr, Bool, true, false, not, ◌&&◌, ◌||◌, List, [], ◌∷◌, ◌++◌, arith,
}
use graphics_engine.RenderGraph.Hazards.{update}
use graphics_engine.RenderGraph.Order.{edge_eq, outgoing, incoming_of, release}
use graphics_engine.RenderGraph.Order.Counts.{one_if, occurrences, occurrences-insert}

-- Every end of an edge is one of the passes.
abbrev pub InRange : ℕ → List (ℕ × ℕ) → Type 0
InRange n [] = Unit {0}
InRange n ((before, after) ∷ edges) = (before < n) × ((after < n) × InRange n edges)

abbrev pub has_edge : ℕ → ℕ → List (ℕ × ℕ) → Bool
has_edge before after edges = any (edge_eq (before, after)) edges

-- The edges into a pass from those that are not yet taken.
abbrev pub pending : List (ℕ × ℕ) → List ℕ → ℕ → ℕ
pending [] taken j = 0
pending ((before, after) ∷ edges) taken j =
    one_if (after == j && not (elem before taken)) + pending edges taken j

pub pending-start : (edges : List (ℕ × ℕ)) (j : ℕ) → incoming_of edges j ≡ pending edges [] j
unfolding incoming_of
pending-start [] j = refl
pending-start ((before, after) ∷ edges) j = ground (arith, pending-start edges j)

pub elem-snoc : (a x : ℕ) (xs : List ℕ) → elem a (xs ++ x ∷ []) ≡ (elem a xs || x == a)
elem-snoc a x [] = ground arith
elem-snoc a x (y ∷ ys) = ground (arith, elem-snoc a x ys)

pub pending-snoc :
    (edges : List (ℕ × ℕ)) (taken : List ℕ) (x j : ℕ)
    → elem x taken ≡ false
    → pending edges taken j ≡ pending edges (taken ++ x ∷ []) j + occurrences j (outgoing edges x)
unfolding outgoing
pending-snoc [] taken x j h = refl
pending-snoc ((before, after) ∷ edges) taken x j h =
    let same : before ≡ x → elem before taken ≡ false = λ e. rw (e, h) in
    ground (arith, pending-snoc edges taken x j h, elem-snoc before x taken, ==_iff before x, same)

pub pending-zero :
    (edges : List (ℕ × ℕ)) (taken : List ℕ) (a c : ℕ)
    → has_edge a c edges ≡ true
    → pending edges taken c ≡ 0
    → elem a taken ≡ true
pending-zero [] taken a c h z = cc
pending-zero ((before, after) ∷ edges) taken a c h z =
    let same : a ≡ before → elem a taken ≡ elem before taken = λ e. rw e in
    ground
      (arith, pending-zero edges taken a c, ==_iff a before, ==_iff c after, ==_iff after c, same)

-- An edge that counts is from a pass that is not yet taken.
pub pending-witness :
    (edges : List (ℕ × ℕ)) (taken : List ℕ) (c : ℕ)
    → 0 < pending edges taken c
    → (a : ℕ) × (has_edge a c edges ≡ true) × (elem a taken ≡ false)
pending-witness [] taken c h = absurd (omega arith)
pending-witness ((before, after) ∷ edges) taken c h =
    elim (Bool-cases (after == c && not (elem before taken))) [
      | inl y ↦ (before, ground (arith, ==_iff before before), ground arith)
      | inr n ↦ let (a, e, m) = pending-witness edges taken c (ground arith) in (a, ground arith, m)
    ]

pub outgoing-InRange :
    (n : ℕ) (edges : List (ℕ × ℕ)) (x j : ℕ)
    → InRange n edges
    → n ≤ j
    → occurrences j (outgoing edges x) ≡ 0
unfolding outgoing
outgoing-InRange n [] x j r l = refl
outgoing-InRange n ((before, after) ∷ edges) x j r l =
    let rec = outgoing-InRange n edges x j r.1.1 l in ground (arith, rec)

pub has_edge-InRange :
    (n : ℕ) (edges : List (ℕ × ℕ)) (a c : ℕ)
    → InRange n edges
    → has_edge a c edges ≡ true
    → (a < n) × (c < n)
has_edge-InRange n [] a c r h = cc
has_edge-InRange n ((before, after) ∷ edges) a c r h =
    ground (arith, has_edge-InRange n edges a c r.1.1)

-- Each count falls by the number of edges from the pass that was taken.
pub release-incoming :
    (outs : List ℕ) (incoming : ℕ → ℕ) (ready : List ℕ) (j : ℕ)
    → (release outs (incoming, ready)).0 j ≡ incoming j - occurrences j outs
unfolding release
release-incoming [] incoming ready j = omega arith
release-incoming (next ∷ others) incoming ready j =
    let left = incoming next - 1 in
    let same : next ≡ j → incoming next ≡ incoming j = λ e. rw e in
    ground (
      arith,
      release-incoming others (update incoming next left)
          (if left == 0 then insert ltb next ready else ready) j,
      ==_iff next j,
      same,
    )

-- A pass becomes ready once, when its count falls to zero.
pub release-ready :
    (outs : List ℕ) (incoming : ℕ → ℕ) (ready : List ℕ) (j : ℕ)
    → ((i : ℕ) → occurrences i outs ≤ incoming i)
    → occurrences j (release outs (incoming, ready)).1
      ≡ occurrences j ready
        + one_if (ltb 0 (occurrences j outs) && incoming j == occurrences j outs)
unfolding release
release-ready [] incoming ready j enough = ground arith
release-ready (next ∷ others) incoming ready j enough =
    let left = incoming next - 1 in
    let same : next ≡ j → incoming next ≡ incoming j = λ e. rw e in
    let counts : (i : ℕ) → occurrences i others ≤ update incoming next left i = λ i.
      let s : next ≡ i → incoming next ≡ incoming i = λ e. rw e in
      ground (arith, enough i, ==_iff next i, s) in
    ground (
      arith,
      release-ready others (update incoming next left)
          (if left == 0 then insert ltb next ready else ready) j counts,
      occurrences-insert j next ready,
      ==_iff next j,
      same,
      enough j,
      enough next,
    )
