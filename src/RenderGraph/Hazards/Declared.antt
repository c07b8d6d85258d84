-- ===== src/RenderGraph/Hazards/Declared.antt =====
-- renderer/render_graph.cpp: the loop of `Compile` over the declared passes leaves edges that order
-- every pair of passes with a hazard.
use graphics_engine.Common.{
  ◌==◌, ==_iff, Bool-cases, length, get_or, ok, >>=-eq-ok, ok-injective, ℕ, zero, suc, ◌+◌, ◌<◌,
  ◌≡◌, sym, subst, ◌≢◌, inl, inr, Bool, true, false, not, ◌&&◌, ◌||◌, List, [], ◌∷◌, arith,
}
use graphics_engine.RenderGraph.Types.{ResourceUse, GraphicsPass, Outside}
use graphics_engine.RenderGraph.Builder.{Builder}
use graphics_engine.RenderGraph.Hazards.{
  Hazards, record_use, register_use, register_uses, validate_outputs, declare_pass, declare_passes,
}
use graphics_engine.RenderGraph.Hazards.Ordered.{
  mentions, Goes, mark_at, mark_uses, State, Goes-record_use, State-record_use, State-weaken,
}

abbrev wrote_by : ℕ → GraphicsPass → (ℕ → ℕ → Bool) → ℕ → ℕ → Bool
wrote_by index pass used = mark_uses true index pass.writes (mark_uses false index pass.reads used)

abbrev read_by : ℕ → GraphicsPass → (ℕ → ℕ → Bool) → ℕ → ℕ → Bool
read_by index pass used = mark_uses false index pass.writes (mark_uses true index pass.reads used)

abbrev wrote_after : ℕ → List GraphicsPass → (ℕ → ℕ → Bool) → ℕ → ℕ → Bool
wrote_after index [] used = used
wrote_after index (pass ∷ passes) used = wrote_after (suc index) passes (wrote_by index pass used)

abbrev read_after : ℕ → List GraphicsPass → (ℕ → ℕ → Bool) → ℕ → ℕ → Bool
read_after index [] used = used
read_after index (pass ∷ passes) used = read_after (suc index) passes (read_by index pass used)

module _ (rank : ℕ → ℕ) (outside : Outside) (b : Builder) where
  abbrev count : ℕ
  count = length b.passes

  pub register_use-record_use :
      (index : ℕ) (is_writing : Bool) (u : ResourceUse) (s t : (ℕ → Bool) × Hazards)
      → register_use outside b index is_writing u s ≡ ok t
      → t.1 ≡ record_use count index u.resource.index is_writing s.1
  unfolding register_use
  register_use-record_use index is_writing u (used, h) (used', h') e = ground arith

  register_uses-State :
      (index : ℕ) (is_writing : Bool) (us : List ResourceUse) (s t : (ℕ → Bool) × Hazards)
      (wrote read : ℕ → ℕ → Bool)
      → index ≢ count
      → register_uses outside b index is_writing us s ≡ ok t
      → Goes rank t.1.edges
      → Goes rank s.1.edges
        × (State count rank index wrote read s.1
            → State count rank index
                (mark_uses is_writing index us wrote)
                (mark_uses (not is_writing) index us read)
                t.1)
  unfolding register_uses
  register_uses-State index is_writing [] s t wrote read ne e g =
      let same = ok-injective e in
      (
        subst (λ t. Goes rank t.1.edges) (sym same) g,
        λ known. subst (λ t. State count rank index wrote read t.1) same known,
      )
  register_uses-State index is_writing (u ∷ us) s t wrote read ne e g =
      let (m, first, more) = >>=-eq-ok (register_use outside b index is_writing u s) _ e in
      let made = register_use-record_use index is_writing u s m first in
      let (g', kept) =
        register_uses-State index is_writing us m t
          (mark_at is_writing u.resource.index index wrote)
          (mark_at (not is_writing) u.resource.index index read) ne more g in
      let g'' = subst (λ h. Goes rank h.edges) made g' in
      (
        Goes-record_use count rank u.resource.index index is_writing s.1 g'',
        λ known. kept (
            subst (State count rank index _ _) (sym made) (
              State-record_use count rank wrote read u.resource.index index s.1 ne known is_writing
                g'')),
      )

  declare_pass-State :
      (index : ℕ) (pass : GraphicsPass) (h h' : Hazards) (wrote read : ℕ → ℕ → Bool)
      → index ≢ count
      → declare_pass outside b index pass h ≡ ok h'
      → Goes rank h'.edges
      → Goes rank h.edges
        × (State count rank index wrote read h
            → State count rank index (wrote_by index pass wrote) (read_by index pass read) h')
  unfolding declare_pass
  declare_pass-State index pass h h' wrote read ne e g =
      let (s, reads, more) =
        >>=-eq-ok (register_uses outside b index false pass.reads (λ _. false, h)) _ e in
      let (t, writes, last) = >>=-eq-ok (register_uses outside b index true pass.writes s) _ more in
      let (u, outputs, same) = >>=-eq-ok (validate_outputs outside b pass) _ last in
      let e' : t.1 ≡ h' = ok-injective same in
      let (g1, kept1) =
        register_uses-State index true pass.writes s t (mark_uses false index pass.reads wrote)
          (mark_uses true index pass.reads read) ne writes
          (subst (λ h. Goes rank h.edges) (sym e') g) in
      let (g2, kept2) =
        register_uses-State index false pass.reads (λ _. false, h) s wrote read ne reads g1 in
      (g2, λ known. subst (State count rank index _ _) e' (kept1 (kept2 known)))

  declare_passes-State :
      (passes : List GraphicsPass) (index : ℕ) (h h' : Hazards) (wrote read : ℕ → ℕ → Bool)
      → index + length passes ≡ count
      → declare_passes outside b index passes h ≡ ok h'
      → Goes rank h'.edges
      → Goes rank h.edges
        × (State count rank index wrote read h
            → (last : ℕ) × State count rank last
                (wrote_after index passes wrote)
                (read_after index passes read)
                h')
  unfolding declare_passes
  declare_passes-State [] index h h' wrote read n e g =
      let same = ok-injective e in
      (
        subst (λ h. Goes rank h.edges) (sym same) g,
        λ known. (index, subst (State count rank index wrote read) same known),
      )
  declare_passes-State (pass ∷ passes) index h h' wrote read n e g =
      let (m, first, more) = >>=-eq-ok (declare_pass outside b index pass h) _ e in
      let (g1, kept1) =
        declare_passes-State passes (suc index) m h' (wrote_by index pass wrote)
          (read_by index pass read) (omega arith) more g in
      let (g2, kept2) =
        declare_pass-State index pass h m wrote read (λ same. omega arith) first g1 in
      (
        g2,
        λ known. kept1 (
            State-weaken count rank index (wrote_by index pass wrote) (read_by index pass read) m
              (kept2 known)),
      )

mark_at-keeps :
    (applies : Bool) (resource index : ℕ) (used : ℕ → ℕ → Bool) (r i : ℕ)
    → used r i ≡ true
    → mark_at applies resource index used r i ≡ true
mark_at-keeps true resource index used r i h = elim (Bool-cases (resource == r)) [
  | inl y ↦ rw y (ground arith)
  | inr n ↦ rw n h
]
mark_at-keeps false resource index used r i h = h

mark_uses-keeps :
    (applies : Bool) (index : ℕ) (us : List ResourceUse) (used : ℕ → ℕ → Bool) (r i : ℕ)
    → used r i ≡ true
    → mark_uses applies index us used r i ≡ true
mark_uses-keeps applies index [] used r i h = h
mark_uses-keeps applies index (u ∷ us) used r i h =
    mark_uses-keeps applies index us (mark_at applies u.resource.index index used) r i
      (mark_at-keeps applies u.resource.index index used r i h)

mark_uses-marks :
    (index : ℕ) (us : List ResourceUse) (used : ℕ → ℕ → Bool) (r : ℕ)
    → mentions r us ≡ true
    → mark_uses true index us used r index ≡ true
mark_uses-marks index [] used r h = cc
mark_uses-marks index (u ∷ us) used r h =
    let next = mark_at true u.resource.index index used in
    elim (Bool-cases (u.resource.index == r)) [
      | inl y ↦
          mark_uses-keeps true index us next r index (rw y (ground (arith, ==_iff index index)))
      | inr n ↦ mark_uses-marks index us next r (rw n at h)
    ]

module _ (r i : ℕ) where
  wrote_after-keeps :
      (index : ℕ) (passes : List GraphicsPass) (used : ℕ → ℕ → Bool)
      → used r i ≡ true
      → wrote_after index passes used r i ≡ true
  wrote_after-keeps index [] used h = h
  wrote_after-keeps index (p ∷ ps) used h =
      wrote_after-keeps (suc index) ps (wrote_by index p used) (
        mark_uses-keeps true index p.writes (mark_uses false index p.reads used) r i
          (mark_uses-keeps false index p.reads used r i h))

  read_after-keeps :
      (index : ℕ) (passes : List GraphicsPass) (used : ℕ → ℕ → Bool)
      → used r i ≡ true
      → read_after index passes used r i ≡ true
  read_after-keeps index [] used h = h
  read_after-keeps index (p ∷ ps) used h = read_after-keeps (suc index) ps (read_by index p used) (
      mark_uses-keeps false index p.writes (mark_uses true index p.reads used) r i
        (mark_uses-keeps true index p.reads used r i h))

  -- Each use of a pass is marked at the end.
  pub wrote_after-marks :
      (index k : ℕ) (passes : List GraphicsPass) (used : ℕ → ℕ → Bool) (d : GraphicsPass)
      → i ≡ index + k
      → k < length passes
      → mentions r (get_or passes k d).writes ≡ true
      → wrote_after index passes used r i ≡ true
  wrote_after-marks index k [] used d e l m = absurd (omega arith)
  wrote_after-marks index zero (p ∷ ps) used d e l m =
      wrote_after-keeps (suc index) ps (wrote_by index p used) (
        subst (λ j. wrote_by index p used r j ≡ true) (let same : index ≡ i = omega arith in same)
          (mark_uses-marks index p.writes (mark_uses false index p.reads used) r m))
  wrote_after-marks index (suc k) (p ∷ ps) used d e l m =
      wrote_after-marks (suc index) k ps (wrote_by index p used) d (omega arith) (omega arith) m

  pub read_after-marks :
      (index k : ℕ) (passes : List GraphicsPass) (used : ℕ → ℕ → Bool) (d : GraphicsPass)
      → i ≡ index + k
      → k < length passes
      → mentions r (get_or passes k d).reads ≡ true
      → read_after index passes used r i ≡ true
  read_after-marks index k [] used d e l m = absurd (omega arith)
  read_after-marks index zero (p ∷ ps) used d e l m =
      read_after-keeps (suc index) ps (read_by index p used) (
        mark_uses-keeps false index p.writes (mark_uses true index p.reads used) r i (
          subst (λ j. mark_uses true index p.reads used r j ≡ true)
            (let same : index ≡ i = omega arith in same) (mark_uses-marks index p.reads used r m)))
  read_after-marks index (suc k) (p ∷ ps) used d e l m =
      read_after-marks (suc index) k ps (read_by index p used) d (omega arith) (omega arith) m

abbrev nothing_used : ℕ → ℕ → Bool
nothing_used r i = false

-- A pass with a hazard on a resource: it writes what the other one uses, or uses what it writes.
abbrev pub has_hazard : ℕ → GraphicsPass → GraphicsPass → Bool
has_hazard r earlier later =
    mentions r earlier.writes && (mentions r later.writes || mentions r later.reads)
    || mentions r earlier.reads && mentions r later.writes

abbrev pub from_edges : Builder → List (ℕ × ℕ) → Hazards
from_edges b edges = record { writers = λ _. length b.passes; readers = λ _. []; edges = edges }

-- The edges that were there before stay.
pub declare_passes-Goes :
    (rank : ℕ → ℕ) (outside : Outside) (b : Builder) (edges : List (ℕ × ℕ)) (h : Hazards)
    → declare_passes outside b 0 b.passes (from_edges b edges) ≡ ok h
    → Goes rank h.edges
    → Goes rank edges
declare_passes-Goes rank outside b edges h e g =
    (declare_passes-State rank outside b b.passes 0 (from_edges b edges) h nothing_used nothing_used
      (omega arith) e g).0

pub declare_passes-Ordered :
    (rank : ℕ → ℕ) (outside : Outside) (b : Builder) (edges : List (ℕ × ℕ)) (h : Hazards)
    (d : GraphicsPass)
    → declare_passes outside b 0 b.passes (from_edges b edges) ≡ ok h
    → Goes rank h.edges
    → (r i j : ℕ) → i < j
    → j < length b.passes
    → has_hazard r (get_or b.passes i d) (get_or b.passes j d) ≡ true
    → rank i < rank j
declare_passes-Ordered rank outside b edges h d e g r i j l l' hazard =
    let (g', kept) =
      declare_passes-State rank outside b b.passes 0 _ h nothing_used nothing_used (omega arith) e
        g in
    let (last, known) = kept (λ r. record {
      writers_first = λ i h. cc;
      readers_kept = λ i h. cc;
      seen = λ i h. cc;
      hazards = λ i j l h. cc;
    }) in
    (known r).hazards i j l (
      ground (
        arith,
        wrote_after-marks r i 0 i b.passes nothing_used d,
        wrote_after-marks r j 0 j b.passes nothing_used d,
        read_after-marks r i 0 i b.passes nothing_used d,
        read_after-marks r j 0 j b.passes nothing_used d,
      ))
