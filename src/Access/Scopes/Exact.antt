-- ===== src/Access/Scopes/Exact.antt =====
-- The overlap test decides whether two scopes share an element.
use graphics_engine.Common.{
  ap, sort_unique, subst, any-elem, elem-any, ℕ, ◌+◌, ◌<◌, ◌≤◌, ◌≡◌, refl, sym, ◌∙◌, ◌≢◌, ◌⊎◌, inl,
  inr, ◌↔◌, Bool, true, false, List, [], ◌∷◌, any, ok, arith, max_u64, elem, elem-sort_unique,
  IsSorted, IsSorted-sort_unique, binary_search-elem, Bool-cases, ltb,
}
use graphics_engine.Access.Types.{
  ScopeKind, whole_storage, chunk, entity, entity_set, resource, unknown, AccessScope, is_empty,
}
use graphics_engine.Access.Scopes.{
  normalize_kind, contains_kind, chunks_overlap, normalize_scope, contains, overlaps,
}

-- What normalisation leaves of a scope.
abbrev pub NormalKind : ScopeKind → AccessScope → Type 0
NormalKind chunk s = (0 < s.count) × (s.begin + s.count ≤ max_u64) × (s.elements ≡ [])
NormalKind entity_set s = (s.begin ≡ 0) × (s.count ≡ 0) × (s.elements ≢ []) × IsSorted s.elements
NormalKind entity s = (s.count ≡ 0) × (s.elements ≡ [])
NormalKind resource s = (s.count ≡ 0) × (s.elements ≡ [])
NormalKind whole_storage s = (s.begin ≡ 0) × (s.count ≡ 0) × (s.elements ≡ [])
NormalKind unknown s = (s.begin ≡ 0) × (s.count ≡ 0) × (s.elements ≡ [])

abbrev pub Normal : AccessScope → Type 0
Normal s = NormalKind s.kind s

-- The elements that a scope stands for: those of the entity index space, or the one resource that
-- `begin` names. A whole storage and an unknown scope leave out none.
abbrev pub StandsFor : ScopeKind → AccessScope → ℕ → Type 0
StandsFor entity s e = s.begin ≡ e
StandsFor entity_set s e = elem e s.elements ≡ true
StandsFor chunk s e = (s.begin ≤ e) × (e < s.begin + s.count)
StandsFor whole_storage s e = Unit {0}
StandsFor resource s e = s.begin ≡ e
StandsFor unknown s e = Unit {0}

abbrev pub InScope : AccessScope → ℕ → Type 0
InScope s e = StandsFor s.kind s e

-- The kinds whose elements lie in the entity index space.
abbrev pub IsBounded : ScopeKind → Type 0
IsBounded k = (k ≡ chunk) ⊎ (k ≡ entity) ⊎ (k ≡ entity_set)

contains_kind-StandsFor :
    (k : ScopeKind) (s : AccessScope) (e : ℕ)
    → IsBounded k
    → NormalKind k s
    → (contains_kind k s e ≡ true) ↔ StandsFor k s e
contains_kind-StandsFor entity s e b n = ground arith
contains_kind-StandsFor entity_set s e b n = ground (arith, binary_search-elem e s.elements n.3)
contains_kind-StandsFor chunk s e b n = ground arith
contains_kind-StandsFor whole_storage s e b n = absurd (ground arith)
contains_kind-StandsFor resource s e b n = absurd (ground arith)
contains_kind-StandsFor unknown s e b n = absurd (ground arith)

contains-InScope :
    (s : AccessScope) (e : ℕ) → IsBounded s.kind → Normal s → (contains s e ≡ true) ↔ InScope s e
unfolding contains
contains-InScope s e b n = contains_kind-StandsFor s.kind s e b n

-- A scope's elements are shared if a common one can be named.
abbrev pub Share : AccessScope → AccessScope → Type 0
Share l r = (e : ℕ) × InScope l e × InScope r e

to_scope : (k : ScopeKind) (s : AccessScope) (e : ℕ) → s.kind ≡ k → StandsFor k s e → InScope s e
to_scope k s e q = subst (λ x. StandsFor x s e) (sym q)

from_scope : (k : ScopeKind) (s : AccessScope) (e : ℕ) → s.kind ≡ k → InScope s e → StandsFor k s e
from_scope k s e q = subst (λ x. StandsFor x s e) q

to_kind-Normal : (k : ScopeKind) (s : AccessScope) → s.kind ≡ k → Normal s → NormalKind k s
to_kind-Normal k s q = subst (λ x. NormalKind x s) q

chunks_meet :
    (l r : AccessScope)
    → NormalKind chunk l
    → NormalKind chunk r
    → chunks_overlap l r ≡ true
    → (e : ℕ) × StandsFor chunk l e × StandsFor chunk r e
chunks_meet l r nl nr h = elim (Bool-cases (ltb l.begin r.begin)) [
  | inl y ↦ (r.begin, ground arith, ground arith)
  | inr n ↦ (l.begin, ground arith, ground arith)
]

chunks_met :
    (l r : AccessScope) (e : ℕ)
    → NormalKind chunk l
    → NormalKind chunk r
    → StandsFor chunk l e
    → StandsFor chunk r e
    → chunks_overlap l r ≡ true
chunks_met l r e nl nr a b = ground arith

module _ (l r : AccessScope) (bl : IsBounded l.kind) (br : IsBounded r.kind) where
  overlaps-entity_left : l.kind ≡ entity → overlaps l r ≡ contains r l.begin
  unfolding overlaps
  overlaps-entity_left q = ground arith

  overlaps-entity_right : r.kind ≡ entity → l.kind ≢ entity → overlaps l r ≡ contains l r.begin
  unfolding overlaps
  overlaps-entity_right q n = ground arith

  overlaps-set_left :
      l.kind ≡ entity_set → r.kind ≢ entity → overlaps l r ≡ any (contains r) l.elements
  unfolding overlaps
  overlaps-set_left q n = ground arith

  overlaps-set_right :
      l.kind ≡ chunk → r.kind ≡ entity_set → overlaps l r ≡ any (contains l) r.elements
  unfolding overlaps
  overlaps-set_right q q' = ground arith

  overlaps-chunks : l.kind ≡ chunk → r.kind ≡ chunk → overlaps l r ≡ chunks_overlap l r
  unfolding overlaps
  overlaps-chunks q q' = ground arith

  module _ (nl : Normal l) (nr : Normal r) where
    chunks-Share : l.kind ≡ chunk → r.kind ≡ chunk → (chunks_overlap l r ≡ true) ↔ Share l r
    chunks-Share q q' = (
      (λ h.
          let (e, a, b) =
            chunks_meet l r (to_kind-Normal chunk l q nl) (to_kind-Normal chunk r q' nr) h in
          (e, to_scope chunk l e q a, to_scope chunk r e q' b)),
      (λ (e, a, b).
          chunks_met l r e (to_kind-Normal chunk l q nl) (to_kind-Normal chunk r q' nr)
            (from_scope chunk l e q a) (from_scope chunk r e q' b)),
    )

    entity_left-Share : l.kind ≡ entity → (contains r l.begin ≡ true) ↔ Share l r
    entity_left-Share q = (
      (λ h. (l.begin, to_scope entity l l.begin q refl, (contains-InScope r l.begin br nr).0 h)),
      (λ (e, a, b).
          let same : l.begin ≡ e = from_scope entity l e q a in
          (contains-InScope r l.begin br nr).1 (rw same b)),
    )

    set_left-Share : l.kind ≡ entity_set → (any (contains r) l.elements ≡ true) ↔ Share l r
    set_left-Share q = (
      (λ h.
          let (e, m, c) = any-elem (contains r) l.elements h in
          (e, to_scope entity_set l e q m, (contains-InScope r e br nr).0 c)),
      (λ (e, a, b).
          elem-any (contains r) l.elements e (from_scope entity_set l e q a)
            ((contains-InScope r e br nr).1 b)),
    )

Share-symm : (l r : AccessScope) → Share l r → Share r l
Share-symm l r (e, a, b) = (e, b, a)

swapped : (l r : AccessScope) (b : Bool) → (b ≡ true) ↔ Share r l → (b ≡ true) ↔ Share l r
swapped l r b (f, g) = ((λ h. Share-symm r l (f h)), (λ h. g (Share-symm l r h)))

-- For normalised scopes of the entity index space the test answers exactly whether an element is in
-- both.
pub overlaps-Share :
    (l r : AccessScope)
    → IsBounded l.kind
    → IsBounded r.kind
    → Normal l
    → Normal r
    → (overlaps l r ≡ true) ↔ Share l r
overlaps-Share l r (inr (inl q)) br nl nr =
    rw (overlaps-entity_left l r (inr (inl q)) br q)
      (entity_left-Share l r (inr (inl q)) br nl nr q)
overlaps-Share l r (inl k) (inr (inl q)) nl nr =
    rw (overlaps-entity_right l r (inl k) (inr (inl q)) q (λ e. cc))
      (swapped l r _ (entity_left-Share r l (inr (inl q)) (inl k) nr nl q))
overlaps-Share l r (inr (inr k)) (inr (inl q)) nl nr =
    rw (overlaps-entity_right l r (inr (inr k)) (inr (inl q)) q (λ e. cc))
      (swapped l r _ (entity_left-Share r l (inr (inl q)) (inr (inr k)) nr nl q))
overlaps-Share l r (inr (inr k)) (inl q) nl nr =
    rw (overlaps-set_left l r (inr (inr k)) (inl q) k (λ e. cc))
      (set_left-Share l r (inr (inr k)) (inl q) nl nr k)
overlaps-Share l r (inr (inr k)) (inr (inr q)) nl nr =
    rw (overlaps-set_left l r (inr (inr k)) (inr (inr q)) k (λ e. cc))
      (set_left-Share l r (inr (inr k)) (inr (inr q)) nl nr k)
overlaps-Share l r (inl k) (inr (inr q)) nl nr =
    rw (overlaps-set_right l r (inl k) (inr (inr q)) k q)
      (swapped l r _ (set_left-Share r l (inr (inr q)) (inl k) nr nl q))
overlaps-Share l r (inl k) (inl q) nl nr =
    rw (overlaps-chunks l r (inl k) (inl q) k q) (chunks-Share l r (inl k) (inl q) nl nr k q)

normalize_kind-Normal :
    (k : ScopeKind) (s : AccessScope) {t : AccessScope}
    → s.count ≤ max_u64
    → s.kind ≡ k
    → normalize_kind k s ≡ ok t
    → NormalKind k t
      × (t.kind ≡ k)
      × ((e : ℕ) → StandsFor k t e → StandsFor k s e)
      × ((e : ℕ) → StandsFor k s e → StandsFor k t e)
normalize_kind-Normal entity s {t = t} small q h =
    (ground arith, ground arith, (λ e. ground arith), (λ e. ground arith))
normalize_kind-Normal chunk s {t = t} small q h =
    (ground arith, ground arith, (λ e. ground arith), (λ e. ground arith))
normalize_kind-Normal whole_storage s {t = t} small q h =
    (ground arith, ground arith, (λ e x. x), (λ e x. x))
normalize_kind-Normal resource s {t = t} small q h =
    (ground arith, ground arith, (λ e. ground arith), (λ e. ground arith))
normalize_kind-Normal unknown s {t = t} small q h =
    (ground arith, ground arith, (λ e x. x), (λ e x. x))
normalize_kind-Normal entity_set s {t = t} small q h =
    let made : t ≡ record s { elements = sort_unique s.elements } = ground arith in
    rw made (
      (
        ground arith,
        ground arith,
        (λ e. not_empty s.elements (ground arith) e),
        IsSorted-sort_unique s.elements,
      ),
      q,
      (λ e m. sym (elem-sort_unique e s.elements) ∙ m),
      (λ e m. elem-sort_unique e s.elements ∙ m),
    )
  where
    not_empty : (xs : List ℕ) → is_empty xs ≡ false → sort_unique xs ≢ []
    not_empty [] f e = cc
    not_empty (x ∷ xs) f e =
        let m : elem x (x ∷ xs) ≡ true = ground arith in
        cc (elem-sort_unique x (x ∷ xs), m, ap (elem x) e)

-- For a scope with a 64-bit count, normalisation succeeds only with a scope in normal form, of the
-- same kind, that stands for the same elements, a resource for the same resource.
pub normalize_scope-Normal :
    (s : AccessScope) {t : AccessScope}
    → s.count ≤ max_u64
    → normalize_scope s ≡ ok t
    → Normal t × (t.kind ≡ s.kind) × ((e : ℕ) → InScope t e ↔ InScope s e)
unfolding normalize_scope
normalize_scope-Normal s {t = t} small h =
    let (n, k, f, g) = normalize_kind-Normal s.kind s {t = t} small refl h in
    (
      to_normal t k n,
      k,
      (λ e. ((λ x. f e (from_scope s.kind t e k x)), (λ x. to_scope s.kind t e k (g e x)))),
    )
  where
    to_normal : (t : AccessScope) → t.kind ≡ s.kind → NormalKind s.kind t → Normal t
    to_normal t k = subst (λ x. NormalKind x t) (sym k)
