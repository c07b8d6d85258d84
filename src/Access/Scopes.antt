-- ===== src/Access/Scopes.antt =====
-- ecs/internal/access_coordinator.cpp: normal forms of scopes and footprints, and the overlap test.
pub mod Exact
use graphics_engine.Common.{
  ℕ, ◌+◌, ◌-◌, Bool, true, false, not, ◌&&◌, ◌||◌, List, [], ◌∷◌, any, Result, ok, err, ◌>>=◌, ◌>>◌,
  throw_if, invalid_argument, ◌==◌, ltb, leb, if◌then◌else◌, max_u64, u64, sort_unique,
  binary_search, sort_by, unique_by,
}
use graphics_engine.Access.Types.{
  ScopeKind, whole_storage, chunk, entity, entity_set, resource, unknown, AccessScope, Footprint,
  kind_code, requirement_code, domain_eq, scope_eq, is_empty,
}

abbrev pub normalize_kind : ScopeKind → AccessScope → Result AccessScope
normalize_kind whole_storage s = do
  throw_if (not (s.begin == 0) || not (s.count == 0) || not (is_empty s.elements)) invalid_argument
  ok s
normalize_kind unknown s = do
  throw_if (not (s.begin == 0) || not (s.count == 0) || not (is_empty s.elements)) invalid_argument
  ok s
normalize_kind chunk s = do
  throw_if (s.count == 0 || ltb (max_u64 - s.count) s.begin || not (is_empty s.elements))
      invalid_argument
  ok s
normalize_kind entity s = do
  throw_if (not (s.count == 0) || not (is_empty s.elements)) invalid_argument
  ok s
normalize_kind resource s = do
  throw_if (not (s.count == 0) || not (is_empty s.elements)) invalid_argument
  ok s
normalize_kind entity_set s = do
  throw_if (not (s.begin == 0) || not (s.count == 0) || is_empty s.elements) invalid_argument
  ok (record s { elements = sort_unique s.elements })

unfoldable pub normalize_scope : AccessScope → Result AccessScope
normalize_scope s = normalize_kind s.kind s

abbrev pub contains_kind : ScopeKind → AccessScope → ℕ → Bool
contains_kind entity s e = s.begin == e
contains_kind entity_set s e = binary_search s.elements e
contains_kind chunk s e = leb s.begin e && ltb (e - s.begin) s.count
contains_kind whole_storage s e = true
contains_kind resource s e = true
contains_kind unknown s e = true

unfoldable pub contains : AccessScope → ℕ → Bool
contains s e = contains_kind s.kind s e

abbrev is_kind : ScopeKind → AccessScope → Bool
is_kind k s = kind_code s.kind == kind_code k

-- `left.Begin < right.Begin + right.Count && right.Begin < left.Begin + left.Count`.
abbrev pub chunks_overlap : AccessScope → AccessScope → Bool
chunks_overlap l r = ltb l.begin (u64 (r.begin + r.count)) && ltb r.begin (u64 (l.begin + l.count))

-- The recursive call with the sides swapped finds the set on the left.
unfoldable pub overlaps : AccessScope → AccessScope → Bool
overlaps l r =
    if is_kind whole_storage l || is_kind whole_storage r || is_kind unknown l || is_kind unknown r
    then true
    else (if is_kind resource l || is_kind resource r
        then not (kind_code l.kind == kind_code r.kind) || l.begin == r.begin
        else (if is_kind entity l
            then contains r l.begin
            else (if is_kind entity r
                then contains l r.begin
                else (if is_kind entity_set l
                    then any (contains r) l.elements
                    else (if is_kind entity_set r
                        then any (contains l) r.elements
                        else chunks_overlap l r)))))

-- `std::tie(...) < std::tie(...)`: the first difference decides.
abbrev pub less_elements : List ℕ → List ℕ → Bool
less_elements [] [] = false
less_elements [] (y ∷ ys) = true
less_elements (x ∷ xs) [] = false
less_elements (x ∷ xs) (y ∷ ys) = if x == y then less_elements xs ys else ltb x y

abbrev first_difference : ℕ → ℕ → Bool → Bool
first_difference a b later = if a == b then later else ltb a b

unfoldable pub less_footprint : Footprint → Footprint → Bool
less_footprint a b = first_difference a.domain.owner_id b.domain.owner_id (
    first_difference a.domain.type_id b.domain.type_id (
      first_difference a.domain.generation b.domain.generation (
        first_difference (kind_code a.scope.kind) (kind_code b.scope.kind) (
          first_difference a.scope.begin b.scope.begin (
            first_difference a.scope.count b.scope.count (
              if less_elements a.scope.elements b.scope.elements
              then true
              else (if less_elements b.scope.elements a.scope.elements
                  then false
                  else ltb (requirement_code a.requirement) (requirement_code b.requirement))))))))

unfoldable pub equal_footprint : Footprint → Footprint → Bool
equal_footprint a b =
    domain_eq a.domain b.domain
    && scope_eq a.scope b.scope
    && requirement_code a.requirement == requirement_code b.requirement

unfoldable pub normalize_each : List Footprint → Result (List Footprint)
normalize_each [] = ok []
normalize_each (f ∷ fs) = do
  throw_if (f.domain.owner_id == 0 || f.domain.type_id == 0 || f.domain.generation == 0)
      invalid_argument
  scope ← normalize_scope f.scope
  rest ← normalize_each fs
  ok (record f { scope = scope } ∷ rest)

unfoldable pub normalize_footprints : List Footprint → Result (List Footprint)
unfolding normalize_each less_footprint equal_footprint
normalize_footprints fs = do
  normal ← normalize_each fs
  ok (unique_by equal_footprint (sort_by less_footprint normal))
