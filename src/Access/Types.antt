-- ===== src/Access/Types.antt =====
-- ecs/internal/access_coordinator.h: domains, scopes, requirements and footprints.
use graphics_engine.Common.{ℕ, Bool, true, false, ◌&&◌, List, [], ◌∷◌, ◌==◌}

pub record DataDomainKey : Type 0 where
  pub owner_id : ℕ
  pub type_id : ℕ
  pub generation : ℕ

pub data ScopeKind : Type 0 where
  whole_storage chunk entity entity_set resource unknown : ScopeKind

pub record AccessScope : Type 0 where
  pub kind : ScopeKind
  pub begin : ℕ
  pub count : ℕ
  pub elements : List ℕ

pub data Requirement : Type 0 where
  read write exclusive : Requirement

pub record Footprint : Type 0 where
  pub domain : DataDomainKey
  pub scope : AccessScope
  pub requirement : Requirement

abbrev pub domain_eq : DataDomainKey → DataDomainKey → Bool
domain_eq a b = a.owner_id == b.owner_id && a.type_id == b.type_id && a.generation == b.generation

abbrev pub kind_code : ScopeKind → ℕ
kind_code whole_storage = 0
kind_code chunk = 1
kind_code entity = 2
kind_code entity_set = 3
kind_code resource = 4
kind_code unknown = 5

abbrev pub requirement_code : Requirement → ℕ
requirement_code read = 0
requirement_code write = 1
requirement_code exclusive = 2

abbrev pub is_read : Requirement → Bool
is_read read = true
is_read write = false
is_read exclusive = false

abbrev pub is_empty : List ℕ → Bool
is_empty [] = true
is_empty (x ∷ xs) = false

-- `==` on vectors of elements.
abbrev pub elements_eq : List ℕ → List ℕ → Bool
elements_eq [] [] = true
elements_eq (x ∷ xs) (y ∷ ys) = x == y && elements_eq xs ys
elements_eq _ _ = false

abbrev pub scope_eq : AccessScope → AccessScope → Bool
scope_eq a b =
    kind_code a.kind == kind_code b.kind
    && a.begin == b.begin
    && a.count == b.count
    && elements_eq a.elements b.elements
