-- ===== src/Resources/Types.antt =====
-- resources/resource_identity.h, resource_state.h, resource_handle.h, resource_lease.h and
-- resource_manager.h: the data of the resource manager. A text is the list of its characters, and a
-- type index, a payload and an error are numbers.
use graphics_engine.Common.{
  ◌==◌, max_u64, ℕ, Bool, true, false, not, ◌&&◌, Option, none, List, [], ◌∷◌,
}

pub record Identity : Type 0 where
  pub resource_class : List ℕ
  pub key : List ℕ

abbrev pub text_eq : List ℕ → List ℕ → Bool
text_eq [] [] = true
text_eq (a ∷ rest) (b ∷ bs) = a == b && text_eq rest bs
text_eq _ _ = false

abbrev pub identity_eq : Identity → Identity → Bool
identity_eq a b = text_eq a.resource_class b.resource_class && text_eq a.key b.key

abbrev pub is_text : List ℕ → Bool
is_text [] = false
is_text (a ∷ rest) = true

unfoldable pub identity_is_valid : Identity → Bool
identity_is_valid identity = is_text identity.resource_class && is_text identity.key

pub data ResourceState : Type 0 where
  unloaded loading ready failed unloading : ResourceState

abbrev pub state_eq : ResourceState → ResourceState → Bool
state_eq unloaded unloaded = true
state_eq loading loading = true
state_eq ready ready = true
state_eq failed failed = true
state_eq unloading unloading = true
state_eq _ _ = false

abbrev pub invalid_slot_index : ℕ
invalid_slot_index = max_u64

pub record ResourceHandle : Type 0 where
  pub owner_id : ℕ
  pub slot_index : ℕ
  pub generation : ℕ

unfoldable pub handle_is_valid : ResourceHandle → Bool
handle_is_valid h =
    not (h.owner_id == 0) && (not (h.generation == 0) && not (h.slot_index == invalid_slot_index))

pub record ResourceOperation : Type 0 where
  pub handle : ResourceHandle
  pub generation : ℕ

pub record ResourceLease : Type 0 where
  pub handle : ResourceHandle
  pub version : ℕ
  pub resource : ℕ

-- `std::type_index{typeid(void)}`.
abbrev pub void_type : ℕ
void_type = 0

abbrev pub no_identity : Identity
no_identity = record { resource_class = []; key = [] }

pub record Entry : Type 0 where
  pub occupied : Bool
  pub identity : Identity
  pub type_index : ℕ
  pub state : ResourceState
  pub generation : ℕ
  pub operation_generation : ℕ
  pub cancelled_operation_generation : ℕ
  pub published_version : ℕ
  pub cpu_resource : Option ℕ
  pub failure : Option ℕ

abbrev pub new_entry : Entry
new_entry = record {
  occupied = false;
  identity = no_identity;
  type_index = void_type;
  state = unloaded;
  generation = 0;
  operation_generation = 0;
  cancelled_operation_generation = 0;
  published_version = 0;
  cpu_resource = none;
  failure = none;
}
