-- ===== src/Resources/Manager/Claims.antt =====
-- resources/resource_manager.cpp: the identity index, and the entry that `Request` claims.
use graphics_engine.Common.{
  ltb, ◌==◌, if◌then◌else◌, max_u64, ==_iff, Bool-cases, length, get_or, length-append,
  invalid_state, ok, throw_if, >>=-eq-ok, ok-injective, ℕ, zero, suc, ◌+◌, ◌≤◌, ◌<◌, ◌≡◌, refl, sym,
  ap, subst, ◌∙◌, ◌≢◌, ◌↔◌, inl, inr, true, false, ◌&&◌, none, some, List, [], ◌∷◌, ◌++◌, arith,
}
use graphics_engine.Resources.Types.{Identity, text_eq, identity_eq, Entry, new_entry}
use graphics_engine.Resources.Entries.{claimed}
use graphics_engine.Resources.Manager.{Manager, find, erase, entry_at, free_slot, with_slot, claim}
use graphics_engine.Resources.Manager.Calls.{get_or-set}

pub text_eq→eq : (a b : List ℕ) → text_eq a b ≡ true → a ≡ b
text_eq→eq [] [] h = refl
text_eq→eq [] (b ∷ bs) h = cc
text_eq→eq (a ∷ rest) [] h = cc
text_eq→eq (a ∷ rest) (b ∷ bs) h = ground (arith, text_eq→eq rest bs, ==_iff a b)

text_eq_refl : (a : List ℕ) → text_eq a a ≡ true
text_eq_refl [] = refl
text_eq_refl (a ∷ rest) = ground (arith, text_eq_refl rest, ==_iff a a)

pub identity_eq_iff : (a b : Identity) → (identity_eq a b ≡ true) ↔ (a ≡ b)
identity_eq_iff a b = (
  λ h. ground (arith, h, text_eq→eq a.resource_class b.resource_class, text_eq→eq a.key b.key),
  λ e.
      subst (λ c. identity_eq a c ≡ true) e
        (ground (arith, text_eq_refl a.resource_class, text_eq_refl a.key)),
)

pub find-erase :
    (id gone : Identity) (index : List (Identity × ℕ))
    → find id (erase gone index) ≡ (if identity_eq gone id then none else find id index)
unfolding find erase
find-erase id gone [] = ground arith
find-erase id gone ((known, slot) ∷ rest) =
    let rec = find-erase id gone rest in
    elim (Bool-cases (identity_eq known gone)) [
      | inl y ↦
          let same : known ≡ gone = (identity_eq_iff known gone).0 y in
          rw y (
            rec
            ∙ subst
                (λ k. (if identity_eq gone id then none else find id rest) ≡ (
                  if identity_eq gone id
                  then none
                  else if identity_eq k id
                  then some slot
                  else find id rest))
                (sym same) (ground arith))
      | inr n ↦ rw n (
          ground (
            arith,
            rec,
            identity_eq_iff known id,
            identity_eq_iff gone id,
            identity_eq_iff known gone,
            λ (p : known ≡ id) (q : gone ≡ id). p ∙ sym q,
          ))
    ]

pub occupied-in_range :
    (es : List Entry) (slot : ℕ) → (get_or es slot new_entry).occupied ≡ true → slot < length es
occupied-in_range [] slot h = cc
occupied-in_range (e ∷ es) zero h = omega arith
occupied-in_range (e ∷ es) (suc slot) h = omega (arith, occupied-in_range es slot h)

free_slot-le : (es : List Entry) → free_slot es ≤ length es
unfolding free_slot
free_slot-le [] = omega arith
free_slot-le (e ∷ es) = ground (arith, free_slot-le es)

pub free_slot-free : (es : List Entry) → (get_or es (free_slot es) new_entry).occupied ≡ false
unfolding free_slot
free_slot-free [] = refl
free_slot-free (e ∷ es) = elim (Bool-cases e.occupied) [
  | inl y ↦ rw y (free_slot-free es)
  | inr n ↦ rw n refl
]

get_or-end :
    (es : List Entry) (j : ℕ) → get_or (es ++ new_entry ∷ []) j new_entry ≡ get_or es j new_entry
get_or-end [] zero = refl
get_or-end [] (suc j) = refl
get_or-end (e ∷ es) zero = refl
get_or-end (e ∷ es) (suc j) = get_or-end es j

get_or-with_slot :
    (slot : ℕ) (es : List Entry) (j : ℕ)
    → get_or (with_slot slot es) j new_entry ≡ get_or es j new_entry
get_or-with_slot slot es j = elim (Bool-cases (slot == length es)) [
  | inl y ↦ rw y (get_or-end es j)
  | inr n ↦ rw n refl
]

free_slot-lt : (es : List Entry) → free_slot es < length (with_slot (free_slot es) es)
free_slot-lt es =
    ground
      (arith, free_slot-le es, length-append es (new_entry ∷ []), ==_iff (free_slot es) (length es))

pub record Claimed (identity : Identity) (type : ℕ) (m : Manager) (k : ℕ × ℕ) (m' : Manager)
    : Type 0 where
  pub same_owner : m'.owner_id ≡ m.owner_id
  pub room : (entry_at m k.0).generation ≢ max_u64
  pub is_generation : k.1 ≡ (entry_at m k.0).generation + 1
  pub was_free : (entry_at m k.0).occupied ≡ false
  pub index : m'.identity_index ≡ (identity, k.0) ∷ m.identity_index
  pub entries :
      (j : ℕ)
      → entry_at m' j ≡ (if k.0 == j then claimed identity type (entry_at m k.0) else entry_at m j)

claimed-at :
    (slot j : ℕ) (old es : List Entry) (v : Entry)
    → slot < length es
    → get_or es j new_entry ≡ get_or old j new_entry
    → (if slot == j && ltb slot (length es) then v else get_or es j new_entry)
      ≡ (if slot == j then v else get_or old j new_entry)
claimed-at slot j old es v l same = ground (arith, l, same)

pub claim-Claimed :
    (identity : Identity) (type : ℕ) (m : Manager) (k : ℕ × ℕ) (m' : Manager)
    → claim identity type m ≡ ok (k, m')
    → Claimed identity type m k m'
unfolding claim
claim-Claimed identity type m k m' h =
    let slot = free_slot m.entries in
    let es = with_slot slot m.entries in
    let e = get_or es slot new_entry in
    let same : e ≡ entry_at m slot = get_or-with_slot slot m.entries slot in
    let (u, fits, made) = >>=-eq-ok (throw_if (e.generation == max_u64) invalid_state) _ h in
    let eq = ok-injective made in
    subst (λ (p : (ℕ × ℕ) × Manager). Claimed identity type m p.0 p.1) eq
      (record {
        same_owner = refl;
        room = λ q.
            ground
              (arith, fits, ==_iff e.generation max_u64, ap (λ (x : Entry). x.generation) same);
        is_generation = ap (λ (x : Entry). x.generation + 1) same;
        was_free = free_slot-free m.entries;
        index = refl;
        entries = λ j.
            get_or-set es slot j (claimed identity type e) new_entry
            ∙ (claimed-at slot j m.entries es (claimed identity type e) (free_slot-lt m.entries)
                  (get_or-with_slot slot m.entries j)
                ∙ ap (λ (x : Entry). if slot == j then claimed identity type x else entry_at m j)
                    same);
      })
