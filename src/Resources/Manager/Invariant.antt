-- ===== src/Resources/Manager/Invariant.antt =====
-- resources/resource_manager.cpp: what holds of the manager after every history of calls.
use graphics_engine.Common.{
  ltb, ◌==◌, if◌then◌else◌, max_u64, ==_iff, Bool-cases, get_or, set, ok, >>=-eq-ok, ok-injective,
  ℕ, ◌+◌, ◌≤◌, ◌≡◌, refl, sym, ap, subst, ◌∙◌, ◌≢◌, ◌⊎◌, inl, inr, true, false, not, ◌||◌, Option,
  none, some, List, [], ◌∷◌, arith,
}
use graphics_engine.Resources.Types.{
  Identity, identity_eq, unloaded, ready, failed, state_eq, ResourceHandle, Entry, new_entry,
}
use graphics_engine.Resources.Entries.{
  begin_loading, is_null, publish_ready, fail, request_unload, complete_unload, emptied, claimed,
}
use graphics_engine.Resources.Manager.{
  Manager, acquire_owner_id, new_manager, find, erase, entry_at, put,
}
use graphics_engine.Resources.Manager.Calls.{
  Call, after_call, run_calls, Change, begins, becomes_ready, becomes_failed, starts_unload,
  ends_unload, Change-SamePlace, IsCurrent, entry_at-put, Effect, nothing, operates, claims,
  releases, after_call-Effect,
}
use graphics_engine.Resources.Manager.Claims.{identity_eq_iff, find-erase, Claimed, claim-Claimed}

-- The payload and the error belong to the states ready and failed, a free entry is unloaded, an
-- operation that is under way is not cancelled, and no counter passes its largest value.
pub record IsSound (e : Entry) : Type 0 where
  pub payload : is_null e.cpu_resource ≡ not (state_eq e.state ready)
  pub error : is_null e.failure ≡ not (state_eq e.state failed)
  pub free : (e.occupied || state_eq e.state unloaded) ≡ true
  pub cancelled :
      (e.cancelled_operation_generation == 0
        || ltb e.cancelled_operation_generation e.operation_generation)
      ≡ true
  pub published : (not (state_eq e.state ready) || ltb 0 e.published_version) ≡ true
  pub generation_bound : e.generation ≤ max_u64
  pub operation_bound : e.operation_generation ≤ max_u64
  pub version_bound : e.published_version ≤ max_u64

Change-IsSound : {e f : Entry} → Change e f → e.occupied ≡ true → IsSound e → IsSound f
unfolding begin_loading publish_ready fail request_unload complete_unload
Change-IsSound {e} (begins f g h) o s = ground (arith, h, ==_iff e.operation_generation max_u64)
Change-IsSound {e} (becomes_ready f g p h) o s =
    ground (arith, h, ==_iff e.published_version max_u64)
Change-IsSound {e} (becomes_failed f g x h) o s = ground (arith, h)
Change-IsSound {e} (starts_unload f h) o s =
    ground (arith, h, ==_iff e.operation_generation max_u64)
Change-IsSound {e} (ends_unload f h) o s = ground (arith, h)

-- Every entry is sound, and the index leads to exactly the occupied entries, each by its identity.
pub record IsConsistent (m : Manager) : Type 0 where
  pub sound : (slot : ℕ) → IsSound (entry_at m slot)
  pub indexed :
      (id : Identity) (slot : ℕ)
      → find id m.identity_index ≡ some slot
      → ((entry_at m slot).occupied ≡ true) × ((entry_at m slot).identity ≡ id)
  pub found :
      (slot : ℕ)
      → (entry_at m slot).occupied ≡ true
      → find (entry_at m slot).identity m.identity_index ≡ some slot

new_entry-IsSound : IsSound new_entry
new_entry-IsSound = ground arith

claimed-IsSound :
    (identity : Identity) (type : ℕ) (e : Entry)
    → e.generation ≢ max_u64
    → IsSound e
    → IsSound (claimed identity type e)
claimed-IsSound identity type e room s = ground arith

none-ne-some : (slot : ℕ) → ◌≡◌ {A = Option ℕ} none (some slot) → ⊥
none-ne-some slot h = cc

module _ (m : Manager) (c : IsConsistent m) where
  module _ (identity : Identity) (type : ℕ) (k : ℕ × ℕ) (m' : Manager)
      (fresh : find identity m.identity_index ≡ none) (made : Claimed identity type m k m') where
    abbrev mine : Entry
    mine = claimed identity type (entry_at m k.0)

    claims-IsSound : (j : ℕ) → IsSound (entry_at m' j)
    claims-IsSound j = subst IsSound (sym (made.entries j)) (elim (Bool-cases (k.0 == j)) [
      | inl y ↦ rw y (claimed-IsSound identity type (entry_at m k.0) made.room (c.sound k.0))
      | inr n ↦ rw n (c.sound j)
    ])

    claims-indexed :
        (id : Identity) (slot : ℕ)
        → find id m'.identity_index ≡ some slot
        → ((entry_at m' slot).occupied ≡ true) × ((entry_at m' slot).identity ≡ id)
    unfolding find
    claims-indexed id slot f =
        let f' : (if identity_eq identity id then some k.0 else find id m.identity_index)
            ≡ some slot =
          subst (λ x. find id x ≡ some slot) made.index f in
        subst (λ (x : Entry). (x.occupied ≡ true) × (x.identity ≡ id)) (sym (made.entries slot))
          (elim (Bool-cases (identity_eq identity id)) [
            | inl y ↦
                let here : k.0 ≡ slot = ground (arith, rw y at f') in
                rw ((==_iff k.0 slot).1 here) (refl, (identity_eq_iff identity id).0 y)
            | inr n ↦
                let (o, q) = c.indexed id slot (rw n at f') in
                elim (Bool-cases (k.0 == slot)) [
                  | inl y ↦
                      let here : k.0 ≡ slot = (==_iff k.0 slot).0 y in
                      cc (ap (λ (s : ℕ). (entry_at m s).occupied) here)
                  | inr other ↦ rw other (o, q)
                ]
          ])

    found_at :
        (slot : ℕ)
        → (let x = if k.0 == slot then mine else entry_at m slot in
            x.occupied ≡ true
            → (if identity_eq identity x.identity
                then some k.0
                else find x.identity m.identity_index)
              ≡ some slot)
    found_at slot = elim (Bool-cases (k.0 == slot)) [
      | inl y ↦
          rw y
            λ o. rw ((identity_eq_iff identity identity).1 refl) (ap some ((==_iff k.0 slot).0 y))
      | inr n ↦ rw n λ o. elim (Bool-cases (identity_eq identity (entry_at m slot).identity)) [
        | inl y ↦
            let same = (identity_eq_iff identity (entry_at m slot).identity).0 y in
            let there : find identity m.identity_index ≡ some slot =
              subst (λ x. find x m.identity_index ≡ some slot) (sym same) (c.found slot o) in
            cc
        | inr other ↦ rw other (c.found slot o)
      ]
    ]

    claims-found :
        (slot : ℕ)
        → (entry_at m' slot).occupied ≡ true
        → find (entry_at m' slot).identity m'.identity_index ≡ some slot
    unfolding find
    claims-found slot o = rw made.index (
        subst
          (λ (x : Entry).
            x.occupied ≡ true
            → (if identity_eq identity x.identity
                then some k.0
                else find x.identity m.identity_index)
              ≡ some slot)
          (sym (made.entries slot)) (found_at slot) o)

  claims-IsConsistent :
      (identity : Identity) (type : ℕ) (k : ℕ × ℕ) (m' : Manager)
      → find identity m.identity_index ≡ none
      → Claimed identity type m k m'
      → IsConsistent m'
  claims-IsConsistent identity type k m' fresh made = record {
    sound = claims-IsSound identity type k m' fresh made;
    indexed = claims-indexed identity type k m' fresh made;
    found = claims-found identity type k m' fresh made;
  }

  module _ (h : ResourceHandle) (type : ℕ) (e f : Entry) (current : IsCurrent h type m e) where
    put-IsSound : IsSound f → (j : ℕ) → IsSound (get_or (set m.entries h.slot_index f) j new_entry)
    put-IsSound s j =
        subst IsSound (sym (entry_at-put m h type e f current j))
          (elim (Bool-cases (h.slot_index == j)) [ inl y ↦ rw y s | inr n ↦ rw n (c.sound j) ])

    put-same :
        Change e f
        → (j : ℕ)
        → (((get_or (set m.entries h.slot_index f) j new_entry).occupied ≡ (entry_at m j).occupied)
            × ((get_or (set m.entries h.slot_index f) j new_entry).identity
                ≡ (entry_at m j).identity))
    put-same change j =
        let (o, (i, rest)) = Change-SamePlace change in
        subst
          (λ (x : Entry).
            (x.occupied ≡ (entry_at m j).occupied) × (x.identity ≡ (entry_at m j).identity))
          (sym (entry_at-put m h type e f current j))
          (elim (Bool-cases (h.slot_index == j)) [
            | inl y ↦
                let same : e ≡ entry_at m j =
                  current.is_entry ∙ ap (entry_at m) ((==_iff h.slot_index j).0 y) in
                rw y
                  (o ∙ ap (λ (x : Entry). x.occupied) same, i ∙ ap (λ (x : Entry). x.identity) same)
            | inr n ↦ rw n (refl, refl)
          ])

    put-IsConsistent : Change e f → IsConsistent (put h f m)
    put-IsConsistent change =
        let (o, (i, (t, g))) = Change-SamePlace change in
        record {
          sound = put-IsSound (
              Change-IsSound change current.is_occupied
                (subst IsSound (sym current.is_entry) (c.sound h.slot_index)));
          indexed = λ id slot q.
              let (o', q') = c.indexed id slot q in
              let (so, si) = put-same change slot in (so ∙ o', si ∙ q');
          found = λ slot q.
              let (so, si) = put-same change slot in
              subst (λ x. find x m.identity_index ≡ some slot) (sym si) (c.found slot (sym so ∙ q));
        }

    releases-IsConsistent :
        IsSound f
        → f.occupied ≡ false
        → IsConsistent (put h f (record m { identity_index = erase e.identity m.identity_index }))
    releases-IsConsistent s o = record {
      sound = put-IsSound s;
      indexed = λ id slot q.
          let q1 = sym (find-erase id e.identity m.identity_index) ∙ q in
          elim (Bool-cases (identity_eq e.identity id)) [
            | inl y ↦ absurd (none-ne-some slot (rw y at q1))
            | inr n ↦
                let (o', i') = c.indexed id slot (rw n at q1) in
                elim (Bool-cases (h.slot_index == slot)) [
                  | inl y ↦
                      let same : e.identity ≡ id =
                        ap (λ (x : Entry). x.identity) current.is_entry
                        ∙ (ap (λ s. (entry_at m s).identity) ((==_iff h.slot_index slot).0 y)
                            ∙ i') in
                      let yes' = (identity_eq_iff e.identity id).1 same in cc
                  | inr other ↦
                      let at : get_or (set m.entries h.slot_index f) slot new_entry
                          ≡ entry_at m slot =
                        entry_at-put m h type e f current slot ∙ (rw other refl) in
                      subst (λ (x : Entry). (x.occupied ≡ true) × (x.identity ≡ id)) (sym at)
                        (o', i')
                ]
          ];
      found = λ slot q. elim (Bool-cases (h.slot_index == slot)) [
        | inl y ↦
            let at : get_or (set m.entries h.slot_index f) slot new_entry ≡ f =
              entry_at-put m h type e f current slot ∙ (rw y refl) in
            let no' : f.occupied ≡ true = sym (ap (λ (x : Entry). x.occupied) at) ∙ q in cc
        | inr other ↦
            let at : get_or (set m.entries h.slot_index f) slot new_entry ≡ entry_at m slot =
              entry_at-put m h type e f current slot ∙ (rw other refl) in
            let there = c.found slot (sym (ap (λ (x : Entry). x.occupied) at) ∙ q) in
            subst (λ (x : Entry). find x.identity (erase e.identity m.identity_index) ≡ some slot)
              (sym at)
              (find-erase (entry_at m slot).identity e.identity m.identity_index
                ∙ elim (Bool-cases (identity_eq e.identity (entry_at m slot).identity)) [
                  | inr n ↦ rw n there
                  | inl y ↦
                      let same = (identity_eq_iff e.identity (entry_at m slot).identity).0 y in
                      let mine = c.found h.slot_index (
                        ap (λ (x : Entry). x.occupied) (sym current.is_entry)
                        ∙ current.is_occupied) in
                      let here : some h.slot_index ≡ some slot =
                        sym mine
                        ∙ (ap (λ x. find x m.identity_index)
                              (sym (ap (λ (x : Entry). x.identity) current.is_entry) ∙ same)
                            ∙ there) in
                      let eq = (==_iff h.slot_index slot).1 (ground (arith, here)) in cc
                ])
      ];
    }

-- A manager that was just made.
pub new_manager-IsConsistent : (next : ℕ) (m : Manager) → new_manager next ≡ ok m → IsConsistent m
unfolding new_manager acquire_owner_id find
new_manager-IsConsistent next m h =
    let (id, made, same) = >>=-eq-ok (acquire_owner_id next).0 _ h in
    subst IsConsistent (ok-injective same) (record {
      sound = λ slot. new_entry-IsSound;
      indexed = λ id slot f. absurd (none-ne-some slot f);
      found = λ slot o. cc;
    })

emptied-IsSound :
    (e : Entry) (generation : ℕ)
    → state_eq e.state unloaded ≡ true
    → generation ≤ max_u64
    → IsSound e
    → IsSound (record (emptied e) { generation = generation })
emptied-IsSound e generation idle l s = ground arith

released-IsSound :
    (e f : Entry)
    → state_eq e.state unloaded ≡ true
    → (f ≡ emptied e) × (e.generation ≡ max_u64)
      ⊎ (f ≡ record (emptied e) { generation = e.generation + 1 }) × (e.generation ≢ max_u64)
    → IsSound e
    → IsSound f × (f.occupied ≡ false)
released-IsSound e f idle (inl (same, full)) s =
    subst (λ (f : Entry). IsSound f × (f.occupied ≡ false)) (sym same)
      (emptied-IsSound e e.generation idle s.generation_bound s, refl)
released-IsSound e f idle (inr (same, room)) s =
    let bound = s.generation_bound in
    subst (λ (f : Entry). IsSound f × (f.occupied ≡ false)) (sym same)
      (emptied-IsSound e (e.generation + 1) idle (ground (arith, room)) s, refl)

Effect-IsConsistent : {m m' : Manager} → Effect m m' → IsConsistent m → IsConsistent m'
Effect-IsConsistent nothing c = c
Effect-IsConsistent {m} (operates h type e f current change) c =
    put-IsConsistent m c h type e f current change
Effect-IsConsistent {m} (claims identity type k m' valid fresh made) c =
    claims-IsConsistent m c identity type k m' fresh (claim-Claimed identity type m k m' made)
Effect-IsConsistent {m} (releases h type e f current idle shape) c =
    let s = subst IsSound (sym current.is_entry) (c.sound h.slot_index) in
    let (sf, free) = released-IsSound e f idle shape s in
    releases-IsConsistent m c h type e f current sf free

-- Whatever the calls, in whatever order, the manager stays consistent.
pub run_calls-IsConsistent :
    (cs : List Call) (m : Manager) → IsConsistent m → IsConsistent (run_calls cs m)
unfolding run_calls
run_calls-IsConsistent [] m c = c
run_calls-IsConsistent (call ∷ cs) m c =
    run_calls-IsConsistent cs (after_call call m) (Effect-IsConsistent (after_call-Effect call m) c)
