-- ===== src/Resources/Manager/Leases.antt =====
-- resources/resource_manager.cpp: what a request, and what a publication, is good for.
use graphics_engine.Common.{
  ◌==◌, ==_iff, Bool-cases, length, length-set, Error, invalid_argument, Result, err, ok, throw_if,
  >>=-eq-ok, ok-injective, ℕ, ◌+◌, ◌<◌, ◌≡◌, refl, sym, ap, subst, ◌∙◌, inl, inr, true, not, Option,
  none, some, arith,
}
use graphics_engine.Resources.Types.{
  Identity, identity_is_valid, ready, ResourceHandle, handle_is_valid, ResourceOperation,
  ResourceLease, Entry,
}
use graphics_engine.Resources.Entries.{publish_ready, claimed}
use graphics_engine.Resources.Manager.{
  Manager, find, entry_at, found_or_claimed, typed_handle, request, validate_untyped, validate, put,
  publish, lease_of, try_acquire,
}
use graphics_engine.Resources.Manager.Calls.{becomes_ready, Change-SamePlace}
use graphics_engine.Resources.Manager.Claims.{identity_eq_iff, Claimed, claim-Claimed}
use graphics_engine.Resources.Manager.Stale.{entry_at-put_self, on_entry-parts}

err-ne-ok : {A : Type 0} {e : Error} {a : A} → err e ≡ ok a → ⊥
err-ne-ok h = cc

request_after_claim :
    (identity : Identity) (type : ℕ) (m m1 : Manager) (k : ℕ × ℕ)
    → identity_is_valid identity ≡ true
    → Claimed identity type m k m1
    → request identity type m1 ≡ ok (typed_handle m k, m1)
unfolding request find
request_after_claim identity type m m1 k y made =
    let e = entry_at m1 k.0 in
    let mine : e ≡ claimed identity type (entry_at m k.0) =
      made.entries k.0 ∙ (rw ((==_iff k.0 k.0).1 refl) refl) in
    let found : find identity m1.identity_index ≡ some k.0 =
      ap (find identity) made.index ∙ (rw ((identity_eq_iff identity identity).1 refl) refl) in
    let same_type : (e.type_index == type) ≡ true =
      (==_iff e.type_index type).1 (ap (λ (x : Entry). x.type_index) mine) in
    let handle : typed_handle m1 (k.0, e.generation) ≡ typed_handle m k =
      ground (arith, made.same_owner, made.is_generation, ap (λ (x : Entry). x.generation) mine) in
    rw (y, found) (rw same_type (ap (λ h. ok (h, m1)) handle))

request_after_found :
    (identity : Identity) (type : ℕ) (m m1 : Manager) (k : ℕ × ℕ) (found : Option ℕ)
    → identity_is_valid identity ≡ true
    → find identity m.identity_index ≡ found
    → found_or_claimed found identity type m ≡ ok (k, m1)
    → request identity type m1 ≡ ok (typed_handle m k, m1)
unfolding request
request_after_found identity type m m1 k none y f got =
    request_after_claim identity type m m1 k y (claim-Claimed identity type m k m1 got)
request_after_found identity type m m1 k (some slot) y f got =
    elim (Bool-cases ((entry_at m slot).type_index == type)) [
      | inl same ↦
          subst
            (λ (p : (ℕ × ℕ) × Manager). request identity type p.1 ≡ ok (typed_handle m p.0, p.1))
            (ok-injective (rw same at got)) (rw (y, f) (rw same refl))
      | inr other ↦ absurd (err-ne-ok (rw other at got))
    ]

-- A request for an identity that was requested answers with the same handle and changes nothing.
pub request_again :
    (identity : Identity) (type : ℕ) (m m' : Manager) (h : ResourceHandle)
    → request identity type m ≡ ok (h, m')
    → request identity type m' ≡ ok (h, m')
unfolding request
request_again identity type m m' h r =
    let (u, valid, rest) =
      >>=-eq-ok (throw_if (not (identity_is_valid identity)) invalid_argument) _ r in
    let ((k, m1), got, same) =
      >>=-eq-ok (found_or_claimed (find identity m.identity_index) identity type m) _ rest in
    subst (λ (p : ResourceHandle × Manager). request identity type p.1 ≡ ok p) (ok-injective same)
      (request_after_found identity type m m1 k (find identity m.identity_index)
        (ground (arith, valid)) refl got)

validate-valid :
    (h : ResourceHandle) (type : ℕ) (m : Manager) (e : Entry)
    → validate h type m ≡ ok e
    → handle_is_valid h ≡ true
unfolding validate validate_untyped
validate-valid h type m e v = ground (arith, v)

validate_untyped-ok :
    (h : ResourceHandle) (m : Manager)
    → handle_is_valid h ≡ true
    → h.owner_id ≡ m.owner_id
    → h.slot_index < length m.entries
    → (entry_at m h.slot_index).occupied ≡ true
    → (entry_at m h.slot_index).generation ≡ h.generation
    → validate_untyped h.owner_id h.slot_index h.generation m ≡ ok (entry_at m h.slot_index)
unfolding validate_untyped handle_is_valid
validate_untyped-ok h m v o l a g =
    ground (
      arith,
      ==_iff h.owner_id m.owner_id,
      ==_iff (entry_at m h.slot_index).generation h.generation,
    )

publish-shape :
    (e f : Entry) (g p : ℕ)
    → publish_ready g (some p) e ≡ ok f
    → (f.state ≡ ready)
      × ((f.cpu_resource ≡ some p) × (f.published_version ≡ e.published_version + 1))
unfolding publish_ready
publish-shape e f g p h = ground (arith, h)

lease_of-ready :
    (h : ResourceHandle) (e : Entry) (v p : ℕ)
    → e.state ≡ ready
    → e.cpu_resource ≡ some p
    → e.published_version ≡ v
    → lease_of h e e.state e.cpu_resource ≡ some (record { handle = h; version = v; resource = p })
lease_of-ready h e v p s c w = ground (arith, s, c, w)

-- What an operation publishes is what the next lease of its resource holds, under the next version.
pub try_acquire-publish :
    (o : ResourceOperation) (type payload : ℕ) (m m' : Manager)
    → publish o type (some payload) m ≡ ok m'
    → try_acquire o.handle m'
      ≡ ok (
          some (record {
            handle = o.handle;
            version = (entry_at m o.handle.slot_index).published_version + 1;
            resource = payload;
          }))
unfolding publish try_acquire
try_acquire-publish o type payload m m' p =
    let h = o.handle in
    let (e, f, v, current, made, same) =
      on_entry-parts h type (publish_ready o.generation (some payload)) m m' p in
    let is_f = entry_at-put_self m h type e f current in
    let shape = publish-shape e f o.generation payload made in
    let (so, (si, (st, sg))) =
      Change-SamePlace {e = e} (becomes_ready f o.generation (some payload) made) in
    subst
      (λ (m' : Manager).
        try_acquire h m'
        ≡ ok (
            some (record {
              handle = h;
              version = (entry_at m h.slot_index).published_version + 1;
              resource = payload;
            })))
      same
      (rw (validate-valid h type m e v) (
        rw
          (validate_untyped-ok h (put h f m) (validate-valid h type m e v) current.owned
            (omega (arith, length-set m.entries h.slot_index f, current.in_range))
            (ap (λ (x : Entry). x.occupied) is_f ∙ (so ∙ current.is_occupied))
            (ap (λ (x : Entry). x.generation) is_f ∙ (sg ∙ current.same_generation)))
          (subst
            (λ (x : Entry).
              ◌≡◌ {A = Result (Option ResourceLease)} (ok (lease_of h x x.state x.cpu_resource)) (
                ok (
                  some (record {
                    handle = h;
                    version = (entry_at m h.slot_index).published_version + 1;
                    resource = payload;
                  }))))
            (sym is_f)
            (ap ok (
              lease_of-ready h f ((entry_at m h.slot_index).published_version + 1) payload shape.0
                shape.1.0
                (shape.1.1 ∙ ap (λ (x : Entry). x.published_version + 1) current.is_entry))))))
