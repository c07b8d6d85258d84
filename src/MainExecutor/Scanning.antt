-- ===== src/MainExecutor/Scanning.antt =====
-- application/runtime/main_executor.cpp: the loop of `Drain` over the queue.
use graphics_engine.Common.{
  ◌==◌, ==_iff, Bool-cases, length, get_or, ℕ, suc, ◌+◌, ◌≤◌, ◌<◌, ◌≡◌, refl, sym, ap, subst, ◌∙◌,
  ◌⊎◌, inl, inr, true, false, Option, none, some, List, [], ◌∷◌, arith,
}
use graphics_engine.MainExecutor.{
  FrameOrigin, Command, Choice, is_older, precedes, first_of, consider, scan_queue, no_choice,
  no_command,
}

abbrev pub origin_at : List Command → ℕ → Option FrameOrigin
origin_at queue place = (get_or queue place no_command).origin

-- What the two iterators are after the places below `place`, where `f` gives the origins.
pub record IsScanned (f : ℕ → Option FrameOrigin) (place : ℕ) (c : Choice) : Type 0 where
  pub selected_is :
      (k : ℕ) (o : FrameOrigin) → c.selected ≡ some (k, o) → (k < place) × (f k ≡ some o)
  pub unframed_is : (k : ℕ) → c.unframed ≡ some k → (k < place) × (f k ≡ none)
  pub best :
      (j : ℕ) (p : FrameOrigin)
      → j < place
      → f j ≡ some p
      → (k : ℕ) × (o : FrameOrigin) × (c.selected ≡ some (k, o))
        × (is_older p o ≡ false)
        × (j < k → is_older o p ≡ true)
  pub first : (j : ℕ) → j < place → f j ≡ none → (k : ℕ) × (c.unframed ≡ some k) × (k ≤ j)

pub Origin-cases : (o : Option FrameOrigin) → (o ≡ none) ⊎ ((p : FrameOrigin) × (o ≡ some p))
Origin-cases none = inl refl
Origin-cases (some p) = inr (p, refl)

pub none-ne-origin : (p : FrameOrigin) → ◌≡◌ {A = Option FrameOrigin} none (some p) → ⊥
none-ne-origin p h = cc

pub some_injective : (p q : FrameOrigin) → ◌≡◌ {A = Option FrameOrigin} (some p) (some q) → p ≡ q
some_injective p q h = cc

pub some-injective :
    (j k : ℕ) (o p : FrameOrigin)
    → ◌≡◌ {A = Option (ℕ × FrameOrigin)} (some (j, o)) (some (k, p))
    → (j ≡ k) × (o ≡ p)
some-injective j k o p h = (cc, cc)

pub none-ne-place : (k : ℕ) → ◌≡◌ {A = Option ℕ} none (some k) → ⊥
none-ne-place k h = cc

pub place_injective : (j k : ℕ) → ◌≡◌ {A = Option ℕ} (some j) (some k) → j ≡ k
place_injective j k h = cc

pub none-ne-selected :
    (k : ℕ) (o : FrameOrigin) → ◌≡◌ {A = Option (ℕ × FrameOrigin)} none (some (k, o)) → ⊥
none-ne-selected k o h = cc

is_older_irrefl : (o : FrameOrigin) → is_older o o ≡ false
is_older_irrefl o = ground arith

older_than_best :
    (p q o : FrameOrigin)
    → is_older p q ≡ false
    → is_older o q ≡ true
    → (is_older p o ≡ false) × (is_older o p ≡ true)
older_than_best p q o a b = (ground arith, ground arith)

precedes-best :
    (k : ℕ) (q o : FrameOrigin) (best : Option (ℕ × FrameOrigin))
    → best ≡ some (k, q)
    → precedes o best ≡ true
    → is_older o q ≡ true
precedes-best k q o none e h = cc
precedes-best k q o (some (j, p)) e h =
    subst (λ p. is_older o p ≡ true) (some-injective j k p q e).1 h

not-precedes :
    (o : FrameOrigin) (best : Option (ℕ × FrameOrigin))
    → precedes o best ≡ false
    → (k : ℕ) × (q : FrameOrigin) × (best ≡ some (k, q)) × (is_older o q ≡ false)
not-precedes o none h = cc
not-precedes o (some (k, q)) h = (k, q, refl, h)

first_of-cases :
    (o : Option ℕ) (place k : ℕ)
    → first_of o place ≡ some k
    → (o ≡ some k) ⊎ (o ≡ none) × (k ≡ place)
first_of-cases none place k h = inr (refl, ground (arith, h))
first_of-cases (some j) place k h = inl h

first_of-some : (o : Option ℕ) (place k : ℕ) → o ≡ some k → first_of o place ≡ some k
first_of-some none place k h = cc
first_of-some (some j) place k h = h

first_of-any :
    (o : Option ℕ) (place : ℕ)
    → ((k : ℕ) → o ≡ some k → k < place)
    → (k : ℕ) × (first_of o place ≡ some k) × (k ≤ place)
first_of-any none place h = (place, refl, omega arith)
first_of-any (some j) place h = (j, refl, omega (arith, h j refl))

module _ (f : ℕ → Option FrameOrigin) (place : ℕ) (c : Choice) (s : IsScanned f place c) where
  consider-unframed : f place ≡ none → IsScanned f (suc place) (consider place none c)
  unfolding consider
  consider-unframed e = record {
    selected_is = λ k o h. let (l, q) = s.selected_is k o h in (omega arith, q);
    unframed_is = λ k h. elim (first_of-cases c.unframed place k h) [
      | inl old ↦ let (l, q) = s.unframed_is k old in (omega arith, q)
      | inr (none_yet, same) ↦ (omega arith, ap f same ∙ e)
    ];
    best = λ j p l h. elim (Bool-cases (j == place)) [
      | inl y ↦
          let same = ap f ((==_iff j place).0 y) in
          absurd (none-ne-origin p (sym e ∙ (sym same ∙ h)))
      | inr n ↦ s.best j p (ground arith) h
    ];
    first = λ j l h. elim (Bool-cases (j == place)) [
      | inl y ↦
          let same = (==_iff j place).0 y in
          let (k, q, b) = first_of-any c.unframed place (λ k h. (s.unframed_is k h).0) in
          (k, q, omega arith)
      | inr n ↦
          let (k, q, b) = s.first j (ground arith) h in (k, first_of-some c.unframed place k q, b)
    ];
  }

  kept_first :
      (o : FrameOrigin)
      → f place ≡ some o
      → (j : ℕ) → j < suc place
      → f j ≡ none
      → (k : ℕ) × (c.unframed ≡ some k) × (k ≤ j)
  kept_first o e j l h = elim (Bool-cases (j == place)) [
    | inl y ↦
        let same = ap f ((==_iff j place).0 y) in absurd (none-ne-origin o (sym h ∙ (same ∙ e)))
    | inr n ↦ s.first j (ground arith) h
  ]

  -- A framed command that is older than all before it is selected.
  selects :
      (o : FrameOrigin)
      → f place ≡ some o
      → ((j : ℕ) (p : FrameOrigin)
          → j < place
          → f j ≡ some p
          → (is_older p o ≡ false) × (is_older o p ≡ true))
      → IsScanned f (suc place) (record c { selected = some (place, o) })
  selects o e oldest = record {
    selected_is = λ k p h.
        let (same, eq) = some-injective place k o p h in
        (omega arith, ap f (sym same) ∙ (e ∙ ap some eq));
    unframed_is = λ k h. let (l, q) = s.unframed_is k h in (omega arith, q);
    best = λ j p l h. elim (Bool-cases (j == place)) [
      | inl y ↦
          let same = (==_iff j place).0 y in
          let eq : p ≡ o = some_injective p o (sym h ∙ (ap f same ∙ e)) in
          (
            place,
            o,
            refl,
            subst (λ q. is_older q o ≡ false) (sym eq) (is_older_irrefl o),
            λ l'. absurd (omega arith),
          )
      | inr n ↦ let (a, b) = oldest j p (ground arith) h in (place, o, refl, a, λ l'. b)
    ];
    first = kept_first o e;
  }

  consider-framed :
      (o : FrameOrigin) → f place ≡ some o → IsScanned f (suc place) (consider place (some o) c)
  unfolding consider
  consider-framed o e = elim (Bool-cases (precedes o c.selected)) [
    | inl y ↦ rw y (
        selects o e (λ j p l h.
          let (k, q, was, a, b) = s.best j p l h in
          older_than_best p q o a (precedes-best k q o c.selected was y)))
    | inr n ↦ rw n (record {
      selected_is = λ k p h. let (l, q) = s.selected_is k p h in (omega arith, q);
      unframed_is = λ k h. let (l, q) = s.unframed_is k h in (omega arith, q);
      best = λ j p l h. elim (Bool-cases (j == place)) [
        | inl y ↦
            let same = (==_iff j place).0 y in
            let eq : p ≡ o = some_injective p o (sym h ∙ (ap f same ∙ e)) in
            let (k, q, was, late) = not-precedes o c.selected n in
            (
              k,
              q,
              was,
              subst (λ r. is_older r q ≡ false) (sym eq) late,
              λ l'. absurd (let (b, _) = s.selected_is k q was in omega arith),
            )
        | inr other ↦ s.best j p (ground arith) h
      ];
      first = kept_first o e;
    })
  ]

scan_queue-IsScanned :
    (f : ℕ → Option FrameOrigin) (place : ℕ) (commands : List Command) (c : Choice)
    → ((i : ℕ) → i < length commands → f (place + i) ≡ origin_at commands i)
    → IsScanned f place c
    → IsScanned f (place + length commands) (scan_queue place commands c)
unfolding scan_queue
scan_queue-IsScanned f place [] c at s =
    subst (λ n. IsScanned f n c) (let same : place ≡ place + 0 = omega arith in same) s
scan_queue-IsScanned f place (command ∷ commands) c at s =
    let here : f place ≡ command.origin =
      ap f (let same : place ≡ place + 0 = omega arith in same) ∙ at 0 (omega arith) in
    let next : IsScanned f (suc place) (consider place command.origin c) =
      elim (Origin-cases command.origin) [
        | inl e ↦ rw e (consider-unframed f place c s (here ∙ e))
        | inr (o, e) ↦ rw e (consider-framed f place c s o (here ∙ e))
      ] in
    subst (λ n. IsScanned f n (scan_queue (suc place) commands (consider place command.origin c)))
      (let same : suc place + length commands ≡ place + suc (length commands) = omega arith in same)
      (scan_queue-IsScanned f (suc place) commands (consider place command.origin c)
        (λ i l.
          ap f (let same : suc place + i ≡ place + suc i = omega arith in same)
          ∙ at (suc i) (omega arith))
        next)

start-IsScanned : (f : ℕ → Option FrameOrigin) → IsScanned f 0 no_choice
start-IsScanned f = record {
  selected_is = λ k o h. absurd (none-ne-selected k o h);
  unframed_is = λ k h. absurd (none-ne-place k h);
  best = λ j p l h. absurd (omega arith);
  first = λ j l h. absurd (omega arith);
}

pub queue-IsScanned :
    (queue : List Command)
    → IsScanned (origin_at queue) (length queue) (scan_queue 0 queue no_choice)
queue-IsScanned queue =
    subst (λ n. IsScanned (origin_at queue) n (scan_queue 0 queue no_choice))
      (let same : 0 + length queue ≡ length queue = omega arith in same)
      (scan_queue-IsScanned (origin_at queue) 0 queue no_choice
        (λ i l. ap (origin_at queue) (let same : 0 + i ≡ i = omega arith in same))
        (start-IsScanned (origin_at queue)))
