-- ===== src/MainExecutor/Selection.antt =====
-- application/runtime/main_executor.cpp: which command a round of `Drain` takes.
use graphics_engine.Common.{
  leb, if◌then◌else◌, leb→le, Bool-cases, length, get_or, ℕ, ◌≤◌, ◌<◌, ◌≡◌, refl, sym, ap, subst,
  ◌∙◌, ◌⊎◌, inl, inr, Bool, true, false, Option, none, some, List, arith,
}
use graphics_engine.MainExecutor.{
  FrameOrigin, Command, frame_burst_limit, Executor, Choice, is_older, scan_queue, choose_place,
  no_choice, no_command, remove_at, next_burst, dispatch_at, dispatch,
}
use graphics_engine.MainExecutor.Scanning.{
  origin_at, IsScanned, none-ne-origin, some_injective, some-injective, none-ne-place,
  place_injective, none-ne-selected, queue-IsScanned,
}

-- The command that a round takes: of the framed ones the oldest frame's, the first posted of equal ones;
-- of the others the first posted, and only where no framed one waits or the burst is used up.
pub record IsNext (queue : List Command) (burst place : ℕ) : Type 0 where
  pub in_range : place < length queue
  pub oldest :
      (o p : FrameOrigin) (j : ℕ)
      → j < length queue
      → origin_at queue place ≡ some o
      → origin_at queue j ≡ some p
      → (is_older p o ≡ false) × (j < place → is_older o p ≡ true)
  pub first_posted :
      (j : ℕ)
      → j < length queue
      → origin_at queue place ≡ none
      → origin_at queue j ≡ none
      → place ≤ j
  pub burst_over :
      (j : ℕ) (p : FrameOrigin)
      → j < length queue
      → origin_at queue place ≡ none
      → origin_at queue j ≡ some p
      → frame_burst_limit ≤ burst
  pub burst_left :
      (j : ℕ) (o : FrameOrigin)
      → j < length queue
      → origin_at queue place ≡ some o
      → origin_at queue j ≡ none
      → burst < frame_burst_limit

module _ (queue : List Command) (burst place : ℕ) (c : Choice)
    (s : IsScanned (origin_at queue) (length queue) c) where
  unframed-IsNext :
      c.unframed ≡ some place
      → (c.selected ≡ none) ⊎ (frame_burst_limit ≤ burst)
      → IsNext queue burst place
  unframed-IsNext is why =
      let (l, plain) = s.unframed_is place is in
      record {
        in_range = l;
        oldest = λ o p j l e e'. absurd (none-ne-origin o (sym plain ∙ e));
        first_posted = λ j l e e'.
            let (k, q, b) = s.first j l e' in
            let same = place_injective place k (sym is ∙ q) in omega arith;
        burst_over = λ j p l e e'. elim why [
          | inl empty ↦
              let (k, o, q, a, b) = s.best j p l e' in absurd (none-ne-selected k o (sym empty ∙ q))
          | inr over ↦ over
        ];
        burst_left = λ j o l e e'. absurd (none-ne-origin o (sym plain ∙ e));
      }

  framed-IsNext :
      (o : FrameOrigin)
      → c.selected ≡ some (place, o)
      → (c.unframed ≡ none) ⊎ (burst < frame_burst_limit)
      → IsNext queue burst place
  framed-IsNext o is why =
      let (l, framed) = s.selected_is place o is in
      record {
        in_range = l;
        oldest = λ o' p j l e e'.
            let (k, q, was, a, b) = s.best j p l e' in
            let (same, eq) = some-injective place k o q (sym is ∙ was) in
            let mine : o' ≡ q = some_injective o' q (sym e ∙ (framed ∙ ap some eq)) in
            (
              subst (λ r. is_older p r ≡ false) (sym mine) a,
              λ l'. subst (λ r. is_older r p ≡ true) (sym mine) (b (omega arith)),
            );
        first_posted = λ j l e e'. absurd (none-ne-origin o (sym e ∙ framed));
        burst_over = λ j p l e e'. absurd (none-ne-origin o (sym e ∙ framed));
        burst_left = λ j o' l e e'. elim why [
          | inl empty ↦ let (k, q, b) = s.first j l e' in absurd (none-ne-place k (sym empty ∙ q))
          | inr left ↦ left
        ];
      }

  chosen-IsNext :
      (selected : Option (ℕ × FrameOrigin)) (unframed : Option ℕ)
      → c.selected ≡ selected
      → c.unframed ≡ unframed
      → choose_place burst selected unframed ≡ some place
      → IsNext queue burst place
  unfolding choose_place
  chosen-IsNext none unframed e e' h = unframed-IsNext (e' ∙ h) (inl e)
  chosen-IsNext (some (k, o)) none e e' h =
      let same = place_injective k place h in
      framed-IsNext o (subst (λ k. c.selected ≡ some (k, o)) same e) (inl e')
  chosen-IsNext (some (k, o)) (some first) e e' h =
      elim (Bool-cases (leb frame_burst_limit burst)) [
        | inl y ↦
            let same = place_injective first place (rw y at h) in
            unframed-IsNext (e' ∙ ap some same) (inr (leb→le frame_burst_limit burst y))
        | inr n ↦
            let same = place_injective k place (rw n at h) in
            framed-IsNext o (subst (λ k. c.selected ≡ some (k, o)) same e) (inr (ground arith))
      ]

some_pair_injective :
    (a c : Command) (x y : Executor)
    → ◌≡◌ {A = Option (Command × Executor)} (some (a, x)) (some (c, y))
    → (a ≡ c) × (x ≡ y)
some_pair_injective a c x y h = (cc, cc)

none-ne-taken :
    (c : Command) (y : Executor) → ◌≡◌ {A = Option (Command × Executor)} none (some (c, y)) → ⊥
none-ne-taken c y h = cc

taken_if :
    (test : Bool) (o : Option (Command × Executor)) (c : Command) (y : Executor)
    → (if test then o else none) ≡ some (c, y)
    → o ≡ some (c, y)
taken_if true o c y h = h
taken_if false o c y h = absurd (none-ne-taken c y h)

dispatch-parts :
    (x y : Executor) (command : Command) (choice : Option ℕ)
    → (if x.is_running then dispatch_at choice x else none) ≡ some (command, y)
    → (place : ℕ) × (choice ≡ some place)
      × ((command ≡ get_or x.queue place no_command)
          × ((y.queue ≡ remove_at place x.queue)
              × (y.frame_burst ≡ next_burst command.origin x.frame_burst)))
dispatch-parts x y command none h =
    absurd (none-ne-taken command y (taken_if x.is_running none command y h))
dispatch-parts x y command (some place) h =
    let (mine, made) =
      some_pair_injective (get_or x.queue place no_command) command _ y
        (taken_if x.is_running (dispatch_at (some place) x) command y h) in
    (
      place,
      refl,
      (
        sym mine,
        (
          ap (λ (y : Executor). y.queue) (sym made),
          ap (λ (y : Executor). y.frame_burst) (sym made)
              ∙ ap (λ (c : Command). next_burst c.origin x.frame_burst) mine,
        ),
      ),
    )

-- A round of the dispatch takes the command that `IsNext` describes, from its place, and leaves the others in
-- their order.
pub dispatch-IsNext :
    (x y : Executor) (command : Command)
    → dispatch x ≡ some (command, y)
    → (place : ℕ) × IsNext x.queue x.frame_burst place
      × (command ≡ get_or x.queue place no_command)
      × (y.queue ≡ remove_at place x.queue)
      × (y.frame_burst ≡ next_burst command.origin x.frame_burst)
unfolding dispatch
dispatch-IsNext x y command h =
    let choice = scan_queue 0 x.queue no_choice in
    let (place, at, taken) =
      dispatch-parts x y command (choose_place x.frame_burst choice.selected choice.unframed) h in
    (
      place,
      chosen-IsNext x.queue x.frame_burst place choice (queue-IsScanned x.queue) choice.selected
          choice.unframed refl refl at,
      taken.0,
      taken.1.0,
      taken.1.1,
    )
