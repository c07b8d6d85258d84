-- ===== src/MainExecutor/Fairness.antt =====
-- application/runtime/main_executor.cpp: commands of no frame are not starved by those of frames,
-- however many of these are posted.
use graphics_engine.Common.{
  Bool-cases, length, get_or, any, all, Result, err, ok, ℕ, zero, suc, ◌+◌, ◌-◌, ◌≤◌, ◌<◌, min, ◌≡◌,
  refl, sym, ap, ◌∙◌, ◌⊎◌, inl, inr, Bool, true, false, not, Option, none, some, List, [], ◌∷◌,
  ◌++◌, arith,
}
use graphics_engine.MainExecutor.{
  FrameOrigin, Command, frame_burst_limit, Executor, finish_command, post, no_command, remove_at,
  dispatch,
}
use graphics_engine.MainExecutor.Scanning.{origin_at, Origin-cases}
use graphics_engine.MainExecutor.Selection.{dispatch-IsNext}

-- What can happen to a queue that is drained: a post from any thread, or a round of the dispatch.
pub data Event : Type 0 where
  posted : Bool → ℕ → Option FrameOrigin → Event
  dispatches : Event

abbrev pub posted_or : Executor → Result (ℕ × Executor) → Executor
posted_or x (ok (ticket, y)) = y
posted_or x (err thrown) = x

abbrev pub dispatched_or : Executor → Option (Command × Executor) → Executor
dispatched_or x (some (command, y)) = y
dispatched_or x none = x

unfoldable pub after_event : Event → Executor → Executor
unfolding post dispatch
after_event (posted has_body run origin) x = posted_or x (post has_body run origin x)
after_event dispatches x = dispatched_or x (dispatch x)

abbrev pub taken_by : Option (Command × Executor) → List Command
taken_by (some (command, y)) = command ∷ []
taken_by none = []

unfoldable pub commands_of : Event → Executor → List Command
unfolding dispatch
commands_of (posted has_body run origin) x = []
commands_of dispatches x = taken_by (dispatch x)

-- The commands that a history dispatches, in order.
unfoldable pub dispatched_commands : List Event → Executor → List Command
unfolding after_event commands_of
dispatched_commands [] x = []
dispatched_commands (e ∷ es) x = commands_of e x ++ dispatched_commands es (after_event e x)

abbrev pub is_framed : Command → Bool
is_framed c = elim c.origin [ none ↦ false | some origin ↦ true ]

-- Does a command of no frame wait?
abbrev pub has_unframed : List Command → Bool
has_unframed queue = any (λ c. not (is_framed c)) queue

any-end :
    (queue others : List Command)
    → has_unframed queue ≡ true
    → has_unframed (queue ++ others) ≡ true
any-end [] others h = cc
any-end (c ∷ queue) others h = ground (arith, any-end queue others)

has_unframed-place :
    (queue : List Command)
    → has_unframed queue ≡ true
    → (j : ℕ) × (j < length queue) × (origin_at queue j ≡ none)
has_unframed-place [] h = cc
has_unframed-place (c ∷ queue) h = elim (Bool-cases (is_framed c)) [
  | inr n ↦ (0, omega arith, ground arith)
  | inl y ↦ let (j, l, e) = has_unframed-place queue (rw y at h) in (suc j, omega arith, e)
]

has_unframed-remove_at :
    (place : ℕ) (queue : List Command)
    → has_unframed queue ≡ true
    → is_framed (get_or queue place no_command) ≡ true
    → has_unframed (remove_at place queue) ≡ true
unfolding remove_at
has_unframed-remove_at place [] h f = cc
has_unframed-remove_at zero (c ∷ queue) h f = ground arith
has_unframed-remove_at (suc place) (c ∷ queue) h f =
    ground (arith, has_unframed-remove_at place queue)

post-keeps :
    (has_body : Bool) (run : ℕ) (origin : Option FrameOrigin) (x : Executor)
    → has_unframed x.queue ≡ true
    → (has_unframed (posted_or x (post has_body run origin x)).queue ≡ true)
      × ((posted_or x (post has_body run origin x)).frame_burst ≡ x.frame_burst)
unfolding post finish_command
post-keeps has_body run origin x h =
    let longer = any-end x.queue (record { origin = origin; ticket = x.next_ticket } ∷ []) h in
    ground arith

framed-ne-plain : (c : Command) → is_framed c ≡ true → c.origin ≡ none → ⊥
framed-ne-plain c f e = absurd (let bad : false ≡ true = rw e at f in cc)

min-of_room :
    (burst : ℕ) → burst < frame_burst_limit → min frame_burst_limit (burst + 1) ≡ burst + 1
min-of_room burst l = omega arith

-- A framed command that is taken while another waits uses up the burst.
dispatch-uses_burst :
    (x y : Executor) (c : Command)
    → has_unframed x.queue ≡ true
    → dispatch x ≡ some (c, y)
    → is_framed c ≡ true
    → (x.frame_burst < frame_burst_limit)
      × ((y.frame_burst ≡ x.frame_burst + 1) × (has_unframed y.queue ≡ true))
dispatch-uses_burst x y c h d f =
    let (place, next, is, left, burst) = dispatch-IsNext x y c d in
    let (j, l, plain) = has_unframed-place x.queue h in
    elim (Origin-cases c.origin) [
      | inl none_there ↦ absurd (framed-ne-plain c f none_there)
      | inr (o, e) ↦
          let room = next.burst_left j o l (ap (λ (c : Command). c.origin) (sym is) ∙ e) plain in
          (
            room,
            (
              burst ∙ (rw e (min-of_room x.frame_burst room)),
              rw left (has_unframed-remove_at place x.queue h (ap (λ c. is_framed c) (sym is) ∙ f)),
            ),
          )
    ]

Taken-cases :
    (o : Option (Command × Executor))
    → (o ≡ none) ⊎ ((c : Command) × (y : Executor) × (o ≡ some (c, y)))
Taken-cases none = inl refl
Taken-cases (some (c, y)) = inr (c, y, refl)

all-split :
    (c : Command) (cs : List Command)
    → all is_framed (c ∷ cs) ≡ true
    → (is_framed c ≡ true) × (all is_framed cs ≡ true)
all-split c cs h = (ground arith, ground arith)

-- While a command of no frame waits and none is dispatched, the commands of frames that are, however
-- many more are posted, are at most what is left of the burst.
pub dispatched_commands-bound :
    (es : List Event) (x : Executor)
    → has_unframed x.queue ≡ true
    → all is_framed (dispatched_commands es x) ≡ true
    → length (dispatched_commands es x) ≤ frame_burst_limit - x.frame_burst
unfolding after_event commands_of dispatched_commands
dispatched_commands-bound [] x h f = omega arith
dispatched_commands-bound (posted has_body run origin ∷ es) x h f =
    let (waits, burst) = post-keeps has_body run origin x h in
    let rest = dispatched_commands-bound es (posted_or x (post has_body run origin x)) waits f in
    rw burst at rest
dispatched_commands-bound (dispatches ∷ es) x h f = elim (Taken-cases (dispatch x)) [
  | inl e ↦ rw e (dispatched_commands-bound es x h (rw e at f))
  | inr (c, y, e) ↦
      let (mine, others) = all-split c (dispatched_commands es y) (rw e at f) in
      let (room, (burst, waits)) = dispatch-uses_burst x y c h e mine in
      let rest = dispatched_commands-bound es y waits others in rw e (omega arith)
]
