-- ===== src/Backfill/Control.antt =====
-- `Pause`, `Resume` and `Stop` of internal/backfill/worker.go, whose sends on unbuffered channels
-- block until the loop of `Start` receives. A call is one step up to its send, for the flag that it
-- tests and the one that it swaps are of no other use in between.
pub mod Laws
use transisi_db.Prelude.{
  ℕ, zero, suc, ◌+◌, ◌≡◌, ◌∙◌, refl, Bool, true, false, Option, none, some, List, [], ◌∷◌, arith,
  if◌then◌else◌, if-cases,
}

-- Where the goroutine of `Start` is: nowhere, on its way to the `select` or at it, or at
-- `<-w.resumeCh`.
pub data Place : Type 0 where
  away selecting paused_by_caller : Place

-- The flags and the context, and how many calls are blocked in each of the three sends.
pub record Control : Type 0 where
  pub place : Place
  pub cancelled : Bool
  pub paused : Bool
  pub pausing : ℕ
  pub resuming : ℕ
  pub stopping : ℕ

abbrev pub running : Place → Bool
running away = false
running selecting = true
running paused_by_caller = true

-- `none`: not running, already paused, or not paused.
unfoldable pub pause_call : Control → Option Control
pause_call c =
    if running c.place
    then if c.paused then none else some (record c { paused = true; pausing = c.pausing + 1 })
    else none

unfoldable pub resume_call : Control → Option Control
resume_call c =
    if running c.place
    then if c.paused then some (record c { paused = false; resuming = c.resuming + 1 }) else none
    else none

-- A worker that does not run makes `Stop` return at once.
unfoldable pub stop_call : Control → Control
stop_call c = if running c.place then record c { stopping = c.stopping + 1 } else c

-- The cases of the `select`, and what becomes of the loop in its `default`.
pub data Turn : Type 0 where
  receives_cancel receives_stop receives_pause receives_resume : Turn
  next_batch last_batch : Turn

-- A receive: of one of the calls that are blocked, if there is one.
received : ℕ → (ℕ → Control) → Option Control
received zero f = none
received (suc n) f = some (f n)

turn_at : Place → Turn → Control → Option Control
unfolding received
turn_at selecting receives_cancel c = if c.cancelled then some (record c { place = away }) else none
turn_at selecting receives_stop c =
    received c.stopping (λ n. record c { stopping = n; place = away })
turn_at selecting receives_pause c =
    received c.pausing (λ n. record c { pausing = n; place = paused_by_caller })
turn_at selecting next_batch c = some c
turn_at selecting last_batch c = some (record c { place = away })
turn_at paused_by_caller receives_resume c =
    received c.resuming (λ n. record c { resuming = n; place = selecting })
turn_at place t c = none

-- `none`: the goroutine does not wait for this, or there is nothing to receive.
unfoldable pub turn : Turn → Control → Option Control
unfolding turn_at
turn t c = turn_at c.place t c

-- `Start` up to its loop, with a context of its own; `none` is its error.
unfoldable pub start_call : Control → Option Control
start_call c =
    if running c.place then none else some (record c { place = selecting; cancelled = false })

pub data Move : Type 0 where
  starts cancels pauses resumes stops : Move
  turns : Turn → Move

-- A move that gives `none` changes nothing: a call that returns its error, or a goroutine that waits.
or_else : Control → Option Control → Control
or_else c none = c
or_else c (some d) = d

unfoldable pub move : Move → Control → Control
unfolding start_call pause_call resume_call stop_call turn or_else
move starts c = or_else c (start_call c)
move cancels c = record c { cancelled = true }
move pauses c = or_else c (pause_call c)
move resumes c = or_else c (resume_call c)
move stops c = stop_call c
move (turns t) c = or_else c (turn t c)

unfoldable pub moves : List Move → Control → Control
unfolding move
moves [] c = c
moves (m ∷ ms) c = moves ms (move m c)

unfoldable pub new_control : Control
new_control = record {
  place = away;
  cancelled = false;
  paused = false;
  pausing = 0;
  resuming = 0;
  stopping = 0;
}
