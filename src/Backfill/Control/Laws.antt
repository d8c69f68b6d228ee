-- ===== src/Backfill/Control/Laws.antt =====
-- The books of the three channels, what wakes a paused worker, and what does not.
use transisi_db.Prelude.{
  ℕ, ◌+◌, ◌≡◌, refl, ap, ◌∙◌, Bool, true, false, List, [], ◌∷◌, ◌++◌, arith, All,
}
use transisi_db.Backfill.Control.{
  Control, Place, away, selecting, paused_by_caller, Turn, receives_cancel, receives_stop,
  receives_pause, receives_resume, next_batch, last_batch, pause_call, resume_call, stop_call,
  start_call, turn, turn_at, received, or_else, move, moves, Move, starts, cancels, pauses, resumes,
  stops, turns, new_control,
}

abbrev pub flag : Bool → ℕ
flag false = 0
flag true = 1

abbrev pub waits : Place → ℕ
waits paused_by_caller = 1
waits away = 0
waits selecting = 0

-- Calls of `Pause` that wait and the pause in force are as many as calls of `Resume` that wait and
-- the flag together.
abbrev pub IsBalanced : Control → Type 0
IsBalanced c = flag c.paused + c.resuming ≡ c.pausing + waits c.place

turn_at-IsBalanced :
    (p : Place) (t : Turn) (c : Control)
    → c.place ≡ p
    → IsBalanced c
    → IsBalanced (or_else c (turn_at p t c))
unfolding turn_at received or_else
turn_at-IsBalanced away t c e b = b
turn_at-IsBalanced selecting receives_cancel c e b = ground arith
turn_at-IsBalanced selecting receives_stop c e b = ground arith
turn_at-IsBalanced selecting receives_pause c e b = ground arith
turn_at-IsBalanced selecting receives_resume c e b = b
turn_at-IsBalanced selecting next_batch c e b = b
turn_at-IsBalanced selecting last_batch c e b = ground arith
turn_at-IsBalanced paused_by_caller receives_cancel c e b = b
turn_at-IsBalanced paused_by_caller receives_stop c e b = b
turn_at-IsBalanced paused_by_caller receives_pause c e b = b
turn_at-IsBalanced paused_by_caller receives_resume c e b = ground arith
turn_at-IsBalanced paused_by_caller next_batch c e b = b
turn_at-IsBalanced paused_by_caller last_batch c e b = b

move-IsBalanced : (m : Move) (c : Control) → IsBalanced c → IsBalanced (move m c)
unfolding move start_call pause_call resume_call stop_call turn or_else
move-IsBalanced starts c b = ground arith
move-IsBalanced cancels c b = b
move-IsBalanced pauses c b = ground arith
move-IsBalanced resumes c b = ground arith
move-IsBalanced stops c b = ground arith
move-IsBalanced (turns t) c b = turn_at-IsBalanced c.place t c refl b

new_control-IsBalanced : IsBalanced new_control
unfolding new_control
new_control-IsBalanced = refl

pub moves-IsBalanced : (ms : List Move) (c : Control) → IsBalanced c → IsBalanced (moves ms c)
unfolding moves
moves-IsBalanced [] c b = b
moves-IsBalanced (m ∷ ms) c b = moves-IsBalanced ms (move m c) (move-IsBalanced m c b)

moves-append : (ms ns : List Move) (c : Control) → moves (ms ++ ns) c ≡ moves ns (moves ms c)
unfolding moves
moves-append [] ns c = refl
moves-append (m ∷ ms) ns c = moves-append ms ns (move m c)

resume_wakes :
    (c : Control)
    → IsBalanced c
    → c.place ≡ paused_by_caller
    → (moves (resumes ∷ turns receives_resume ∷ []) c).place ≡ selecting
unfolding moves move resume_call turn turn_at received or_else
resume_wakes c b e = ground arith

-- After any moves of a new worker: if the goroutine is paused, a call of `Resume` wakes it, also one
-- that is refused, as then another is blocked; the goroutine is back at its `select`.
pub paused_wakes :
    (ms : List Move)
    → (moves ms new_control).place ≡ paused_by_caller
    → (moves (ms ++ resumes ∷ turns receives_resume ∷ []) new_control).place ≡ selecting
paused_wakes ms e =
    ap (λ c. c.place) (moves-append ms (resumes ∷ turns receives_resume ∷ []) new_control)
    ∙ resume_wakes (moves ms new_control) (moves-IsBalanced ms new_control new_control-IsBalanced) e

abbrev stop_count : Move → ℕ
stop_count stops = 1
stop_count m = 0

-- The calls of `Stop` in a list of moves.
abbrev pub stop_calls : List Move → ℕ
stop_calls [] = 0
stop_calls (m ∷ ms) = stop_count m + stop_calls ms

abbrev pub IsNoResume : Move → Type 0
IsNoResume resumes = ⊥
IsNoResume m = Unit

turn_paused :
    (p : Place) (t : Turn) (c : Control)
    → c.place ≡ p
    → p ≡ paused_by_caller
    → c.resuming ≡ 0
    → or_else c (turn_at p t c) ≡ c
unfolding turn_at received or_else
turn_paused away t c e q r = refl
turn_paused selecting t c e q r = absurd (ground arith)
turn_paused paused_by_caller receives_cancel c e q r = refl
turn_paused paused_by_caller receives_stop c e q r = refl
turn_paused paused_by_caller receives_pause c e q r = refl
turn_paused paused_by_caller receives_resume c e q r = ground arith
turn_paused paused_by_caller next_batch c e q r = refl
turn_paused paused_by_caller last_batch c e q r = refl

move_paused :
    (m : Move) (c : Control)
    → IsNoResume m
    → c.place ≡ paused_by_caller
    → c.resuming ≡ 0
    → ((move m c).place ≡ paused_by_caller)
      × ((move m c).resuming ≡ 0)
      × ((move m c).stopping ≡ c.stopping + stop_count m)
unfolding move start_call pause_call stop_call turn or_else
move_paused starts c a e r = ground arith
move_paused cancels c a e r = ground arith
move_paused pauses c a e r = ground arith
move_paused resumes c a e r = absurd a
move_paused stops c a e r = ground arith
move_paused (turns t) c a e r = rw (turn_paused c.place t c refl e r) (ground arith)

-- A paused goroutine with no call of `Resume` blocked stays where it is, whatever else happens but a
-- new call of `Resume`: a cancelled context does not end it, and every call of `Stop` stays blocked.
pub paused_ignores_stop :
    (ms : List Move) (c : Control)
    → All IsNoResume ms
    → c.place ≡ paused_by_caller
    → c.resuming ≡ 0
    → ((moves ms c).place ≡ paused_by_caller) × ((moves ms c).stopping ≡ c.stopping + stop_calls ms)
unfolding moves
paused_ignores_stop [] c a e r = ground arith
paused_ignores_stop (m ∷ ms) c (a, rest) e r =
    let (e', r', k) = move_paused m c a e r in
    let (f, g) = paused_ignores_stop ms (move m c) rest e' r' in (f, omega (arith, g, k))
