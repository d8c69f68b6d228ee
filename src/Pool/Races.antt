-- ===== src/Pool/Races.antt =====
-- `Acquire`, `Release` and `Close` in the steps in which they really run: the test of `closed` is
-- under the mutex, the channel operation that follows is not.
use transisi_db.Prelude.{
  ℕ, ◌≡◌, ◌⊎◌, ◌≢◌, ◌↔◌, Bool, true, false, List, [], ◌∷◌, ◌++◌, length, ltb, if◌then◌else◌, arith,
}
use transisi_db.Pool.{BackendConn, reset}
use transisi_db.Pool.Cleanup.{Chan, Received, got, got_nil, nothing, receive}

-- The `closed` flag and the channel.
pub record Shared : Type 0 where
  pub closed : Bool
  pub chan : Chan

-- What a goroutine is about to do.
pub data Task : Type 0 where
  release_test : ℕ → BackendConn → Task
  release_send : BackendConn → Task
  acquire_test acquire_receive : Task
  close_test close_channel : Task
  finished : Task

-- A step, or a run-time panic: a send on a closed channel, or a method call on the nil connection
-- that a receive from a closed channel gives, which reads a field of it.
pub data Outcome : Type 0 where
  steps : Task → Shared → Outcome
  panics : Outcome

send : BackendConn → Shared → Outcome
send bc s =
    if s.chan.is_closed
    then panics
    else if ltb (length s.chan.buffer) s.chan.capacity
    then steps finished (record s { chan = record (s.chan) { buffer = s.chan.buffer ++ bc ∷ [] } })
    else steps finished s

take : Received → Shared → Outcome
take (got bc ch) s = steps finished (record s { chan = ch })
take got_nil s = panics
take nothing s = steps finished s

-- `Release`: the test of `closed` under the mutex, and then, on the connection alone, that of its
-- transaction and the reset. `send` is its channel operation.
test_release : ℕ → BackendConn → Shared → Outcome
test_release now bc s =
    if s.closed
    then steps finished s
    else if bc.in_transaction
    then steps finished s
    else steps (release_send (reset now bc)) s

-- `Acquire`, of which `take` is the channel operation. What follows on a channel that gives a
-- connection or nothing uses neither the flag nor the channel.
test_acquire : Shared → Outcome
test_acquire s = if s.closed then steps finished s else steps acquire_receive s

-- `Close`, which empties the channel in the step in which it closes it.
test_close : Shared → Outcome
test_close s =
    if s.closed then steps finished s else steps close_channel (record s { closed = true })

close_chan : Shared → Outcome
close_chan s =
    steps finished (record s { chan = record (s.chan) { is_closed = true; buffer = [] } })

-- One atomic step of a task.
unfoldable pub advance : Task → Shared → Outcome
unfolding send take receive test_release test_acquire test_close close_chan
advance (release_test now bc) s = test_release now bc s
advance (release_send bc) s = send bc s
advance acquire_test s = test_acquire s
advance acquire_receive s = take (receive s.chan) s
advance close_test s = test_close s
advance close_channel s = close_chan s
advance finished s = steps finished s

-- Two goroutines by a schedule: `true` lets the first one step.
unfoldable pub run : List Bool → Task → Task → Shared → Outcome
run [] a b s = steps finished s
run (true ∷ bs) a b s = elim (advance a s) [ panics ↦ panics | steps a' s' ↦ run bs a' b s' ]
run (false ∷ bs) a b s = elim (advance b s) [ panics ↦ panics | steps b' s' ↦ run bs a b' s' ]

-- The flag is set before the channel is closed.
abbrev pub Ordered : Shared → Type 0
Ordered s = (s.closed ≡ true) ⊎ (s.chan.is_closed ≡ false)

-- A goroutine that is alone does not panic.
pub alone_never_panics :
    (s : Shared) (now : ℕ) (bc : BackendConn)
    → Ordered s
    → (run (true ∷ true ∷ []) (release_test now bc) finished s ≢ panics)
      × (run (true ∷ true ∷ []) acquire_test finished s ≢ panics)
      × (run (true ∷ true ∷ []) close_test finished s ≢ panics)
unfolding run advance
alone_never_panics s now bc o = ground arith

-- In every open pool, `Close` between the test and the channel operation makes `Release` panic exactly
-- when the connection is in no transaction, and makes `Acquire` panic always.
pub close_race_panics :
    (s : Shared) (now : ℕ) (bc : BackendConn)
    → s.closed ≡ false
    → let schedule = true ∷ false ∷ false ∷ true ∷ [] in
      ((run schedule (release_test now bc) close_test s ≡ panics) ↔ (bc.in_transaction ≡ false))
      × (run schedule acquire_test close_test s ≡ panics)
unfolding run advance
close_race_panics s now bc o = ground arith
