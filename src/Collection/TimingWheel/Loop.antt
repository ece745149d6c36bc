-- ===== src/Collection/TimingWheel/Loop.antt =====
-- core/collection/timingwheel.go: the run loop, which handles one message or tick at a time.
pub mod Valid
use fastgozero.Prelude.{ℕ, List, [], ◌∷◌, ◌++◌}
use fastgozero.Collection.TimingWheel.{
  Wheel, Handled, set_task, move_task, remove_task, on_tick, drain_all,
}

-- What the loop receives: from the ticker, or from one of the channels.
pub data Message (K V : Type 0) : Type 0 where
  ticker_message : Message K V
  set_message : K → V → ℕ → Message K V
  remove_message : K → Message K V
  move_message : K → ℕ → Message K V
  drain_message : Message K V

module _ {K V : Type 0} (dec : Discrete K) where
  unfoldable pub handle : Message K V → Wheel K V → Handled K V
  handle ticker_message w = on_tick dec w
  handle (set_message k v d) w = set_task dec k v d w
  handle (remove_message k) w = (remove_task dec k w, [])
  handle (move_message k d) w = move_task dec k d w
  handle drain_message w = drain_all w

  -- run, for a sequence of messages: the wheel, and the tasks that it ran in their order.
  unfoldable pub run : List (Message K V) → Wheel K V → Handled K V
  unfolding handle
  run [] w = (w, [])
  run (m ∷ ms) w =
      let (w', tasks) = handle m w in let (w'', more) = run ms w' in (w'', tasks ++ more)
