-- ===== src/Asio/TimerTests.antt =====
-- An `AsioTimer` whose wait is reported, and reported as aborted.
use curlion.Common.{ℕ, ◌≡◌, refl, true, false, none, some, [], ◌∷◌, arith}
use curlion.Connection.State.{new}
use curlion.Manager.State.{World, Handlers, plain, Object, new_world}
use curlion.Manager.Step.{
  timer_triggered, act, check_finished_connections, handle_message, did_finish_at, remove_running,
  run_requests, run_callbacks, run_callback,
}
use curlion.Manager.Table.{find, erase}
use curlion.Manager.Example.{library}
use curlion.Asio.State.{Watcher, success, operation_aborted}
use curlion.Manager.State.{read}
use curlion.Asio.Timer
use curlion.Asio.Timer.{expired}
use curlion.Asio.Loop
use curlion.Asio.Loop.{Whole, settled, AreOpen, JointReach, timer_aborted, timer_fires, new_whole}
use curlion.Asio.Answers.{answered, JointReach-new_world-answered}

abbrev ignore : Handlers library
ignore f a w = []

abbrev objects : ℕ → Object
objects a = record { easy = a; state = plain new }

abbrev memory : ℕ → Watcher
memory w = record { socket = 0; event = read; callback = 0; is_stopped = false }

abbrev first : Whole library ignore
first = new_whole library ignore true objects memory

-- The timer callback on a manager that runs nothing.
abbrev idle : World library
idle = elim (timer_triggered library ignore 3 first.manager) [ none ↦ first.manager | some w ↦ w ]

idle-runs : timer_triggered library ignore 3 first.manager ≡ some idle
unfolding timer_triggered act check_finished_connections handle_message did_finish_at remove_running
    run_requests run_callbacks run_callback new_whole new_world find erase
idle-runs = refl

idle-AreOpen : AreOpen library ignore first.manager idle first.system
unfolding timer_triggered act check_finished_connections handle_message did_finish_at remove_running
    run_requests run_callbacks run_callback new_whole new_world find erase
idle-AreOpen = ground arith

abbrev rung : Whole library ignore
rung = settled library ignore first.manager idle (record (first.system) {
  timer = Timer.timer_triggered 0 success (expired 0 success ∷ first.system.timer);
})

abbrev quiet : Whole library ignore
quiet = record rung {
  system = record (rung.system) {
    timer =
        Timer.timer_triggered 0 operation_aborted (expired 0 operation_aborted ∷ rung.system.timer);
  };
}

quiet-JointReach : JointReach library ignore first quiet
unfolding Timer.timer_triggered
quiet-JointReach =
    Loop.next (Loop.next Loop.here (timer_fires success 3 idle refl idle-runs idle-AreOpen))
      (timer_aborted operation_aborted refl)

JointReach-new_world-answered_example : answered quiet.system.timer ≡ true
JointReach-new_world-answered_example =
    JointReach-new_world-answered library ignore true objects memory quiet quiet-JointReach
