-- ===== src/Asio/Contract.antt =====
-- What a `ConnectionManager` asks of its `Timer` and its `SocketWatcher`, and what an `AsioTimer` and an
-- `AsioSocketManager` make of it.
use curlion.Common.{
  ℕ, suc, ◌≡◌, ◌≢◌, refl, sym, ap, ◌∙◌, false, Option, none, some, List, [], ◌∷◌, ◌++◌, ◌≤◌, ◌==◌,
  if◌then◌else◌, arith, Option-cases, inl, inr, eqb_refl, ℤ,
}
use curlion.Manager.Table.{Table, find, find-insert, find-erase}
use curlion.Manager.State.{Event, Effect, timer_start, timer_stop}
use curlion.Manager.Obeys.{watched, timer_on, Obeys}
use curlion.Asio.State.{Watcher, SocketManager, update}
use curlion.Asio.Step.{watch_once, start, stop, watch, stop_watching}
use curlion.Asio.Timer
use curlion.Asio.Timer.{TimerIo, waiting}
use curlion.Asio.Live.{Live, watch-Live, stop_watching-Live, watch_once-same, stop-same}

-- What a `SocketWatcher` promises, by the calls that were made on it, the latest first: the event
-- that a socket is watched for, if it is.
abbrev pub watched_event : ℕ → List Effect → Option Event
watched_event s [] = none
watched_event s (Effect.watch t e ∷ older) = if t == s then some e else watched_event s older
watched_event s (Effect.stop_watching t ∷ older) = if t == s then none else watched_event s older
watched_event s (timer_start ms ∷ older) = watched_event s older
watched_event s (timer_stop ∷ older) = watched_event s older

-- The same of an `AsioSocketManager`: the event of the running watcher that it has for a socket.
abbrev running_event : Watcher → Option Event
running_event x = if x.is_stopped then none else some x.event

abbrev event_of_entry : (ℕ → Watcher) → Option ℕ → Option Event
event_of_entry o none = none
event_of_entry o (some w) = running_event (o w)

abbrev pub view : SocketManager → ℕ → Option Event
view m s = event_of_entry m.single_watchers (find s m.watchers)

pub record System : Type 0 where
  pub timer : List TimerIo
  pub socket_manager : SocketManager

-- The manager's calls. Its event callbacks all do the same, and so do its timer callbacks.
unfoldable pub play : Effect → System → System
play (timer_start ms) sys = record sys { timer = Timer.start ms 0 sys.timer }
play timer_stop sys = record sys { timer = Timer.stop sys.timer }
play (Effect.watch s e) sys = record sys { socket_manager = watch s e 0 sys.socket_manager }
play (Effect.stop_watching s) sys = record sys {
  socket_manager = stop_watching s sys.socket_manager;
}

unfoldable pub play_all : List Effect → System → System
play_all [] sys = sys
play_all (e ∷ older) sys = play e (play_all older sys)

view-watch :
    (s r a : ℕ) (e : Event) (f : ℕ) (m : SocketManager)
    → find s m.sockets ≡ some a
    → find s m.watchers ≡ none
    → Live m
    → view (watch s e f m) r ≡ (if s == r then some e else view m r)
unfolding watch start
view-watch s r a e f m opened fresh i =
    let n = m.next_watcher in
    let x : Watcher = record { socket = a; event = e; callback = f; is_stopped = false } in
    let made : SocketManager = record m {
      single_watchers = update m.single_watchers n x;
      next_watcher = suc n;
    } in
    let (t, o, k) = watch_once-same n made in
    rw (opened, watch)
      (rw (t, o, find-insert r s n m.watchers fresh)
        (elim (Option-cases (find r m.watchers)) [
          | inl none_there ↦ rw none_there (ground (arith, eqb_refl n))
          | inr (w, there) ↦ rw there (ground (arith, eqb_refl n, i.known r w))
        ]))

view-stop_watching :
    (s r : ℕ) (m : SocketManager)
    → Live m
    → view (stop_watching s m) r ≡ (if s == r then none else view m r)
unfolding stop_watching
view-stop_watching s r m i = elim (Option-cases (find s m.watchers)) [
  | inl unknown ↦ rw (unknown, stop_watching) (ground arith)
  | inr (w, here) ↦
      let (t, o, n) = stop-same w m in
      rw (here, stop_watching)
        (rw (t, o)
          (ground (arith, find-erase r s m.watchers i.distinct, i.unique r s w, eqb_refl w)))
]

-- Each socket that is watched had been opened.
abbrev pub AllOpen : List Effect → Table → Type 0
AllOpen [] t = Unit {0}
AllOpen (Effect.watch s e ∷ older) t = (find s t ≢ none) × AllOpen older t
AllOpen (Effect.stop_watching s ∷ older) t = AllOpen older t
AllOpen (timer_start ms ∷ older) t = AllOpen older t
AllOpen (timer_stop ∷ older) t = AllOpen older t

watched-event :
    (s : ℕ) (effects : List Effect) → watched s effects ≡ false → watched_event s effects ≡ none
watched-event s [] h = refl
watched-event s (Effect.watch t e ∷ older) h = ground (arith, watched-event s older)
watched-event s (Effect.stop_watching t ∷ older) h = ground (arith, watched-event s older)
watched-event s (timer_start ms ∷ older) h = watched-event s older h
watched-event s (timer_stop ∷ older) h = watched-event s older h

watch-sockets :
    (s : ℕ) (e : Event) (f : ℕ) (m : SocketManager) → (watch s e f m).sockets ≡ m.sockets
unfolding watch start watch_once
watch-sockets s e f m = ground arith

stop_watching-sockets : (s : ℕ) (m : SocketManager) → (stop_watching s m).sockets ≡ m.sockets
unfolding stop_watching stop
stop_watching-sockets s m = ground arith

-- What is true of the system behind some calls; `opened` are the open sockets.
pub record Agrees (effects : List Effect) (opened : Table) (sys : System) : Type 0 where
  pub live : Live sys.socket_manager
  pub events : (s : ℕ) → view sys.socket_manager s ≡ watched_event s effects
  pub timers : waiting sys.timer ≤ (if timer_on effects then 1 else 0)
  pub sockets : sys.socket_manager.sockets ≡ opened

view-none : (s : ℕ) (m : SocketManager) → Live m → view m s ≡ none → find s m.watchers ≡ none
view-none s m i h = elim (Option-cases (find s m.watchers)) [
  | inl e ↦ e
  | inr (w, e) ↦ let h' = rw e at h in ground (arith, i.known s w)
]

module _ (opened : Table) where
  watch-Agrees :
      (s : ℕ) (e : Event) (older : List Effect) (sys : System)
      → watched s older ≡ false
      → find s opened ≢ none
      → Agrees older opened sys
      → Agrees (Effect.watch s e ∷ older) opened (play (Effect.watch s e) sys)
  unfolding play
  watch-Agrees s e older sys fresh there b =
      let m = sys.socket_manager in
      let idle = view-none s m b.live (b.events s ∙ watched-event s older fresh) in
      elim (Option-cases (find s m.sockets)) [
        | inl unknown ↦ absurd (there (ap (find s) (sym b.sockets) ∙ unknown))
        | inr (a, known) ↦ record {
          live = watch-Live s e 0 m idle b.live;
          events = λ r. ground (arith, view-watch s r a e 0 m known idle b.live, b.events r);
          timers = b.timers;
          sockets = watch-sockets s e 0 m ∙ b.sockets;
        }
      ]

  stop_watching-Agrees :
      (s : ℕ) (older : List Effect) (sys : System)
      → Agrees older opened sys
      → Agrees (Effect.stop_watching s ∷ older) opened (play (Effect.stop_watching s) sys)
  unfolding play
  stop_watching-Agrees s older sys b = record {
    live = stop_watching-Live s sys.socket_manager b.live;
    events = λ r. ground (arith, view-stop_watching s r sys.socket_manager b.live, b.events r);
    timers = b.timers;
    sockets = stop_watching-sockets s sys.socket_manager ∙ b.sockets;
  }

  timer_start-Agrees :
      (ms : ℤ) (older : List Effect) (sys : System)
      → Agrees older opened sys
      → Agrees (timer_start ms ∷ older) opened (play (timer_start ms) sys)
  unfolding play Timer.start
  timer_start-Agrees ms older sys b = record {
    live = b.live;
    events = b.events;
    timers = omega arith;
    sockets = b.sockets;
  }

  timer_stop-Agrees :
      (older : List Effect) (sys : System)
      → Agrees older opened sys
      → Agrees (timer_stop ∷ older) opened (play timer_stop sys)
  unfolding play Timer.stop
  timer_stop-Agrees older sys b = record {
    live = b.live;
    events = b.events;
    timers = omega arith;
    sockets = b.sockets;
  }

  -- What the manager asks for while no socket is opened or closed is what the system does.
  pub play_all-Agrees :
      (new older : List Effect) (sys : System)
      → Obeys (new ++ older)
      → AllOpen new opened
      → Agrees older opened sys
      → Agrees (new ++ older) opened (play_all new sys)
  unfolding play_all
  play_all-Agrees [] older sys obeys are_open a = a
  play_all-Agrees (timer_start ms ∷ new) older sys (off, obeys) are_open a =
      timer_start-Agrees ms (new ++ older) (play_all new sys)
        (play_all-Agrees new older sys obeys are_open a)
  play_all-Agrees (timer_stop ∷ new) older sys obeys are_open a =
      timer_stop-Agrees (new ++ older) (play_all new sys)
        (play_all-Agrees new older sys obeys are_open a)
  play_all-Agrees (Effect.watch s e ∷ new) older sys (fresh, obeys) (there, rest) a =
      watch-Agrees s e (new ++ older) (play_all new sys) fresh there
        (play_all-Agrees new older sys obeys rest a)
  play_all-Agrees (Effect.stop_watching s ∷ new) older sys (there, obeys) are_open a =
      stop_watching-Agrees s (new ++ older) (play_all new sys)
        (play_all-Agrees new older sys obeys are_open a)
