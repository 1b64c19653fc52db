-- ===== src/Manager/Run.antt =====
-- Histories of a manager: the program's calls, and the notifications of its timer and its socket
-- watcher, in any order.
use curlion.Common.{ℕ, ◌≡◌, sym, Bool, true, some, arith}
use curlion.Manager.Table.{find, Distinct}
use curlion.Manager.State.{MultiLibrary, AnyConnection, Object, World, Handlers, new_world}
use curlion.Manager.Step.{
  start_connection, abort_connection, timer_triggered, socket_event_triggered,
}
use curlion.Http.Requests.{HttpSetting}
use curlion.Manager.Every.{
  Asking, IsMaintained, Every, start_connection-Every, abort_connection-Every, act-Every,
}
use curlion.Manager.Obeys.{SocketLaws, Obeys}
use curlion.Manager.Watching.{
  IsWatched, start_connection-IsWatched, abort_connection-IsWatched, act-IsWatched,
}
use curlion.Manager.Registered.{Consistent, runs}
use curlion.Manager.Consistent.{
  start_connection-Consistent, abort_connection-Consistent, act-Consistent,
}

pub data Step (lib : MultiLibrary) (handlers : Handlers lib) (w : World lib)
    : World lib → Type 0 where
  starts : (a : ℕ) → Step lib handlers w (start_connection lib a w).0
  aborts : (a : ℕ) → Step lib handlers w (abort_connection lib a w).0
  timer_fires :
      (fuel : ℕ) {w' : World lib}
      → timer_triggered lib handlers fuel w ≡ some w'
      → Step lib handlers w w'
  socket_fires :
      (fuel s : ℕ) (can_write : Bool) {w' : World lib}
      → socket_event_triggered lib handlers fuel s can_write w ≡ some w'
      → Step lib handlers w w'

pub data Reach (lib : MultiLibrary) (handlers : Handlers lib) (w : World lib)
    : World lib → Type 0 where
  here : Reach lib handlers w w
  next : {u v : World lib} → Reach lib handlers w u → Step lib handlers u v → Reach lib handlers w v

module _ (lib : MultiLibrary) (handlers : Handlers lib) where
  pub Step-Consistent :
      {w w' : World lib} → Step lib handlers w w' → Consistent lib w → Consistent lib w'
  unfolding timer_triggered socket_event_triggered
  Step-Consistent {w} (starts a) c = start_connection-Consistent lib a w c
  Step-Consistent {w} (aborts a) c = abort_connection-Consistent lib a w c
  Step-Consistent {w} {w'} (timer_fires fuel e) c = act-Consistent lib handlers fuel _ _ w w' e c
  Step-Consistent {w} {w'} (socket_fires fuel s can_write e) c =
      act-Consistent lib handlers fuel _ _ w w' e c

  pub Step-Every :
      (allowed : HttpSetting → Bool) (P : AnyConnection → Type 0)
      → IsMaintained lib allowed P
      → Asking lib allowed handlers
      → {w w' : World lib} → Step lib handlers w w'
      → Every lib P w
      → Every lib P w'
  unfolding timer_triggered socket_event_triggered
  Step-Every allowed P kept asking {w} (starts a) i =
      start_connection-Every lib allowed P kept a w i
  Step-Every allowed P kept asking {w} (aborts a) i =
      abort_connection-Every lib allowed P kept a w i
  Step-Every allowed P kept asking {w} {w'} (timer_fires fuel e) i =
      act-Every lib allowed P kept handlers asking fuel _ _ w w' e i
  Step-Every allowed P kept asking {w} {w'} (socket_fires fuel s can_write e) i =
      act-Every lib allowed P kept handlers asking fuel _ _ w w' e i

  pub Reach-Consistent :
      {w w' : World lib} → Reach lib handlers w w' → Consistent lib w → Consistent lib w'
  Reach-Consistent here c = c
  Reach-Consistent (next r step) c = Step-Consistent step (Reach-Consistent r c)

  pub new_world-Consistent :
      (factory : Bool) (objects : ℕ → Object) → Consistent lib (new_world lib factory objects)
  unfolding new_world find
  new_world-Consistent factory objects = record {
    distinct = tt;
    located = λ e a h. ground arith;
    running = λ e a h. ground arith;
  }

  -- After any history of calls and notifications of a new manager, with finished callbacks that
  -- start and abort connections and call their public methods: each handle is registered once, and stands for the connection that
  -- it belongs to, which is marked as running.
  Reach-new_world-Consistent :
      (factory : Bool) (objects : ℕ → Object) (w : World lib)
      → Reach lib handlers (new_world lib factory objects) w
      → Distinct w.running_connections
        × ((e a : ℕ)
            → find e w.running_connections ≡ some a
            → ((w.objects a).easy ≡ e) × (runs w.objects a ≡ true))
  Reach-new_world-Consistent factory objects w r =
      let c = Reach-Consistent r (new_world-Consistent factory objects) in
      (c.distinct, λ e a h. (c.located e a h, c.running e a h))

  module _ (laws : SocketLaws lib) where
    pub Step-IsWatched :
        {w w' : World lib} → Step lib handlers w w' → IsWatched lib w → IsWatched lib w'
    unfolding timer_triggered socket_event_triggered
    Step-IsWatched {w} (starts a) i = start_connection-IsWatched lib laws a w i
    Step-IsWatched {w} (aborts a) i = abort_connection-IsWatched lib laws a w i
    Step-IsWatched {w} {w'} (timer_fires fuel e) i =
        act-IsWatched lib laws handlers fuel _ _ w w' e i
    Step-IsWatched {w} {w'} (socket_fires fuel s can_write e) i =
        act-IsWatched lib laws handlers fuel _ _ w w' e i

    Reach-IsWatched :
        {w w' : World lib} → Reach lib handlers w w' → IsWatched lib w → IsWatched lib w'
    Reach-IsWatched here i = i
    Reach-IsWatched (next r step) i = Step-IsWatched step (Reach-IsWatched r i)

    pub new_world-IsWatched :
        (factory : Bool) (objects : ℕ → Object) → IsWatched lib (new_world lib factory objects)
    unfolding new_world
    new_world-IsWatched factory objects = record {
      obeys = tt;
      agrees = λ s. sym (laws.init_socketp s);
    }

    -- After any history of calls and notifications of a new manager, with finished callbacks that
    -- start and abort connections and call their public methods, and with a libcurl that keeps a
    -- socket's pointer as it documents: over the whole history `Watch` was called only for a socket
    -- that was not watched, `StopWatching` only for one that was, and the timer was started only
    -- when it did not run.
    Reach-new_world-Obeys :
        (factory : Bool) (objects : ℕ → Object) (w : World lib)
        → Reach lib handlers (new_world lib factory objects) w
        → Obeys w.effects
    Reach-new_world-Obeys factory objects w r =
        (Reach-IsWatched r (new_world-IsWatched factory objects)).obeys
