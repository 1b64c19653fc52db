-- ===== src/Manager/Sound.antt =====
-- What stays true over every history of a whole program.
use curlion.Common.{ℕ, ◌≡◌, refl, sym, ap, ◌∙◌, subst, Bool, true, some, Bytes}
use curlion.Curl.{Reply}
use curlion.Connection.State.{Connection, Client}
use curlion.Connection.Callbacks.{Transfer, transfer}
use curlion.Connection.Wiring.{IsWired}
use curlion.Connection.Public.{IsPublic, any_call, is_running-IsKept, IsWired-IsKept}
use curlion.Connection.Keeping.{transfer-kept}
use curlion.Connection.Starting.{start-IsWired}
use curlion.Http.Kept.{IsLent, IsLent-IsKept, lent-IsHttpWired, start_http-IsHttpWired}
use curlion.Manager.State.{
  MultiLibrary, AnyConnection, plain, http, Object, World, Handlers, base_of, map_base, apply_any,
  change_object, new_world,
}
use curlion.Manager.Table.{find, Distinct}
use curlion.Manager.Request.{base_of-map_base}
use curlion.Manager.Obeys.{SocketLaws, Obeys}
use curlion.Manager.Watching.{IsWatched}
use curlion.Manager.Registered.{Consistent, runs}
use curlion.Manager.Consistent.{apply_any-runs, change_object-Consistent}
use curlion.Manager.Wired.{IsAnyWired, apply_any-IsAnyWired, IsAnyWired-IsMaintained, any-Asking}
use curlion.Manager.Every.{Every, change_object-Every}
use curlion.Manager.Run.{
  Step-Consistent, Step-Every, Step-IsWatched, new_world-Consistent, new_world-IsWatched,
}
use curlion.Manager.Life.{
  Live, manages, configured, transferred, performs, performs_http, Lives, here, next,
}

-- What is known of a world in between.
pub record IsSound (lib : MultiLibrary) (w : World lib) : Type 0 where
  pub consistent : Consistent lib w
  pub wired : Every lib IsAnyWired w
  pub watched : IsWatched lib w

module _ (lib : MultiLibrary) where
  -- A connection may change if it goes on running or not, and stays wired.
  change_object-IsSound :
      (a : ℕ) (f : AnyConnection → AnyConnection) (w : World lib)
      → IsSound lib w
      → (base_of (f (w.objects a).state)).is_running ≡ (base_of (w.objects a).state).is_running
      → IsAnyWired (f (w.objects a).state)
      → IsSound lib (change_object lib a f w)
  unfolding change_object
  change_object-IsSound a f w i same wired = record {
    consistent = change_object-Consistent lib a f w same i.consistent;
    wired = change_object-Every lib IsAnyWired a f w wired i.wired;
    watched = record { obeys = i.watched.obeys; agrees = i.watched.agrees };
  }

  module _ (client : Client) (public : IsPublic any_call client) where
    transferred-IsAnyWired :
        (o : AnyConnection) (t : Transfer) (c : Connection) (reply : Reply) (bytes : Bytes)
        → (base_of o).is_running ≡ true
        → transfer client (base_of o) t ≡ some (c, reply, bytes)
        → IsAnyWired o
        → IsAnyWired (map_base (λ old. c) o)
    unfolding map_base base_of
    transferred-IsAnyWired (plain old) t c reply bytes runs e w =
        transfer-kept client any_call public IsWired (IsWired-IsKept any_call) old t c reply bytes e
          w
    transferred-IsAnyWired (http h) t c reply bytes runs e w =
        lent-IsHttpWired h c
          (transfer-kept client any_call public (IsLent _ _) (IsLent-IsKept any_call _ _) h.base t c
            reply bytes e
            (record { wired = w.wired; running = runs; same_headers = refl; same_form = refl }))
          w

    module _ (handlers : Handlers lib) (laws : SocketLaws lib) where
      Live-IsSound :
          {w w' : World lib} → Live lib handlers client w w' → IsSound lib w → IsSound lib w'
      unfolding base_of
      Live-IsSound (manages step) i = record {
        consistent = Step-Consistent lib handlers step i.consistent;
        wired =
            Step-Every lib handlers (λ s. true) IsAnyWired (IsAnyWired-IsMaintained lib)
              (any-Asking lib handlers) step i.wired;
        watched = Step-IsWatched lib handlers laws step i.watched;
      }
      Live-IsSound {w} (configured a s) i =
          change_object-IsSound a (apply_any s) w i (apply_any-runs s _)
            (apply_any-IsAnyWired s _ (i.wired a))
      Live-IsSound {w} (transferred a t c reply bytes runs e) i =
          change_object-IsSound a (map_base (λ old. c)) w i
            (ap (λ x. x.is_running) (base_of-map_base c _)
              ∙ transfer-kept client any_call public _ (is_running-IsKept any_call _) _ t c reply
                  bytes e refl)
            (transferred-IsAnyWired _ t c reply bytes runs e (i.wired a))
      Live-IsSound {w} (performs a ts result c c' is e) i =
          let (wired, same) =
            start-IsWired any_call client public c ts result c' e
              (subst IsAnyWired is (i.wired a)) in
          change_object-IsSound a (λ old. plain c') w i
            (same ∙ sym (ap (λ o. (base_of o).is_running) is)) wired
      Live-IsSound {w} (performs_http a ts result h h' c answers is idle run silent e) i =
          let (wired, same) =
            start_http-IsHttpWired any_call client public h ts result c answers h' idle run silent e
              (subst IsAnyWired is (i.wired a)) in
          change_object-IsSound a (λ old. http h') w i
            (same ∙ sym (ap (λ o. (base_of o).is_running) is ∙ idle)) wired

      Lives-IsSound :
          {w w' : World lib} → Lives lib handlers client w w' → IsSound lib w → IsSound lib w'
      Lives-IsSound here i = i
      Lives-IsSound (next l step) i = Live-IsSound step (Lives-IsSound l i)

      -- A new manager, and connections whose callbacks, lists and forms are in place. After any
      -- history of the program, in which the manager's calls and notifications, public calls on any
      -- connection (also from finished callbacks), single calls of libcurl's on running connections
      -- and blocking starts, as `Live` has them, come in any order, with callbacks that change their
      -- connection by its public methods and a libcurl that keeps a socket's pointer as it documents:
      -- the calls made on the timer and the watcher keep the manager's promise, each handle is
      -- registered once and stands for the running connection that it belongs to, and the callbacks,
      -- lists and forms of every connection are still in place.
      pub Lives-new_world :
          (factory : Bool) (objects : ℕ → Object) (w : World lib)
          → ((a : ℕ) → IsAnyWired (objects a).state)
          → Lives lib handlers client (new_world lib factory objects) w
          → Obeys w.effects
            × Distinct w.running_connections
            × ((e a : ℕ)
                → find e w.running_connections ≡ some a
                → ((w.objects a).easy ≡ e) × (runs w.objects a ≡ true))
            × ((a : ℕ) → IsAnyWired (w.objects a).state)
      unfolding new_world
      Lives-new_world factory objects w wired l =
          let i = Lives-IsSound l (record {
            consistent = new_world-Consistent lib handlers factory objects;
            wired = wired;
            watched = new_world-IsWatched lib handlers laws factory objects;
          }) in
          (
            i.watched.obeys,
            i.consistent.distinct,
            λ e a h. (i.consistent.located e a h, i.consistent.running e a h),
            i.wired,
          )
