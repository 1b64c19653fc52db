-- ===== src/Manager/Queue.antt =====
-- The messages that libcurl holds, and what the manager's calls do to them.
use curlion.Common.{
  ℕ, ◌≤◌, ◌≡◌, refl, ◌∙◌, Bool, ◌&&◌, Option, none, some, List, [], ◌∷◌, pos, negsuc, ◌==◌,
  if◌then◌else◌, arith, length,
}
use curlion.Manager.State.{Poll, Callback, timer, socket, MultiLibrary, World, Message}
use curlion.Manager.Step.{set_timer, watch_socket, run_callback, run_callbacks, remove_running}

abbrev pub without : ℕ → List Message → List Message
without e [] = []
without e (m ∷ ms) = if m.easy_handle == e then without e ms else m ∷ without e ms

-- libcurl keeps its messages in a queue. Reading takes the first; removing a handle drops those of
-- that handle, and the pointers of sockets have nothing to do with it.
pub record QueueLaws (lib : MultiLibrary) : Type 0 where
  pub queue : lib.Multi → List Message
  pub read_none : (m : lib.Multi) → queue m ≡ [] → (lib.info_read m).1 ≡ none
  pub read_first :
      (m : lib.Multi) (msg : Message) (rest : List Message)
      → queue m ≡ msg ∷ rest
      → ((lib.info_read m).1 ≡ some msg) × (queue (lib.info_read m).0 ≡ rest)
  pub remove_queue : (e : ℕ) (m : lib.Multi) → queue (lib.remove_handle e m).0 ≡ without e (queue m)
  pub assign_queue : (s : ℕ) (m : lib.Multi) → queue (lib.assign s m) ≡ queue m
  pub forget_queue : (s : ℕ) (m : lib.Multi) → queue (lib.forget s m) ≡ queue m

-- The code of the first message of a queue that says that a handle's transfer is done.
abbrev pub outcome : ℕ → List Message → Option ℕ
outcome e [] = none
outcome e (m ∷ ms) = if m.is_done && (m.easy_handle == e) then some m.result else outcome e ms

pub outcome-without :
    (e k : ℕ) (ms : List Message)
    → outcome e (without k ms) ≡ (if k == e then none else outcome e ms)
outcome-without e k [] = ground arith
outcome-without e k (m ∷ ms) = ground (arith, outcome-without e k ms)

pub length-without : (e : ℕ) (ms : List Message) → length (without e ms) ≤ length ms
length-without e [] = omega arith
length-without e (m ∷ ms) = ground (arith, length-without e ms)

module _ (lib : MultiLibrary) (laws : QueueLaws lib) where
  abbrev pub queued : World lib → List Message
  queued w = laws.queue w.multi_handle

  watch_socket-queued :
      (s : ℕ) (action : Poll) (tag : Bool) (w : World lib)
      → queued (watch_socket lib s action tag w) ≡ queued w
  unfolding watch_socket
  watch_socket-queued s action tag w = ground (arith, laws.assign_queue s w.multi_handle)

  run_callback-queued : (c : Callback) (w : World lib) → queued (run_callback lib c w) ≡ queued w
  unfolding run_callback set_timer
  run_callback-queued (timer (pos n)) w = refl
  run_callback-queued (timer (negsuc n)) w = refl
  run_callback-queued (socket s action) w =
      let v = watch_socket lib s action (lib.socketp w.multi_handle s) w in
      ground (
        arith,
        watch_socket-queued s action (lib.socketp w.multi_handle s) w,
        laws.forget_queue s v.multi_handle,
      )

  pub run_callbacks-queued :
      (cs : List Callback) (w : World lib) → queued (run_callbacks lib cs w) ≡ queued w
  unfolding run_callbacks
  run_callbacks-queued [] w = refl
  run_callbacks-queued (c ∷ cs) w =
      run_callbacks-queued cs (run_callback lib c w) ∙ run_callback-queued c w

  pub remove_running-queued :
      (e : ℕ) (w : World lib) → queued (remove_running lib e w).0 ≡ without e (queued w)
  unfolding remove_running
  remove_running-queued e w = run_callbacks-queued _ _ ∙ laws.remove_queue e w.multi_handle
