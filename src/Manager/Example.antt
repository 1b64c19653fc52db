-- ===== src/Manager/Example.antt =====
-- Four connections, and a libcurl with one socket for each handle that refuses the handle 9.
use curlion.Common.{
  ℕ, ◌<◌, ◌≡◌, refl, Bool, true, false, Option, none, some, List, [], ◌∷◌, pos, negsuc, ◌==◌,
  if◌then◌else◌, arith, length,
}
use curlion.Connection.Tests.{hello}
use curlion.Http.State.{new_http}
use curlion.Manager.State.{
  poll_in, poll_remove, timer, socket, Message, MultiLibrary, plain, http, Object, World, Handlers,
  starts, new_world,
}
use curlion.Manager.Step.{start_connection}
use curlion.Manager.Obeys.{SocketLaws}
use curlion.Manager.Registered.{Consistent}
use curlion.Manager.Termination.{MessageLaws}
use curlion.Manager.Run.{here, next, Step, Reach-Consistent, new_world-Consistent}
use curlion.Manager.Queue.{QueueLaws, without, length-without}

pub record Multi : Type 0 where
  pub tags : ℕ → Bool
  pub handles : List ℕ
  pub messages : List Message

abbrev pub mark : ℕ → Bool → Multi → Multi
mark t b m = record m { tags = λ s. if t == s then b else m.tags s }

abbrev pop_from : List Message → Multi → Multi × Option Message
pop_from [] m = (m, none)
pop_from (msg ∷ r) m = (record m { messages = r }, some msg)

abbrev pop : Multi → Multi × Option Message
pop m = pop_from m.messages m

abbrev done_messages : List ℕ → List Message
done_messages [] = []
done_messages (e ∷ es) = record { is_done = true; easy_handle = e; result = 28 } ∷ done_messages es

-- Every transfer is done at the next event.
abbrev pub library : MultiLibrary
library = record {
  Multi = Multi;
  multi_init = record { tags = λ s. false; handles = []; messages = [] };
  add_handle = λ e m.
      if e == 9
      then (m, 2, [])
      else (record m { handles = e ∷ m.handles }, 0, timer (pos 0) ∷ socket e poll_in ∷ []);
  remove_handle =
      λ e m. (record m { messages = without e m.messages }, 0, socket e poll_remove ∷ []);
  socket_action = λ s events m.
      (record m { handles = []; messages = done_messages m.handles }, timer (negsuc 0) ∷ []);
  info_read = pop;
  assign = λ s m. mark s true m;
  forget = λ s m. mark s false m;
  socketp = λ m s. m.tags s;
}

pop_from-tags : (l : List Message) (m : Multi) (s : ℕ) → (pop_from l m).0.tags s ≡ m.tags s
pop_from-tags [] m s = refl
pop_from-tags (msg ∷ r) m s = refl

pub pop_from-messages :
    (l : List Message) (m : Multi) (msg : Message)
    → (pop_from l m).1 ≡ some msg
    → length (pop_from l m).0.messages < length l
pop_from-messages [] m msg h = ground arith
pop_from-messages (other ∷ r) m msg h = omega arith

pub library-SocketLaws : SocketLaws library
library-SocketLaws = record {
  init_socketp = λ s. refl;
  assign_socketp = λ t m s. refl;
  forget_socketp = λ t m s. refl;
  add_socketp = λ e m s. ground arith;
  remove_socketp = λ e m s. refl;
  action_socketp = λ t events m s. refl;
  read_socketp = λ m s. pop_from-tags m.messages m s;
}

abbrev pub message_laws : MessageLaws library
message_laws = record {
  pending = λ m. length m.messages;
  read_pending = λ m msg h. pop_from-messages m.messages m msg h;
  add_pending = λ e m. ground arith;
  remove_pending = λ e m. length-without e m.messages;
  assign_pending = λ s m. omega arith;
  forget_pending = λ s m. omega arith;
}

-- The connection at an address has the address for its handle; the one at 2 is an HTTP connection.
abbrev pub objects : ℕ → Object
objects a = record { easy = a; state = if a == 2 then http new_http else plain hello }

-- The callback starts the connection that has finished again.
abbrev pub restart : Handlers library
restart f a w = starts a ∷ []

abbrev pub fresh : World library
fresh = new_world library true objects

abbrev pub started : World library
started = (start_connection library 1 fresh).0

pub pop_from-first :
    (l : List Message) (m : Multi) (msg : Message) (rest : List Message)
    → l ≡ msg ∷ rest
    → ((pop_from l m).1 ≡ some msg) × ((pop_from l m).0.messages ≡ rest)
pop_from-first [] m msg rest h = cc
pop_from-first (other ∷ r) m msg rest h = (cc, cc)

pub pop_from-none : (l : List Message) (m : Multi) → l ≡ [] → (pop_from l m).1 ≡ none
pop_from-none [] m h = refl
pop_from-none (other ∷ r) m h = cc

abbrev pub queue_laws : QueueLaws library
queue_laws = record {
  queue = λ m. m.messages;
  read_none = λ m h. pop_from-none m.messages m h;
  read_first = λ m msg rest h. pop_from-first m.messages m msg rest h;
  remove_queue = λ e m. refl;
  assign_queue = λ s m. refl;
  forget_queue = λ s m. refl;
}

pub started-Consistent : Consistent library started
started-Consistent =
    Reach-Consistent library restart (next here (Step.starts 1))
      (new_world-Consistent library restart true objects)
