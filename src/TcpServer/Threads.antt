-- ===== src/TcpServer/Threads.antt =====
-- The threads of one client in src/libs/TcpServer.cpp: the timer, the thread that watches the socket, and
-- the loop of `thread_function01`, which waits for the events that the two others set. The events are
-- those of the library pevents; what its wait does is a parameter.
pub mod Extend
pub mod Refines
pub mod Blocked
use payloader.Base.{
  ℕ, zero, suc, ◌≡◌, List, [], ◌∷◌, ◌++◌, Bool, true, false, some, Option, none, if◌then◌else◌, ok,
}
use payloader.Rtsp.Request.{Environment}
use payloader.TcpServer.{Received, Event, tick, readable, Server, Output, step}

-- `events[0]` and `events[1]`.
pub record Events : Type 0 where
  pub periodic : Bool
  pub negotiation : Bool

-- Where the loop stands: at `while (!Stop)`, at the wait, at `recv`, and behind the loop with the socket
-- closed.
pub data Place : Type 0 where
  head waiting receiving closed : Place

-- `incoming` is what `recv` will give, one call after the other: it blocks while there is nothing.
-- `outputs` is what the client and the streamer have been given so far.
pub record System : Type 0 where
  pub events : Events
  pub incoming : List Received
  pub place : Place
  pub server : Server
  pub outputs : List Output

-- `do_something`, which the timer calls once a second.
abbrev pub do_something : System → System
do_something y = record y { events = record y.events { periodic = true } }

-- A round of `thread_function02` in which `select` reports the socket: it and `SetEvent` are one step.
abbrev pub watch : System → System
watch y = record y { events = record y.events { negotiation = true } }

abbrev pub test_stop : System → System
test_stop y = record y { place = if y.server.stop then closed else waiting }

-- `switch (index)`: the second event is reset once more and the socket is read, the first one is the
-- periodic check.
unfoldable pub dispatch : ℕ → System → Option System
dispatch zero y = elim (step tick y.server) [
  | ok r ↦ some (record y { place = head; server = r.0; outputs = y.outputs ++ r.1 })
  | _ ↦ none
]
dispatch (suc zero) y =
    some (record y { place = receiving; events = record y.events { negotiation = false } })
dispatch (suc (suc n)) y = some (record y { place = head })

-- The wait gives the index of an event, with the events as it leaves them, or does not return yet.
abbrev pub Wait : Type 0
Wait = Events → Option (ℕ × Events)

-- Every step of one of the threads, and what the client sends.
pub data Step (wait : Wait) (y : System) : System → Type 0 where
  timer : Step wait y (do_something y)
  select : (r : Received) (rest : List Received) → y.incoming ≡ r ∷ rest → Step wait y (watch y)
  arrive : (r : Received) → Step wait y (record y { incoming = y.incoming ++ r ∷ [] })
  test : y.place ≡ head → Step wait y (test_stop y)
  woken :
      (index : ℕ) (events : Events) (z : System)
      → y.place ≡ waiting
      → wait y.events ≡ some (index, events)
      → dispatch index (record y { events = events }) ≡ some z
      → Step wait y z
  recv :
      (env : Environment) (r : Received) (rest : List Received) (server : Server)
      (outputs : List Output)
      → y.place ≡ receiving
      → y.incoming ≡ r ∷ rest
      → step (readable env r) y.server ≡ ok (server, outputs)
      → Step wait y (record y {
        incoming = rest;
        place = head;
        server = server;
        outputs = y.outputs ++ outputs;
      })

pub data Reach (wait : Wait) (y : System) : System → Type 0 where
  here : Reach wait y y
  next : {u v : System} → Reach wait y u → Step wait u v → Reach wait y v
