-- ===== src/TcpServer/Accept.antt =====
-- `TcpServer::start_accept` of src/libs/TcpServer.cpp: clients are accepted for ever, and each gets a
-- thread. The thread is given the address of the local variable `ClientSocket`, which it reads when it
-- starts, while the loop goes on and writes it again.
pub mod Prompt
pub mod Race
use payloader.Base.{
  ◌≡◌, ℤ, pos, List, [], ◌∷◌, ◌++◌, Bool, true, false, Option, none, some, if◌then◌else◌,
}
use payloader.Ffmpeg.{is_zero}

-- `puerto` is a member of the server, which the constructor leaves as the memory has it.
pub record TcpServer : Type 0 where
  pub puerto : ℤ

abbrev pub toma_puerto : ℤ → TcpServer → TcpServer
toma_puerto puerto s = record s { puerto = puerto }

abbrev pub getter_data : TcpServer → ℤ
getter_data s = s.puerto

-- `client_socket` is the local variable, `creating` says that the loop stands between `accept` and
-- `pthread_create`, and `accepted` is the sequence of descriptors so far. A thread is `none` before it
-- has read the variable, and then has the descriptor that it serves.
pub record Acceptor : Type 0 where
  pub client_socket : ℤ
  pub creating : Bool
  pub accepted : List ℤ
  pub threads : List (Option ℤ)

-- Before the loop; `none` where `bind` or `listen` fails and the function returns. The result of
-- `socket` is not tested.
unfoldable pub start_accept : (garbage bound listening : ℤ) → Option Acceptor
start_accept garbage bound listening =
    if is_zero bound
    then (if is_zero listening
        then some
            (record { client_socket = garbage; creating = false; accepted = []; threads = [] })
        else none)
    else none

-- The steps of the loop, and the read of a thread that starts. Neither the result of `accept` nor that of
-- `pthread_create` is tested.
pub data Step (a : Acceptor) : Acceptor → Type 0 where
  accept :
      (fd : ℤ)
      → a.creating ≡ false
      → Step a (record a { client_socket = fd; creating = true; accepted = a.accepted ++ fd ∷ [] })
  create :
      a.creating ≡ true → Step a (record a { creating = false; threads = a.threads ++ none ∷ [] })
  create_fails : a.creating ≡ true → Step a (record a { creating = false })
  read :
      (before behind : List (Option ℤ))
      → a.threads ≡ before ++ none ∷ behind
      → Step a (record a { threads = before ++ some a.client_socket ∷ behind })

pub data Reach (a : Acceptor) : Acceptor → Type 0 where
  here : Reach a a
  next : {b c : Acceptor} → Reach a b → Step b c → Reach a c
