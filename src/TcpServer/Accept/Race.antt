-- ===== src/TcpServer/Accept/Race.antt =====
-- Two clients that come before a thread has started.
use mathlib.Core.List.{append_assoc}
use mathlib.Core.Path.{subst}
use payloader.Base.{ap, sym, ◌∙◌, ◌≡◌, refl, ℤ, List, [], ◌∷◌, ◌++◌, false, Option, none, some}
use payloader.TcpServer.Accept.{
  Acceptor, start_accept, Step, accept, create, create_fails, read, Reach, here, next,
}
use payloader.TcpServer.Accept.Prompt.{serving, started, start_accept-started}

-- The first threads serve `fds`.
abbrev Serve : List ℤ → Acceptor → Type 0
Serve fds a = (rest : List (Option ℤ)) × (a.threads ≡ serving fds ++ rest)

-- A thread that is starting stands behind those that serve.
starts_behind :
    (fds : List ℤ) (rest before behind : List (Option ℤ)) (t : Option ℤ)
    → serving fds ++ rest ≡ before ++ none ∷ behind
    → (rest' : List (Option ℤ)) × (before ++ t ∷ behind ≡ serving fds ++ rest')
starts_behind [] rest before behind t h = (before ++ t ∷ behind, refl)
starts_behind (fd ∷ fds) rest [] behind t h = cc
starts_behind (fd ∷ fds) rest (u ∷ before) behind t h =
    let same : serving fds ++ rest ≡ before ++ none ∷ behind = cc in
    let first : u ≡ some fd = cc in
    let (rest', e) = starts_behind fds rest before behind t same in (rest', cc)

Step-Serve : (fds : List ℤ) (a b : Acceptor) → Step a b → Serve fds a → Serve fds b
Step-Serve fds a b (accept fd p) k = k
Step-Serve fds a b (create p) (rest, e) = (
  rest ++ none ∷ [],
  ap (λ (ts : List (Option ℤ)). ts ++ none ∷ []) e ∙ append_assoc (serving fds) rest (none ∷ []),
)
Step-Serve fds a b (create_fails p) k = k
Step-Serve fds a b (read before behind p) (rest, e) =
    starts_behind fds rest before behind (some a.client_socket) (sym e ∙ p)

-- A thread never gets another client.
pub Reach-Serve : {a b : Acceptor} (fds : List ℤ) → Reach a b → Serve fds a → Serve fds b
Reach-Serve fds here k = k
Reach-Serve fds (next {b} {c} r st) k = Step-Serve fds b c st (Reach-Serve fds r k)

-- If two clients come before the thread of the first has started, both threads can get the second one:
-- where `bind` and `listen` succeed, there is a run in which the descriptors `first` and `second` are
-- accepted and both threads serve `second`. In every run from there the two go on to do so.
pub Reach-both :
    (garbage bound listening first second : ℤ) (a : Acceptor)
    → start_accept garbage bound listening ≡ some a
    → (b : Acceptor) × Reach a b
      × (b.accepted ≡ first ∷ second ∷ [])
      × (b.threads ≡ serving (second ∷ second ∷ []))
      × ((c : Acceptor)
          → Reach b c
          → (rest : List (Option ℤ)) × (c.threads ≡ some second ∷ some second ∷ rest))
Reach-both garbage bound listening first second a start =
    let b : Acceptor = record {
      client_socket = second;
      creating = false;
      accepted = first ∷ second ∷ [];
      threads = some second ∷ some second ∷ [];
    } in
    let one : Reach (started garbage) (record {
      client_socket = first;
      creating = false;
      accepted = first ∷ [];
      threads = none ∷ [];
    }) =
      next (next here (accept first refl)) (create refl) in
    let two : Reach (started garbage) (record {
      client_socket = second;
      creating = false;
      accepted = first ∷ second ∷ [];
      threads = none ∷ none ∷ [];
    }) =
      next (next one (accept second refl)) (create refl) in
    let run : Reach (started garbage) b =
      next (next two (read [] (none ∷ []) refl)) (read (some second ∷ []) [] refl) in
    (
      b,
      subst (λ (x : Acceptor). Reach x b)
          (sym (start_accept-started garbage bound listening a start)) run,
      refl,
      refl,
      λ c later. Reach-Serve (second ∷ second ∷ []) later ([], refl),
    )
