-- ===== src/TcpServer/Accept/Prompt.antt =====
-- Clients that come one after the other: each thread has read the variable before the next is accepted.
use mathlib.Core.List.{map-append}
use mathlib.Core.Path.{subst}
use payloader.Base.{
  ap, sym, ◌∙◌, ◌≡◌, refl, ℤ, List, [], ◌∷◌, ◌++◌, map, true, false, Option, none, some, Bool-cases,
  inl, inr,
}
use payloader.Ffmpeg.{is_zero}
use payloader.TcpServer.Accept.{
  Acceptor, start_accept, Step, accept, create, create_fails, read, Reach, here, next,
}

-- Every thread has read the variable.
abbrev pub AllServing : List (Option ℤ) → Type 0
AllServing [] = Unit
AllServing (none ∷ ts) = ⊥
AllServing (some fd ∷ ts) = AllServing ts

-- A client is accepted when no thread is still starting, and every thread is created.
abbrev pub IsPromptStep : {a b : Acceptor} → Step a b → Type 0
IsPromptStep {a} (accept fd p) = AllServing a.threads
IsPromptStep (create p) = Unit
IsPromptStep (create_fails p) = ⊥
IsPromptStep (read before behind p) = Unit

abbrev pub IsPrompt : {a b : Acceptor} → Reach a b → Type 0
IsPrompt here = Unit
IsPrompt (next r st) = IsPrompt r × IsPromptStep st

abbrev pub serving : List ℤ → List (Option ℤ)
serving fds = map some fds

-- The clients in `done` are served, each by its thread, and of one more client perhaps the thread has
-- not been created or has not started.
pub data Orderly (a : Acceptor) : Type 0 where
  settled : a.creating ≡ false → a.threads ≡ serving a.accepted → Orderly a
  accepted :
      (done : List ℤ)
      → a.creating ≡ true
      → a.accepted ≡ done ++ a.client_socket ∷ []
      → a.threads ≡ serving done
      → Orderly a
  starting :
      (done : List ℤ)
      → a.creating ≡ false
      → a.accepted ≡ done ++ a.client_socket ∷ []
      → a.threads ≡ serving done ++ none ∷ []
      → Orderly a

none_starting :
    (fds : List ℤ) (before behind : List (Option ℤ)) → serving fds ≡ before ++ none ∷ behind → ⊥
none_starting [] [] behind h = cc
none_starting [] (t ∷ before) behind h = cc
none_starting (fd ∷ fds) [] behind h = cc
none_starting (fd ∷ fds) (t ∷ before) behind h =
    let rest : serving fds ≡ before ++ none ∷ behind = cc in none_starting fds before behind rest

-- The one thread that is starting is the last.
last_starting :
    (fds : List ℤ) (before behind : List (Option ℤ))
    → serving fds ++ none ∷ [] ≡ before ++ none ∷ behind
    → (before ≡ serving fds) × (behind ≡ [])
last_starting [] [] behind h = (refl, cc)
last_starting [] (t ∷ []) behind h = cc
last_starting [] (t ∷ u ∷ before) behind h = cc
last_starting (fd ∷ fds) [] behind h = cc
last_starting (fd ∷ fds) (t ∷ before) behind h =
    let rest : serving fds ++ none ∷ [] ≡ before ++ none ∷ behind = cc in
    let first : t ≡ some fd = cc in
    let (front, nothing) = last_starting fds before behind rest in (cc, nothing)

not_serving : (fds : List ℤ) → AllServing (serving fds ++ none ∷ []) → ⊥
not_serving [] k = k
not_serving (fd ∷ fds) k = not_serving fds k

Step-Orderly : (a b : Acceptor) (st : Step a b) → IsPromptStep st → Orderly a → Orderly b
Step-Orderly a b (accept fd p) k (settled q same) = accepted a.accepted refl refl same
Step-Orderly a b (accept fd p) k (accepted done q list same) = cc
Step-Orderly a b (accept fd p) k (starting done q list same) =
    absurd (not_serving done (subst AllServing same k))
Step-Orderly a b (create p) k (settled q same) = cc
Step-Orderly a b (create p) k (accepted done q list same) =
    starting done refl list (ap (λ (ts : List (Option ℤ)). ts ++ none ∷ []) same)
Step-Orderly a b (create p) k (starting done q list same) = cc
Step-Orderly a b (create_fails p) k o = absurd k
Step-Orderly a b (read before behind p) k (settled q same) =
    absurd (none_starting a.accepted before behind (sym same ∙ p))
Step-Orderly a b (read before behind p) k (accepted done q list same) =
    absurd (none_starting done before behind (sym same ∙ p))
Step-Orderly a b (read before behind p) k (starting done q list same) =
    let (front, nothing) = last_starting done before behind (sym same ∙ p) in
    settled q (
      ap (λ (ts : List (Option ℤ)). ts ++ some a.client_socket ∷ behind) front
      ∙ (ap (λ (ts : List (Option ℤ)). serving done ++ some a.client_socket ∷ ts) nothing
          ∙ (sym (map-append some done (a.client_socket ∷ [])) ∙ ap serving (sym list))))

Reach-Orderly : {a b : Acceptor} (r : Reach a b) → IsPrompt r → Orderly a → Orderly b
Reach-Orderly here k o = o
Reach-Orderly (next {b} {c} r st) (k, one) o = Step-Orderly b c st one (Reach-Orderly r k o)

AllServing-settled :
    (b : Acceptor)
    → b.creating ≡ false
    → AllServing b.threads
    → Orderly b
    → b.threads ≡ serving b.accepted
AllServing-settled b idle k (settled q same) = same
AllServing-settled b idle k (accepted done q list same) = cc
AllServing-settled b idle k (starting done q list same) =
    absurd (not_serving done (subst AllServing same k))

-- The loop before the first client.
abbrev pub started : ℤ → Acceptor
started garbage = record { client_socket = garbage; creating = false; accepted = []; threads = [] }

pub start_accept-started :
    (garbage bound listening : ℤ) (a : Acceptor)
    → start_accept garbage bound listening ≡ some a
    → a ≡ started garbage
unfolding start_accept
start_accept-started garbage bound listening a h = elim (Bool-cases (is_zero bound)) [
  | inr failed ↦
      let none_made : start_accept garbage bound listening ≡ none = rw (start_accept, failed) in cc
  | inl bound_ok ↦ elim (Bool-cases (is_zero listening)) [
    | inl listens ↦
        let made : start_accept garbage bound listening ≡ some (started garbage) =
          rw (start_accept, bound_ok, listens) in
        cc
    | inr failed ↦
        let none_made : start_accept garbage bound listening ≡ none =
          rw (start_accept, bound_ok, failed) in
        cc
  ]
]

-- If `bind` and `listen` succeed, and in a run from there each thread is created and has read the
-- variable before the next client is accepted: whenever no thread is starting or still to be created, the threads serve the
-- accepted clients, each exactly one, in order.
pub Reach-serving :
    (garbage bound listening : ℤ) {a b : Acceptor} (r : Reach a b)
    → start_accept garbage bound listening ≡ some a
    → IsPrompt r
    → b.creating ≡ false
    → AllServing b.threads
    → b.threads ≡ serving b.accepted
Reach-serving garbage bound listening {a} {b} r start prompt idle all =
    let fresh = start_accept-started garbage bound listening a start in
    AllServing-settled b idle all
      (Reach-Orderly r prompt (subst Orderly (sym fresh) (settled refl refl)))
