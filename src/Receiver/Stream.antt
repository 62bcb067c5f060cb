-- ===== src/Receiver/Stream.antt =====
-- Which datagrams reach the sink, and with which bytes.
use payloader.Base.{
  lt→ltb, ◌<◌, ◌≤◌, ◌≡◌, refl, ap, ◌∙◌, List, [], ◌∷◌, ◌++◌, Bool, true, false, ltb, ◌&&◌,
  if◌then◌else◌, length, take, drop, take_all, take-append, Bytes, Bool-cases, inl, inr,
}
use payloader.Interfaces.{RtpCall, payloads}
use payloader.Receiver.{Receiver, Completion, filled, handle_receive, run}

-- The datagrams before the first empty one.
abbrev pub before_empty : List Completion → List Bytes
before_empty [] = []
before_empty (c ∷ cs) = if ltb 0 (length c.datagram) then c.datagram ∷ before_empty cs else []

-- The datagrams fit the part of the buffer that is offered to the socket.
abbrev pub Fit : List Completion → Type 0
Fit [] = Unit
Fit (c ∷ cs) = (length c.datagram ≤ 1500) × Fit cs

pub filled_front :
    (buffer bytes : Bytes)
    → length bytes ≤ 1500
    → filled buffer bytes ≡ bytes ++ drop (length bytes) buffer
unfolding filled
filled_front buffer bytes h = rw (take_all 1500 bytes h)

-- One completion with the sink set: its datagram goes to the sink, unless it is empty.
handle-payload :
    (c : Completion) (r : Receiver)
    → r.sink ≡ true
    → length c.datagram ≤ 1500
    → payloads (handle_receive c r).1 ≡ (if ltb 0 (length c.datagram) then c.datagram ∷ [] else [])
unfolding handle_receive
handle-payload c r s h =
    rw (s, take_all 1500 c.datagram h)
      elim (Bool-cases (ltb 0 (length c.datagram))) [
        | inl full ↦ rw (full, take-append c.datagram (drop (length c.datagram) r.buffer)) refl
        | inr none ↦ rw (none) refl
      ]

handle-sink : (c : Completion) (r : Receiver) → (handle_receive c r).0.sink ≡ r.sink
unfolding handle_receive
handle-sink c r = elim (Bool-cases (ltb 0 (length (take 1500 c.datagram)) && r.sink)) [
  | inl go ↦ rw (go) refl
  | inr stop ↦ rw (stop) refl
]

handle-pending :
    (c : Completion) (r : Receiver)
    → r.sink ≡ true
    → length c.datagram ≤ 1500
    → (handle_receive c r).0.pending ≡ ltb 0 (length c.datagram)
unfolding handle_receive
handle-pending c r s h =
    rw (s, take_all 1500 c.datagram h)
      elim (Bool-cases (ltb 0 (length c.datagram))) [
        | inl full ↦ rw (full) refl
        | inr none ↦ rw (none) refl
      ]

payloads-append : (xs ys : List RtpCall) → payloads (xs ++ ys) ≡ payloads xs ++ payloads ys
payloads-append [] ys = refl
payloads-append (x ∷ xs) ys = ap (λ zs. take x.buff_size x.in_buff ∷ zs) (payloads-append xs ys)

if_true {ℓ} : {A : Type ℓ} → {x : A} → (y : A) → {b : Bool} → b ≡ true → (if b then x else y) ≡ x
if_true y h = rw (h) refl

-- No completion is handled while no receive is pending.
run-idle : (cs : List Completion) (r : Receiver) → r.pending ≡ false → run cs r ≡ (r, [])
unfolding run
run-idle [] r h = refl
run-idle (c ∷ cs) r h = rw (h) refl

-- A completion that is handled, and those behind it.
pub run-append :
    (c : Completion) (cs : List Completion) (r : Receiver)
    → r.pending ≡ true
    → (run (c ∷ cs) r).1 ≡ (handle_receive c r).1 ++ (run cs (handle_receive c r).0).1
unfolding run
run-append c cs r h =
    let all : List RtpCall = (handle_receive c r).1 ++ (run cs (handle_receive c r).0).1 in
    let chosen : run (c ∷ cs) r ≡ ((run cs (handle_receive c r).0).0, all) = if_true _ h in
    ap (λ x. x.1) chosen

-- The call that a full datagram makes, and the state behind it.
pub handle_receive-full :
    (c : Completion) (r : Receiver)
    → r.sink ≡ true
    → length c.datagram ≤ 1500
    → 0 < length c.datagram
    → ((handle_receive c r).1
        ≡ record {
          in_buff = c.datagram ++ drop (length c.datagram) r.buffer;
          buff_size = length c.datagram;
        }
          ∷ [])
      × ((handle_receive c r).0.buffer ≡ c.datagram ++ drop (length c.datagram) r.buffer)
      × ((handle_receive c r).0.pending ≡ true)
      × ((handle_receive c r).0.sink ≡ true)
unfolding handle_receive
handle_receive-full c r s h full =
    let some_bytes : ltb 0 (length c.datagram) ≡ true = lt→ltb 0 (length c.datagram) full in
    (
      rw (s, take_all 1500 c.datagram h, some_bytes),
      rw (s, take_all 1500 c.datagram h, some_bytes),
      rw (s, take_all 1500 c.datagram h, some_bytes),
      handle-sink c r ∙ s,
    )

run-payloads :
    (c : Completion) (cs : List Completion) (r : Receiver)
    → r.pending ≡ true
    → payloads (run (c ∷ cs) r).1
      ≡ payloads (handle_receive c r).1 ++ payloads (run cs (handle_receive c r).0).1
unfolding run
run-payloads c cs r h =
    let all : List RtpCall = (handle_receive c r).1 ++ (run cs (handle_receive c r).0).1 in
    let chosen : run (c ∷ cs) r ≡ ((run cs (handle_receive c r).0).0, all) = if_true _ h in
    ap (λ x. payloads x.1) chosen
    ∙ payloads-append (handle_receive c r).1 (run cs (handle_receive c r).0).1

-- A receiver with a sink and a receive under way, with datagrams of at most 1500 bytes, hands
-- over the datagrams up to the first empty one, in their order and unchanged, and none after
-- it.
pub run-before_empty :
    (cs : List Completion) (r : Receiver)
    → r.sink ≡ true
    → r.pending ≡ true
    → Fit cs
    → payloads (run cs r).1 ≡ before_empty cs
unfolding run
run-before_empty [] r s h fit = refl
run-before_empty (c ∷ cs) r s h (f, fit) =
    let next : Receiver = (handle_receive c r).0 in
    let same : next.sink ≡ true = handle-sink c r ∙ s in
    run-payloads c cs r h
    ∙ rw (handle-payload c r s f) (elim (Bool-cases (ltb 0 (length c.datagram))) [
      | inl full ↦
          let later : payloads (run cs next).1 ≡ before_empty cs =
            run-before_empty cs next same (handle-pending c r s f ∙ full) fit in
          let longer : c.datagram ∷ payloads (run cs next).1 ≡ c.datagram ∷ before_empty cs =
            ap (λ ds. c.datagram ∷ ds) later in
          rw (full) longer
      | inr none ↦
          let idle : run cs next ≡ (next, []) = run-idle cs next (handle-pending c r s f ∙ none) in
          let same_payloads : payloads (run cs next).1 ≡ [] = ap (λ x. payloads x.1) idle in
          rw (none) same_payloads
    ])
