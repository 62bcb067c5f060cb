-- ===== src/Pipeline/Transport.antt =====
-- The datagrams of src/libs/Sender.cpp at src/libs/Receiver.cpp, and from there at the unpackager.
use mathlib.Core.Path.{subst}
use payloader.Base.{
  ℕ, ◌+◌, ◌≤◌, ◌≡◌, refl, sym, arith, ap, ◌∙◌, List, [], ◌∷◌, ◌++◌, u32, true, false, length, take,
  drop, length-append, length-take, length-drop, take-append, Bytes,
}
use payloader.Interfaces.{RtpCall, payloads}
use payloader.Sender.Accept.{IsSendable, AllSendable}
use payloader.Receiver.{Receiver, Completion, run, handle_receive}
use payloader.Receiver.Stream.{run-append, handle_receive-full}
use payloader.Unpackager.Step.{Carries}
use payloader.Unpackager.Frame.{Arrive, handed, call-Carries}
use payloader.Rtp.Fragmenter.{Fragment}
use payloader.Rtp.Fragmenter.Tiling.{Tiles}
use payloader.Rtp.Fragmenter.Packet.{is_last, payload_of, length-payload_of}
use payloader.Packager.{rtp_header}
use payloader.Packager.Frame.{Calls}

-- Each call is sent as one datagram, of the bytes that it hands over, and all of them are
-- completed in order.
abbrev pub Transmits : List RtpCall → List Completion → Type 0
Transmits [] [] = Unit
Transmits (c ∷ cs) (d ∷ ds) =
    IsSendable c × (d.datagram ≡ take c.buff_size c.in_buff) × Transmits cs ds
Transmits _ _ = ⊥

datagram-Carries :
    (c : RtpCall) (datagram buffer : Bytes)
    → IsSendable c
    → datagram ≡ take c.buff_size c.in_buff
    → 1500 ≤ length buffer
    → Carries c (datagram ++ drop (length datagram) buffer) (length datagram)
datagram-Carries c datagram buffer k same room =
    let size : length datagram ≡ c.buff_size =
      omega (arith, k.held, ap length same, length-take c.buff_size c.in_buff) in
    let whole = length-append datagram (drop (length datagram) buffer) in
    let rest = length-drop (length datagram) buffer in
    record {
      same_size = size;
      same_bytes =
          take-append datagram (drop (length datagram) buffer) (length datagram) refl ∙ same;
      held = omega (arith, whole);
      room = omega (arith, whole, rest, size, k.fits);
    }

-- A receiver with a sink and a receive under way, whose buffer has 1500 bytes or more, hands its
-- sink every call that was transmitted, in order.
pub run-Arrive :
    (cs : List RtpCall) (ds : List Completion) (r : Receiver)
    → r.sink ≡ true
    → r.pending ≡ true
    → 1500 ≤ length r.buffer
    → Transmits cs ds
    → Arrive cs (handed (run ds r).1)
unfolding run handed
run-Arrive [] [] r s p room t = tt
run-Arrive [] (d ∷ ds) r s p room t = absurd t
run-Arrive (c ∷ cs) [] r s p room t = absurd t
run-Arrive (c ∷ cs) (d ∷ ds) r s p room (k, same, t) =
    let size : length d.datagram ≡ c.buff_size =
      omega (arith, k.held, ap length same, length-take c.buff_size c.in_buff) in
    let (call, buffer, pending, sink) =
      handle_receive-full d r s (omega (arith, size, k.fits)) (omega (arith, size, k.nonempty)) in
    let next = (handle_receive d r).0 in
    let front = d.datagram ++ drop (length d.datagram) r.buffer in
    let long : 1500 ≤ length next.buffer = omega (
      arith,
      ap length buffer,
      length-append d.datagram (drop (length d.datagram) r.buffer),
      length-drop (length d.datagram) r.buffer,
    ) in
    let later = run-Arrive cs ds next sink pending long t in
    let one : RtpCall = record { in_buff = front; buff_size = length d.datagram } in
    let calls : (run (d ∷ ds) r).1 ≡ one ∷ (run ds next).1 =
      run-append d ds r p ∙ ap (λ (first : List RtpCall). first ++ (run ds next).1) call in
    subst (λ (x : List RtpCall). Arrive (c ∷ cs) (handed x)) (sym calls)
      (datagram-Carries c d.datagram r.buffer k same room, later)

-- The network hands over every datagram, in order and unchanged.
abbrev pub completions : List Bytes → List Completion
completions [] = []
completions (d ∷ ds) = record { error = false; datagram = d } ∷ completions ds

pub completions-Transmits :
    (cs : List RtpCall) → AllSendable cs → Transmits cs (completions (payloads cs))
completions-Transmits [] k = tt
completions-Transmits (c ∷ cs) (one, k) = (one, refl, completions-Transmits cs k)

-- The calls of the packager are small enough for a datagram.
pub Calls-AllSendable :
    (garbage timestamp seq pos end : ℕ) (bytes : Bytes) (fs : List Fragment) (cs : List RtpCall)
    → end ≤ length bytes
    → Tiles pos end fs
    → Calls garbage timestamp seq bytes fs cs
    → AllSendable cs × (length cs ≡ length fs)
Calls-AllSendable garbage timestamp seq pos end bytes [] [] enough tiles k = (tt, refl)
Calls-AllSendable garbage timestamp seq pos end bytes (f ∷ fs) (c ∷ cs) enough (one, tiles)
      (call, k) =
    let size = length-payload_of bytes f (omega (arith, one.starts, one.inside)) in
    let carried =
      call-Carries (rtp_header garbage (is_last fs) seq timestamp) (payload_of bytes f) c call in
    let (later, count) =
      Calls-AllSendable garbage timestamp (u32 (seq + 1)) (pos + f.size) end bytes fs cs enough
        tiles k in
    (
      (
        record {
          nonempty = omega (arith, call.sized);
          fits = omega (arith, call.sized, size, one.fits);
          held = carried.held;
        },
        later,
      ),
      omega (arith, count),
    )
Calls-AllSendable garbage timestamp seq pos end bytes [] (c ∷ cs) enough tiles k = absurd k
Calls-AllSendable garbage timestamp seq pos end bytes (f ∷ fs) [] enough tiles k = absurd k
