-- ===== src/Unpackager/Arrivals.antt =====
-- Arrivals one behind the other at the unpackager.
use mathlib.Core.List.{append_assoc}
use payloader.Base.{ap, sym, ◌∙◌, ℕ, ◌≡◌, refl, List, [], ◌∷◌, ◌++◌, Bytes, ok, bind-eq-ok}
use payloader.Interfaces.{RtpCall, Delivery}
use payloader.Unpackager.{Unpackager, receive_all, receive_rtp_packet}
use payloader.Unpackager.Frame.{Arrive}

abbrev pub Arrivals : Type 0
Arrivals = List (Bytes × ℕ)

pub Arrive-append :
    (cs ds : List RtpCall) (arrivals : Arrivals)
    → Arrive (cs ++ ds) arrivals
    → (front : Arrivals) × (behind : Arrivals) × (arrivals ≡ front ++ behind)
      × Arrive cs front
      × Arrive ds behind
Arrive-append [] ds arrivals arrive = ([], arrivals, refl, tt, arrive)
Arrive-append (c ∷ cs) ds [] arrive = absurd arrive
Arrive-append (c ∷ cs) ds (a ∷ arrivals) (one, arrive) =
    let (front, behind, same, first, later) = Arrive-append cs ds arrivals arrive in
    (a ∷ front, behind, ap (λ (t : Arrivals). a ∷ t) same, (one, first), later)

pub receive_all-append :
    (front behind : Arrivals) (u v w : Unpackager) (first later : List Delivery)
    → receive_all front u ≡ ok (v, first)
    → receive_all behind v ≡ ok (w, later)
    → receive_all (front ++ behind) u ≡ ok (w, first ++ later)
unfolding receive_all
receive_all-append [] behind u v w first later e h =
    let same : u ≡ v = cc in let none : first ≡ [] = cc in rw (same, none) h
receive_all-append ((b, n) ∷ front) behind u v w first later e h =
    let (one, received, e1) = bind-eq-ok (receive_rtp_packet b n u) _ e in
    let (two, rest, e2) = bind-eq-ok (receive_all front one.0) _ e1 in
    let same : two.0 ≡ v = cc in
    let all : one.1 ++ two.1 ≡ first = cc in
    let tail = receive_all-append front behind one.0 two.0 w two.1 later rest (rw (same) h) in
    let joined : one.1 ++ (two.1 ++ later) ≡ first ++ later =
      sym (append_assoc one.1 two.1 later) ∙ ap (λ (ds : List Delivery). ds ++ later) all in
    rw (received) (rw (tail) (ap (λ (ds : List Delivery). ok (w, ds)) joined))

pub receive_all-nothing : (u : Unpackager) → receive_all [] u ≡ ok (u, [])
unfolding receive_all
receive_all-nothing u = refl
