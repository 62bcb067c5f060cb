-- ===== src/TcpServer/Threads/Extend.antt =====
-- One more event behind a run of the loop.
use mathlib.Core.List.{append_assoc, append-nil}
use payloader.Base.{
  ap, sym, ◌∙◌, ◌≡◌, inl, inr, List, [], ◌∷◌, ◌++◌, true, false, ok, bind-eq-ok, Bool-cases,
}
use payloader.TcpServer.{Event, Server, Output, step, run}
use payloader.TcpServer.Phases.{run-rounds}

pub ok_inj : {r q : Server × List Output} → ok r ≡ ok q → r ≡ q
ok_inj e = cc

-- One more event behind a run that has not ended the loop.
pub run-extend :
    (es : List Event) (e : Event) (s t u : Server) (first more : List Output)
    → run es s ≡ ok (t, first)
    → t.stop ≡ false
    → step e t ≡ ok (u, more)
    → run (es ++ e ∷ []) s ≡ ok (u, first ++ more)
unfolding run
run-extend [] e s t u first more h going st =
    let same : s ≡ t = cc in
    let none_yet : first ≡ [] = cc in
    let still : s.stop ≡ false = rw (same) going in
    let round : step e s ≡ ok (u, more) = rw (same) st in
    run-rounds e [] s still
    ∙ rw (round) (
        ap (λ (o : List Output). ok (u, o))
          (append-nil more ∙ ap (λ (o : List Output). o ++ more) (sym none_yet)))
run-extend (d ∷ es) e s t u first more h going st = elim (Bool-cases (s.stop)) [
  | inl ended ↦
      let stops : run (d ∷ es) s ≡ ok (s, []) = rw (run, ended) in
      let same : s ≡ t = ap (λ (r : Server × List Output). r.0) (ok_inj (sym stops ∙ h)) in
      let wrong : t.stop ≡ true = rw (← same) ended in cc
  | inr still ↦
      let (r, one, rest) = bind-eq-ok (step d s) _ (sym (run-rounds d es s still) ∙ h) in
      let (q, later, last) = bind-eq-ok (run es r.0) _ rest in
      let end : q.0 ≡ t = ap (λ (p : Server × List Output). p.0) (ok_inj last) in
      let outs : r.1 ++ q.1 ≡ first = ap (λ (p : Server × List Output). p.1) (ok_inj last) in
      let extended : run (es ++ e ∷ []) r.0 ≡ ok (u, q.1 ++ more) =
        run-extend es e r.0 q.0 u q.1 more later (ap (λ (v : Server). v.stop) end ∙ going)
          (ap (step e) end ∙ st) in
      run-rounds d (es ++ e ∷ []) s still
      ∙ rw (one) (
          rw (extended) (
            ap (λ (o : List Output). ok (u, o))
              (sym (append_assoc r.1 q.1 more) ∙ ap (λ (o : List Output). o ++ more) outs)))
]
