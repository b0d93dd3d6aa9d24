-- ===== src/Protocols/Openvpn/Returns.antt =====
-- The machines of an OpenVPN stream end, whatever packets its parse function finds.
use open_gfw_for_frp_integra.Prelude.{
  Bool-cases, length, get_elem?, get_elem?-some, Outcome, ok, panic, stuck, ◌>>=◌, Outcome-ok, ℕ,
  ◌+◌, ◌-◌, ◌<◌, ◌≡◌, refl, ◌≢◌, inl, inr, Bool, true, false, Option, none, some, arith,
}
use open_gfw_for_frp_integra.Analyzer.{PropUpdateType}
use open_gfw_for_frp_integra.Utils.Lsm.{
  LsmAction, pause, next, restart, cancel, Lsm, RunResult, Stepped, run,
}
use open_gfw_for_frp_integra.Utils.Lsm.Run.{
  Falls, Shrinks, run-ne-stuck, IsSafe, run-ne-panic, Preserves, run-Preserves,
}
use open_gfw_for_frp_integra.Protocols.Openvpn.{
  is_client_reset, OpenvpnPkt, Parsed, Step, ctl_hard_reset_client, ctl_hard_reset_server,
  parse_req, parse_resp, OpenvpnState, OpenvpnStream, Fed, with_pkt, client_reset_body,
  server_reset_body, req_body, resp_body, finish_resp, finish_req, run_fuel, exec, run_resp,
  run_req,
}

-- A parse function returned, with a packet wherever the step goes on, and no restart.
abbrev pub IsParsed : {P : Type 0} → Outcome (Parsed P) → Type 0
IsParsed panic = ⊥
IsParsed stuck = ⊥
IsParsed (ok p) = (p.action ≡ next → p.pkt ≢ none) × (p.action ≢ restart)

pub record HasTwoSteps {P : Type 0} (o : OpenvpnStream P) : Type 0 where
  pub req_steps : length (o.req_lsm.steps) ≡ 2
  pub resp_steps : length (o.resp_lsm.steps) ≡ 2

module _ {P : Type 0} (parse : Bool → P → Outcome (Parsed P))
    (parsed : (rev : Bool) (s : P) → IsParsed (parse rev s)) where
  -- A step returned, left its machine as it was, and does not restart it.
  abbrev Keeps : Lsm Step → Outcome (Stepped Step (OpenvpnState P)) → Type 0
  Keeps m (ok r) = (r.machine ≡ m) × (r.action ≢ restart)
  Keeps m panic = ⊥
  Keeps m stuck = ⊥

  with_pkt-Keeps :
      (x : Outcome (Parsed P)) (body : OpenvpnPkt → OpenvpnState P → LsmAction × OpenvpnState P)
      (m : Lsm Step) (s : OpenvpnState P)
      → ((k : OpenvpnPkt) (t : OpenvpnState P) → (body k t).0 ≢ restart)
      → IsParsed x
      → Keeps m (x >>= λ r. with_pkt r body m s)
  unfolding with_pkt
  with_pkt-Keeps (ok r) body m s g h = by_action r.action r.pkt refl refl
    where
      by_action :
          (a : LsmAction) (o : Option OpenvpnPkt)
          → r.action ≡ a
          → r.pkt ≡ o
          → Keeps m (with_pkt r body m s)
      by_action pause o e q = rw (e, with_pkt) (refl, λ k. cc)
      by_action cancel o e q = rw (e, with_pkt) (refl, λ k. cc)
      by_action restart o e q = absurd (h.1 e)
      by_action next none e q = absurd (h.0 e q)
      by_action next (some k) e q = rw (e, with_pkt) (rw (q, with_pkt) (refl, g k _))
  with_pkt-Keeps panic body m s g h = h
  with_pkt-Keeps stuck body m s g h = h

  client_reset_body-ne : (k : OpenvpnPkt) (t : OpenvpnState P) → (client_reset_body k t).0 ≢ restart
  unfolding client_reset_body
  client_reset_body-ne k t = ground arith

  server_reset_body-ne : (k : OpenvpnPkt) (t : OpenvpnState P) → (server_reset_body k t).0 ≢ restart
  unfolding server_reset_body
  server_reset_body-ne k t = ground arith

  req_body-ne : (k : OpenvpnPkt) (t : OpenvpnState P) → (req_body k t).0 ≢ restart
  unfolding req_body
  req_body-ne k t = ground arith

  resp_body-ne : (k : OpenvpnPkt) (t : OpenvpnState P) → (resp_body k t).0 ≢ restart
  unfolding resp_body
  resp_body-ne k t = ground arith

  exec-Keeps : (t : Step) (m : Lsm Step) (s : OpenvpnState P) → Keeps m (exec parse t m s)
  unfolding exec
  exec-Keeps ctl_hard_reset_client m s =
      with_pkt-Keeps (parse false s.source) client_reset_body m s client_reset_body-ne
        (parsed false _)
  exec-Keeps ctl_hard_reset_server m s = elim (Bool-cases (is_client_reset s.last_opcode)) [
    | inl e ↦ rw e (
        with_pkt-Keeps (parse true s.source) server_reset_body m s server_reset_body-ne
          (parsed true _))
    | inr e ↦ rw e (refl, λ k. cc)
  ]
  exec-Keeps parse_req m s =
      with_pkt-Keeps (parse false s.source) req_body m s req_body-ne (parsed false _)
  exec-Keeps parse_resp m s =
      with_pkt-Keeps (parse true s.source) resp_body m s resp_body-ne (parsed true _)

  exec_returns :
      (t : Step) (m : Lsm Step) (s : OpenvpnState P)
      → (exec parse t m s ≢ panic)
        × (exec parse t m s ≢ stuck)
        × ((r : Stepped Step (OpenvpnState P))
            → exec parse t m s ≡ ok r
            → (r.machine ≡ m) × (r.action ≢ restart))
  exec_returns t m s = by_outcome (exec parse t m s) (exec-Keeps t m s)
    where
      by_outcome :
          (x : Outcome (Stepped Step (OpenvpnState P)))
          → Keeps m x
          → (x ≢ panic)
            × (x ≢ stuck)
            × ((r : Stepped Step (OpenvpnState P))
                → x ≡ ok r
                → (r.machine ≡ m) × (r.action ≢ restart))
      by_outcome (ok q) h = (λ e. cc, λ e. cc, λ r e. ground arith)
      by_outcome panic h = absurd h
      by_outcome stuck h = absurd h

  abbrev TwoSteps : Lsm Step → OpenvpnState P → Type 0
  TwoSteps m s = length m.steps ≡ 2

  abbrev steps_left : Lsm Step → OpenvpnState P → ℕ
  steps_left m s = 2 - m.index

  keeps_two :
      (t : Step) (m : Lsm Step) (s : OpenvpnState P) (r : Stepped Step (OpenvpnState P))
      → get_elem? m.steps m.index ≡ some t
      → TwoSteps m s
      → exec parse t m s ≡ ok r
      → TwoSteps (record (r.machine) { index = r.machine.index + 1 }) r.state
        × TwoSteps (record (r.machine) { index = 0 }) r.state
  keeps_two t m s r i g e = let (same, _) = (exec_returns t m s).2 r e in rw same (g, g)

  steps_fall :
      (m : Lsm Step) (s : OpenvpnState P) (a : LsmAction) (m' : Lsm Step)
      → m' ≡ m
      → a ≢ restart
      → m.index < 2
      → Falls (exec parse) steps_left (steps_left m s) a m' s
  steps_fall m s pause m' e h l = tt
  steps_fall m s cancel m' e h l = tt
  steps_fall m s next m' e h l = rw e (omega arith)
  steps_fall m s restart m' e h l = absurd (h refl)

  shrinks : Shrinks (exec parse) TwoSteps steps_left
  shrinks = record {
    ends = λ t m s i g. (exec_returns t m s).1;
    falls = λ t m s r i g e.
        let (same, no_restart) = (exec_returns t m s).2 r e in
        steps_fall m r.state r.action r.machine same no_restart
          (omega (arith, get_elem?-some m.steps m.index i, g));
    keeps = keeps_two;
  }

  is_safe : IsSafe (exec parse) TwoSteps
  is_safe = record { no_panic = λ t m s i g. (exec_returns t m s).0; keeps = keeps_two }

  preserves : Preserves (exec parse) TwoSteps
  preserves = record {
    kept = λ t m s r g e. rw ((exec_returns t m s).2 r e).0 g;
    moved = λ m s i c g. g;
  }

  run_returns :
      (m : Lsm Step) (s : OpenvpnState P)
      → length m.steps ≡ 2
      → (r : RunResult Step (OpenvpnState P)) × (run (exec parse) run_fuel m s ≡ ok r)
        × (length (r.machine.steps) ≡ 2)
  run_returns m s h =
      let (r, e) =
        Outcome-ok (run (exec parse) run_fuel m s)
          (run-ne-panic (exec parse) is_safe run_fuel m s h)
          (run-ne-stuck (exec parse) shrinks run_fuel m s h (omega arith)) in
      (r, e, run-Preserves (exec parse) preserves run_fuel m s r h e)

  pub run_resp_returns :
      (type : PropUpdateType) (o : OpenvpnStream P)
      → HasTwoSteps o
      → (r : Fed (OpenvpnStream P)) × (run_resp parse type o ≡ ok r) × HasTwoSteps r.stream
  unfolding run_resp
  run_resp_returns type o w =
      let (r, e, two) =
        run_returns o.resp_lsm (record (o.state) { resp_updated = false }) w.resp_steps in
      (finish_resp type o r, rw (e, run_resp), record { req_steps = w.req_steps; resp_steps = two })

  pub run_req_returns :
      (type : PropUpdateType) (o : OpenvpnStream P)
      → HasTwoSteps o
      → (r : Fed (OpenvpnStream P)) × (run_req parse type o ≡ ok r) × HasTwoSteps r.stream
  unfolding run_req
  run_req_returns type o w =
      let (r, e, two) =
        run_returns o.req_lsm (record (o.state) { req_updated = false }) w.req_steps in
      (finish_req type o r, rw (e, run_req), record { req_steps = two; resp_steps = w.resp_steps })
