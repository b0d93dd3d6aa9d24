-- ===== src/Protocols/Dns/Frames.antt =====
-- DNS over TCP: a segment of whole messages is read to its end.
use open_gfw_for_frp_integra.Prelude.{
  length, All, length-append, ok, ℕ, zero, suc, ◌+◌, ◌*◌, ◌/◌, ◌%◌, ◌^◌, ◌≤◌, ◌<◌, ◌≡◌, refl, ap,
  ◌∙◌, Bool, true, false, some, List, [], ◌∷◌, ◌++◌, arith,
}
use open_gfw_for_frp_integra.Analyzer.{PropMap, null, entries, replace}
use open_gfw_for_frp_integra.Utils.Bits.{bit_or-shift, bit_or_comm}
use open_gfw_for_frp_integra.Utils.ByteBuffer.{ByteBuffer, get, append}
use open_gfw_for_frp_integra.Utils.ByteBuffer.Laws.{get-length_append}
use open_gfw_for_frp_integra.Utils.Lsm.{
  next, restart, RunResult, new_lsm, run_loop, round, act, run,
}
use open_gfw_for_frp_integra.Protocols.Duplex.{
  Side, Fed, lift, run_side, update_if, finish, feed_data, feed,
}
use open_gfw_for_frp_integra.Protocols.Dns.{
  Dns, message_map, Decoder, DnsStep, get_req_message_length, get_req_message,
  get_resp_message_length, get_resp_message, DnsTcpStream, message_len, get_message_length,
  parse_dns_message, get_message, exec, update_of, req_steps, resp_steps, dns_tcp, feed_tcp,
}

-- A message behind its length.
abbrev pub frame : List ℕ → List ℕ
frame msg = length msg / 256 ∷ length msg % 256 ∷ msg

abbrev pub frames : List (List ℕ) → List ℕ
frames [] = []
frames (msg ∷ msgs) = frame msg ++ frames msgs

message_len_lem : (n : ℕ) → message_len (n / 256 ∷ n % 256 ∷ []) ≡ n
message_len_lem n =
    omega (arith, bit_or_comm (n / 256 * 2 ^ 8) (n % 256), bit_or-shift 8 (n % 256) (n / 256))

get_message_length-frame :
    (s : Side) (msg rest : List ℕ)
    → s.buf ≡ frame msg ++ rest
    → get_message_length s ≡ (next, record s { buf = msg ++ rest; msg_len = length msg })
unfolding get_message_length
get_message_length-frame s msg rest e =
    let n = length msg in
    let cut : get 2 true s.buf ≡ (some (n / 256 ∷ n % 256 ∷ []), msg ++ rest) =
      rw e (get-length_append (n / 256 ∷ n % 256 ∷ []) (msg ++ rest)) in
    rw (cut, message_len_lem n) refl

abbrev reading : ByteBuffer → PropMap → ℕ → Side
reading b m n = record { buf = b; found = m; updated = true; msg_len = n }

abbrev waiting : List DnsStep → Side → RunResult DnsStep Side
waiting steps s = record {
  machine = new_lsm steps;
  state = s;
  was_cancelled = false;
  was_done = false;
}

module _ (decode : Decoder) where
  -- The decoder accepts the message.
  abbrev pub IsMessage : List ℕ → Type 0
  IsMessage msg = (d : Dns) × (decode msg ≡ some d)

  get_message-frame :
      (s : Side) (msg rest : List ℕ) (d : Dns)
      → s.buf ≡ msg ++ rest
      → s.msg_len ≡ length msg
      → decode msg ≡ some d
      → get_message decode s
        ≡ (restart, record s { buf = rest; found = entries (message_map d); updated = true })
  unfolding get_message parse_dns_message
  get_message-frame s msg rest d e n h =
      let cut : get s.msg_len true s.buf ≡ (some msg, rest) =
        rw (e, n) (get-length_append msg rest) in
      rw (cut, h) refl

  -- The last of the messages.
  abbrev pub last_map : PropMap → (msgs : List (List ℕ)) → All IsMessage msgs → PropMap
  last_map m [] h = m
  last_map m (msg ∷ msgs) h = last_map (entries (message_map h.0.0)) msgs h.1

  module _ (t u : DnsStep) (first : (s : Side) → exec decode t s ≡ ok (get_message_length s))
      (second : (s : Side) → exec decode u s ≡ ok (get_message decode s)) where
    abbrev steps : List DnsStep
    steps = t ∷ u ∷ []

    run_loop-frame :
        (fuel : ℕ) (s : Side) (msg rest : List ℕ) (d : Dns)
        → s.buf ≡ frame msg ++ rest
        → decode msg ≡ some d
        → run_loop (lift (dns_tcp decode)) (suc (suc fuel)) (new_lsm steps) s
          ≡ run_loop (lift (dns_tcp decode)) fuel (new_lsm steps) (record s {
            buf = rest;
            found = entries (message_map d);
            updated = true;
            msg_len = length msg;
          })
    unfolding run_loop round act lift new_lsm dns_tcp
    run_loop-frame fuel s msg rest d e h =
        let s1 = record s { buf = msg ++ rest; msg_len = length msg } in
        rw
          (
            first s,
            get_message_length-frame s msg rest e,
            second s1,
            get_message-frame s1 msg rest d refl refl h,
          )
          refl

    run_loop-empty :
        (fuel : ℕ) (s : Side)
        → s.buf ≡ []
        → run_loop (lift (dns_tcp decode)) (suc fuel) (new_lsm steps) s
          ≡ ok (record {
            machine = new_lsm steps;
            state = s;
            was_cancelled = false;
            was_done = false;
          })
    unfolding run_loop round act lift new_lsm dns_tcp get_message_length get
    run_loop-empty fuel s e = rw (first s, e) refl

    run_loop-frames :
        (fuel : ℕ) (m : PropMap) (n : ℕ) (msgs : List (List ℕ)) (h : All IsMessage msgs)
        → length msgs * 2 < fuel
        → (k : ℕ) × (run_loop
              (lift (dns_tcp decode))
              fuel
              (new_lsm steps)
              (reading (frames msgs) m n)
            ≡ ok (waiting steps (reading [] (last_map m msgs h) k)))
    run_loop-frames zero m n msgs h l = absurd (omega arith)
    run_loop-frames (suc fuel) m n [] h l = (n, run_loop-empty fuel (reading [] m n) refl)
    run_loop-frames (suc zero) m n (msg ∷ msgs) h l = absurd (omega arith)
    run_loop-frames (suc (suc fuel)) m n (msg ∷ msgs) h l =
        let m' = entries (message_map h.0.0) in
        let (k, e) = run_loop-frames fuel m' (length msg) msgs h.1 (omega arith) in
        (
          k,
          run_loop-frame fuel (reading (frames (msg ∷ msgs)) m n) msg (frames msgs) h.0.0 refl h.0.1
              ∙ e,
        )

    length-frames : (msgs : List (List ℕ)) → length msgs * 2 ≤ length (frames msgs)
    length-frames [] = omega arith
    length-frames (msg ∷ msgs) = omega (arith, length-append msg (frames msgs), length-frames msgs)

    run_side-frames :
        (s : Side) (msg : List ℕ) (msgs : List (List ℕ)) (h : All IsMessage (msg ∷ msgs))
        → s.buf ≡ []
        → (k : ℕ) × (run_side (dns_tcp decode) (new_lsm steps) s (frames (msg ∷ msgs))
            ≡ ok (waiting steps (reading [] (last_map null (msg ∷ msgs) h) k)))
    unfolding run_side run append new_lsm
    run_side-frames s msg msgs h e =
        let bytes = frames (msg ∷ msgs) in
        let n = length (s.buf ++ bytes) in
        let s0 = record s { buf = s.buf ++ bytes; updated = false } in
        let three : n + 3 ≡ suc (suc (suc n)) = omega arith in
        let long : length msgs * 2 < suc n =
          omega (
            arith,
            length-append s.buf bytes,
            length-append msg (frames msgs),
            length-frames msgs,
          ) in
        let begins : s.buf ++ bytes ≡ frame msg ++ frames msgs = ap (λ b. b ++ bytes) e in
        let (k, rest) =
          run_loop-frames (suc n) (entries (message_map h.0.0)) (length msg) msgs h.1 long in
        (k, rw three (run_loop-frame (suc n) s0 msg (frames msgs) h.0.0 begins h.0.1 ∙ rest))

  -- The side waits for a message.
  abbrev pub IsIdle : Bool → DnsTcpStream → Type 0
  IsIdle true o = (o.resp.buf ≡ []) × (o.resp_lsm ≡ new_lsm resp_steps)
  IsIdle false o = (o.req.buf ≡ []) × (o.req_lsm ≡ new_lsm req_steps)

  -- Where a side of a DNS stream over TCP waits for a message, a segment of whole messages, one at
  -- least, that the decoder accepts is read to its end: `Feed` reports the last of them, the stream
  -- is not done, and the side waits again.
  pub feed_tcp-frames :
      (rev : Bool) (o : DnsTcpStream) (msg : List ℕ) (msgs : List (List ℕ))
      (h : All IsMessage (msg ∷ msgs))
      → IsIdle rev o
      → (f : Fed DnsStep) × (feed_tcp decode rev 0 (frames (msg ∷ msgs)) o ≡ ok f)
        × (f.update ≡ some (record { type = replace; m = last_map null (msg ∷ msgs) h }))
        × (f.is_done ≡ false)
        × IsIdle rev f.stream
  unfolding feed_tcp feed feed_data dns_tcp finish update_if update_of exec
  feed_tcp-frames true o msg msgs h i =
      let m = last_map null (msg ∷ msgs) h in
      let (k, e) =
        run_side-frames get_resp_message_length get_resp_message (λ s. refl) (λ s. refl) o.resp msg
          msgs h i.0 in
      (
        finish (dns_tcp decode) true o (waiting resp_steps (reading [] m k)),
        rw (i.1, e) refl,
        refl,
        ground arith,
        (refl, refl),
      )
  feed_tcp-frames false o msg msgs h i =
      let m = last_map null (msg ∷ msgs) h in
      let (k, e) =
        run_side-frames get_req_message_length get_req_message (λ s. refl) (λ s. refl) o.req msg
          msgs h i.0 in
      (
        finish (dns_tcp decode) false o (waiting req_steps (reading [] m k)),
        rw (i.1, e) refl,
        refl,
        refl,
        (refl, refl),
      )
