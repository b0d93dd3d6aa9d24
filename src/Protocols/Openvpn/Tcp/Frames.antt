-- ===== src/Protocols/Openvpn/Tcp/Frames.antt =====
-- The packets of an OpenVPN TCP stream.
use open_gfw_for_frp_integra.Prelude.{
  ltb, ◌==◌, Bool-cases, Option-cases, length, get_or, drop, ok, ℕ, ◌+◌, ◌*◌, ◌/◌, ◌%◌, ◌≤◌, ◌<◌,
  ◌≡◌, refl, subst, inl, inr, Bool, true, false, none, some, List, [], ◌∷◌, ◌++◌, arith,
}
use open_gfw_for_frp_integra.Analyzer.{merge, replace}
use open_gfw_for_frp_integra.Utils.Lsm.{next}
use open_gfw_for_frp_integra.Utils.ByteBuffer.{get, get_uint16}
use open_gfw_for_frp_integra.Utils.ByteBuffer.Laws.{get-length_append, get_split}
use open_gfw_for_frp_integra.Utils.ByteBuffer.Words.{uint16_of_lem}
use open_gfw_for_frp_integra.Protocols.Openvpn.{
  openvpn_min_pkt_len, check_for_valid_opcode, OpenvpnStream, Fed,
}
use open_gfw_for_frp_integra.Protocols.Openvpn.Returns.{
  IsParsed, HasTwoSteps, run_resp_returns, run_req_returns,
}
use open_gfw_for_frp_integra.Protocols.Openvpn.Tcp.{
  Buffers, buffer_of, set_buffer, take_pkt, check_opcode, parse_pkt, arrive, feed_data, feed,
}

take_pkt_frame :
    (rev : Bool) (s : Buffers) (hi lo b : ℕ) (payload rest : List ℕ)
    → buffer_of rev s ≡ (hi ∷ lo ∷ b ∷ payload) ++ rest
    → take_pkt rev (length payload + 1) s
      ≡ ok (record {
        pkt = some (record { pkt_len = length payload + 1; opcode = b / 8; key_id = b % 8 });
        action = next;
        source = set_buffer rev s rest;
      })
unfolding take_pkt
take_pkt_frame rev s hi lo b payload rest e = rw (got, take_pkt) (rw got)
  where
    whole : List ℕ
    whole = hi ∷ lo ∷ b ∷ payload

    got : get (length payload + 1 + 2) true (buffer_of rev s) ≡ (some whole, rest)
    got = rw e (
        subst (λ k. get k true (whole ++ rest) ≡ (some whole, rest)) (omega arith)
          (get-length_append whole rest))

-- `parsePkt` reads back a packet that was framed by its length and leaves what follows, if the
-- packet has the least length or more and a valid opcode.
pub parse_pkt_frame :
    (rev : Bool) (s : Buffers) (hi lo b : ℕ) (payload rest : List ℕ)
    → hi < 256
    → lo < 256
    → hi * 256 + lo ≡ length payload + 1
    → openvpn_min_pkt_len ≤ length payload + 1
    → check_for_valid_opcode (b / 8) ≡ true
    → buffer_of rev s ≡ (hi ∷ lo ∷ b ∷ payload) ++ rest
    → parse_pkt rev s
      ≡ ok (record {
        pkt = some (record { pkt_len = length payload + 1; opcode = b / 8; key_id = b % 8 });
        action = next;
        source = set_buffer rev s rest;
      })
unfolding parse_pkt check_opcode
parse_pkt_frame rev s hi lo b payload rest h l n m v e =
    rw (len_read, parse_pkt, big_enough, op_read, check_opcode, v)
      (take_pkt_frame rev s hi lo b payload rest e)
  where
    len_read : (get_uint16 false false (buffer_of rev s)).0 ≡ some (length payload + 1)
    len_read = rw e (unfold get_uint16 get in ground (arith, uint16_of_lem hi lo))

    op_read : (get 3 false (buffer_of rev s)).0 ≡ some (hi ∷ lo ∷ b ∷ [])
    op_read = rw e (unfold get in ground arith)

    big_enough : ltb (length payload + 1) openvpn_min_pkt_len ≡ false
    big_enough = ground arith

third_byte :
    (bytes : List ℕ) → 2 < length bytes → (b : ℕ) × (rest : List ℕ) × (drop 2 bytes ≡ b ∷ rest)
third_byte [] h = absurd (omega arith)
third_byte (x ∷ []) h = absurd (omega arith)
third_byte (x ∷ y ∷ []) h = absurd (omega arith)
third_byte (x ∷ y ∷ b ∷ rest) h = (b, rest, refl)

take_pkt-IsParsed : (rev : Bool) (n : ℕ) (s : Buffers) → 6 ≤ n → IsParsed (take_pkt rev n s)
unfolding take_pkt
take_pkt-IsParsed rev n s h = elim (get_split (n + 2) (buffer_of rev s)) [
  | inl (bytes, rest, e, _, l) ↦
      let (b, tail, d) = third_byte bytes (omega (arith, l)) in
      rw (e, take_pkt) (rw (d, take_pkt) ((λ q r. cc), λ q. cc))
  | inr (e, _) ↦ rw (e, take_pkt) ((λ q r. cc), λ q. cc)
]

-- `parsePkt` returns on every buffer: it does not read out of range.
pub parse_pkt-IsParsed : (rev : Bool) (s : Buffers) → IsParsed (parse_pkt rev s)
unfolding parse_pkt check_opcode
parse_pkt-IsParsed rev s = elim (Option-cases ((get_uint16 false false (buffer_of rev s)).0)) [
  | inl e ↦ rw (e, parse_pkt) ((λ q r. cc), λ q. cc)
  | inr (n, e) ↦ elim (Bool-cases (ltb n openvpn_min_pkt_len)) [
    | inl short ↦ rw (e, parse_pkt, short) ((λ q r. cc), λ q. cc)
    | inr enough ↦ rw (e, parse_pkt, enough) (checked n (ground arith))
  ]
]
  where
    checked : (n : ℕ) → 6 ≤ n → IsParsed (check_opcode rev n s)
    checked n h = elim (Option-cases ((get 3 false (buffer_of rev s)).0)) [
      | inl e ↦ rw (e, check_opcode) ((λ q r. cc), λ q. cc)
      | inr (op, e) ↦ elim (Bool-cases (check_for_valid_opcode (get_or op 2 0 / 8))) [
        | inl v ↦ rw (e, check_opcode, v) (take_pkt-IsParsed rev n s h)
        | inr v ↦ rw (e, check_opcode, v) ((λ q r. cc), λ q. cc)
      ]
    ]

-- `Feed` of a TCP segment returns, whatever the segment and the bytes that wait in the buffers: it
-- neither panics nor loops. Its two machines have two steps before and after.
pub feed_returns :
    (rev : Bool) (skip : ℕ) (bytes : List ℕ) (o : OpenvpnStream Buffers)
    → HasTwoSteps o
    → (r : Fed (OpenvpnStream Buffers)) × (feed rev skip bytes o ≡ ok r) × HasTwoSteps r.stream
unfolding feed feed_data arrive
feed_returns rev skip bytes o w = elim (Bool-cases (skip == 0)) [
  | inl e ↦ rw e (fed rev bytes)
  | inr e ↦ rw e (record { stream = o; update = none; is_done = true }, refl, w)
]
  where
    fed :
        (rev : Bool) (bytes : List ℕ)
        → (r : Fed (OpenvpnStream Buffers)) × (feed_data rev bytes o ≡ ok r) × HasTwoSteps r.stream
    fed rev [] = (record { stream = o; update = none; is_done = false }, refl, w)
    fed true (b ∷ bs) =
        run_resp_returns parse_pkt parse_pkt-IsParsed replace (arrive true (b ∷ bs) o)
          (record { req_steps = w.req_steps; resp_steps = w.resp_steps })
    fed false (b ∷ bs) =
        run_req_returns parse_pkt parse_pkt-IsParsed merge (arrive false (b ∷ bs) o)
          (record { req_steps = w.req_steps; resp_steps = w.resp_steps })
