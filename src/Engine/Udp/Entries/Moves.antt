-- ===== src/Engine/Udp/Entries/Moves.antt =====
-- `Feed` of engine/udp.go as a whole: where it leaves the entries of the stream.
use mathlib.Core.List.{Perm, perm_middle}
use mathlib.Core.List.Perm
use open_gfw_for_frp_integra.Prelude.{
  if◌then◌else◌, Bool-cases, ℕ, ◌≡◌, refl, ap, ◌∙◌, ◌⊎◌, inl, inr, Bool, false, not, ◌||◌, List, [],
  ◌∷◌, ◌++◌, map, append_assoc, arith,
}
use open_gfw_for_frp_integra.Ruleset.{
  Action, maybe, allow, block, drop_packet, modify, Verdict, accept_stream, drop_stream, Match,
}
use open_gfw_for_frp_integra.Engine.Udp.{
  UdpStreams, UdpContext, UdpEntry, prop_update, modify_error, stream_action, UdpStream,
  action_to_udp_verdict, write_log, close_active_entries, modified, issue, match_rules, settle,
  feed_active, feed,
}
use open_gfw_for_frp_integra.Engine.Udp.Entries.{
  select, leaves, fed, feed_entries_moved, shut, close_entries-shut,
}

module _ {A : Type 0} (streams : UdpStreams A) where
  abbrev IsKept : UdpStream A → UdpStream A → Type 0
  IsKept s t = (t.active_entries ≡ s.active_entries) × (t.done_entries ≡ s.done_entries)

  abbrev pub IsFinal : Verdict → Type 0
  IsFinal v = (v ≡ accept_stream) ⊎ (v ≡ drop_stream)

  abbrev IsShut : UdpStream A → UdpStream A × UdpContext → Type 0
  IsShut s (t, uc) =
      (t.active_entries ≡ [])
      × (t.done_entries ≡ s.done_entries ++ map (shut streams) s.active_entries)
      × IsFinal uc.verdict

  close_active_entries-shut :
      (s : UdpStream A)
      → (close_active_entries streams s).done_entries
        ≡ s.done_entries ++ map (shut streams) s.active_entries
  unfolding close_active_entries
  close_active_entries-shut s =
      ap (λ t. s.done_entries ++ t)
        (close_entries-shut streams s.active_entries s.info.properties false)

  issue_moved :
      (a : Action) (s : UdpStream A) (uc : UdpContext)
      → IsKept s (issue streams a s uc).0 ⊎ IsShut s (issue streams a s uc)
  unfolding issue action_to_udp_verdict close_active_entries
  issue_moved maybe s uc = inl (refl, refl)
  issue_moved allow s uc = inr (
    refl,
    close_active_entries-shut
        (write_log (stream_action allow false) (record s { last_verdict = accept_stream })),
    inl refl,
  )
  issue_moved block s uc = inr (
    refl,
    close_active_entries-shut
        (write_log (stream_action block false) (record s { last_verdict = drop_stream })),
    inr refl,
  )
  issue_moved drop_packet s uc = inl (refl, refl)
  issue_moved modify s uc = inl (refl, refl)

  match_rules_moved :
      (rules : Match) (payload : List ℕ) (s : UdpStream A) (uc : UdpContext)
      → IsKept s (match_rules streams rules payload s uc).0
        ⊎ IsShut s (match_rules streams rules payload s uc)
  unfolding match_rules
  match_rules_moved rules payload s uc =
      let t = write_log (prop_update false) (record s { virgin = false }) in
      let m = modified streams (rules t.info) payload uc in
      elim (Bool-cases m.2) [
        | inl e ↦ rw e (issue_moved m.0 (write_log modify_error t) m.1)
        | inr e ↦ rw e (issue_moved m.0 t m.1)
      ]

  settle_moved : (s : UdpStream A) (uc : UdpContext) → IsKept s (settle streams s uc).0
  unfolding settle
  settle_moved s uc = ground arith

  settle_final :
      (s : UdpStream A) (uc : UdpContext) → IsFinal uc.verdict → settle streams s uc ≡ (s, uc)
  unfolding settle
  settle_final s uc h = ground arith

  module _ (rev : Bool) (payload : List ℕ) where
    -- The entry after the packet, where the stream ends with it.
    abbrev pub last_state : UdpEntry A → UdpEntry A
    last_state e =
        if leaves streams rev payload e
        then fed streams rev payload e
        else shut streams (fed streams rev payload e)

    -- The entries that were active and are not done are active still, and those that are done have
    -- joined the done ones.
    abbrev pub IsRead : UdpStream A → UdpStream A → Type 0
    IsRead s t =
        (t.active_entries
          ≡ map (fed streams rev payload)
              (select (λ e. not (leaves streams rev payload e)) s.active_entries))
        × Perm t.done_entries (
            s.done_entries
            ++ map (fed streams rev payload) (select (leaves streams rev payload) s.active_entries))

    -- Or the verdict ends the stream, and all that were active have joined the done ones.
    abbrev pub IsMoved : UdpStream A → UdpStream A × UdpContext → Type 0
    IsMoved s (t, uc) =
        IsRead s t
        ⊎ ((t.active_entries ≡ [])
            × Perm t.done_entries (s.done_entries ++ map last_state s.active_entries)
            × IsFinal uc.verdict)

    last_states :
        (es : List (UdpEntry A))
        → Perm
            (map (fed streams rev payload) (select (leaves streams rev payload) es)
              ++ map (shut streams) (
                  map
                    (fed streams rev payload)
                    (select (λ e. not (leaves streams rev payload e)) es)))
            (map last_state es)
    last_states [] = Perm.refl []
    last_states (e ∷ es) = elim (Bool-cases (leaves streams rev payload e)) [
      | inl d ↦ rw d (Perm.cons (fed streams rev payload e) (last_states es))
      | inr d ↦ rw d (
          Perm.trans
            (perm_middle (map (fed streams rev payload) (select (leaves streams rev payload) es)) _)
            (Perm.cons (shut streams (fed streams rev payload e)) (last_states es)))
    ]

    feed_active-IsRead : (s : UdpStream A) → IsRead s (feed_active streams rev payload s).0
    unfolding feed_active
    feed_active-IsRead s =
        let (same, moved) =
          feed_entries_moved streams rev payload s.active_entries s.info.properties in
        (same, Perm.append_left s.done_entries moved)

    shut-IsMoved :
        (s t : UdpStream A) (r : UdpStream A × UdpContext) → IsRead s t → IsShut t r → IsMoved s r
    shut-IsMoved s t (u, uc) (same, moved) (none_left, joined, final) = inr (
      none_left,
      rw (joined, same)
          (Perm.trans (Perm.append_right _ moved) (
            rw (append_assoc s.done_entries _ _)
              (Perm.append_left s.done_entries (last_states s.active_entries)))),
      final,
    )

    settle-IsMoved :
        (s t : UdpStream A) (r : UdpStream A × UdpContext)
        → IsRead s t
        → IsKept t r.0 ⊎ IsShut t r
        → IsMoved s (settle streams r.0 r.1)
    settle-IsMoved s t (u, uc) (same, moved) (inl (active, done)) =
        let (active', done') = settle_moved u uc in
        inl (active' ∙ active ∙ same, rw (done' ∙ done) moved)
    settle-IsMoved s t (u, uc) read (inr h) =
        rw (settle_final u uc h.2) (shut-IsMoved s t (u, uc) read h)

    -- `Feed` hands the packet to every active entry once: the analyzer has read it, the quota is
    -- charged, and an entry of which the quota is spent is closed. The entries that are done by that
    -- join the done ones, in some order, and the others stay active in their order; or, if the verdict
    -- ends the stream, the others are closed and join them too. Nothing else happens to an entry.
    pub feed-IsMoved :
        (rules : Match) (s : UdpStream A) (uc : UdpContext)
        → IsMoved s (feed streams rules rev payload s uc)
    unfolding feed
    feed-IsMoved rules s uc =
        let (t, updated) = feed_active streams rev payload s in
        let m = match_rules streams rules payload t uc in
        elim (Bool-cases (updated || t.virgin)) [
          | inl e ↦
              rw e
                (settle-IsMoved s t m (feed_active-IsRead s) (match_rules_moved rules payload t uc))
          | inr e ↦ rw e (settle-IsMoved s t (t, uc) (feed_active-IsRead s) (inl (refl, refl)))
        ]
