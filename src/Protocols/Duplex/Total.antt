-- ===== src/Protocols/Duplex/Total.antt =====
-- `Feed` of the streams that are a `Duplex` returns on every segment, where every step of their
-- machines does, and keeps what the steps rely on.
use open_gfw_for_frp_integra.Prelude.{
  ◌==◌, Bool-cases, length, get_elem?, get_elem?-some, Gives, >>=-Gives, Gives-map, ℕ, ◌+◌, ◌-◌,
  ◌≤◌, ◌<◌, ◌≡◌, inl, inr, Bool, true, false, some, List, [], ◌∷◌, arith,
}
use open_gfw_for_frp_integra.Utils.ByteBuffer.{append, skip}
use open_gfw_for_frp_integra.Utils.Lsm.{LsmAction, pause, next, restart, cancel, Lsm}
use open_gfw_for_frp_integra.Utils.Lsm.Total.{Follows, Returns, run-IsKept}
use open_gfw_for_frp_integra.Protocols.Duplex.{
  Side, Duplex, Behaviour, lift, run_side, finish, feed_data, feed,
}

-- What a stream promises of its steps: an invariant of a machine and its side that does not depend
-- on the bytes, and a measure that every round lowers.
pub record IsSteady {Step : Type 0} (b : Behaviour Step) (Good : Lsm Step → Side → Type 0)
    (measure : Lsm Step → Side → ℕ) : Type 0 where
  pub receives :
      (m : Lsm Step) (s : Side) (bytes : List ℕ)
      → Good m s
      → Good m (record s { buf = append s.buf bytes; updated = false })
  pub reports : (m : Lsm Step) (s : Side) → Good m s → Good m (record s { updated = false })
  pub bounded : (m : Lsm Step) (s : Side) → Good m s → measure m s < length s.buf + 3
  pub returns :
      (t : Step) (m : Lsm Step) (s : Side)
      → get_elem? m.steps m.index ≡ some t
      → Good m s
      → Gives (λ r. Follows (lift b) Good measure (measure m s) r.0 m r.1) (b.exec t s)

module _ {Step : Type 0} {b : Behaviour Step} {Good : Lsm Step → Side → Type 0}
    {measure : Lsm Step → Side → ℕ} (w : IsSteady b Good measure) where
  lift-Returns : Returns (lift b) Good measure
  unfolding lift
  lift-Returns t m s e g =
      >>=-Gives (λ r. Follows (lift b) Good measure (measure m s) r.0 m r.1)
        (λ r. Follows (lift b) Good measure (measure m s) r.action r.machine r.state) (b.exec t s) _
        (w.returns t m s e g) λ r f. f

  run_side-Gives :
      (m : Lsm Step) (s : Side) (bytes : List ℕ)
      → Good m s
      → Gives (λ r. Good r.machine r.state) (run_side b m s bytes)
  unfolding run_side
  run_side-Gives m s bytes g =
      let s' = record s { buf = append s.buf bytes; updated = false } in
      let g' = w.receives m s bytes g in
      run-IsKept (lift b) Good measure (length (append s.buf bytes) + 3) m s' lift-Returns g'
        (w.bounded m s' g')

  -- Both directions satisfy the invariant.
  abbrev pub IsLive : Duplex Step → Type 0
  IsLive o = Good o.req_lsm o.req × Good o.resp_lsm o.resp

  feed_data-IsLive :
      (rev : Bool) (bytes : List ℕ) (o : Duplex Step)
      → IsLive o
      → Gives (λ f. IsLive f.stream) (feed_data b rev bytes o)
  unfolding feed_data finish
  feed_data-IsLive true bytes o l =
      >>=-Gives (λ r. Good r.machine r.state) (λ f. IsLive f.stream)
        (run_side b o.resp_lsm o.resp bytes) _ (run_side-Gives o.resp_lsm o.resp bytes l.1)
        λ r g. (l.0, w.reports r.machine r.state g)
  feed_data-IsLive false bytes o l =
      >>=-Gives (λ r. Good r.machine r.state) (λ f. IsLive f.stream)
        (run_side b o.req_lsm o.req bytes) _ (run_side-Gives o.req_lsm o.req bytes l.0)
        λ r g. (w.reports r.machine r.state g, l.1)

  -- `Feed` neither panics nor runs out of fuel, and keeps the invariant of both directions.
  pub feed-IsLive :
      (rev : Bool) (skip : ℕ) (bytes : List ℕ) (o : Duplex Step)
      → IsLive o
      → Gives (λ f. IsLive f.stream) (feed b rev skip bytes o)
  unfolding feed
  feed-IsLive rev skip [] o l = l
  feed-IsLive rev skip (x ∷ bytes) o l = elim (Bool-cases (skip == 0)) [
    | inl here ↦ rw here (feed_data-IsLive rev (x ∷ bytes) o l)
    | inr gap ↦ rw gap l
  ]

-- The streams whose steps never start anew, and that have two steps for a direction.
abbrev pub Goes :
    {Step : Type 0} → (Lsm Step → Side → Type 0) → LsmAction → Lsm Step → Side → Type 0
Goes Inv pause m s = Inv m s
Goes Inv next m s = Inv (record m { index = m.index + 1 }) s
Goes Inv restart m s = ⊥
Goes Inv cancel m s = Inv (record m { cancelled = true }) s

pub record IsForward {Step : Type 0} (b : Behaviour Step) (Inv : Lsm Step → Side → Type 0)
    : Type 0 where
  pub receives :
      (m : Lsm Step) (s : Side) (bytes : List ℕ)
      → Inv m s
      → Inv m (record s { buf = append s.buf bytes; updated = false })
  pub reports : (m : Lsm Step) (s : Side) → Inv m s → Inv m (record s { updated = false })
  pub moves :
      (t : Step) (m : Lsm Step) (s : Side)
      → get_elem? m.steps m.index ≡ some t
      → Inv m s
      → Gives (λ r. Goes Inv r.0 m r.1) (b.exec t s)

abbrev pub Short : {Step : Type 0} → (Lsm Step → Side → Type 0) → Lsm Step → Side → Type 0
Short Inv m s = (length m.steps ≤ 2) × Inv m s

abbrev pub steps_left : {Step : Type 0} → Lsm Step → Side → ℕ
steps_left m s = 2 - m.index

module _ {Step : Type 0} (b : Behaviour Step) (Inv : Lsm Step → Side → Type 0) where
  Goes-Follows :
      (a : LsmAction) (m : Lsm Step) (s : Side)
      → length m.steps ≤ 2
      → m.index < length m.steps
      → Goes Inv a m s
      → Follows (lift b) (Short Inv) steps_left (steps_left m s) a m s
  Goes-Follows pause m s l i g = (l, g)
  Goes-Follows next m s l i g = ((l, g), omega arith)
  Goes-Follows restart m s l i g = absurd g
  Goes-Follows cancel m s l i g = (l, g)

  pub IsForward-IsSteady : IsForward b Inv → IsSteady b (Short Inv) steps_left
  IsForward-IsSteady w = record {
    receives = λ m s bytes g. (g.0, w.receives m s bytes g.1);
    reports = λ m s g. (g.0, w.reports m s g.1);
    bounded = λ m s g. omega arith;
    returns = λ t m s e g.
        Gives-map (λ r. Goes Inv r.0 m r.1)
          (λ r. Follows (lift b) (Short Inv) steps_left (steps_left m s) r.0 m r.1) (b.exec t s)
          (w.moves t m s e g.1)
          λ r f. Goes-Follows r.0 m r.1 g.0 (get_elem?-some m.steps m.index e) f;
  }
