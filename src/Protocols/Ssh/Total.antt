-- ===== src/Protocols/Ssh/Total.antt =====
-- `Feed` of the SSH analyzer returns on every segment.
use open_gfw_for_frp_integra.Prelude.{
  Bool-cases, length, take, ok, Gives-ok, ℕ, ◌-◌, ◌≡◌, refl, ◌≢◌, inl, inr, Bool, true, not, Option,
  none, some, List, [], ◌∷◌, arith,
}
use open_gfw_for_frp_integra.Analyzer.{PropMap}
use open_gfw_for_frp_integra.Utils.ByteBuffer.{get_until, has_prefix}
use open_gfw_for_frp_integra.Utils.Strings.{fields, split_n}
use open_gfw_for_frp_integra.Utils.Lsm.{LsmAction, Lsm, pause, next, restart, cancel}
use open_gfw_for_frp_integra.Protocols.Duplex.{Side, Fed, new_duplex, feed}
use open_gfw_for_frp_integra.Protocols.Duplex.Total.{
  IsLive, feed-IsLive, Goes, IsForward, IsForward-IsSteady,
}
use open_gfw_for_frp_integra.Protocols.Ssh.{
  SshStep, SshStream, ssh_prefix, version_fields, line_fields, parse_line, parse_exchange_line,
  keep, exec, ssh, new_ssh_stream, feed_ssh,
}

-- A step never starts anew.
Onward : LsmAction × PropMap → Type 0
Onward r = r.0 ≢ restart

version_fields-Onward : (ws more : List (List ℕ)) → Onward (version_fields ws more)
unfolding Onward version_fields
version_fields-Onward [] more = λ e. cc
version_fields-Onward (a ∷ []) more = λ e. cc
version_fields-Onward (a ∷ b ∷ []) more = λ e. cc
version_fields-Onward (a ∷ b ∷ c ∷ []) [] = λ e. cc
version_fields-Onward (a ∷ b ∷ c ∷ []) (x ∷ more) = λ e. cc
version_fields-Onward (a ∷ b ∷ c ∷ d ∷ ws) more = λ e. cc

line_fields-Onward : (ws : List (List ℕ)) → Onward (line_fields ws)
unfolding Onward line_fields
line_fields-Onward [] = λ e. cc
line_fields-Onward (w ∷ []) = version_fields-Onward (split_n 45 3 w) []
line_fields-Onward (w ∷ c ∷ []) = version_fields-Onward (split_n 45 3 w) (c ∷ [])
line_fields-Onward (w ∷ c ∷ d ∷ ws) = λ e. cc

parse_line-Onward : (line : Option (List ℕ)) → Onward (parse_line line)
unfolding Onward parse_line
parse_line-Onward none = λ e. cc
parse_line-Onward (some line) = elim (Bool-cases (not (has_prefix ssh_prefix line))) [
  | inl other ↦ rw other (λ e. cc)
  | inr ours ↦ rw ours (line_fields-Onward (fields (take (length line - 2) line)))
]

abbrev Free : Lsm SshStep → Side → Type 0
Free m s = Unit

keep-Goes :
    (r : LsmAction × PropMap) (m : Lsm SshStep) (s : Side)
    → Onward r
    → Goes Free (keep r s).0 m (keep r s).1
unfolding Onward
keep-Goes (next, p) m s h = tt
keep-Goes (pause, p) m s h = tt
keep-Goes (restart, p) m s h = absurd (h refl)
keep-Goes (cancel, p) m s h = tt

ssh-IsForward : IsForward ssh Free
unfolding ssh exec parse_exchange_line
ssh-IsForward = record {
  receives = λ m s bytes g. tt;
  reports = λ m s g. tt;
  moves = λ t m s e g.
      let found = get_until (13 ∷ 10 ∷ []) true true s.buf in
      keep-Goes (parse_line found.0) m (record s { buf = found.1 }) (parse_line-Onward found.0);
}

-- The streams that `feed_ssh` leaves.
pub IsSshStream : SshStream → Type 0
IsSshStream o = IsLive (IsForward-IsSteady ssh Free ssh-IsForward) o

pub new_ssh_stream-IsSshStream : IsSshStream new_ssh_stream
unfolding IsSshStream new_ssh_stream new_duplex
new_ssh_stream-IsSshStream = ((omega arith, tt), (omega arith, tt))

-- On every segment of either direction, whatever its bytes, `Feed` of such an SSH stream returns,
-- and leaves such a stream again.
pub feed_ssh-IsSshStream :
    (rev : Bool) (skip : ℕ) (bytes : List ℕ) (o : SshStream)
    → IsSshStream o
    → (f : Fed SshStep) × (feed_ssh rev skip bytes o ≡ ok f) × IsSshStream f.stream
unfolding feed_ssh IsSshStream
feed_ssh-IsSshStream rev skip bytes o l =
    Gives-ok (λ f. IsSshStream f.stream) (feed ssh rev skip bytes o)
      (feed-IsLive (IsForward-IsSteady ssh Free ssh-IsForward) rev skip bytes o l)
