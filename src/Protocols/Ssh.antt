-- ===== src/Protocols/Ssh.antt =====
-- analyzer/tcp/ssh.go. The stream is a `Duplex`, the client's side first; a machine has one step.
pub mod Exchange
pub mod Total
use open_gfw_for_frp_integra.Prelude.{
  ◌==◌, if◌then◌else◌, length, take, Outcome, ok, ℕ, ◌-◌, ◌/◌, Bool, true, false, not, Option, none,
  some, List, [], ◌∷◌, map,
}
use open_gfw_for_frp_integra.Analyzer.{
  PropMap, null, entries, field, props, text, end, merge, PropUpdate,
}
use open_gfw_for_frp_integra.Utils.ByteBuffer.{ByteBuffer, get_until, has_prefix}
use open_gfw_for_frp_integra.Utils.Strings.{fields, split_n}
use open_gfw_for_frp_integra.Utils.Lsm.{LsmAction, pause, next, restart, cancel}
use open_gfw_for_frp_integra.Protocols.Duplex.{
  close, Side, Duplex, Fed, new_duplex, close, Behaviour, feed,
}

pub data SshStep : Type 0 where
  parse_client_exchange_line parse_server_exchange_line : SshStep

abbrev pub SshStream : Type 0
SshStream = Duplex SshStep

-- "SSH-"
abbrev pub ssh_prefix : List ℕ
ssh_prefix = 83 ∷ 83 ∷ 72 ∷ 45 ∷ []

-- The map of a line whose first word was cut at its dashes, with the comments if there are any.
unfoldable pub version_fields : List (List ℕ) → List (List ℕ) → LsmAction × PropMap
version_fields (ssh ∷ protocol ∷ software ∷ []) [] =
    (next, entries (field "protocol" (text protocol) (field "software" (text software) end)))
version_fields (ssh ∷ protocol ∷ software ∷ []) (comments ∷ more) = (
  next,
  entries (
      field "protocol" (text protocol)
        (field "software" (text software) (field "comments" (text comments) end))),
)
version_fields _ more = (cancel, null)

-- The words of the line: one or two.
unfoldable pub line_fields : List (List ℕ) → LsmAction × PropMap
unfolding split_n version_fields
line_fields (w ∷ []) = version_fields (split_n 45 3 w) []
line_fields (w ∷ c ∷ []) = version_fields (split_n 45 3 w) (c ∷ [])
line_fields _ = (cancel, null)

unfoldable pub parse_line : Option (List ℕ) → LsmAction × PropMap
unfolding has_prefix fields line_fields
parse_line none = (pause, null)
parse_line (some line) =
    if not (has_prefix ssh_prefix line)
    then (cancel, null)
    else line_fields (fields (take (length line - 2) line))

unfoldable pub parse_exchange_line : ByteBuffer → (LsmAction × PropMap) × ByteBuffer
unfolding get_until parse_line
parse_exchange_line b =
    let (line, rest) = get_until (13 ∷ 10 ∷ []) true true b in (parse_line line, rest)

-- `if action == utils.LSMActionNext { … }`
abbrev pub keep : LsmAction × PropMap → Side → LsmAction × Side
keep (next, m) s = (next, record s { found = m; updated = true })
keep (pause, m) s = (pause, s)
keep (restart, m) s = (restart, s)
keep (cancel, m) s = (cancel, s)

-- The two steps, each on its own side.
unfoldable pub exec : SshStep → Side → Outcome (LsmAction × Side)
unfolding parse_exchange_line
exec t s = let (r, rest) = parse_exchange_line s.buf in ok (keep r (record s { buf = rest }))

unfoldable pub update_of : Bool → PropMap → PropUpdate
update_of true m = record { type = merge; m = entries (field "server" (props m) end) }
update_of false m = record { type = merge; m = entries (field "client" (props m) end) }

unfoldable pub ssh : Behaviour SshStep
unfolding exec update_of
ssh = record { exec = exec; update_of = update_of }

unfoldable pub new_ssh_stream : SshStream
unfolding new_duplex
new_ssh_stream = new_duplex (parse_client_exchange_line ∷ []) (parse_server_exchange_line ∷ [])

unfoldable pub feed_ssh : Bool → ℕ → List ℕ → SshStream → Outcome (Fed SshStep)
unfolding feed ssh
feed_ssh rev skip bytes o = feed ssh rev skip bytes o

unfoldable pub close_ssh : SshStream → SshStream
unfolding close
close_ssh o = close o
