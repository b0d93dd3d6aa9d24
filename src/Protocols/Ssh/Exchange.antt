-- ===== src/Protocols/Ssh/Exchange.antt =====
-- The SSH analyzer on the exchange lines of RFC 4253, 4.2.
use open_gfw_for_frp_integra.Prelude.{
  length, take, All, length-append, take-length_append, All-append, ok, ℕ, ◌-◌, ◌<◌, ◌≡◌, refl,
  Bool, true, false, none, some, List, [], ◌∷◌, ◌++◌, arith,
}
use open_gfw_for_frp_integra.Analyzer.{PropMap, null, entries, Fields, field, text, end, PropUpdate}
use open_gfw_for_frp_integra.Utils.ByteBuffer.{has_prefix, append}
use open_gfw_for_frp_integra.Utils.ByteBuffer.Lines.{crlf, get_until-line}
use open_gfw_for_frp_integra.Utils.Strings.{split_n}
use open_gfw_for_frp_integra.Utils.Strings.Words.{
  IsGraphic, IsText, join_words, fields-join_words, join_words-Lacks,
}
use open_gfw_for_frp_integra.Utils.Strings.Cuts.{Lacks, split_n-three}
use open_gfw_for_frp_integra.Utils.Lsm.{LsmAction, next, cancel, new_lsm, RunResult}
use open_gfw_for_frp_integra.Protocols.Duplex.{Side, Fed, new_side, update_if, finish, run_side}
use open_gfw_for_frp_integra.Protocols.Duplex.Steps.{
  feed-req_run, feed-resp_run, ended_one, run_side-one, cancelled_one, run_side-cancelled,
}
use open_gfw_for_frp_integra.Protocols.Ssh.{
  SshStep, parse_client_exchange_line, parse_server_exchange_line, SshStream, ssh_prefix,
  version_fields, line_fields, parse_line, parse_exchange_line, keep, exec, update_of, ssh,
  feed_ssh,
}

pub record Exchange : Type 0 where
  pub protocol : List ℕ
  pub software : List ℕ
  -- The words of the comments.
  pub comments : List (List ℕ)

abbrev pub first_word : Exchange → List ℕ
first_word e = 83 ∷ 83 ∷ 72 ∷ 45 ∷ (e.protocol ++ 45 ∷ e.software)

-- "SSH-protoversion-softwareversion SP comments", without the end of the line.
abbrev pub print_exchange : Exchange → List ℕ
print_exchange e = join_words (first_word e) e.comments

abbrev pub comment_fields : List (List ℕ) → Fields
comment_fields [] = end
comment_fields (c ∷ more) = field "comments" (text c) end

abbrev pub exchange_fields : Exchange → Fields
exchange_fields e =
    field "protocol" (text e.protocol)
      (field "software" (text e.software) (comment_fields e.comments))

-- Printable ASCII without spaces, no dash in the version of the protocol; a word of the comments is not
-- empty.
abbrev pub IsExchange : Exchange → Type 0
IsExchange e =
    All IsGraphic e.protocol
    × Lacks 45 e.protocol
    × All IsGraphic e.software
    × All IsText e.comments

take-strip : (l : List ℕ) → take (length (l ++ crlf) - 2) (l ++ crlf) ≡ l
take-strip l =
    let shorter : length (l ++ crlf) - 2 ≡ length l = omega (arith, length-append l crlf) in
    rw shorter (take-length_append l crlf)

first_word-IsText : (e : Exchange) → IsExchange e → IsText (first_word e)
first_word-IsText e h = (
  omega arith,
  (
    omega arith,
    (
      omega arith,
      (
        omega arith,
        (omega arith, All-append IsGraphic e.protocol (45 ∷ e.software) h.0 (omega arith, h.2)),
      ),
    ),
  ),
)

-- What the line comes to: comments of two or more words are refused.
abbrev answer : Exchange → List (List ℕ) → LsmAction × PropMap
answer e (c ∷ d ∷ more) = (cancel, null)
answer e cs = (next, entries (exchange_fields e))

line_fields-cut :
    (w : List ℕ) (e : Exchange)
    → split_n 45 3 w ≡ (83 ∷ 83 ∷ 72 ∷ []) ∷ e.protocol ∷ e.software ∷ []
    → line_fields (w ∷ e.comments) ≡ answer e e.comments
unfolding line_fields version_fields
line_fields-cut w e h = by_words e.protocol e.software e.comments h
  where
    by_words :
        (p s : List ℕ) (cs : List (List ℕ))
        → split_n 45 3 w ≡ (83 ∷ 83 ∷ 72 ∷ []) ∷ p ∷ s ∷ []
        → line_fields (w ∷ cs) ≡ answer (record { protocol = p; software = s; comments = cs }) cs
    by_words p s [] q = rw q refl
    by_words p s (c ∷ []) q = rw q refl
    by_words p s (c ∷ d ∷ more) q = refl

has_prefix-print_exchange :
    (p s : List ℕ) (c : List (List ℕ))
    → has_prefix ssh_prefix
        (print_exchange (record { protocol = p; software = s; comments = c }) ++ crlf)
      ≡ true
unfolding has_prefix
has_prefix-print_exchange p s [] = refl
has_prefix-print_exchange p s (c ∷ more) = refl

parse_line-print :
    (e : Exchange)
    → IsExchange e
    → parse_line (some (print_exchange e ++ crlf)) ≡ answer e e.comments
unfolding parse_line
parse_line-print e h =
    let words = fields-join_words (first_word e) e.comments (first_word-IsText e h) h.3 in
    let dashes : Lacks 45 (83 ∷ 83 ∷ 72 ∷ []) = (omega arith, (omega arith, (omega arith, tt))) in
    rw
      (
        has_prefix-print_exchange e.protocol e.software e.comments,
        take-strip (print_exchange e),
        words,
      )
      (line_fields-cut (first_word e) e
        (split_n-three 45 (83 ∷ 83 ∷ 72 ∷ []) e.protocol e.software dashes h.1))

exec-print :
    (t : SshStep) (e : Exchange) (s : Side) (rest : List ℕ)
    → IsExchange e
    → s.buf ≡ print_exchange e ++ (crlf ++ rest)
    → exec t s ≡ ok (keep (answer e e.comments) (record s { buf = rest }))
unfolding exec parse_exchange_line
exec-print t e s rest h q =
    let plain = join_words-Lacks (first_word e) e.comments (first_word-IsText e h).1 h.3 in
    rw (q, get_until-line (print_exchange e) rest plain, parse_line-print e h) refl

long : (e : Exchange) (rest : List ℕ) → 0 < length (print_exchange e ++ (crlf ++ rest))
long e rest = omega (arith, length-append (print_exchange e) (crlf ++ rest))

-- What an exchange line on the side of the client, or of the server, is reported as.
abbrev pub exchange_update : Bool → Exchange → PropUpdate
exchange_update rev e = update_of rev (entries (exchange_fields e))

-- The side has seen nothing.
abbrev pub IsFresh : Bool → SshStream → Type 0
IsFresh true o = (o.resp ≡ new_side) × (o.resp_lsm ≡ new_lsm (parse_server_exchange_line ∷ []))
IsFresh false o = (o.req ≡ new_side) × (o.req_lsm ≡ new_lsm (parse_client_exchange_line ∷ []))

-- What `Feed` makes of the line.
abbrev pub IsAnswered : Bool → Exchange → List (List ℕ) → Fed SshStep → Type 0
IsAnswered rev e (c ∷ d ∷ more) f = (f.update ≡ none) × (f.is_done ≡ true)
IsAnswered rev e cs f = f.update ≡ some (exchange_update rev e)

-- What the machine of a side leaves.
left : SshStep → Exchange → List ℕ → List (List ℕ) → RunResult SshStep Side
left t e rest (c ∷ d ∷ more) = cancelled_one ssh t (record new_side { buf = rest })
left t e rest cs =
    ended_one ssh t
      (record new_side { buf = rest; found = entries (exchange_fields e); updated = true })

run_side-print :
    (t : SshStep) (e : Exchange) (rest : List ℕ)
    → IsExchange e
    → run_side ssh (new_lsm (t ∷ [])) new_side (print_exchange e ++ (crlf ++ rest))
      ≡ ok (left t e rest e.comments)
unfolding ssh append left
run_side-print t e rest h = by_words e.comments ran
  where
    bytes : List ℕ
    bytes = print_exchange e ++ (crlf ++ rest)

    ran :
        exec t (record new_side { buf = bytes })
        ≡ ok (keep (answer e e.comments) (record new_side { buf = rest }))
    ran = exec-print t e (record new_side { buf = bytes }) rest h refl

    by_words :
        (cs : List (List ℕ))
        → exec t (record new_side { buf = bytes })
          ≡ ok (keep (answer e cs) (record new_side { buf = rest }))
        → run_side ssh (new_lsm (t ∷ [])) new_side bytes ≡ ok (left t e rest cs)
    by_words [] q = run_side-one ssh t new_side _ bytes q
    by_words (c ∷ []) q = run_side-one ssh t new_side _ bytes q
    by_words (c ∷ d ∷ more) q = run_side-cancelled ssh t new_side _ bytes q

finish-IsAnswered :
    (rev : Bool) (t : SshStep) (o : SshStream) (e : Exchange) (rest : List ℕ) (cs : List (List ℕ))
    → IsAnswered rev e cs (finish ssh rev o (left t e rest cs))
unfolding finish update_if ssh left
finish-IsAnswered true t o e rest [] = refl
finish-IsAnswered true t o e rest (c ∷ []) = refl
finish-IsAnswered true t o e rest (c ∷ d ∷ more) = (refl, refl)
finish-IsAnswered false t o e rest [] = refl
finish-IsAnswered false t o e rest (c ∷ []) = refl
finish-IsAnswered false t o e rest (c ∷ d ∷ more) = (refl, refl)

-- Where a side of an SSH stream has seen nothing, a segment with its whole exchange line, its words
-- one space apart, makes `Feed` report the protocol, the software and the comments of the line,
-- whatever stands behind it, if the comments are missing or one word. Comments of two or more words
-- make it report nothing and end the stream.
pub feed_ssh-print_exchange :
    (rev : Bool) (o : SshStream) (e : Exchange) (rest : List ℕ)
    → IsExchange e
    → IsFresh rev o
    → (f : Fed SshStep) × (feed_ssh rev 0 (print_exchange e ++ (crlf ++ rest)) o ≡ ok f)
      × IsAnswered rev e e.comments f
unfolding feed_ssh
feed_ssh-print_exchange true o e rest h n = (
  _,
  feed-resp_run ssh o _ new_side _ (print_exchange e ++ (crlf ++ rest)) (long e rest)
      (run_side-print parse_server_exchange_line e rest h) n.0 n.1,
  finish-IsAnswered true parse_server_exchange_line o e rest e.comments,
)
feed_ssh-print_exchange false o e rest h n = (
  _,
  feed-req_run ssh o _ new_side _ (print_exchange e ++ (crlf ++ rest)) (long e rest)
      (run_side-print parse_client_exchange_line e rest h) n.0 n.1,
  finish-IsAnswered false parse_client_exchange_line o e rest e.comments,
)
