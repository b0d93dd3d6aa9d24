-- ===== src/Ruleset.antt =====
-- ruleset/interface.go, io/interface.go and modifier/interface.go: actions, verdicts, and what the
-- engine asks of a rule set. The rule set's `Match` is a function of the stream's properties.
pub mod Expr
pub mod Geo
use open_gfw_for_frp_integra.Prelude.{ℕ, Bool, Option, List}
use open_gfw_for_frp_integra.Analyzer.{CombinedPropMap}

pub data Action : Type 0 where
  maybe allow block drop_packet modify : Action

pub data Verdict : Type 0 where
  accept accept_modify accept_stream drop_one drop_stream : Verdict

pub data Protocol : Type 0 where
  tcp udp : Protocol

pub record StreamInfo : Type 0 where
  pub id : ℕ
  pub protocol : Protocol
  pub src_ip : List ℕ
  pub dst_ip : List ℕ
  pub src_port : ℕ
  pub dst_port : ℕ
  pub properties : CombinedPropMap

-- What `Process` of a UDP modifier returns: the bytes (Go's nil is `none`), and whether the error
-- is set.
pub record Processed : Type 0 where
  pub bytes : Option (List ℕ)
  pub failed : Bool

-- The dynamic type of a `modifier.Instance`: it is a UDP modifier, or something else (nil too).
pub data ModInstance : Type 0 where
  udp_modifier : (List ℕ → Processed) → ModInstance
  other_instance : ModInstance

pub record MatchResult : Type 0 where
  pub action : Action
  pub mod_instance : ModInstance

abbrev pub Match : Type 0
Match = StreamInfo → MatchResult
