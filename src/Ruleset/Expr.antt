-- ===== src/Ruleset/Expr.antt =====
-- ruleset/expr.go: the rule set of expressions. The compiler and the machine of expressions
-- (expr-lang) are parameters: `P` is its program. Errors are told apart by where they arise.
pub mod First
pub mod Compiled
use open_gfw_for_frp_integra.Prelude.{
  if◌then◌else◌, set, ℕ, ◌+◌, ◌-◌, ◌/◌, String, str_eq, Bool, true, false, ◌||◌, Option, none, some,
  List, [], ◌∷◌, ◌++◌,
}
use open_gfw_for_frp_integra.Analyzer.{PropMap, null, entries, end, field, CombinedPropMap}
use open_gfw_for_frp_integra.Ruleset.{
  Action, maybe, allow, block, drop_packet, modify, Protocol, StreamInfo, ModInstance,
  other_instance, MatchResult,
}
use open_gfw_for_frp_integra.Utils.Strings.{to_lower, same_text}

pub record CompiledExprRule (P : Type 0) : Type 0 where
  pub name : String
  -- `none` is nil: the rule falls through.
  pub action : Option Action
  pub log : Bool
  pub mod_instance : ModInstance
  pub program : P

-- The values of the environment of an expression.
pub data EnvValue : Type 0 where
  env_id : ℕ → EnvValue
  env_proto : Protocol → EnvValue
  env_ip : List ℕ → List ℕ → EnvValue
  env_port : ℕ → ℕ → EnvValue
  env_props : PropMap → EnvValue

abbrev pub Env : Type 0
Env = List (String × EnvValue)

unfoldable pub put_env : String → EnvValue → Env → Env
put_env k v [] = (k, v) ∷ []
put_env k v ((j, w) ∷ env) = if str_eq j k then (k, v) ∷ env else (j, w) ∷ put_env k v env

-- `len(anProps) != 0`
abbrev has_props : PropMap → Bool
has_props null = false
has_props (entries end) = false
has_props (entries (field k v m)) = true

unfoldable pub put_props : CombinedPropMap → Env → Env
unfolding put_env
put_props [] env = env
put_props ((name, m) ∷ cpm) env =
    put_props cpm (if has_props m then put_env name (env_props m) env else env)

unfoldable pub stream_info_to_expr_env : StreamInfo → Env
unfolding put_props
stream_info_to_expr_env info = put_props info.properties (
    ("id", env_id info.id)
    ∷ ("proto", env_proto info.protocol)
    ∷ ("ip", env_ip info.src_ip info.dst_ip)
    ∷ ("port", env_port info.src_port info.dst_port)
    ∷ [])

-- What vm.Run returns: an error, a bool, or a value of another type.
pub data Ran : Type 0 where
  run_error : Ran
  run_bool : Bool → Ran
  run_other : Ran

-- The calls of the logger, oldest first.
pub data RuleEvent : Type 0 where
  match_error : String → RuleEvent
  matched : String → RuleEvent

abbrev no_match : MatchResult
no_match = record { action = maybe; mod_instance = other_instance }

module _ {P : Type 0} (run : P → Env → Ran) where
  -- What a rule of which the expression is true adds to the log.
  abbrev pub logged : CompiledExprRule P → List RuleEvent
  logged rule = if rule.log then matched rule.name ∷ [] else []

  abbrev after_event : List RuleEvent → MatchResult × List RuleEvent → MatchResult × List RuleEvent
  after_event events (result, later) = (result, events ++ later)

  -- The body of the loop, on what the rest of the rules gives.
  abbrev pub apply_rule :
      CompiledExprRule P → Ran → MatchResult × List RuleEvent → MatchResult × List RuleEvent
  apply_rule rule run_error rest = after_event (match_error rule.name ∷ []) rest
  apply_rule rule run_other rest = rest
  apply_rule rule (run_bool false) rest = rest
  apply_rule rule (run_bool true) rest = elim (rule.action) [
    | none ↦ after_event (logged rule) rest
    | some a ↦ (record { action = a; mod_instance = rule.mod_instance }, logged rule)
  ]

  unfoldable pub match_loop : Env → List (CompiledExprRule P) → MatchResult × List RuleEvent
  match_loop env [] = (no_match, [])
  match_loop env (rule ∷ rules) =
      let rest = match_loop env rules in apply_rule rule (run rule.program env) rest

  unfoldable pub match : List (CompiledExprRule P) → StreamInfo → MatchResult × List RuleEvent
  unfolding match_loop stream_info_to_expr_env
  match rules info = match_loop (stream_info_to_expr_env info) rules

-- "allow", "block", "drop" and "modify"
unfoldable pub action_string_to_action : (List ℕ → List ℕ) → List ℕ → Option Action
unfolding to_lower
action_string_to_action unicode_lower s =
    let l = to_lower unicode_lower s in
    if same_text l (97 ∷ 108 ∷ 108 ∷ 111 ∷ 119 ∷ [])
    then some allow
    else if same_text l (98 ∷ 108 ∷ 111 ∷ 99 ∷ 107 ∷ [])
    then some block
    else if same_text l (100 ∷ 114 ∷ 111 ∷ 112 ∷ [])
    then some drop_packet
    else if same_text l (109 ∷ 111 ∷ 100 ∷ 105 ∷ 102 ∷ 121 ∷ [])
    then some modify
    else none

-- `G` is the type of a modifier's arguments.
pub record ExprRule (G : Type 0) : Type 0 where
  pub name : String
  pub action : List ℕ
  pub log : Bool
  pub modifier_name : String
  pub modifier_args : G
  pub expr : List ℕ

-- What expr.Compile leaves with the visitor and the patcher: the program, whether a patch failed,
-- and the identifiers and the variables in the order in which they are met.
pub record Compilation (P : Type 0) : Type 0 where
  pub program : P
  pub patch_failed : Bool
  pub identifiers : List String
  pub variables : List String

pub data CompileError : Type 0 where
  no_action_or_log invalid_action invalid_expression failed_patch failed_init : CompileError
  unknown_modifier failed_modifier : CompileError

pub data Result (A : Type 0) : Type 0 where
  done : A → Result A
  error : String → CompileError → Result A

abbrev pub and_then : {A B : Type 0} → Result A → (A → Result B) → Result B
and_then (done a) f = f a
and_then (error name e) f = error name e

abbrev pub contains : List String → String → Bool
contains [] name = false
contains (x ∷ xs) name = str_eq x name || contains xs name

unfoldable pub is_built_in_analyzer : String → Bool
is_built_in_analyzer name = contains ("id" ∷ "proto" ∷ "ip" ∷ "port" ∷ []) name

abbrev pub add_name : String → List String → List String
add_name name names = if contains names name then names else name ∷ names

-- The parts that the compiler of a rule set is given: the expression compiler, the functions (whether
-- a name is one, and whether its initialization succeeds), the names of the analyzers, and the
-- modifiers by their names.
pub record Setup (P G : Type 0) : Type 0 where
  pub unicode_lower : List ℕ → List ℕ
  pub compile : List ℕ → Option (Compilation P)
  pub init : String → Option Bool
  pub analyzers : List String
  pub modifiers : String → Option (G → Option ModInstance)

module _ {P G : Type 0} (setup : Setup P G) where
  abbrev check_action : ExprRule G → Option Action → Result (Option Action)
  check_action rule none = error rule.name invalid_action
  check_action rule (some a) = done (some a)

  abbrev action_of : ExprRule G → List ℕ → Result (Option Action)
  action_of rule [] = if rule.log then done none else error rule.name no_action_or_log
  action_of rule (x ∷ s) = check_action rule (action_string_to_action setup.unicode_lower (x ∷ s))

  -- The action of a rule: none for an empty string.
  unfoldable pub rule_action : ExprRule G → Result (Option Action)
  unfolding action_string_to_action
  rule_action rule = action_of rule rule.action

  -- The loop over the identifiers: functions are initialized, analyzers are depended on.
  abbrev use_name : String → String → Option Bool → List String → Result (List String)
  use_name rule name (some true) deps = done deps
  use_name rule name (some false) deps = error rule failed_init
  use_name rule name none deps =
      done (if contains setup.analyzers name then add_name name deps else deps)

  unfoldable pub use_identifiers :
      String → List String → List String → List String → Result (List String)
  unfolding is_built_in_analyzer
  use_identifiers rule variables [] deps = done deps
  use_identifiers rule variables (name ∷ names) deps =
      and_then
        (if is_built_in_analyzer name || contains variables name
          then done deps
          else use_name rule name (setup.init name) deps)
        (use_identifiers rule variables names)

  abbrev check_instance : String → Option ModInstance → Result ModInstance
  check_instance rule none = error rule failed_modifier
  check_instance rule (some i) = done i

  abbrev check_modifier : ExprRule G → Option (G → Option ModInstance) → Result ModInstance
  check_modifier rule none = error rule.name unknown_modifier
  check_modifier rule (some new) = check_instance rule.name (new rule.modifier_args)

  -- The instance of the modifier, for a rule that modifies.
  unfoldable pub rule_instance : ExprRule G → Option Action → Result ModInstance
  rule_instance rule (some modify) = check_modifier rule (setup.modifiers rule.modifier_name)
  rule_instance rule _ = done other_instance

  abbrev check_compilation : ExprRule G → Option (Compilation P) → Result (Compilation P)
  check_compilation rule none = error rule.name invalid_expression
  check_compilation rule (some c) = if c.patch_failed then error rule.name failed_patch else done c

  -- The body of the loop: the compiled rule, and the analyzers that are needed so far.
  unfoldable pub compile_rule : ExprRule G → List String → Result (CompiledExprRule P × List String)
  unfolding rule_action use_identifiers rule_instance
  compile_rule rule deps = and_then (rule_action rule) λ action.
      and_then (check_compilation rule (setup.compile rule.expr)) λ c.
        and_then (use_identifiers rule.name c.variables c.identifiers deps) λ deps'.
          and_then (rule_instance rule action) λ i. done (
            record {
              name = rule.name;
              action = action;
              log = rule.log;
              mod_instance = i;
              program = c.program;
            },
            deps',
          )

  unfoldable pub compile_expr_rules :
      List (ExprRule G) → List String → Result (List (CompiledExprRule P) × List String)
  unfolding compile_rule
  compile_expr_rules [] deps = done ([], deps)
  compile_expr_rules (rule ∷ rules) deps =
      and_then (compile_rule rule deps)
        λ r. and_then (compile_expr_rules rules r.1) λ rest. done (r.0 ∷ rest.0, rest.1)
