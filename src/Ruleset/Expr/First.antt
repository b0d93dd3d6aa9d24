-- ===== src/Ruleset/Expr/First.antt =====
-- `Match` answers with the first rule that is true and has an action.
use open_gfw_for_frp_integra.Prelude.{
  All, ◌≡◌, refl, sym, ap, ◌∙◌, ◌≢◌, ◌⊎◌, inl, inr, Bool, true, false, Option, none, some, List, [],
  ◌∷◌, ◌++◌, append_assoc,
}
use open_gfw_for_frp_integra.Ruleset.{Action, maybe, MatchResult, other_instance, StreamInfo}
use open_gfw_for_frp_integra.Ruleset.Expr.{
  CompiledExprRule, Env, stream_info_to_expr_env, Ran, run_error, run_bool, run_other, RuleEvent,
  match_error, logged, apply_rule, match_loop, match,
}

abbrev truth : Ran → Bool
truth (run_bool b) = b
truth run_error = false
truth run_other = false

not_both : (v : Ran) → v ≡ run_bool false → v ≢ run_bool true
not_both v e f = let h : false ≡ true = ap truth (sym e ∙ f) in cc

module _ {P : Type 0} (run : P → Env → Ran) where
  -- What a rule that does not end the search adds to the log.
  abbrev pub passed : CompiledExprRule P → Ran → List RuleEvent
  passed rule run_error = match_error rule.name ∷ []
  passed rule run_other = []
  passed rule (run_bool false) = []
  passed rule (run_bool true) = logged run rule

  abbrev pub passed_all : Env → List (CompiledExprRule P) → List RuleEvent
  passed_all env [] = []
  passed_all env (rule ∷ rules) = passed rule (run rule.program env) ++ passed_all env rules

  -- The rule is true and has the action.
  abbrev pub Decides : Env → Action → CompiledExprRule P → Type 0
  Decides env a rule = (run rule.program env ≡ run_bool true) × (rule.action ≡ some a)

  abbrev pub Passes : Env → CompiledExprRule P → Type 0
  Passes env rule = (a : Action) → ¬ Decides env a rule

  -- The rules before the first that decides, that rule, its action, and the rules behind it.
  pub record IsFirst (env : Env) (rules : List (CompiledExprRule P))
      (r : MatchResult × List RuleEvent) : Type 0 where
    pub before : List (CompiledExprRule P)
    pub rule : CompiledExprRule P
    pub after : List (CompiledExprRule P)
    pub action : Action
    pub cut : rules ≡ before ++ rule ∷ after
    pub passing : All (Passes env) before
    pub deciding : Decides env action rule
    pub answer : r ≡ (
      record { action = action; mod_instance = rule.mod_instance },
      passed_all env before ++ logged run rule,
    )

  abbrev pub IsUndecided : Env → List (CompiledExprRule P) → MatchResult × List RuleEvent → Type 0
  IsUndecided env rules r =
      All (Passes env) rules
      × (r ≡ (record { action = maybe; mod_instance = other_instance }, passed_all env rules))

  apply_rule-cases :
      (env : Env) (rule : CompiledExprRule P) (rest : MatchResult × List RuleEvent)
      → ((a : Action) × Decides env a rule
          × (apply_rule run rule (run rule.program env) rest
              ≡ (record { action = a; mod_instance = rule.mod_instance }, logged run rule)))
        ⊎ (Passes env rule
            × (apply_rule run rule (run rule.program env) rest
                ≡ (rest.0, passed rule (run rule.program env) ++ rest.1)))
  apply_rule-cases env rule rest = by_result (run rule.program env) rule.action refl refl
    where
      by_result :
          (v : Ran) (action : Option Action)
          → run rule.program env ≡ v
          → rule.action ≡ action
          → ((a : Action) × Decides env a rule
              × (apply_rule run rule v rest
                  ≡ (record { action = a; mod_instance = rule.mod_instance }, logged run rule)))
            ⊎ (Passes env rule × (apply_rule run rule v rest ≡ (rest.0, passed rule v ++ rest.1)))
      by_result run_error action e n = inr (λ a d. cc, refl)
      by_result run_other action e n = inr (λ a d. cc, refl)
      by_result (run_bool false) action e n =
          inr (λ a d. not_both (run rule.program env) e d.0, refl)
      by_result (run_bool true) none e n = inr (λ a d. cc, rw n refl)
      by_result (run_bool true) (some a) e n = inl (a, (e, n), rw n refl)

  match_loop-IsFirst :
      (env : Env) (rules : List (CompiledExprRule P))
      → IsFirst env rules (match_loop run env rules)
        ⊎ IsUndecided env rules (match_loop run env rules)
  unfolding match_loop
  match_loop-IsFirst env [] = inr (tt, refl)
  match_loop-IsFirst env (rule ∷ rules) =
      elim (apply_rule-cases env rule (match_loop run env rules)) [
        | inl (a, d, e) ↦ inl (record {
          before = [];
          rule = rule;
          after = rules;
          action = a;
          cut = refl;
          passing = tt;
          deciding = d;
          answer = e;
        })
        | inr (p, e) ↦ elim (match_loop-IsFirst env rules) [
          | inl w ↦ inl (record {
            before = rule ∷ w.before;
            rule = w.rule;
            after = w.after;
            action = w.action;
            cut = ap (λ l. rule ∷ l) w.cut;
            passing = (p, w.passing);
            deciding = w.deciding;
            answer =
                e
                ∙ ap (λ r. (r.0, passed rule (run rule.program env) ++ r.1)) w.answer
                ∙ ap (λ l. (record { action = w.action; mod_instance = w.rule.mod_instance }, l))
                    (sym (
                      append_assoc (passed rule (run rule.program env)) (passed_all env w.before)
                        (logged run w.rule)));
          })
          | inr w ↦
              inr ((p, w.0), e ∙ ap (λ r. (r.0, passed rule (run rule.program env) ++ r.1)) w.1)
        ]
      ]

  -- On the environment of the stream, `Match` answers with the action and the modifier of the first
  -- rule whose expression is true and that has an action; where there is none it answers "maybe". The
  -- log has the errors of the rules that were passed and the names of those that are true and log,
  -- in order, and nothing of the rules behind the first.
  pub match-IsFirst :
      (rules : List (CompiledExprRule P)) (info : StreamInfo)
      → IsFirst (stream_info_to_expr_env info) rules (match run rules info)
        ⊎ IsUndecided (stream_info_to_expr_env info) rules (match run rules info)
  unfolding match
  match-IsFirst rules info = match_loop-IsFirst (stream_info_to_expr_env info) rules
