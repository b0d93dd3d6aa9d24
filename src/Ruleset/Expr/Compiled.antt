-- ===== src/Ruleset/Expr/Compiled.antt =====
-- What the rules of a rule set that compiles are.
use open_gfw_for_frp_integra.Prelude.{
  if◌then◌else◌, Bool-cases, ℕ, String, ◌≡◌, refl, sym, ap, ◌∙◌, subst, ◌≢◌, ◌⊎◌, inl, inr, Bool,
  true, false, Option, none, some, List, [], ◌∷◌, arith,
}
use open_gfw_for_frp_integra.Ruleset.{
  Action, maybe, allow, block, drop_packet, modify, ModInstance, other_instance,
}
use open_gfw_for_frp_integra.Utils.Strings.{to_lower, same_text}
use open_gfw_for_frp_integra.Ruleset.Expr.{
  CompiledExprRule, action_string_to_action, ExprRule, Compilation, CompileError, no_action_or_log,
  failed_patch, Result, done, error, and_then, Setup, check_action, action_of, rule_action,
  use_identifiers, check_instance, check_modifier, rule_instance, check_compilation, compile_rule,
  compile_expr_rules,
}

and_then_inv :
    {A B : Type 0} (m : Result A) (f : A → Result B) (b : B)
    → and_then m f ≡ done b
    → (a : A) × (m ≡ done a) × (f a ≡ done b)
and_then_inv (done a) f b e = (a, refl, e)
and_then_inv (error name x) f b e = cc

abbrev value_or : {A : Type 0} → A → Result A → A
value_or a (done b) = b
value_or a (error name x) = a

done_inj : {A : Type 0} (a b : A) → done a ≡ done b → a ≡ b
done_inj a b e = ap (value_or a) e

done_if :
    {A : Type 0} (c : Bool) (a b : A) (name : String) (x : CompileError)
    → (if c then done a else error name x) ≡ done b
    → (c ≡ true) × (a ≡ b)
done_if true a b name x e = (refl, done_inj a b e)
done_if false a b name x e = cc

done_unless :
    {A : Type 0} (c : Bool) (a b : A) (name : String) (x : CompileError)
    → (if c then error name x else done a) ≡ done b
    → (c ≡ false) × (a ≡ b)
done_unless true a b name x e = cc
done_unless false a b name x e = (refl, done_inj a b e)

same_text→≡ : (s t : List ℕ) → same_text s t ≡ true → s ≡ t
same_text→≡ [] [] e = refl
same_text→≡ [] (y ∷ t) e = cc
same_text→≡ (x ∷ s) [] e = cc
same_text→≡ (x ∷ s) (y ∷ t) e = ground (arith, same_text→≡ s t)

-- How an action is written in a rule set: "maybe", "allow", "block", "drop" and "modify".
abbrev pub action_word : Action → List ℕ
action_word maybe = 109 ∷ 97 ∷ 121 ∷ 98 ∷ 101 ∷ []
action_word allow = 97 ∷ 108 ∷ 108 ∷ 111 ∷ 119 ∷ []
action_word block = 98 ∷ 108 ∷ 111 ∷ 99 ∷ 107 ∷ []
action_word drop_packet = 100 ∷ 114 ∷ 111 ∷ 112 ∷ []
action_word modify = 109 ∷ 111 ∷ 100 ∷ 105 ∷ 102 ∷ 121 ∷ []

-- A text that is the action's word, or another of the words that follow.
word_or :
    (l : List ℕ) (b a : Action) (rest : Option Action)
    → b ≢ maybe
    → (if same_text l (action_word b) then some b else rest) ≡ some a
    → ((a ≢ maybe) × (l ≡ action_word a)) ⊎ (rest ≡ some a)
word_or l b a rest n e = elim (Bool-cases (same_text l (action_word b))) [
  | inl h ↦ inl (
      subst (λ c. (c ≢ maybe) × (l ≡ action_word c)) (ground (arith, h, e))
        (n, same_text→≡ l (action_word b) h))
  | inr h ↦ inr (ground (arith, h, e))
]

action_string_to_action_lem :
    (unicode_lower : List ℕ → List ℕ) (s : List ℕ) (a : Action)
    → action_string_to_action unicode_lower s ≡ some a
    → (a ≢ maybe) × (to_lower unicode_lower s ≡ action_word a)
unfolding action_string_to_action
action_string_to_action_lem unicode_lower s a e =
    let l = to_lower unicode_lower s in
    elim (word_or l allow a _ (λ h. cc) e) [
      | inl w ↦ w
      | inr e1 ↦ elim (word_or l block a _ (λ h. cc) e1) [
        | inl w ↦ w
        | inr e2 ↦ elim (word_or l drop_packet a _ (λ h. cc) e2) [
          | inl w ↦ w
          | inr e3 ↦ elim (word_or l modify a none (λ h. cc) e3) [ inl w ↦ w | inr e4 ↦ cc ]
        ]
      ]
    ]

module _ {P G : Type 0} (setup : Setup P G) where
  -- The action of a compiled rule: none for a rule without a text that only logs; else the one that
  -- the text names, in letters of any case.
  abbrev pub IsActionOf : ExprRule G → Option Action → Type 0
  IsActionOf rule o =
      ((rule.action ≡ []) × (rule.log ≡ true) × (o ≡ none))
      ⊎ ((a : Action) × (a ≢ maybe)
          × (o ≡ some a)
          × (to_lower setup.unicode_lower rule.action ≡ action_word a))

  -- An instance that the modifier of the rule's name made of its arguments.
  abbrev pub IsMade : ExprRule G → ModInstance → Type 0
  IsMade rule i =
      (new : G → Option ModInstance) × (setup.modifiers rule.modifier_name ≡ some new)
      × (new rule.modifier_args ≡ some i)

  -- The instance of a compiled rule with the action: none but for "modify".
  abbrev pub IsInstanceOf : ExprRule G → Option Action → ModInstance → Type 0
  IsInstanceOf rule o i =
      ((o ≡ some modify) × IsMade rule i) ⊎ ((o ≢ some modify) × (i ≡ other_instance))

  -- The compiled rule is made of the rule: its action is the one of the rule's text, its program the
  -- one of its expression, its instance the one of its modifier.
  pub record IsCompiled (rule : ExprRule G) (c : CompiledExprRule P) : Type 0 where
    pub same_name : c.name ≡ rule.name
    pub same_log : c.log ≡ rule.log
    pub same_action : IsActionOf rule c.action
    pub compiled :
        (k : Compilation P) × (setup.compile rule.expr ≡ some k)
        × (c.program ≡ k.program)
        × (k.patch_failed ≡ false)
    pub instance_made : IsInstanceOf rule c.action c.mod_instance

  abbrev pub AreCompiled : List (ExprRule G) → List (CompiledExprRule P) → Type 0
  AreCompiled [] [] = Unit
  AreCompiled [] (c ∷ cs) = ⊥
  AreCompiled (rule ∷ rules) [] = ⊥
  AreCompiled (rule ∷ rules) (c ∷ cs) = IsCompiled rule c × AreCompiled rules cs

  action_of-IsActionOf :
      (rule : ExprRule G) (s : List ℕ) (action : Option Action)
      → rule.action ≡ s
      → action_of setup rule s ≡ done action
      → IsActionOf rule action
  action_of-IsActionOf rule [] action same e =
      let (logs, is_none) = done_if rule.log none action rule.name no_action_or_log e in
      inl (same, logs, sym is_none)
  action_of-IsActionOf rule (x ∷ s) action same e =
      parsed (action_string_to_action setup.unicode_lower (x ∷ s)) refl e
    where
      parsed :
          (o : Option Action)
          → action_string_to_action setup.unicode_lower (x ∷ s) ≡ o
          → check_action setup rule o ≡ done action
          → IsActionOf rule action
      parsed none p q = cc
      parsed (some a) p q =
          let (n, named) = action_string_to_action_lem setup.unicode_lower (x ∷ s) a p in
          inr
            (a, n, sym (done_inj (some a) action q), ap (to_lower setup.unicode_lower) same ∙ named)

  check_compilation-compiled :
      (rule : ExprRule G) (o : Option (Compilation P)) (k : Compilation P)
      → check_compilation setup rule o ≡ done k
      → (o ≡ some k) × (k.patch_failed ≡ false)
  check_compilation-compiled rule none k e = cc
  check_compilation-compiled rule (some c) k e =
      let (good, same) = done_unless c.patch_failed c k rule.name failed_patch e in
      (ap some same, ap (λ (c' : Compilation P). c'.patch_failed) (sym same) ∙ good)

  check_modifier-made :
      (rule : ExprRule G) (o : Option (G → Option ModInstance)) (i : ModInstance)
      → check_modifier setup rule o ≡ done i
      → (new : G → Option ModInstance) × (o ≡ some new) × (new rule.modifier_args ≡ some i)
  check_modifier-made rule none i e = cc
  check_modifier-made rule (some new) i e = (new, refl, made (new rule.modifier_args) e)
    where
      made : (o : Option ModInstance) → check_instance setup rule.name o ≡ done i → o ≡ some i
      made none q = cc
      made (some j) q = ap some (done_inj j i q)

  rule_instance-IsInstanceOf :
      (rule : ExprRule G) (action : Option Action) (i : ModInstance)
      → rule_instance setup rule action ≡ done i
      → IsInstanceOf rule action i
  unfolding rule_instance
  rule_instance-IsInstanceOf rule (some modify) i e =
      inl (refl, check_modifier-made rule (setup.modifiers rule.modifier_name) i e)
  rule_instance-IsInstanceOf rule (some maybe) i e = inr ((λ h. cc), sym (done_inj _ i e))
  rule_instance-IsInstanceOf rule (some allow) i e = inr ((λ h. cc), sym (done_inj _ i e))
  rule_instance-IsInstanceOf rule (some block) i e = inr ((λ h. cc), sym (done_inj _ i e))
  rule_instance-IsInstanceOf rule (some drop_packet) i e = inr ((λ h. cc), sym (done_inj _ i e))
  rule_instance-IsInstanceOf rule none i e = inr ((λ h. cc), sym (done_inj _ i e))

  compile_rule-IsCompiled :
      (rule : ExprRule G) (deps : List String) (r : CompiledExprRule P × List String)
      → compile_rule setup rule deps ≡ done r
      → IsCompiled rule r.0
  unfolding compile_rule rule_action
  compile_rule-IsCompiled rule deps r e =
      let (action, e1, f1) = and_then_inv (rule_action setup rule) _ r e in
      let (k, e2, f2) =
        and_then_inv (check_compilation setup rule (setup.compile rule.expr)) _ r f1 in
      let (deps', e3, f3) =
        and_then_inv (use_identifiers setup rule.name k.variables k.identifiers deps) _ r f2 in
      let (i, e4, f4) = and_then_inv (rule_instance setup rule action) _ r f3 in
      let (found, fine) = check_compilation-compiled rule (setup.compile rule.expr) k e2 in
      subst (IsCompiled rule) (ap (λ (u : CompiledExprRule P × List String). u.0) (done_inj _ r f4))
        (record {
          same_name = refl;
          same_log = refl;
          same_action = action_of-IsActionOf rule rule.action action refl e1;
          compiled = (k, found, refl, fine);
          instance_made = rule_instance-IsInstanceOf rule action i e4;
        })

  -- Of a rule set that compiles, each rule has become one, in its place, with its name and its log
  -- flag: with the action that its text names in letters of any case, or none if it has no text and
  -- logs; with the program of its expression; and with an instance exactly if the action is "modify",
  -- which the modifier of the rule's name made of its arguments.
  pub compile_expr_rules-AreCompiled :
      (rules : List (ExprRule G)) (deps : List String) (r : List (CompiledExprRule P) × List String)
      → compile_expr_rules setup rules deps ≡ done r
      → AreCompiled rules r.0
  unfolding compile_expr_rules
  compile_expr_rules-AreCompiled [] deps r e =
      subst (λ (u : List (CompiledExprRule P) × List String). AreCompiled [] u.0) (done_inj _ r e)
        tt
  compile_expr_rules-AreCompiled (rule ∷ rules) deps r e =
      let (c, e1, f1) = and_then_inv (compile_rule setup rule deps) _ r e in
      let (rest, e2, f2) = and_then_inv (compile_expr_rules setup rules c.1) _ r f1 in
      subst (λ (u : List (CompiledExprRule P) × List String). AreCompiled (rule ∷ rules) u.0)
        (done_inj _ r f2)
        (compile_rule-IsCompiled rule deps c e1, compile_expr_rules-AreCompiled rules c.1 rest e2)
