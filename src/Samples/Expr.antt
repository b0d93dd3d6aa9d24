-- ===== src/Samples/Expr.antt =====
-- Tests of ruleset/expr.go.
use open_gfw_for_frp_integra.Prelude.{ℕ, ◌≡◌, refl, ◌⊎◌, true, false, none, some, List, [], ◌∷◌}
use open_gfw_for_frp_integra.Ruleset.{block, modify, tcp, StreamInfo, udp_modifier, other_instance}
use open_gfw_for_frp_integra.Ruleset.Expr.{
  CompiledExprRule, Env, stream_info_to_expr_env, Ran, run_error, run_bool, match, ExprRule, done,
  Setup, compile_expr_rules,
}
use open_gfw_for_frp_integra.Ruleset.Expr.First.{IsFirst, IsUndecided, match-IsFirst}
use open_gfw_for_frp_integra.Ruleset.Expr.Compiled.{AreCompiled, compile_expr_rules-AreCompiled}

-- A program is what it answers.
abbrev answer : Ran → Env → Ran
answer program env = program

abbrev watch : CompiledExprRule Ran
watch = record {
  name = "watch";
  action = none;
  log = true;
  mod_instance = other_instance;
  program = run_bool true;
}

abbrev broken : CompiledExprRule Ran
broken = record (watch) { name = "broken"; program = run_error }

abbrev stop : CompiledExprRule Ran
stop = record (watch) { name = "stop"; action = some block }

abbrev info : StreamInfo
info = record {
  id = 1;
  protocol = tcp;
  src_ip = [];
  dst_ip = [];
  src_port = 1;
  dst_port = 2;
  properties = [];
}

abbrev rules : List (CompiledExprRule Ran)
rules = watch ∷ broken ∷ stop ∷ watch ∷ []

match-IsFirst_example :
    IsFirst answer (stream_info_to_expr_env info) rules (match answer rules info)
    ⊎ IsUndecided answer (stream_info_to_expr_env info) rules (match answer rules info)
match-IsFirst_example = match-IsFirst answer rules info

-- "BLOCK" and "modify" in the rules' text.
abbrev big_block : List ℕ
big_block = 66 ∷ 76 ∷ 79 ∷ 67 ∷ 75 ∷ []

abbrev setup : Setup Ran (List ℕ)
setup = record {
  unicode_lower = λ s. s;
  compile = λ text. some (record {
    program = run_bool true;
    patch_failed = false;
    identifiers = "dns" ∷ "ip" ∷ "x" ∷ [];
    variables = "x" ∷ [];
  });
  init = λ name. none;
  analyzers = "dns" ∷ "tls" ∷ [];
  modifiers = λ name.
      some (λ args. some (udp_modifier (λ bytes. record { bytes = some args; failed = false })));
}

abbrev text_rules : List (ExprRule (List ℕ))
text_rules =
    record {
      name = "one";
      action = big_block;
      log = false;
      modifier_name = "";
      modifier_args = [];
      expr = [];
    }
    ∷ record {
      name = "two";
      action = 109 ∷ 111 ∷ 100 ∷ 105 ∷ 102 ∷ 121 ∷ [];
      log = true;
      modifier_name = "dns";
      modifier_args = 5 ∷ [];
      expr = [];
    }
    ∷ []

abbrev compiled_rules : List (CompiledExprRule Ran)
compiled_rules =
    record {
      name = "one";
      action = some block;
      log = false;
      mod_instance = other_instance;
      program = run_bool true;
    }
    ∷ record {
      name = "two";
      action = some modify;
      log = true;
      mod_instance = udp_modifier (λ bytes. record { bytes = some (5 ∷ []); failed = false });
      program = run_bool true;
    }
    ∷ []

text_rules_compile : compile_expr_rules setup text_rules [] ≡ done (compiled_rules, "dns" ∷ [])
unfolding compile_expr_rules
text_rules_compile = refl

compile_expr_rules-AreCompiled_example : AreCompiled setup text_rules compiled_rules
compile_expr_rules-AreCompiled_example =
    compile_expr_rules-AreCompiled setup text_rules [] (compiled_rules, "dns" ∷ [])
      text_rules_compile
