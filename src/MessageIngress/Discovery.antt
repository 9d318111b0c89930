-- ===== src/MessageIngress/Discovery.antt =====
-- gateway/plugin_dir.py: the routes that the configurations of the workflows declare. Whether
-- `re.compile` takes a pattern is an argument.
use Prim.Native.Char.{code}
use Prim.Native.String.{[] as ε, ◌∷◌ as ◌▹◌}
use agentic_ops_platform.Prelude.{
  ℕ, ◌+◌, String, Bool, false, not, ◌&&◌, ◌||◌, ◌==◌, ltb, List, [], ◌∷◌, ◌++◌, if◌then◌else◌,
  str_eq, or_else,
}
use agentic_ops_platform.Py.Text.{strip, lower, text_length}
use agentic_ops_platform.Py.Number.{int_of}
use agentic_ops_platform.Py.Json.{
  Json, Items, Dict, flag, num, text, arr, obj, nil, cons, empty, entry, get, get?, either, str,
  truthy, as_dict,
}
use agentic_ops_platform.Py.Result.{Result, ok, raise, value_error, type_error, ◌>>=◌}
use agentic_ops_platform.MessageIngress.{MessageRoute, is_given}

chars_of : String → Items
chars_of ε = nil
chars_of (◌▹◌ c s) = cons (text (◌▹◌ c ε)) (chars_of s)

keys_of : Dict → Items
keys_of empty = nil
keys_of (entry k v d) = cons (text k) (keys_of d)

-- iter(v)
items_in : Json → Result Items
unfolding chars_of keys_of
items_in (arr xs) = ok xs
items_in (text s) = ok (chars_of s)
items_in (obj d) = ok (keys_of d)
items_in _ = raise type_error

-- v or []
abbrev or_empty_list : Json → Json
or_empty_list v = either v (arr nil)

-- [s for value in values if (s := str(value).strip())]
trimmed_texts : Items → List String
unfolding strip str
trimmed_texts nil = []
trimmed_texts (cons v rest) =
    let others = trimmed_texts rest in
    if str_eq (strip (str v)) "" then others else strip (str v) ∷ others

lower_all : List String → List String
unfolding lower
lower_all [] = []
lower_all (s ∷ rest) = lower s ∷ lower_all rest

-- tuple(str(value).strip() for value in d.get(k) or [] if str(value).strip())
texts_at : String → Dict → Result (List String)
unfolding items_in either get trimmed_texts
texts_at k d = items_in (or_empty_list (get k d)) >>= λ items. ok (trimmed_texts items)

messaging_config : Dict → Dict
unfolding either get as_dict
messaging_config config = as_dict (either (get "messaging" config) (obj empty))

-- One route for each channel, with the triggers of the workflow.
trigger_routes : String → List String → ℕ → List String → List MessageRoute
trigger_routes workflow triggers window [] = []
trigger_routes workflow triggers window (channel ∷ channels) =
    let rest = trigger_routes workflow triggers window channels in
    if is_given triggers
    then record {
      workflow = workflow;
      channel = channel;
      trigger_words = triggers;
      rule_id = "";
      provider = "";
      priority = 1000;
      match_type = "prefix";
      pattern = "";
      trusted_user_ids = [];
      trusted_webhook_ids = [];
      trusted_webhook_names = [];
      allow_bot = false;
      root_posts_only = false;
      preserve_full_body = false;
      allowed_accounts = [];
      allowed_environments = [];
      coalesce_window_sec = window;
    }
      ∷ rest
    else rest

-- s.count(c), of a character by its code
count_code : ℕ → String → ℕ
count_code k ε = 0
count_code k (◌▹◌ c s) = (if code c == k then 1 else 0) + count_code k s

abbrev has_code : ℕ → String → Bool
has_code k s = ltb 0 (count_code k s)

-- One of ( ) { } | + stands in the pattern, or more than eight *.
is_unsupported : String → Bool
unfolding count_code
is_unsupported s =
    has_code 40 s
    || has_code 41 s
    || has_code 123 s
    || has_code 125 s
    || has_code 124 s
    || has_code 43 s
    || ltb 8 (count_code 42 s)

unfoldable pub check_rule : (String → Bool) → String → String → String → Result {0} Unit
unfolding is_unsupported
check_rule compiles rule_id match_type pattern =
    if str_eq rule_id ""
      || not (str_eq match_type "prefix" || str_eq match_type "regex")
      || str_eq pattern ""
    then raise (value_error "invalid messaging rule")
    else if ltb 256 (text_length pattern)
    then raise (value_error "messaging rule pattern is too long")
    else if str_eq match_type "regex" && is_unsupported pattern
    then raise (value_error "messaging rule uses unsupported regex syntax")
    else if str_eq match_type "regex" && not (compiles pattern)
    then raise (value_error "messaging rule has invalid regex")
    else ok tt

-- A text of the rule, trimmed.
rule_text : String → Dict → String
unfolding strip str either get
rule_text k d = strip (str (either (get k d) (text "")))

-- The route of a rule, for a channel.
abbrev for_channel : MessageRoute → String → MessageRoute
for_channel route channel = record route { channel = channel }

for_channels : MessageRoute → List String → List MessageRoute
for_channels route [] = []
for_channels route (channel ∷ channels) = for_channel route channel ∷ for_channels route channels

-- raw_rule.get(k, False), as a truth value
abbrev rule_flag : String → Dict → Bool
rule_flag k rule = truthy (or_else (get? k rule) (flag false))

-- The route of a rule, but for its channel.
rule_route : String → ℕ → Dict → String → String → String → Result MessageRoute
unfolding rule_text lower texts_at int_of either get get? truthy as_dict lower_all
rule_route workflow window rule rule_id match_type pattern =
    let trusted = as_dict (get "trusted_senders" rule) in
    let constraints = as_dict (get "constraints" rule) in
    int_of (either (get "priority" rule) (num 0)) >>= λ priority.
    texts_at "user_ids" trusted >>= λ user_ids. texts_at "webhook_ids" trusted >>= λ webhook_ids.
    texts_at "webhook_names" trusted >>= λ webhook_names.
    texts_at "accounts" constraints >>= λ accounts.
    texts_at "environments" constraints >>= λ environments. ok (record {
      workflow = workflow;
      channel = "";
      trigger_words = [];
      rule_id = rule_id;
      provider = lower (rule_text "provider" rule);
      priority = 1000 + priority;
      match_type = match_type;
      pattern = pattern;
      trusted_user_ids = user_ids;
      trusted_webhook_ids = webhook_ids;
      trusted_webhook_names = webhook_names;
      allow_bot = rule_flag "allow_bot" rule;
      root_posts_only = rule_flag "root_posts_only" rule;
      preserve_full_body = rule_flag "preserve_full_body" rule;
      allowed_accounts = accounts;
      allowed_environments = lower_all environments;
      coalesce_window_sec = window;
    })

-- raw_rule.get("enabled", True) is False
is_disabled : Dict → Bool
unfolding get
is_disabled rule = elim (get "enabled" rule) [ flag b ↦ not b | _ ↦ false ]

-- No route is built where a rule has no channel.
rule_routes : (String → Bool) → String → ℕ → Dict → Dict → Result (List MessageRoute)
unfolding rule_text lower as_dict get check_rule items_in either trimmed_texts lower_all rule_route
    for_channels
rule_routes compiles workflow window messaging rule =
    let rule_id = rule_text "id" rule in
    let match = as_dict (get "match" rule) in
    let match_type = lower (rule_text "type" match) in
    let pattern = rule_text "pattern" match in
    check_rule compiles rule_id match_type pattern >>= λ checked.
    items_in (either (get "channels" rule) (or_empty_list (get "channels" messaging))) >>= λ items.
    elim (trimmed_texts items) [
      | [] ↦ ok []
      | c ∷ cs ↦ rule_route workflow window rule rule_id match_type pattern >>= λ route.
          ok (for_channels route (lower_all (c ∷ cs)))
    ]

rules_routes : (String → Bool) → String → ℕ → Dict → Items → Result (List MessageRoute)
unfolding rule_routes is_disabled
rules_routes compiles workflow window messaging nil = ok []
rules_routes compiles workflow window messaging (cons (obj rule) rules) =
    (if is_disabled rule then ok [] else rule_routes compiles workflow window messaging rule)
    >>= λ first.
        rules_routes compiles workflow window messaging rules >>= λ rest. ok (first ++ rest)
rules_routes compiles workflow window messaging (cons _ rules) =
    rules_routes compiles workflow window messaging rules

unfoldable pub workflow_routes : (String → Bool) → String → Dict → Result (List MessageRoute)
unfolding messaging_config as_dict get get? int_of items_in trimmed_texts lower_all either
    trigger_routes rules_routes
workflow_routes compiles workflow config =
    let messaging = messaging_config config in
    int_of (or_else (get? "alert_coalesce_window_sec" (as_dict (get "runtime" config))) (num 300))
    >>= λ window.
        items_in (or_else (get? "trigger_words" messaging) (arr (cons (text "@agent") nil)))
        >>= λ words. items_in (or_empty_list (get "channels" messaging)) >>= λ channels.
            items_in (or_empty_list (get "rules" messaging)) >>= λ rules.
            rules_routes compiles workflow window messaging rules >>= λ routes. ok (
              trigger_routes workflow (lower_all (trimmed_texts words)) window
                (lower_all (trimmed_texts channels))
              ++ routes)

-- The workflows with their configurations, in the order of their discovery.
unfoldable pub message_routes : (String → Bool) → List (String × Dict) → Result (List MessageRoute)
unfolding workflow_routes
message_routes compiles [] = ok []
message_routes compiles (w ∷ workflows) = workflow_routes compiles w.0 w.1 >>= λ first.
    message_routes compiles workflows >>= λ rest. ok (first ++ rest)
