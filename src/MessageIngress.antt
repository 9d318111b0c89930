-- ===== src/MessageIngress.antt =====
-- gateway/message_ingress.py and gateway/plugin_dir.py: the message, the routes of the workflows,
-- and the route that a message takes. The searches of regular expressions are arguments.
pub mod Unique
pub mod Alerts
pub mod PostText
pub mod Providers
pub mod Discovery
pub mod Threads
pub mod Intake
pub mod Trust
pub mod Handled
pub mod Interactive
use agentic_ops_platform.Prelude.{
  ℕ, String, Bool, true, false, not, ◌&&◌, ◌||◌, ◌==◌, Option, none, some, List, [], ◌∷◌, ◌++◌,
  if◌then◌else◌, str_eq, any, select_where, find_where, max,
}
use agentic_ops_platform.Py.Text.{strip, lower, text_length}
use agentic_ops_platform.Py.Slices.{take_text, drop_text, starts_with}

pub record InboundMessage : Type 0 where
  pub provider : String
  pub message_id : String
  pub thread_id : String
  pub channel_id : String
  pub channel_name : String
  pub team_id : String
  pub team_name : String
  pub user_id : String
  pub username : String
  pub body : String
  pub created_at_ms : ℕ
  pub is_bot : Bool
  pub is_webhook : Bool
  pub webhook_id : String
  pub webhook_name : String
  pub text_truncated : Bool

pub record MessageRoute : Type 0 where
  pub workflow : String
  pub channel : String
  pub trigger_words : List String
  pub rule_id : String
  pub provider : String
  -- 1000 more than the source's, which the schema bounds below by -1000
  pub priority : ℕ
  pub match_type : String
  pub pattern : String
  pub trusted_user_ids : List String
  pub trusted_webhook_ids : List String
  pub trusted_webhook_names : List String
  pub allow_bot : Bool
  pub root_posts_only : Bool
  pub preserve_full_body : Bool
  pub allowed_accounts : List String
  pub allowed_environments : List String
  pub coalesce_window_sec : ℕ

-- What the module `re` finds: the accounts and environments of a text, and the end of the first
-- match of a pattern.
pub record Patterns : Type 0 where
  pub find_accounts : String → List String
  pub find_environments : String → List String
  pub search_end : String → String → Option ℕ

abbrev pub max_route_input_chars : ℕ
max_route_input_chars = 32000

-- bool(xs)
abbrev pub is_given : List String → Bool
is_given [] = false
is_given (x ∷ xs) = true

-- s in xs
abbrev pub is_in : List String → String → Bool
is_in xs s = any (λ x. str_eq x s) xs

-- xs.issubset(ys)
abbrev pub is_subset : List String → List String → Bool
is_subset [] ys = true
is_subset (x ∷ xs) ys = is_in ys x && is_subset xs ys

environment_alias : String → String
environment_alias s =
    if str_eq s "prod" then "production" else if str_eq s "dev" then "development" else s

environments_of : List String → List String
unfolding environment_alias lower
environments_of [] = []
environments_of (x ∷ xs) = environment_alias (lower x) ∷ environments_of xs

-- What a route allows, where it allows not everything.
abbrev pub is_within : List String → List String → Bool
is_within allowed found = not (is_given allowed) || is_given found && is_subset found allowed

unfoldable pub matches_route_constraints : Patterns → String → MessageRoute → Bool
unfolding environments_of
matches_route_constraints p s route =
    is_within route.allowed_accounts (p.find_accounts s)
    && is_within route.allowed_environments (environments_of (p.find_environments s))

-- A webhook has to be known by its id or its name.
abbrev pub is_trusted_webhook : InboundMessage → MessageRoute → Bool
is_trusted_webhook m route =
    not (str_eq m.webhook_id "") && is_in route.trusted_webhook_ids m.webhook_id
    || not (str_eq m.webhook_name "") && is_in route.trusted_webhook_names m.webhook_name

unfoldable pub matches_sender_trust : InboundMessage → MessageRoute → Bool
matches_sender_trust m route =
    if is_given route.trusted_user_ids && not (is_in route.trusted_user_ids m.user_id)
    then false
    else if not (m.is_bot || m.is_webhook)
    then true
    else if not route.allow_bot
        || not (is_given route.trusted_user_ids)
        || not (is_in route.trusted_user_ids m.user_id)
    then false
    else if m.is_webhook
    then is_trusted_webhook m route
    else true

-- s or None
abbrev pub nonempty : String → Option String
nonempty s = if str_eq s "" then none else some s

unfoldable pub match_rule : Patterns → MessageRoute → String → Option String
unfolding strip lower starts_with drop_text
match_rule p route s =
    if str_eq route.match_type "regex"
    then (elim (p.search_end route.pattern s) [
      | none ↦ none
      | some end_ ↦ nonempty (if route.preserve_full_body then s else strip (drop_text end_ s))
    ])
    else if not (starts_with (lower s) (lower route.pattern))
    then none
    else nonempty
        (if route.preserve_full_body then s else strip (drop_text (text_length route.pattern) s))

unfoldable pub match_trigger : List String → String → Option String
unfolding strip lower starts_with drop_text
match_trigger [] s = none
match_trigger (trigger ∷ triggers) s =
    let rest = match_trigger triggers s in
    let prompt = strip (drop_text (text_length trigger) s) in
    if starts_with (lower s) trigger && not (str_eq prompt "") then some prompt else rest

unfoldable pub match_route_prompt :
    Patterns → InboundMessage → MessageRoute → String → Option String
unfolding matches_sender_trust matches_route_constraints match_rule match_trigger
match_route_prompt p m route s =
    if not (str_eq route.provider "") && not (str_eq route.provider m.provider)
    then none
    else if route.root_posts_only && not (str_eq m.thread_id m.message_id)
    then none
    else if not (matches_sender_trust m route) || not (matches_route_constraints p s route)
    then none
    else if not (str_eq route.rule_id "")
    then match_rule p route s
    else match_trigger route.trigger_words s

-- A route that matched, with the prompt.
pub record Match : Type 0 where
  pub route : MessageRoute
  pub prompt : String

same_words : List String → List String → Bool
same_words [] [] = true
same_words [] (y ∷ ys) = false
same_words (x ∷ xs) [] = false
same_words (x ∷ xs) (y ∷ ys) = str_eq x y && same_words xs ys

-- (workflow, rule_id, match_type, pattern, trigger_words)
unfoldable pub same_identity : MessageRoute → MessageRoute → Bool
unfolding same_words
same_identity r q =
    str_eq r.workflow q.workflow
    && str_eq r.rule_id q.rule_id
    && str_eq r.match_type q.match_type
    && str_eq r.pattern q.pattern
    && same_words r.trigger_words q.trigger_words

-- route.channel in channel_values
unfoldable pub in_channel : InboundMessage → MessageRoute → Bool
unfolding strip lower
in_channel m route =
    not (str_eq route.channel "")
    && (str_eq (lower (strip m.channel_id)) route.channel
        || str_eq (lower (strip m.channel_name)) route.channel)

unfoldable pub prompt_for : Patterns → InboundMessage → String → MessageRoute → Option String
unfolding in_channel match_route_prompt
prompt_for p m s route = if in_channel m route then match_route_prompt p m route s else none

-- matches.setdefault(identity, (route, prompt))
unfoldable pub set_default : Match → List Match → List Match
unfolding same_identity
set_default x matches =
    if any (λ (y : Match). same_identity y.route x.route) matches
    then matches
    else matches ++ x ∷ []

-- One route of the loop, by its prompt.
unfoldable pub add_match : MessageRoute → Option String → List Match → List Match
unfolding set_default
add_match route none matches = matches
add_match route (some prompt) matches =
    set_default (record { route = route; prompt = prompt }) matches

unfoldable pub collect :
    Patterns → InboundMessage → String → List MessageRoute → List Match → List Match
unfolding prompt_for add_match
collect p m s [] matches = matches
collect p m s (route ∷ routes) matches =
    collect p m s routes (add_match route (prompt_for p m s route) matches)

unfoldable pub highest_priority : List Match → ℕ
highest_priority [] = 0
highest_priority (x ∷ xs) = max x.route.priority (highest_priority xs)

abbrev pub only : List Match → Option Match
only (x ∷ []) = some x
only _ = none

abbrev pub winners : List Match → List Match
winners matches = select_where (λ (x : Match). x.route.priority == highest_priority matches) matches

-- message.text.strip()[:MAX_ROUTE_INPUT_CHARS]
unfoldable pub route_input : InboundMessage → String
unfolding strip take_text
route_input m = take_text max_route_input_chars (strip m.body)

unfoldable pub match_message_route : Patterns → InboundMessage → List MessageRoute → Option Match
unfolding collect highest_priority route_input
match_message_route p m routes = only (winners (collect p m (route_input m) routes []))
