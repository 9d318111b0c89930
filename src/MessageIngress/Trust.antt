-- ===== src/MessageIngress/Trust.antt =====
-- Whose messages start tasks.
use agentic_ops_platform.Prelude.{
  String, ◌≡◌, Bool, true, false, not, ◌&&◌, ◌||◌, some, inl, inr, Bool-cases, arith, str_eq,
  if◌then◌else◌,
}
use agentic_ops_platform.MessageIngress.{
  InboundMessage, MessageRoute, Patterns, Match, is_given, is_in, is_trusted_webhook,
  matches_sender_trust, matches_route_constraints, match_route_prompt, in_channel, prompt_for,
  route_input, match_message_route,
}
use agentic_ops_platform.MessageIngress.Unique.{IsChosen, match_message_route-IsChosen}
use agentic_ops_platform.MessageIngress.Intake.{Ingress}

-- A route with a list of users takes a message of one of them only; a bot or a webhook needs a
-- route that allows bots and lists its user, and a webhook has to be known.
pub record IsTrusted (m : InboundMessage) (route : MessageRoute) : Type 0 where
  pub users : is_given route.trusted_user_ids ≡ true → is_in route.trusted_user_ids m.user_id ≡ true
  pub machines :
      (m.is_bot || m.is_webhook) ≡ true
      → (route.allow_bot ≡ true) × (is_in route.trusted_user_ids m.user_id ≡ true)
  pub webhooks : m.is_webhook ≡ true → is_trusted_webhook m route ≡ true

-- The tests of `_matches_sender_trust`, on the answers.
abbrev trusts : Bool → Bool → Bool → Bool → Bool → Bool → Bool
trusts given member bot webhook allowed known =
    if given && not member
    then false
    else if not (bot || webhook)
    then true
    else if not allowed || not given || not member
    then false
    else if webhook
    then known
    else true

trusts-users : (g i b w a k : Bool) → trusts g i b w a k ≡ true → g ≡ true → i ≡ true
trusts-users g i b w a k h e = ground arith

trusts-machines :
    (g i b w a k : Bool) → trusts g i b w a k ≡ true → (b || w) ≡ true → (a ≡ true) × (i ≡ true)
trusts-machines g i b w a k h e = (ground arith, ground arith)

trusts-webhooks : (g i b w a k : Bool) → trusts g i b w a k ≡ true → w ≡ true → k ≡ true
trusts-webhooks g i b w a k h e = ground arith

matches_sender_trust-IsTrusted :
    (m : InboundMessage) (route : MessageRoute)
    → matches_sender_trust m route ≡ true
    → IsTrusted m route
unfolding matches_sender_trust
matches_sender_trust-IsTrusted m route h =
    let g = is_given route.trusted_user_ids in
    let i = is_in route.trusted_user_ids m.user_id in
    let k = is_trusted_webhook m route in
    record {
      users = trusts-users g i m.is_bot m.is_webhook route.allow_bot k h;
      machines = trusts-machines g i m.is_bot m.is_webhook route.allow_bot k h;
      webhooks = trusts-webhooks g i m.is_bot m.is_webhook route.allow_bot k h;
    }

module _ (p : Patterns) (m : InboundMessage) (route : MessageRoute) (s prompt : String) where
  match_route_prompt-allowed :
      match_route_prompt p m route s ≡ some prompt
      → (matches_sender_trust m route ≡ true) × (matches_route_constraints p s route ≡ true)
  unfolding match_route_prompt
  match_route_prompt-allowed h =
      elim (Bool-cases (not (str_eq route.provider "") && not (str_eq route.provider m.provider))) [
        | inl other ↦ cc (rw other at h)
        | inr here ↦
            elim (Bool-cases (route.root_posts_only && not (str_eq m.thread_id m.message_id))) [
              | inl reply ↦ cc (rw (here, reply) at h)
              | inr post ↦ elim (Bool-cases (matches_sender_trust m route)) [
                | inr strange ↦ cc (rw (here, post, strange) at h)
                | inl trusted ↦ elim (Bool-cases (matches_route_constraints p s route)) [
                  | inr outside ↦ cc (rw (here, post, trusted, outside) at h)
                  | inl within ↦ (trusted, within)
                ]
              ]
            ]
      ]

  prompt_for-allowed :
      prompt_for p m s route ≡ some prompt
      → (matches_sender_trust m route ≡ true) × (matches_route_constraints p s route ≡ true)
  unfolding prompt_for
  prompt_for-allowed h = elim (Bool-cases (in_channel m route)) [
    | inl here ↦ match_route_prompt-allowed (rw here at h)
    | inr elsewhere ↦ cc (rw elsewhere at h)
  ]

-- The route that a message takes trusts its sender and allows its accounts and environments.
pub record IsAdmitted (c : Ingress) (m : InboundMessage) : Type 0 where
  pub match : Match
  pub chosen : IsChosen c.patterns m c.routes match
  pub trusted : IsTrusted m match.route
  pub within : matches_route_constraints c.patterns (route_input m) match.route ≡ true

pub chosen-IsAdmitted :
    (c : Ingress) (m : InboundMessage) (x : Match)
    → match_message_route c.patterns m c.routes ≡ some x
    → IsAdmitted c m
chosen-IsAdmitted c m x h =
    let chosen = match_message_route-IsChosen c.patterns m c.routes x h in
    let (trusted, within) =
      prompt_for-allowed c.patterns m x.route (route_input m) x.prompt chosen.applies in
    record {
      match = x;
      chosen = chosen;
      trusted = matches_sender_trust-IsTrusted m x.route trusted;
      within = within;
    }
