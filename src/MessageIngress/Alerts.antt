-- ===== src/MessageIngress/Alerts.antt =====
-- shared/lib/alert_envelope.py: the identity of an alert. What the regular expressions find, and
-- the digest SHA-256, are arguments.
use Prim.Native.String.{◌++◌ as ◌+++◌}
use agentic_ops_platform.Prelude.{
  ◌≡◌, refl, ℕ, String, ◌||◌, Option, none, some, [], ◌∷◌, if◌then◌else◌, str_eq, or_else,
}
use agentic_ops_platform.Py.Text.{strip, lower, decimal}
use agentic_ops_platform.Py.Slices.{join}
use agentic_ops_platform.Py.Json.{Dict, num, text, empty, entry}

pub record AlertEnvelope : Type 0 where
  pub version : ℕ
  pub source : String
  pub identity : String
  pub state : String
  pub account : String
  pub region : String
  pub environment : String

-- The groups of the ARN of an alarm.
pub record Arn : Type 0 where
  pub region : String
  pub account : String
  pub name : String

-- The first match of each pattern, and `hashlib.sha256(s.encode("utf-8")).hexdigest()`.
pub record AlertPatterns : Type 0 where
  pub find_splunk : String → Option String
  pub find_arn : String → Option Arn
  pub find_name : String → Option String
  pub find_environment : String → Option String
  pub find_status : String → Option String
  pub sha256_hex : String → String

-- asdict(self)
unfoldable pub as_metadata : AlertEnvelope → Dict
as_metadata a = entry "version" (num a.version) (
    entry "source" (text a.source) (
      entry "identity" (text a.identity) (
        entry "state" (text a.state) (
          entry "account" (text a.account)
            (entry "region" (text a.region) (entry "environment" (text a.environment) empty))))))

unfoldable pub canonical : AlertEnvelope → String → String
unfolding join strip lower decimal
canonical a workflow = join "\u{1f}" (
    lower (strip workflow)
    ∷ a.source
    ∷ a.account
    ∷ a.region
    ∷ a.environment
    ∷ lower a.identity
    ∷ decimal a.version
    ∷ [])

unfoldable pub envelope_key : AlertPatterns → AlertEnvelope → String → String
unfolding canonical decimal
envelope_key p a workflow =
    ◌+++◌ "alert:v" (◌+++◌ (decimal a.version) (◌+++◌ ":" (p.sha256_hex (canonical a workflow))))

canonical_state : String → String
unfolding strip lower
canonical_state value =
    let normalized = lower (strip value) in
    if str_eq normalized "alarm"
      || str_eq normalized "alert"
      || str_eq normalized "firing"
      || str_eq normalized "triggered"
    then "firing"
    else if str_eq normalized "ok"
        || str_eq normalized "resolved"
        || str_eq normalized "recovered"
        || str_eq normalized "recovery"
    then "recovery"
    else "unknown"

-- An envelope needs an identity.
with_identity : AlertEnvelope → Option AlertEnvelope
with_identity a = if str_eq a.identity "" then none else some a

splunk_envelope : String → Option AlertEnvelope
unfolding strip with_identity
splunk_envelope name = with_identity (record {
  version = 1;
  source = "splunk";
  identity = strip name;
  state = "firing";
  account = "";
  region = "";
  environment = "";
})

abbrev arn_part : (Arn → String) → Option Arn → String
arn_part part none = ""
arn_part part (some a) = part a

aws_envelope : AlertPatterns → String → Option Arn → Option String → Option AlertEnvelope
unfolding strip lower with_identity canonical_state
aws_envelope p body none none = none
aws_envelope p body arn name = with_identity (record {
  version = 1;
  source = "aws";
  identity = strip (or_else name (arn_part (λ a. a.name) arn));
  state = canonical_state (or_else (p.find_status body) "");
  account = arn_part (λ a. a.account) arn;
  region = lower (arn_part (λ a. a.region) arn);
  environment = lower (strip (or_else (p.find_environment body) ""));
})

by_source : AlertPatterns → String → Option String → Option AlertEnvelope
unfolding splunk_envelope aws_envelope
by_source p body (some name) = splunk_envelope name
by_source p body none = aws_envelope p body (p.find_arn body) (p.find_name body)

unfoldable pub parse_alert_envelope : AlertPatterns → String → Option AlertEnvelope
unfolding strip by_source
parse_alert_envelope p s =
    let body = strip s in if str_eq body "" then none else by_source p body (p.find_splunk body)

separator_runs : lower "\u{1f}A" ≡ "\u{1f}a"
unfolding lower
separator_runs = refl
