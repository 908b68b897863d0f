-- ===== src/Alerting/Model.antt =====
-- src/sentinel/alerting/model.py: the alert that a detection becomes.
use sentinel_linux.Prelude.{ℕ, Bool, true, List, String}
use sentinel_linux.Prelude.Text.{text_append}
use sentinel_linux.Detection.Engine.{Detection}

pub record Alert : Type 0 where
  pub dedup_key : String
  pub rule_id : String
  pub title : String
  pub severity : ℕ
  pub attack : List String
  pub nist_csf : List String
  pub event_id : String
  pub host : String
  pub timestamp : ℕ
  pub summary : String
  pub notified : Bool

-- `Alert.from_detection`
unfoldable pub from_detection : Detection → Alert
from_detection d = record {
  dedup_key = text_append d.rule_id (text_append "|" d.event_id);
  rule_id = d.rule_id;
  title = d.title;
  severity = d.severity;
  attack = d.attack;
  nist_csf = d.nist_csf;
  event_id = d.event_id;
  host = d.host;
  timestamp = d.timestamp;
  summary = d.message;
  notified = true;
}
