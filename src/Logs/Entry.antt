-- ===== src/Logs/Entry.antt =====
-- The JSON shape of Coraza's audit log and `entryFromLine`, `parseLine`, `actionsetsOf`,
-- `normalizeTimestamp` of internal/logs/reader.go.
pub mod Texts
use caddy_waf_ui.Prelude.{
  ℕ, suc, Bool, true, false, ◌≡◌, ◌⊎◌, inl, inr, refl, Option, none, some, List, [], ◌∷◌, ◌++◌, map,
  not, ◌&&◌, if◌then◌else◌, ℤ, pos, negsuc, ltb,
}
use caddy_waf_ui.Text.{Bytes, beq}
use caddy_waf_ui.Waf.Exclusions.{decimal_text}
use caddy_waf_ui.Logs.Classify.{classify}
use caddy_waf_ui.Logs.Matches.{AuditEntry}

-- `auditMessage`; of `auditMsgData` only the id is read.
pub record AuditMessage : Type 0 where
  pub message : Bytes
  pub actionset : Bytes
  pub data_id : Option ℤ

pub record AuditTransaction : Type 0 where
  pub timestamp : Bytes
  pub unix_timestamp : ℤ
  pub id : Bytes
  pub client_ip : Bytes
  pub is_interrupted : Bool
  pub action : Bytes
  pub request_uri : Option Bytes

pub record AuditLine : Type 0 where
  pub transaction : AuditTransaction
  pub messages : List AuditMessage

-- One call of json.Decoder's Decode: io.EOF, an error, or a value and what is left of the input.
pub data Decoded : Type 0 where
  at_end malformed : Decoded
  decoded : AuditLine → Bytes → Decoded

-- Packages encoding/json and time, as far as the reader calls them.
pub record Formats : Type 0 where
  pub unmarshal : Bytes → Option AuditLine
  pub decode : Bytes → Decoded
  -- time.Parse with the Apache layout, then Format with RFC 3339.
  pub apache_to_rfc : Bytes → Option Bytes
  -- time.Unix(...).UTC().Format with RFC 3339.
  pub unix_to_rfc : ℕ → Bytes

abbrev pub actionsets_of : List AuditMessage → List Bytes
actionsets_of = map AuditMessage.actionset

unfoldable pub normalize_timestamp : Formats → Bytes → ℤ → Bytes
normalize_timestamp formats ts unix =
    if not (beq ts [])
    then elim (formats.apache_to_rfc ts) [ some parsed ↦ parsed | none ↦ ts ]
    else elim unix [ pos n ↦ if ltb 0 n then formats.unix_to_rfc n else ts | negsuc n ↦ ts ]

-- `m.Data != nil && m.Data.ID > 0`, and the digits of the id.
unfoldable pub rule_text : AuditMessage → Option Bytes
rule_text m = elim m.data_id [
  | some (pos n) ↦ if ltb 0 n then some (decimal_text n) else none
  | some (negsuc n) ↦ none
  | none ↦ none
]

-- One turn of the loop over the messages.
unfoldable pub add_message : AuditEntry → AuditMessage → AuditEntry
unfolding rule_text
add_message entry m =
    let message = if beq entry.message [] then m.message else entry.message in
    let rule_id =
      if beq entry.rule_id []
      then elim (rule_text m) [ some digits ↦ digits | none ↦ entry.rule_id ]
      else entry.rule_id in
    record entry { message = message; rule_id = rule_id }

unfoldable pub add_messages : AuditEntry → List AuditMessage → AuditEntry
unfolding add_message
add_messages entry [] = entry
add_messages entry (m ∷ ms) = add_messages (add_message entry m) ms

abbrev pub uri_of : Option Bytes → Bytes
uri_of none = []
uri_of (some uri) = uri

-- `none` is the error "line without transaction.id".
unfoldable pub entry_from_line : Formats → AuditLine → Option AuditEntry
unfolding add_messages normalize_timestamp
entry_from_line formats line =
    let tx = line.transaction in
    let entry : AuditEntry = record {
      timestamp = normalize_timestamp formats tx.timestamp tx.unix_timestamp;
      action = classify tx.action tx.is_interrupted (actionsets_of line.messages);
      client = tx.client_ip;
      uri = uri_of tx.request_uri;
      rule_id = [];
      message = [];
    } in
    if beq tx.id [] then none else some (add_messages entry line.messages)

unfoldable pub parse_line : Formats → Bytes → Option AuditEntry
unfolding entry_from_line
parse_line formats raw = elim (formats.unmarshal raw) [
  | none ↦ none
  | some line ↦ entry_from_line formats line
]
