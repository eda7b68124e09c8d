-- ===== src/Logs/Entry/Texts.antt =====
-- Which message and which rule the loop of `entryFromLine` of internal/logs/reader.go keeps.
use caddy_waf_ui.Prelude.{
  ℕ, ◌≡◌, ◌≢◌, inl, inr, refl, ap, ◌∙◌, Option, none, some, List, [], ◌∷◌, map, if◌then◌else◌,
  arith, Bool-cases,
}
use caddy_waf_ui.Text.{Bytes, beq}
use caddy_waf_ui.Text.Laws.{beq_iff}
use caddy_waf_ui.Logs.Matches.{AuditEntry}
use caddy_waf_ui.Logs.Classify.{classify}
use caddy_waf_ui.Logs.Entry.{
  AuditMessage, AuditLine, Formats, rule_text, add_message, add_messages, entry_from_line,
  actionsets_of, normalize_timestamp, uri_of,
}

-- The first text of the list that is not empty, or the empty text if there is none.
pub data IsFirst : List Bytes → Bytes → Type 0 where
  all_empty : IsFirst [] []
  here : (text : Bytes) (texts : List Bytes) → text ≢ [] → IsFirst (text ∷ texts) text
  skip : {texts : List Bytes} {found : Bytes} → IsFirst texts found → IsFirst ([] ∷ texts) found

abbrev pub rule_or_empty : AuditMessage → Bytes
unfolding rule_text
rule_or_empty m = elim (rule_text m) [ some digits ↦ digits | none ↦ [] ]

abbrev choose : Bytes → Bytes → Bytes
choose text next = if beq text [] then next else text

keep_first : Bytes → List Bytes → Bytes
keep_first text [] = text
keep_first text (next ∷ texts) = keep_first (choose text next) texts

keep_first-set : (c : ℕ) (cs : Bytes) (texts : List Bytes) → keep_first (c ∷ cs) texts ≡ c ∷ cs
unfolding keep_first beq
keep_first-set c cs [] = refl
keep_first-set c cs (next ∷ texts) = keep_first-set c cs texts

keep_first-IsFirst : (texts : List Bytes) → IsFirst texts (keep_first [] texts)
unfolding keep_first beq
keep_first-IsFirst [] = all_empty
keep_first-IsFirst ([] ∷ texts) = skip (keep_first-IsFirst texts)
keep_first-IsFirst ((c ∷ cs) ∷ texts) =
    rw (keep_first-set c cs texts) (here (c ∷ cs) texts (λ e. cc))

message-add_messages :
    (entry : AuditEntry) (ms : List AuditMessage)
    → (add_messages entry ms).message ≡ keep_first entry.message (map AuditMessage.message ms)
unfolding add_messages add_message keep_first
message-add_messages entry [] = refl
message-add_messages entry (m ∷ ms) = message-add_messages (add_message entry m) ms

rule-choose :
    (id : Bytes) (m : AuditMessage)
    → (if beq id [] then elim (rule_text m) [ some digits ↦ digits | none ↦ id ] else id)
      ≡ choose id (rule_or_empty m)
unfolding beq rule_or_empty
rule-choose [] m = refl
rule-choose (c ∷ cs) m = refl

rule_id-add_messages :
    (entry : AuditEntry) (ms : List AuditMessage)
    → (add_messages entry ms).rule_id ≡ keep_first entry.rule_id (map rule_or_empty ms)
unfolding add_messages add_message keep_first
rule_id-add_messages entry [] = refl
rule_id-add_messages entry (m ∷ ms) =
    rule_id-add_messages (add_message entry m) ms
    ∙ ap (λ t. keep_first t (map rule_or_empty ms)) (rule-choose entry.rule_id m)

others-add_messages :
    (entry : AuditEntry) (ms : List AuditMessage)
    → ((add_messages entry ms).action ≡ entry.action)
      × ((add_messages entry ms).client ≡ entry.client)
unfolding add_messages add_message
others-add_messages entry [] = (refl, refl)
others-add_messages entry (m ∷ ms) = others-add_messages (add_message entry m) ms

-- What the entry of a line holds.
pub record IsEntryOf (line : AuditLine) (entry : AuditEntry) : Type 0 where
  pub has_id : line.transaction.id ≢ []
  pub verdict :
      entry.action
      ≡ classify line.transaction.action line.transaction.is_interrupted
          (actionsets_of line.messages)
  pub sender : entry.client ≡ line.transaction.client_ip
  pub first_message : IsFirst (map AuditMessage.message line.messages) entry.message
  pub first_rule : IsFirst (map rule_or_empty line.messages) entry.rule_id

pub data Mapped (line : AuditLine) : Option AuditEntry → Type 0 where
  no_id : line.transaction.id ≡ [] → Mapped line none
  entry_of : (entry : AuditEntry) → IsEntryOf line entry → Mapped line (some entry)

-- A line is refused exactly when its transaction has no id; the entry of another has its client and
-- verdict, the first message that is not empty, and the first rule id that is positive.
pub entry_from_line-Mapped :
    (formats : Formats) (line : AuditLine) → Mapped line (entry_from_line formats line)
unfolding entry_from_line
entry_from_line-Mapped formats line =
    let tx = line.transaction in
    let start : AuditEntry = record {
      timestamp = normalize_timestamp formats tx.timestamp tx.unix_timestamp;
      action = classify tx.action tx.is_interrupted (actionsets_of line.messages);
      client = tx.client_ip;
      uri = uri_of tx.request_uri;
      rule_id = [];
      message = [];
    } in
    let others = others-add_messages start line.messages in
    elim (Bool-cases (beq tx.id [])) [
      | inl empty ↦ rw (empty, entry_from_line) (no_id ((beq_iff tx.id []).0 empty))
      | inr named ↦
          rw (named, entry_from_line)
            (entry_of (add_messages start line.messages) record {
              has_id = λ e. absurd (ground (arith, named, (beq_iff tx.id []).1 e));
              verdict = others.0;
              sender = others.1;
              first_message =
                  rw (message-add_messages start line.messages)
                    (keep_first-IsFirst (map AuditMessage.message line.messages));
              first_rule =
                  rw (rule_id-add_messages start line.messages)
                    (keep_first-IsFirst (map rule_or_empty line.messages));
            })
    ]
