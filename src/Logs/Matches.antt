-- ===== src/Logs/Matches.antt =====
-- `AuditEntry` of internal/logs and `matches` of internal/logs/reader.go.
use caddy_waf_ui.Prelude.{
  Bool, true, false, ◌≡◌, ◌⊎◌, ◌↔◌, arith, List, [], ◌∷◌, not, ◌||◌, if◌then◌else◌, any,
}
use caddy_waf_ui.Text.{Bytes, beq, contains, to_lower, trim_space, equal_fold}
use caddy_waf_ui.Text.Laws.{beq_iff, Occurs, contains_iff}
use caddy_waf_ui.Logs.Classify.{Verdict, action_text}

pub record AuditEntry : Type 0 where
  pub timestamp : Bytes
  pub action : Verdict
  pub client : Bytes
  pub uri : Bytes
  pub rule_id : Bytes
  pub message : Bytes

-- The texts that a search looks into.
abbrev pub haystacks : AuditEntry → List Bytes
haystacks e = e.client ∷ (e.uri ∷ (e.rule_id ∷ (e.message ∷ [])))

-- `action == "" || strings.EqualFold(e.Action, action)`.
abbrev has_action : AuditEntry → Bytes → Bool
has_action e action = beq action [] || equal_fold (action_text e.action) action

abbrev is_found : AuditEntry → Bytes → Bool
is_found e search =
    let needle = to_lower (trim_space search) in
    if beq (trim_space search) []
    then true
    else any (λ hay. contains (to_lower hay) needle) (haystacks e)

unfoldable pub matches : AuditEntry → Bytes → Bytes → Bool
matches e search action = if not (has_action e action) then false else is_found e search

-- The filter on the action: none is set, or it is the entry's up to case.
abbrev pub HasAction : AuditEntry → Bytes → Type 0
HasAction e action = (action ≡ []) ⊎ (to_lower (action_text e.action) ≡ to_lower action)

-- The search text: there is none, or it occurs, up to case, in one of the four texts.
abbrev pub IsFound : AuditEntry → Bytes → Type 0
IsFound e search =
    let needle = to_lower (trim_space search) in
    (trim_space search ≡ [])
    ⊎ (Occurs (to_lower e.client) needle
        ⊎ (Occurs (to_lower e.uri) needle
            ⊎ (Occurs (to_lower e.rule_id) needle ⊎ Occurs (to_lower e.message) needle)))

action_iff : (e : AuditEntry) (action : Bytes) → (has_action e action ≡ true) ↔ HasAction e action
unfolding equal_fold
action_iff e action =
    ground (arith, beq_iff action [], beq_iff (to_lower (action_text e.action)) (to_lower action))

search_iff : (e : AuditEntry) (search : Bytes) → (is_found e search ≡ true) ↔ IsFound e search
search_iff e search =
    let needle = to_lower (trim_space search) in
    ground (
      arith,
      beq_iff (trim_space search) [],
      contains_iff (to_lower e.client) needle,
      contains_iff (to_lower e.uri) needle,
      contains_iff (to_lower e.rule_id) needle,
      contains_iff (to_lower e.message) needle,
    )

-- An entry is shown exactly when its action is the one of the filter, up to case, and the trimmed
-- search text occurs, up to case, in its client, URI, rule or message; an empty filter or search
-- does not restrict.
pub matches_iff :
    (e : AuditEntry) (search action : Bytes)
    → (matches e search action ≡ true) ↔ (HasAction e action × IsFound e search)
unfolding matches
matches_iff e search action = ground (arith, action_iff e action, search_iff e search)
