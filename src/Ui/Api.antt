-- ===== src/Ui/Api.antt =====
-- internal/ui/api.go: the handlers of the management API.
pub mod Endings
pub mod Modes
pub mod Lists
use caddy_waf_ui.Prelude.{
  ℕ, ◌^◌, Bool, Option, none, some, List, [], ◌∷◌, ◌++◌, length, take, ltb, if◌then◌else◌,
}
use caddy_waf_ui.Text.{Bytes, str}
use caddy_waf_ui.Errors.{
  Error, Sentinel, err_invalid_domain, err_invalid_mode, err_invalid_backup, is_error, Result, ok,
  err,
}
use caddy_waf_ui.System.{World, Context, Exec}
use caddy_waf_ui.Domain.Model.{WafMode}
use caddy_waf_ui.Files.Backup.{BackupInfo}
use caddy_waf_ui.Files.Listing.{list_backups}
use caddy_waf_ui.Waf.Exclusions.{Exclusion, validate_exclusions}
use caddy_waf_ui.IpRules.{IpRules, Net, validate_ip_rules}
use caddy_waf_ui.Service.Chain.{Reloader}
use caddy_waf_ui.Service.Updates.{update_waf_mode, update_exclusions, rollback}
use caddy_waf_ui.Service.IpUpdates.{update_ip_rules}
use caddy_waf_ui.Web.Http.{Request, Answer}
use caddy_waf_ui.Web.Limits.{split_host}
use caddy_waf_ui.Web.Reply.{http_error, write_json}

-- What a decoder of package json makes of the bytes that it may read: a value, an error, or it needs
-- more bytes.
pub data Reading (A : Type 0) : Type 0 where
  value : A → Reading A
  malformed : Reading A
  needs_more : Reading A

-- Package json on the types of the requests and of the answer, and the text of an error.
pub record Codec : Type 0 where
  pub mode : Bytes → Reading WafMode
  pub exclusions : Bytes → Reading (List Exclusion)
  pub ip_rules : Bytes → Reading IpRules
  pub backup : Bytes → Reading Bytes
  pub snapshots : List BackupInfo → Bytes
  pub error_text : Error → Bytes

abbrev pub max_body_bytes : ℕ
max_body_bytes = 2 ^ 20

pub data Decoded (A : Type 0) : Type 0 where
  decoded : A → Decoded A
  unreadable : Answer → Decoded A

abbrev pub bad_payload : Answer
bad_payload = http_error 400 (str "Invalid payload")

abbrev pub too_large : Answer
too_large = http_error 413 (str "Payload too large")

abbrev of_reading : {A : Type 0} → Bool → Reading A → Decoded A
of_reading over (value a) = decoded a
of_reading over malformed = unreadable bad_payload
of_reading over needs_more = unreadable (if over then too_large else bad_payload)

-- The reader ends with its own error behind the first `maxBodyBytes` bytes of a longer body.
unfoldable pub decode_json_body : {A : Type 0} → (Bytes → Reading A) → Request → Decoded A
decode_json_body read r =
    of_reading (ltb max_body_bytes (length r.body)) (read (take max_body_bytes r.body))

unfoldable pub client_ip : Request → Bytes
unfolding split_host
client_ip r = elim (split_host r.remote_addr) [ some host ↦ host | none ↦ r.remote_addr ]

abbrev pub status_success : Answer
status_success = write_json 200 (str "{\"status\":\"success\"}")

-- The answer to an error is that of the first sentinel that it wraps, or 500.
unfoldable pub error_answer : List (Sentinel × Bytes) → Bytes → Error → Answer
error_answer [] text e = http_error 500 text
error_answer ((sentinel, known) ∷ more) text e =
    let rest = error_answer more text e in
    if is_error e sentinel then http_error 400 known else rest

abbrev pub outcome_answer : List (Sentinel × Bytes) → Bytes → Result (Unit {0}) → Answer
outcome_answer known text (ok a) = status_success
outcome_answer known text (err e) = error_answer known text e

abbrev pub domain_known : Sentinel × Bytes
domain_known = (err_invalid_domain, str "Invalid domain")

abbrev pub failed_text : Bytes
failed_text = str "Error applying the configuration"

-- The step of the service, answered.
abbrev pub answered : List (Sentinel × Bytes) → Bytes → Exec (Unit {0}) → World → Answer × World
answered known text m w = let (r, v) = m w in (outcome_answer known text r, v)

abbrev pub with_body :
    {A : Type 0} → Decoded A → (A → World → Answer × World) → World → Answer × World
with_body (decoded a) f w = f a w
with_body (unreadable answer) f w = (answer, w)

-- A payload that its validation refuses is answered before the chain.
abbrev pub unless_refused : Codec → Option Error → (World → Answer × World) → World → Answer × World
unless_refused codec none f w = f w
unless_refused codec (some e) f w = (http_error 400 (codec.error_text e), w)

abbrev pub listed : Codec → Result (List BackupInfo) → Answer
listed codec (err e) = http_error 500 (str "Error listing backups")
listed codec (ok snapshots) = write_json 200 (codec.snapshots snapshots ++ str "\n")

module _ (reloader : Reloader) (codec : Codec) (net : Net) (ctx : Context) where
  unfoldable pub handle_set_mode : Bytes → Request → World → Answer × World
  unfolding decode_json_body client_ip error_answer
  handle_set_mode domain_name r = with_body (decode_json_body codec.mode r) (λ mode.
      answered (domain_known ∷ ((err_invalid_mode, str "Invalid WAF mode") ∷ [])) failed_text
        (update_waf_mode reloader ctx domain_name mode (client_ip r)))

  unfoldable pub handle_set_exclusions : Bytes → Request → World → Answer × World
  unfolding decode_json_body client_ip error_answer
  handle_set_exclusions domain_name r =
      with_body (decode_json_body codec.exclusions r) (λ exclusions.
        unless_refused codec (validate_exclusions exclusions) (
          answered (domain_known ∷ []) failed_text
            (update_exclusions reloader ctx domain_name exclusions (client_ip r))))

  unfoldable pub handle_set_ip_rules : Bytes → Request → World → Answer × World
  unfolding decode_json_body client_ip error_answer
  handle_set_ip_rules domain_name r = with_body (decode_json_body codec.ip_rules r) (λ rules.
      unless_refused codec (validate_ip_rules net rules) (
        answered (domain_known ∷ []) failed_text
          (update_ip_rules reloader net ctx domain_name rules (client_ip r))))

  unfoldable pub handle_list_backups : Bytes → Request → World → Answer × World
  handle_list_backups domain_name r w =
      let (infos, v) = list_backups ctx domain_name w in (listed codec infos, v)

  unfoldable pub handle_rollback : Bytes → Request → World → Answer × World
  unfolding decode_json_body client_ip error_answer
  handle_rollback domain_name r = with_body (decode_json_body codec.backup r) (λ backup.
      answered (domain_known ∷ ((err_invalid_backup, str "Invalid configuration snapshot") ∷ []))
        (str "Error restoring the configuration")
        (rollback reloader ctx domain_name backup (client_ip r)))
