-- ===== src/IpRules.antt =====
-- internal/iprules/rules.go: validation, normalization and rendering of the allow and deny lists.
pub mod Arguments
pub mod Rendered
use caddy_waf_ui.Prelude.{
  Bool, true, false, not, ◌&&◌, Option, none, some, List, [], ◌∷◌, ◌++◌, if◌then◌else◌,
}
use caddy_waf_ui.Text.{Bytes, str, beq, join}
use caddy_waf_ui.Errors.{Error, invalid_ip, Result, ok, err}
use caddy_waf_ui.Domain.Model.{Site}
use caddy_waf_ui.Domain.Slug.{domain_slug}
use caddy_waf_ui.Domain.Overlay.{header}
use caddy_waf_ui.Waf.Mode.{managed_note}

pub record IpRules : Type 0 where
  pub allowlist : List Bytes
  pub denylist : List Bytes

-- Package net: the text of the network of ParseCIDR; whether the address of ParseIP is IPv4, and its
-- text.
pub record Net : Type 0 where
  pub parse_cidr : Bytes → Option Bytes
  pub parse_ip : Bytes → Option (Bool × Bytes)

abbrev pub of_ip : Bytes → Option (Bool × Bytes) → Result Bytes
of_ip entry none = err (invalid_ip entry)
of_ip entry (some (true, text)) = ok (text ++ str "/32")
of_ip entry (some (false, text)) = ok (text ++ str "/128")

unfoldable pub normalize_entry : Net → Bytes → Result Bytes
normalize_entry net entry = elim (net.parse_cidr entry) [
  | some network ↦ ok network
  | none ↦ of_ip entry (net.parse_ip entry)
]

abbrev pub onto : Bytes → Result (List Bytes) → Result (List Bytes)
onto text (ok texts) = ok (text ∷ texts)
onto text (err e) = err e

unfoldable pub normalize_entries : Net → List Bytes → Result (List Bytes)
unfolding normalize_entry
normalize_entries net [] = ok []
normalize_entries net (entry ∷ entries) =
    let rest = normalize_entries net entries in
    elim (normalize_entry net entry) [ ok text ↦ onto text rest | err e ↦ err e ]

abbrev fault_of : Result (List Bytes) → Option Error
fault_of (ok texts) = none
fault_of (err e) = some e

-- The error of the first entry that is refused, of the denylist first.
unfoldable pub validate_ip_rules : Net → IpRules → Option Error
unfolding normalize_entries
validate_ip_rules net rules = elim (normalize_entries net rules.denylist) [
  | err e ↦ some e
  | ok denied ↦ fault_of (normalize_entries net rules.allowlist)
]

abbrev pub deny_block : Bytes → Bytes → Bytes
deny_block slug deny =
    if beq deny []
    then []
    else str "# Denylist\n@ip_deny_"
      ++ (slug
          ++ (str " {\n    remote_ip "
              ++ (deny ++ (str "\n}\nabort @ip_deny_" ++ (slug ++ str "\n")))))

abbrev pub allow_block : Bytes → Bytes → Bytes
allow_block slug allow =
    if beq allow []
    then []
    else str "\n# Allowlist (if set, all other IPs are denied)\n@ip_allow_"
      ++ (slug
          ++ (str " {\n    not remote_ip "
              ++ (allow ++ (str "\n}\nabort @ip_allow_" ++ (slug ++ str "\n")))))

abbrev pub empty_note : Bytes → Bytes → Bytes
empty_note deny allow =
    if beq deny [] && beq allow [] then str "# No IP rules configured for this domain.\n" else []

-- The template, executed.
unfoldable pub render : Site → Bytes → Bytes → Bytes → Bytes
render site deny allow ts =
    let slug = domain_slug site.domain in
    managed_note
    ++ (header site.domain [] ts
        ++ (str "\n\n"
            ++ (deny_block slug deny
                ++ (allow_block slug allow ++ (empty_note deny allow ++ str "\n")))))

unfoldable pub generate_rules : Net → Site → IpRules → Bytes → Result Bytes
unfolding normalize_entries render
generate_rules net site rules ts = elim (normalize_entries net rules.denylist) [
  | err e ↦ err e
  | ok denied ↦ elim (normalize_entries net rules.allowlist) [
    | err e ↦ err e
    | ok allowed ↦ ok (render site (join denied (str " ")) (join allowed (str " ")) ts)
  ]
]
