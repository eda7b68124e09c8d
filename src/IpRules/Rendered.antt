-- ===== src/IpRules/Rendered.antt =====
-- `GenerateSnippet` of internal/iprules/rules.go as a whole.
use caddy_waf_ui.Prelude.{◌⊎◌, inl, inr, List}
use caddy_waf_ui.Text.{Bytes, str, join}
use caddy_waf_ui.Errors.{invalid_ip, Result, ok, err}
use caddy_waf_ui.Domain.Model.{Site}
use caddy_waf_ui.IpRules.{IpRules, Net, normalize_entries, render, generate_rules}
use caddy_waf_ui.IpRules.Arguments.{
  PrintsAddresses, IsRefused, Among, AllNormalized, addresses, one_refused,
  normalize_entries-AllNormalized, IsArguments, join-IsArguments,
}

-- The outcome for the two lists: refused for an entry of one of them, or rendered with two arguments
-- of address bytes and spaces.
pub data Rendered (net : Net) (site : Site) (rules : IpRules) (ts : Bytes)
    : Result Bytes → Type 0 where
  rejected :
      (entry : Bytes)
      → Among entry rules.denylist ⊎ Among entry rules.allowlist
      → IsRefused net entry
      → Rendered net site rules ts (err (invalid_ip entry))
  rendered :
      (deny allow : Bytes)
      → IsArguments deny
      → IsArguments allow
      → Rendered net site rules ts (ok (render site deny allow ts))

both-Rendered :
    (net : Net) (site : Site) (rules : IpRules) (ts : Bytes) (denied allowed : Result (List Bytes))
    → AllNormalized net rules.denylist denied
    → AllNormalized net rules.allowlist allowed
    → Rendered net site rules ts (elim denied [
      | err e ↦ err e
      | ok ds ↦ elim allowed [
        | err e ↦ err e
        | ok as' ↦ ok (render site (join ds (str " ")) (join as' (str " ")) ts)
      ]
    ])
both-Rendered net site rules ts (err d) allowed (one_refused entry among refused) other =
    rejected entry (inl among) refused
both-Rendered net site rules ts (ok ds) (err e) (addresses d h) (one_refused entry among refused) =
    rejected entry (inr among) refused
both-Rendered net site rules ts (ok ds) (ok as') (addresses d h) (addresses a k) =
    rendered (join d (str " ")) (join a (str " ")) (join-IsArguments d h) (join-IsArguments a k)

-- Where package net prints addresses with their usual bytes: the snippet is refused for an entry that
-- is neither an address nor a network, or its matchers receive address bytes and spaces only, so that
-- no entry can close a matcher or begin a directive.
pub generate_rules-Rendered :
    (net : Net)
    → PrintsAddresses net
    → (site : Site) (rules : IpRules) (ts : Bytes)
    → Rendered net site rules ts (generate_rules net site rules ts)
unfolding generate_rules
generate_rules-Rendered net prints site rules ts =
    both-Rendered net site rules ts (normalize_entries net rules.denylist)
      (normalize_entries net rules.allowlist)
      (normalize_entries-AllNormalized net prints rules.denylist)
      (normalize_entries-AllNormalized net prints rules.allowlist)
