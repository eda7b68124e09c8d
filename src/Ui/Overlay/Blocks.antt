-- ===== src/Ui/Overlay/Blocks.antt =====
-- The blocks of the overlays that internal/iprules/rules.go generates and internal/ui/overlay.go reads.
use caddy_waf_ui.Prelude.{
  ◌≡◌, refl, ap, ◌∙◌, false, List, [], ◌∷◌, ◌++◌, All, append_assoc, append-nil, arith,
}
use caddy_waf_ui.Text.{Bytes, str, beq, split, join}
use caddy_waf_ui.Text.Pattern.{is_blank, strip}
use caddy_waf_ui.Text.Trim.{Free}
use caddy_waf_ui.Domain.Model.{Site}
use caddy_waf_ui.Domain.Slug.{domain_slug}
use caddy_waf_ui.IpRules.{IpRules, deny_block, allow_block, empty_note, render}
use caddy_waf_ui.Ui.Overlay.{skip_blanks, ip_rules_line, ip_rules_of, parse_ip_rules_overlay}
use caddy_waf_ui.Ui.Overlay.Lines.{
  OneLine, joined, fixed, note_text, header_text, header_text-Free, head_lines,
}
use caddy_waf_ui.Ui.Overlay.Words.{
  IsWord, fields-join, with_line, parse-line, skip_line, comment-IsSilent, matcher-IsSilent,
  brace-IsSilent, abort-IsSilent, empty-IsSilent, slug, deny_line, allow_line, deny_is_no_allow,
  allow_is_no_deny, join-Starts, join-OneLine, Starts-filled,
}

-- A block, line by line.
deny_lines :
    (name deny rest : Bytes)
    → beq deny [] ≡ false
    → deny_block name deny ++ rest
      ≡ str "# Denylist"
        ++ (10
            ∷ ((str "@ip_deny_" ++ (name ++ str " {"))
                ++ (10
                    ∷ ((str "    remote_ip " ++ deny)
                        ++ (10
                            ∷ (str "}"
                                ++ (10 ∷ ((str "abort @ip_deny_" ++ name) ++ (10 ∷ rest)))))))))
deny_lines name deny rest h = rw h (simp append_assoc)

allow_lines :
    (name allow rest : Bytes)
    → beq allow [] ≡ false
    → allow_block name allow ++ rest
      ≡ 10
        ∷ (str "# Allowlist (if set, all other IPs are denied)"
            ++ (10
                ∷ ((str "@ip_allow_" ++ (name ++ str " {"))
                    ++ (10
                        ∷ ((str "    not remote_ip " ++ allow)
                            ++ (10
                                ∷ (str "}"
                                    ++ (10
                                        ∷ ((str "abort @ip_allow_" ++ name) ++ (10 ∷ rest))))))))))
allow_lines name allow rest h = rw h (simp append_assoc)

abbrev with_deny : List Bytes → IpRules → IpRules
with_deny ws rules = record rules { denylist = ws ++ rules.denylist }

abbrev with_allow : List Bytes → IpRules → IpRules
with_allow ws rules = record rules { allowlist = ws ++ rules.allowlist }

deny_line-adds :
    (w : Bytes) (ws : List Bytes) (rules : IpRules)
    → All IsWord (w ∷ ws)
    → with_line (str "    remote_ip " ++ join (w ∷ ws) (str " ")) rules ≡ with_deny (w ∷ ws) rules
deny_line-adds w ws rules h =
    let args = join (w ∷ ws) (str " ") in
    rw (deny_line args (join-Starts w ws h), deny_is_no_allow args, fields-join (w ∷ ws) h) refl

allow_line-adds :
    (w : Bytes) (ws : List Bytes) (rules : IpRules)
    → All IsWord (w ∷ ws)
    → with_line (str "    not remote_ip " ++ join (w ∷ ws) (str " ")) rules
      ≡ with_allow (w ∷ ws) rules
allow_line-adds w ws rules h =
    let args = join (w ∷ ws) (str " ") in
    rw (allow_line args (join-Starts w ws h), allow_is_no_deny args, fields-join (w ∷ ws) h) refl

-- The two lines that end a block.
parse-block_end :
    (label rest : Bytes)
    → OneLine (b'a' ∷ label)
    → parse_ip_rules_overlay (str "}" ++ (10 ∷ ((b'a' ∷ label) ++ (10 ∷ rest))))
      ≡ parse_ip_rules_overlay rest
parse-block_end label rest one =
    skip_line (str "}") _ (fixed (str "}") refl) brace-IsSilent
    ∙ skip_line (b'a' ∷ label) rest one (abort-IsSilent label)

parse-deny_block :
    (domain rest : Bytes) (ws : List Bytes)
    → All IsWord ws
    → parse_ip_rules_overlay (deny_block (domain_slug domain) (join ws (str " ")) ++ rest)
      ≡ with_deny ws (parse_ip_rules_overlay rest)
unfolding join beq
parse-deny_block domain rest [] h = refl
parse-deny_block domain rest (w ∷ ws) h =
    let name = domain_slug domain in
    let deny = join (w ∷ ws) (str " ") in
    ap parse_ip_rules_overlay (deny_lines name deny rest (Starts-filled deny (join-Starts w ws h)))
    ∙ skip_line (str "# Denylist") _ (fixed (str "# Denylist") refl)
        (comment-IsSilent (str " Denylist"))
    ∙ skip_line (str "@ip_deny_" ++ (name ++ str " {")) _
        (joined (fixed (str "@ip_deny_") refl) (joined (slug domain) (fixed (str " {") refl)))
        (matcher-IsSilent (str "ip_deny_" ++ (name ++ str " {")))
    ∙ parse-line (str "    remote_ip " ++ deny) _
        (joined (fixed (str "    remote_ip ") refl) (join-OneLine (w ∷ ws) h)).free
    ∙ ap (with_line (str "    remote_ip " ++ deny)) (
        parse-block_end (str "bort @ip_deny_" ++ name) rest
          (joined (fixed (str "abort @ip_deny_") refl) (slug domain)))
    ∙ deny_line-adds w ws (parse_ip_rules_overlay rest) h

parse-allow_block :
    (domain rest : Bytes) (ws : List Bytes)
    → All IsWord ws
    → parse_ip_rules_overlay (allow_block (domain_slug domain) (join ws (str " ")) ++ rest)
      ≡ with_allow ws (parse_ip_rules_overlay rest)
unfolding join beq
parse-allow_block domain rest [] h = refl
parse-allow_block domain rest (w ∷ ws) h =
    let name = domain_slug domain in
    let allow = join (w ∷ ws) (str " ") in
    let note = str " Allowlist (if set, all other IPs are denied)" in
    ap parse_ip_rules_overlay
      (allow_lines name allow rest (Starts-filled allow (join-Starts w ws h)))
    ∙ skip_line [] _ (record { free = tt }) empty-IsSilent
    ∙ skip_line (b'#' ∷ note) _ (fixed (b'#' ∷ note) refl) (comment-IsSilent note)
    ∙ skip_line (str "@ip_allow_" ++ (name ++ str " {")) _
        (joined (fixed (str "@ip_allow_") refl) (joined (slug domain) (fixed (str " {") refl)))
        (matcher-IsSilent (str "ip_allow_" ++ (name ++ str " {")))
    ∙ parse-line (str "    not remote_ip " ++ allow) _
        (joined (fixed (str "    not remote_ip ") refl) (join-OneLine (w ∷ ws) h)).free
    ∙ ap (with_line (str "    not remote_ip " ++ allow)) (
        parse-block_end (str "bort @ip_allow_" ++ name) rest
          (joined (fixed (str "abort @ip_allow_") refl) (slug domain)))
    ∙ allow_line-adds w ws (parse_ip_rules_overlay rest) h

-- The end of the overlay.
parse-empty_note :
    (deny allow : Bytes)
    → parse_ip_rules_overlay (empty_note deny allow ++ str "\n")
      ≡ record { allowlist = []; denylist = [] }
unfolding parse_ip_rules_overlay ip_rules_of split ip_rules_line skip_blanks strip is_blank
parse-empty_note deny allow = ground arith

-- The overlay of two lists of words reads back as the two lists, where the domain and the time hold
-- no newline.
pub parse-render :
    (site : Site) (ts : Bytes) (allowed denied : List Bytes)
    → Free 10 site.domain
    → Free 10 ts
    → All IsWord denied
    → All IsWord allowed
    → parse_ip_rules_overlay (render site (join denied (str " ")) (join allowed (str " ")) ts)
      ≡ record { allowlist = allowed; denylist = denied }
unfolding render
parse-render site ts allowed denied d t hd ha =
    let deny = join denied (str " ") in
    let allow = join allowed (str " ") in
    let name = domain_slug site.domain in
    let below =
      deny_block name deny ++ (allow_block name allow ++ (empty_note deny allow ++ str "\n")) in
    ap parse_ip_rules_overlay (head_lines site.domain ts below)
    ∙ skip_line (b'#' ∷ note_text) _ (fixed (b'#' ∷ note_text) refl) (comment-IsSilent note_text)
    ∙ skip_line (b'#' ∷ header_text site.domain ts) _
        (record { free = (refl, header_text-Free site.domain ts d t) })
        (comment-IsSilent (header_text site.domain ts))
    ∙ skip_line [] below (record { free = tt }) empty-IsSilent
    ∙ parse-deny_block site.domain _ denied hd
    ∙ ap (with_deny denied) (
        parse-allow_block site.domain _ allowed ha
        ∙ ap (with_allow allowed) (parse-empty_note deny allow))
    ∙ (λ i. record { allowlist = append-nil allowed i; denylist = append-nil denied i })
