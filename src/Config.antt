-- ===== src/Config.antt =====
-- internal/config/config.go: the settings, read from the environment at every call.
use caddy_waf_ui.Prelude.{
  ℕ, zero, suc, ◌+◌, ◌-◌, ◌*◌, ◌^◌, Option, none, some, [], ◌∷◌, ltb, ◌==◌, if◌then◌else◌, ℤ, pos,
  negsuc,
}
use caddy_waf_ui.Text.{Bytes, str, beq, is_digit}

abbrev pub Env : Type 0
Env = Bytes → Bytes

unfoldable pub env_or : Env → Bytes → Bytes → Bytes
unfolding beq
env_or env key fallback = let v = env key in if beq v [] then fallback else v

-- strconv.Atoi: an optional sign, then digits, in the range of a signed word of 64 bits.
abbrev decimal : ℕ → Bytes → Option ℕ
decimal n [] = some n
decimal n (c ∷ cs) =
    let rest = decimal (n * 10 + (c - b'0')) cs in if is_digit c then rest else none

abbrev magnitude : Bytes → Option ℕ
magnitude [] = none
magnitude (c ∷ cs) = decimal 0 (c ∷ cs)

abbrev negated : ℕ → ℤ
negated zero = pos 0
negated (suc n) = negsuc n

abbrev below_limit : ℕ → (ℕ → ℤ) → Option ℕ → Option ℤ
below_limit limit f none = none
below_limit limit f (some n) = if ltb n limit then some (f n) else none

unfoldable pub atoi : Bytes → Option ℤ
unfolding is_digit
atoi [] = none
atoi (c ∷ cs) =
    if c == b'-'
    then below_limit (2 ^ 63 + 1) negated (magnitude cs)
    else if c == b'+'
    then below_limit (2 ^ 63) pos (magnitude cs)
    else below_limit (2 ^ 63) pos (magnitude (c ∷ cs))

unfoldable pub managed_dir : Env → Bytes
managed_dir env = env_or env (str "CADDY_UI_MANAGED_DIR") (str "/ui-managed")

unfoldable pub backup_dir : Env → Bytes
backup_dir env = env_or env (str "CADDY_UI_BACKUP_DIR") (str "/backups")

abbrev pub default_backup_keep : ℕ
default_backup_keep = 10

abbrev kept_or_default : Option ℤ → ℕ
kept_or_default none = default_backup_keep
kept_or_default (some (negsuc n)) = default_backup_keep
kept_or_default (some (pos n)) = if ltb 0 n then n else default_backup_keep

unfoldable pub backup_keep : Env → ℕ
backup_keep env = kept_or_default (atoi (env (str "CADDY_UI_BACKUP_KEEP")))

unfoldable pub audit_log_path : Env → Bytes
audit_log_path env = env_or env (str "CADDY_UI_AUDIT_LOG") (str "/data/logs/coraza-audit.log")

unfoldable pub caddyfile_path : Env → Bytes
caddyfile_path env = env_or env (str "CADDY_UI_CADDYFILE") (str "/etc/caddy/Caddyfile")

unfoldable pub admin_url : Env → Bytes
admin_url env = env_or env (str "CADDY_ADMIN_URL") (str "http://caddy-waf:2019")

unfoldable pub include_dir : Env → Bytes
include_dir env = env_or env (str "CADDY_UI_INCLUDE_DIR") (str "/etc/caddy/ui-managed")

unfoldable pub token : Env → Bytes
token env = env (str "CADDY_UI_TOKEN")

unfoldable pub bind_addr : Env → Bytes
bind_addr env = env_or env (str "CADDY_UI_BIND") (str "0.0.0.0:8080")

unfoldable pub log_level : Env → Bytes
log_level env = env_or env (str "CADDY_UI_LOG_LEVEL") (str "info")
