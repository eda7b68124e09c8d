-- ===== src/Files/Writer/Unmarked.antt =====
-- The errors of `AtomicWrite` of internal/files/writer.go.
use caddy_waf_ui.Text.{Bytes}
use caddy_waf_ui.Errors.{Error}
use caddy_waf_ui.System.{Context, Exec}
use caddy_waf_ui.System.Store.{FilePath}
use caddy_waf_ui.System.Unmarked.{IsUnmarked, Unmarked, unmarked_rules}
use caddy_waf_ui.Files.Writer.{after_ignored, write_through, atomic_write}

Unmarked-after_ignored :
    (m : Exec (Unit {0})) (e : Error) → Unmarked m → IsUnmarked e → Unmarked (after_ignored m e)
Unmarked-after_ignored m e h k = search unmarked_rules

Unmarked-write_through :
    (tmp p : FilePath) (content : Bytes) → Unmarked (write_through tmp p content)
unfolding write_through
Unmarked-write_through tmp p content = search (unmarked_rules, Unmarked-after_ignored)

pub Unmarked-atomic_write :
    (ctx : Context) (p : FilePath) (content : Bytes) → Unmarked (atomic_write ctx p content)
unfolding atomic_write
Unmarked-atomic_write ctx p content =
    search (unmarked_rules, Unmarked-after_ignored, Unmarked-write_through)
