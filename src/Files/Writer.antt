-- ===== src/Files/Writer.antt =====
-- internal/files/writer.go: a file is written in full before it becomes visible.
pub mod Atomic
pub mod Unmarked
use caddy_waf_ui.Text.{Bytes}
use caddy_waf_ui.Errors.{Error, Result, ok, err}
use caddy_waf_ui.System.{World, Context, Exec, raise, catch, finally, ◌>>=◌, ◌>>◌}
use caddy_waf_ui.System.Store.{FilePath}
use caddy_waf_ui.System.Calls.{plain_call, remove, write, create_temp, rename}

-- A call whose error is dropped, then the error that was met before.
abbrev after_ignored : Exec (Unit {0}) → Error → Exec (Unit {0})
after_ignored m e = finally m (λ _. raise e)

-- Chmod, Write, Close and Rename on the temporary file; Close also runs before an early return.
write_through : FilePath → FilePath → Bytes → Exec (Unit {0})
write_through tmp path content = do
  catch plain_call (after_ignored plain_call)
  catch (write tmp content) (after_ignored plain_call)
  plain_call
  rename tmp path

-- The deferred removal runs when any step behind CreateTemp failed.
pub atomic_write : Context → FilePath → Bytes → Exec (Unit {0})
atomic_write ctx path content = do
  tmp ← create_temp ctx path
  catch (write_through tmp path content) (after_ignored (remove tmp))
