-- ===== src/Files/Writer/Atomic.antt =====
-- What a write changes: the target as a whole, or nothing but the temporary file.
use caddy_waf_ui.Prelude.{
  ◌≡◌, ◌≢◌, refl, ap, Option, some, ◌++◌, arith, take, length, length-append,
}
use caddy_waf_ui.Text.{Bytes, str}
use caddy_waf_ui.Errors.{Error}
use caddy_waf_ui.System.{World, Context, Exec, raise}
use caddy_waf_ui.System.Store.{FilePath, path_eq_iff, lookup, put, delete, lookup-put}
use caddy_waf_ui.System.Calls.{plain_call, remove, write, temp_path, rename}
use caddy_waf_ui.System.Frame.{
  Quiet, quiet_rules, Quiet-finally, Quiet-raise, Quiet-remove, Quiet-write, Quiet-rename,
  Quiet-create_temp, Quiet-bind_at, Quiet-plain_call, create_temp_path,
}
use caddy_waf_ui.System.Ends.{
  Ends, Ends-bind, Ends-catch, Ends-raise, Ends-Returns, Ends-finally, Ends-call, Ends-Quiet,
}
use caddy_waf_ui.Files.Writer.{after_ignored, write_through, atomic_write}

-- A temporary file's name is longer than its target's.
pub temp_path_ne : (ctx : Context) (p : FilePath) → temp_path ctx p ≢ p
unfolding temp_path
temp_path_ne ctx p e =
    let names : length (p.name ++ (str ".tmp-" ++ ctx.random)) ≡ length p.name =
      ap (λ q. length q.name) e in
    absurd (omega (arith, length-append p.name (str ".tmp-" ++ ctx.random)))

Quiet-after_ignored :
    {Kept : FilePath → Type 0} (m : Exec (Unit {0})) (e : Error)
    → Quiet Kept m
    → Quiet Kept (after_ignored m e)
Quiet-after_ignored m e km = Quiet-finally m (λ _. raise e) km (λ r. Quiet-raise e)

-- Neither the target nor its temporary file.
pub record Elsewhere (ctx : Context) (path q : FilePath) : Type 0 where
  pub not_target : path ≢ q
  pub not_temp : temp_path ctx path ≢ q

module _ (ctx : Context) (path : FilePath) (content : Bytes) where
  not_target : (q : FilePath) → Elsewhere ctx path q → path ≢ q
  not_target q k = k.not_target

  not_temp : (q : FilePath) → Elsewhere ctx path q → temp_path ctx path ≢ q
  not_temp q k = k.not_temp

  -- A write logs nothing and touches the target and its temporary file only.
  Quiet-write_temp : Quiet (Elsewhere ctx path) (write (temp_path ctx path) content)
  Quiet-write_temp = Quiet-write (temp_path ctx path) not_temp content

  Quiet-rename_temp : Quiet (Elsewhere ctx path) (rename (temp_path ctx path) path)
  Quiet-rename_temp = Quiet-rename (temp_path ctx path) not_temp path not_target

  Quiet-remove_temp : Quiet (Elsewhere ctx path) (remove (temp_path ctx path))
  Quiet-remove_temp = Quiet-remove (temp_path ctx path) not_temp

  Quiet-write_through : Quiet (Elsewhere ctx path) (write_through (temp_path ctx path) path content)
  unfolding write_through
  Quiet-write_through =
      search (quiet_rules, Quiet-after_ignored, Quiet-write_temp, Quiet-rename_temp)

  -- A write logs nothing and touches the target and its temporary file only.
  pub Quiet-atomic_write : Quiet (Elsewhere ctx path) (atomic_write ctx path content)
  unfolding atomic_write
  Quiet-atomic_write =
      Quiet-bind_at (temp_path ctx path) _ _ (create_temp_path ctx path)
        (Quiet-create_temp ctx path not_temp)
        (search (quiet_rules, Quiet-write_through, Quiet-after_ignored, Quiet-remove_temp))

-- The steps on the temporary file, seen from the target.
module _ (tmp path : FilePath) (content : Bytes) (old : Option Bytes) (apart : tmp ≢ path) where
  abbrev Untouched : World → Type 0
  Untouched v = lookup path v.disk ≡ old

  abbrev NotTemp : FilePath → Type 0
  NotTemp q = tmp ≢ q

  abbrev Written : World → Type 0
  Written v = (lookup path v.disk ≡ old) × (lookup tmp v.disk ≡ some content)

  put_keeps :
      (w : World) (bytes : Bytes)
      → lookup path w.disk ≡ old
      → lookup path (put tmp bytes w.disk) ≡ old
  put_keeps w bytes h = ground (arith, lookup-put tmp path bytes w.disk, path_eq_iff tmp path)

  Ends-write :
      (w : World) → Untouched w → Ends (λ a v. Written v) (λ e v. Untouched v) (write tmp content) w
  unfolding write
  Ends-write w h =
      Ends-call _ _ w
        (λ os. record {
          at = (
            put_keeps w content h,
            ground (arith, lookup-put tmp tmp content w.disk, path_eq_iff tmp tmp),
          );
        })
        (λ os n. put_keeps w (take n content) h)

  Ends-rename :
      (w : World)
      → Written w
      → Ends (λ a v. lookup path v.disk ≡ some content) (λ e v. Untouched v) (rename tmp path) w
  unfolding rename
  Ends-rename w h =
      Ends-call _ _ w
        (λ os. record {
          at =
              ground (
                arith,
                h.1,
                lookup-put path path content (delete tmp w.disk),
                path_eq_iff path path,
              );
        })
        (λ os n. h.0)

  -- A step that touches at most the temporary file keeps what is known of the target.
  Ends-kept :
      {A : Type 0} (m : Exec A) (w : World)
      → Quiet NotTemp m
      → Untouched w
      → Ends (λ a v. Untouched v) (λ e v. Untouched v) m w
  Ends-kept m w quiet h = Ends-Quiet path old m w quiet apart h

  Ends-ignored :
      (P : Unit {0} → World → Type 0) (m : Exec (Unit {0})) (e : Error) (w : World)
      → Quiet NotTemp m
      → Untouched w
      → Ends P (λ f v. Untouched v) (after_ignored m e) w
  Ends-ignored P m e w quiet h =
      Ends-finally (λ a v. Untouched v) (λ f v. Untouched v) m (λ r. raise e) w
        (Ends-kept m w quiet h) (λ a v u. Ends-raise e v u) (λ f v u. Ends-raise e v u)

  -- Both of what a `Written` world knows survive a call that changes no content.
  Ends-close : (w : World) → Written w → Ends (λ a v. Written v) (λ e v. Untouched v) plain_call w
  unfolding plain_call
  Ends-close w h = Ends-call _ _ w (λ os. record { at = h }) (λ os n. h.0)

  Ends-write_through :
      (w : World)
      → Untouched w
      → Ends
          (λ a v. lookup path v.disk ≡ some content)
          (λ e v. Untouched v)
          (write_through tmp path content)
          w
  unfolding write_through
  Ends-write_through w h =
      Ends-bind (λ a v. Untouched v) _ _ w
        (Ends-catch (λ e v. Untouched v) _ _ w (Ends-kept plain_call w Quiet-plain_call h)
          (λ e v u. Ends-ignored _ plain_call e v Quiet-plain_call u))
        (λ a v u.
          Ends-bind (λ b x. Written x) _ _ v
            (Ends-catch (λ e x. Untouched x) _ _ v (Ends-write v u)
              (λ e x t. Ends-ignored _ plain_call e x Quiet-plain_call t))
            (λ b x t.
              Ends-bind (λ c y. Written y) _ _ x (Ends-close x t) (λ c y s. Ends-rename y s)))

module _ (ctx : Context) (path : FilePath) (content : Bytes) where
  -- The target Holds the new content when the write succeeds and what it held before when it fails,
  -- whichever call fails and however many bytes a failing write leaves in the temporary file.
  pub atomic_write-lookup :
      (w : World)
      → Ends
          (λ a v. lookup path v.disk ≡ some content)
          (λ e v. lookup path v.disk ≡ lookup path w.disk)
          (atomic_write ctx path content)
          w
  unfolding atomic_write
  atomic_write-lookup w =
      Ends-bind (λ t v. (t ≡ temp_path ctx path) × (lookup path v.disk ≡ lookup path w.disk)) _ _ w
        (Ends-Returns (temp_path ctx path) path _ _ w (create_temp_path ctx path w)
          (Quiet-create_temp ctx path (λ q k. k)) (temp_path_ne ctx path) refl)
        (λ t v h. rw h.0 (
          Ends-catch (λ e x. lookup path x.disk ≡ lookup path w.disk) _ _ v
            (Ends-write_through (temp_path ctx path) path content _ (temp_path_ne ctx path) v h.1)
            (λ e x u.
              Ends-ignored (temp_path ctx path) path content _ (temp_path_ne ctx path) _ _ e x
                (Quiet-remove (temp_path ctx path) (λ q k. k)) u)))
