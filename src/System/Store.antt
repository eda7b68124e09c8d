-- ===== src/System/Store.antt =====
-- The regular files of a disk: an association list from paths to contents.
use caddy_waf_ui.Prelude.{
  ◌≡◌, ◌↔◌, refl, Bool, ◌&&◌, true, Option, none, some, List, [], ◌∷◌, arith, if◌then◌else◌,
}
use caddy_waf_ui.Text.{Bytes, beq}
use caddy_waf_ui.Text.Laws.{beq_iff}

-- The directory, already cleaned as package filepath does, and the name of the file in it.
pub record FilePath : Type 0 where
  pub dir : Bytes
  pub name : Bytes

abbrev pub path_eq : FilePath → FilePath → Bool
path_eq p q = beq p.dir q.dir && beq p.name q.name

pub path_eq_iff : (p q : FilePath) → (path_eq p q ≡ true) ↔ (p ≡ q)
path_eq_iff p q = ground (arith, beq_iff p.dir q.dir, beq_iff p.name q.name)

abbrev pub Disk : Type 0
Disk = List (FilePath × Bytes)

unfoldable pub lookup : FilePath → Disk → Option Bytes
lookup p [] = none
lookup p ((q, content) ∷ disk) = if path_eq q p then some content else lookup p disk

unfoldable pub put : FilePath → Bytes → Disk → Disk
put p content [] = (p, content) ∷ []
put p content ((q, old) ∷ disk) =
    if path_eq q p then (q, content) ∷ disk else (q, old) ∷ put p content disk

unfoldable pub delete : FilePath → Disk → Disk
delete p [] = []
delete p ((q, content) ∷ disk) =
    let rest = delete p disk in if path_eq q p then rest else (q, content) ∷ rest

pub lookup-put :
    (p q : FilePath) (content : Bytes) (disk : Disk)
    → lookup q (put p content disk) ≡ (if path_eq p q then some content else lookup q disk)
unfolding lookup put
lookup-put p q content [] = refl
lookup-put p q content ((r, old) ∷ disk) =
    ground (arith, path_eq_iff p q, path_eq_iff r p, path_eq_iff r q, lookup-put p q content disk)

pub lookup-delete :
    (p q : FilePath) (disk : Disk)
    → lookup q (delete p disk) ≡ (if path_eq p q then none else lookup q disk)
unfolding lookup delete
lookup-delete p q [] = ground arith
lookup-delete p q ((r, old) ∷ disk) =
    ground (arith, path_eq_iff p q, path_eq_iff r p, path_eq_iff r q, lookup-delete p q disk)
