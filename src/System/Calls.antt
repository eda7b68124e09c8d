-- ===== src/System/Calls.antt =====
-- The calls of package os that the program makes, each with its failure.
use caddy_waf_ui.Prelude.{
  ℕ, Bool, true, false, Option, none, some, List, [], ◌∷◌, ◌++◌, take, length, if◌then◌else◌, ltb,
  ◌==◌, ◌||◌, ◌&&◌, sort_by,
}
use caddy_waf_ui.Text.{Bytes, str, beq}
use caddy_waf_ui.Errors.{not_exist, os_failure, Result, ok, err}
use caddy_waf_ui.System.{Outcome, works, fails, World, Context, Exec}
use caddy_waf_ui.System.Store.{FilePath, Disk, lookup, put, delete}

abbrev pub next_outcome : List Outcome → Outcome
next_outcome [] = works
next_outcome (o ∷ os) = o

abbrev pub later_outcomes : List Outcome → List Outcome
later_outcomes [] = []
later_outcomes (o ∷ os) = os

-- One call: what it does when it works, and when it fails after some bytes.
abbrev pub settled :
    {A : Type 0} → (World → Result A × World) → (ℕ → World → World) → Outcome → Exec A
settled good bad works w = good w
settled good bad (fails n) w = (err os_failure, bad n w)

abbrev pub call : {A : Type 0} → (World → Result A × World) → (ℕ → World → World) → Exec A
call good bad w =
    settled good bad (next_outcome w.outcomes) (record w { outcomes = later_outcomes w.outcomes })

abbrev untouched : ℕ → World → World
untouched n w = w

abbrev pub of_option : Option Bytes → Result Bytes
of_option none = err not_exist
of_option (some content) = ok content

unfoldable pub read_file : FilePath → Exec Bytes
read_file p = call (λ w. (of_option (lookup p w.disk), w)) untouched

abbrev pub drop_content : Result Bytes → Result (Unit {0})
drop_content (ok content) = ok tt
drop_content (err e) = err e

unfoldable pub stat : FilePath → Exec (Unit {0})
stat p = call (λ w. (drop_content (of_option (lookup p w.disk)), w)) untouched

abbrev measured : Result Bytes → Result ℕ
measured (ok content) = ok (length content)
measured (err e) = err e

-- Info of an entry of a directory: the size.
unfoldable pub file_size : FilePath → Exec ℕ
file_size p = call (λ w. (measured (of_option (lookup p w.disk)), w)) untouched

-- Chmod, Close, MkdirAll: calls that leave the contents of files as they are.
unfoldable pub plain_call : Exec (Unit {0})
plain_call = call (λ w. (ok tt, w)) untouched

abbrev pub removed : FilePath → Option Bytes → World → Result (Unit {0}) × World
removed p none w = (err not_exist, w)
removed p (some content) w = (ok tt, record w { disk = delete p w.disk })

unfoldable pub remove : FilePath → Exec (Unit {0})
remove p = call (λ w. removed p (lookup p w.disk) w) untouched

-- os.Create makes the file empty; a failing write leaves the first bytes of the content.
unfoldable pub create : FilePath → Exec (Unit {0})
create p = call (λ w. (ok tt, record w { disk = put p [] w.disk })) untouched

unfoldable pub write : FilePath → Bytes → Exec (Unit {0})
write p content =
    call (λ w. (ok tt, record w { disk = put p content w.disk }))
      (λ n w. record w { disk = put p (take n content) w.disk })

unfoldable pub temp_path : Context → FilePath → FilePath
temp_path ctx p = record { dir = p.dir; name = p.name ++ (str ".tmp-" ++ ctx.random) }

abbrev pub created : FilePath → Option Bytes → World → Result FilePath × World
created p none w = (ok p, record w { disk = put p [] w.disk })
created p (some content) w = (err os_failure, w)

-- os.CreateTemp opens a file that is not there yet, and fails when it finds no free name.
unfoldable pub create_temp : Context → FilePath → Exec FilePath
create_temp ctx p =
    call (λ w. created (temp_path ctx p) (lookup (temp_path ctx p) w.disk) w) untouched

abbrev pub renamed : FilePath → FilePath → Option Bytes → World → Result (Unit {0}) × World
renamed p q none w = (err not_exist, w)
renamed p q (some content) w = (ok tt, record w { disk = put q content (delete p w.disk) })

-- os.Rename replaces the target as one step.
unfoldable pub rename : FilePath → FilePath → Exec (Unit {0})
rename p q = call (λ w. renamed p q (lookup p w.disk) w) untouched

unfoldable pub names_in : Bytes → Disk → List Bytes
names_in dir [] = []
names_in dir ((p, content) ∷ disk) =
    let rest = names_in dir disk in if beq p.dir dir then p.name ∷ rest else rest

-- The order of file names and of `<` on strings: by bytes.
unfoldable pub text_lt : Bytes → Bytes → Bool
text_lt [] [] = false
text_lt [] (y ∷ ys) = true
text_lt (x ∷ xs) [] = false
text_lt (x ∷ xs) (y ∷ ys) = ltb x y || ((x == y) && text_lt xs ys)

-- os.ReadDir lists the names in order.
unfoldable pub read_dir : Bytes → Exec (List Bytes)
unfolding names_in
read_dir dir = call (λ w. (ok (sort_by text_lt (names_in dir w.disk)), w)) untouched
