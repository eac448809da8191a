-- ===== src/Files/Hook.antt =====
-- lib/runhook.c, built with HOOKS. What becomes of the child process is an argument; the descriptors
-- that the child redirects are in Files.Redirect. Logging is left out.
use rmsgw.Prelude.{
  ℕ, zero, suc, ◌+◌, ◌-◌, ◌/◌, ◌%◌, ◌≤◌, ◌<◌, ◌≡◌, refl, inl, inr, Bool, true, false, not, ◌||◌,
  Option, none, some, List, [], ◌∷◌, ◌++◌, arith, ltb, leb, ◌==◌, if◌then◌else◌, Bool-cases, length,
  length-append, Str, codes, ℤ, pos,
}
use rmsgw.Files.{Fs, file_exists, path_max}

-- `fork` failed, or the child ended with this status.
pub data Spawned : Type 0 where
  not_forked : Spawned
  ended : ℕ → Spawned

-- The result, and the arguments of the shell if it was started.
pub record HookRun : Type 0 where
  pub rc : ℤ
  pub ran : Option (List Str)

abbrev pub maxhookargs : ℕ
maxhookargs = 128

-- The loop over `va_arg`, with so many places left in `args`: the strings up to the NULL. `none` is a
-- write behind the array, or a read behind the arguments.
unfoldable pub gather : ℕ → List (Option Str) → Option (List Str)
gather zero given = none
gather (suc room) [] = none
gather (suc room) (none ∷ given) = some []
gather (suc room) (some arg ∷ given) = elim (gather room given) [
  | none ↦ none
  | some args ↦ some (arg ∷ args)
]

-- WEXITSTATUS of the status that `wait` stores.
unfoldable pub child_status : ℕ → ℕ
child_status status = status / 256 % 256

unfoldable pub spawn_rc : Spawned → ℤ
unfolding child_status
spawn_rc not_forked = pos 1
spawn_rc (ended status) = if child_status status == 0 then pos 0 else pos 1

-- strlen(s) > 0 of a string that is not NULL
unfoldable pub has_text : Option Str → Bool
has_text none = false
has_text (some s) = ltb 0 (length s)

abbrev pub text_of : Option Str → Str
text_of none = []
text_of (some s) = s

abbrev pub returns : ℤ → Option (List Str) → Option HookRun
returns rc ran = some (record { rc = rc; ran = ran })

-- The fork and its result, when the arguments could be gathered.
abbrev pub start_shell : (List Str → Spawned) → Str → Option (List Str) → Option HookRun
start_shell spawn path none = none
start_shell spawn path (some rest) =
    let args = codes "-c" ∷ path ∷ rest in returns (spawn_rc (spawn args)) (some args)

-- `given` are the variable arguments, with NULL as `none`. The result `none` is a buffer overflow.
unfoldable pub runhook :
    Fs → (List Str → Spawned) → Option Str → Option Str → List (Option Str) → Option HookRun
runhook fs spawn hookdir hook_name given =
    let path = text_of hookdir ++ (b'/' ∷ text_of hook_name) in
    if not (has_text hook_name) || not (has_text hookdir)
    then returns (pos 1) none
    else if not (file_exists fs hookdir)
    then returns (pos 1) none
    else if leb path_max (length path)
    then none
    else if not (file_exists fs (some path))
    then returns (pos 0) none
    else start_shell spawn path (gather (maxhookargs - 2) given)

-- Strings as arguments.
abbrev pub given_strings : List Str → List (Option Str)
given_strings [] = []
given_strings (s ∷ args) = some s ∷ given_strings args

-- The arguments that are passed on end at the first NULL; they need a place each and one for it.
pub gather_lem :
    (args : List Str) (room : ℕ) (later : List (Option Str))
    → gather room (given_strings args ++ (none ∷ later))
      ≡ (if ltb (length args) room then some args else none)
unfolding gather
gather_lem args zero later = ground arith
gather_lem [] (suc room) later = ground arith
gather_lem (s ∷ args) (suc room) later = elim (Bool-cases (ltb (length args) room)) [
  | inl fits ↦
      let more : ltb (suc (length args)) (suc room) ≡ true = ground arith in
      rw (gather_lem args room later, fits, more) refl
  | inr full ↦
      let more : ltb (suc (length args)) (suc room) ≡ false = ground arith in
      rw (gather_lem args room later, full, more) refl
]

has_text-long : (s : Str) → 1 ≤ length s → has_text (some s) ≡ true
unfolding has_text
has_text-long s h = ground arith

has_text-file_exists :
    (fs : Fs) (s : Str) → file_exists fs (some s) ≡ true → has_text (some s) ≡ true
unfolding has_text file_exists
has_text-file_exists fs s h = ground arith

-- A hook of a directory that exists, with a path that fits its buffer: when it is not there the result
-- is 0; otherwise the shell gets "-c", the path, and the arguments before the first NULL, and the
-- result is 0 exactly if the fork succeeds and WEXITSTATUS of the child is 0. More than 125 arguments
-- are written behind the array.
pub runhook_lem :
    (fs : Fs) (spawn : List Str → Spawned) (hookdir hook_name : Str) (args : List Str)
    (later : List (Option Str))
    → 1 ≤ length hook_name
    → file_exists fs (some hookdir) ≡ true
    → length hookdir + length hook_name + 1 < path_max
    → let path = hookdir ++ (b'/' ∷ hook_name) in
      runhook fs spawn (some hookdir) (some hook_name) (given_strings args ++ (none ∷ later)) ≡ (
        if not (file_exists fs (some path))
        then returns (pos 0) none
        else if leb (length args) 125
        then returns (spawn_rc (spawn (codes "-c" ∷ path ∷ args))) (some (codes "-c" ∷ path ∷ args))
        else none)
unfolding runhook
runhook_lem fs spawn hookdir hook_name args later n d p =
    let path = hookdir ++ (b'/' ∷ hook_name) in
    let named : has_text (some hook_name) ≡ true = has_text-long hook_name n in
    let placed : has_text (some hookdir) ≡ true = has_text-file_exists fs hookdir d in
    let fits : leb path_max (length path) ≡ false =
      ground (arith, length-append hookdir (b'/' ∷ hook_name)) in
    elim (Bool-cases (file_exists fs (some path))) [
      | inr gone ↦ rw (named, placed, d, fits, gone) refl
      | inl there ↦ elim (Bool-cases (leb (length args) 125)) [
        | inl few ↦
            let room : ltb (length args) 126 ≡ true = ground arith in
            rw (named, placed, d, fits, there, gather_lem args 126 later, few, room) refl
        | inr many ↦
            let room : ltb (length args) 126 ≡ false = ground arith in
            rw (named, placed, d, fits, there, gather_lem args 126 later, many, room) refl
      ]
    ]
