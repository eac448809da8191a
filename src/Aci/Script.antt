-- ===== src/Aci/Script.antt =====
-- The command line that rmsgw_aci/run_python_script.c gives to `system`.
use rmsgw.Prelude.{
  ◌+◌, ◌≤◌, ◌≡◌, refl, ◌↔◌, inl, inr, Option, none, some, ◌∷◌, ◌++◌, arith, ltb, leb, if◌then◌else◌,
  Bool-cases, length, length-append, Str, codes,
}

abbrev pub default_python_path : Str
default_python_path = codes "/usr/bin/python"

unfoldable pub python_of : Option Str → Str
python_of none = default_python_path
python_of (some path) = if leb (length path) 0 then default_python_path else path

-- sprintf(python_cmd, "%s %s -d", …). `none` is a write behind the PATH_MAX bytes of the buffer.
unfoldable pub python_cmd : Option Str → Str → Option Str
unfolding python_of
python_cmd python_path script_file =
    let command = python_of python_path ++ (b' ' ∷ (script_file ++ codes " -d")) in
    if ltb (length command) 4096 then some command else none

-- The command fits its buffer exactly when the two names have at most 4091 bytes together.
pub python_cmd_lem :
    (python_path : Option Str) (script_file : Str)
    → (python_cmd python_path script_file
        ≡ some (python_of python_path ++ (b' ' ∷ (script_file ++ codes " -d"))))
      ↔ (length (python_of python_path) + length script_file ≤ 4091)
unfolding python_cmd
python_cmd_lem python_path script_file =
    let p = python_of python_path in
    let command = p ++ (b' ' ∷ (script_file ++ codes " -d")) in
    let size : length command ≡ length p + length script_file + 4 = omega (
      arith,
      length-append p (b' ' ∷ (script_file ++ codes " -d")),
      length-append script_file (codes " -d"),
    ) in
    elim (Bool-cases (ltb (length command) 4096)) [
      | inl fits ↦ rw fits ((λ e. ground (arith, size)), (λ h. refl))
      | inr long ↦ rw long ((λ e. cc), (λ h. absurd (ground (arith, size))))
    ]
