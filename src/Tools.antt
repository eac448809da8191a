-- ===== src/Tools.antt =====
-- rmsfinddev/rmsfinddev.c, with the two functions of libax25 as arguments.
use rmsgw.Prelude.{
  ℕ, zero, suc, ◌+◌, ◌-◌, ◌*◌, ◌/◌, ◌%◌, ◌^◌, ◌≤◌, ◌<◌, min, ◌≡◌, refl, sym, ap, ◌∙◌, ◌≢◌, ◌↔◌, ◌⊎◌,
  inl, inr, Bool, true, false, not, ◌&&◌, ◌||◌, Option, none, some, List, [], ◌∷◌, ◌++◌, append-nil,
  append_assoc, arith, ltb, leb, ◌==◌, if◌then◌else◌, ==_iff, Bool-cases, Option-cases, length,
  get_elem?, get_or, set, modify, take, drop, replicate, All, length-append, length-take,
  length-replicate, length-set, length-modify, All-append, All-imp, Str, codes, streq, streq_iff,
  streq_refl, strneq, within, isspace, isdigit, isalnum, toupper, tolower, overlay, c_str, IsCStr,
  lacks, lacks_lem, is_c_str, is_c_str_lem, ℤ, pos, negsuc, pos_part, neg_part, ltb_ℤ, leb_ℤ,
  is_pos, is_neg, is_zero, to_size, decimal, decimal_digits, digits_value, atoi, skip_spaces,
  atoi-decimal, fgets_lines, lines_from, fgets_lines-append, Lacks,
}
pub mod Chantest

-- The exit status, what is printed, and what is printed as an error.
pub record Printed : Type 0 where
  pub exit_code : ℤ
  pub out : Str
  pub err : Str

abbrev pub usage_text : Str → Str
usage_text prog = codes "Usage: " ++ (prog ++ codes " <portname>\n")

abbrev pub device_of : Str → Option Str → Printed
device_of portname none = record {
  exit_code = pos 1;
  out = [];
  err = codes "Unable to find device for port " ++ (portname ++ codes ".\n");
}
device_of portname (some dev) = record { exit_code = pos 0; out = dev ++ codes "\n"; err = [] }

-- main, with the arguments behind the program's name; `ports` is what ax25_config_load_ports returns.
unfoldable pub rmsfinddev : Str → ℤ → (Str → Option Str) → List Str → Printed
rmsfinddev prog ports get_dev [] = record { exit_code = negsuc 0; out = []; err = usage_text prog }
rmsfinddev prog ports get_dev (portname ∷ []) =
    if is_zero ports
    then record {
      exit_code = negsuc 1;
      out = [];
      err = codes "Failed to load the AX.25 port configuration.\n";
    }
    else device_of portname (get_dev portname)
rmsfinddev prog ports get_dev (a ∷ b ∷ args) = record {
  exit_code = negsuc 0;
  out = [];
  err = usage_text prog;
}
