-- ===== src/Files/Tries.antt =====
-- The status files of the hosts that main of rmsgw/rmsgw.c tries: what `stat` finds behind setcmsstat
-- (lib/setcmsstat.c).
use rmsgw.Prelude.{
  ℕ, zero, suc, ◌+◌, ◌≤◌, ◌≡◌, refl, sym, ap, ◌∙◌, inl, inr, Bool, true, false, ◌||◌, List, [], ◌∷◌,
  ◌++◌, arith, Bool-cases, length, take, All, length-append, Str, streq, streq_iff, streq_refl,
}
use rmsgw.Cms.Hosts.{accessed}
use rmsgw.Files.{Fs, Allowed, setstatfile, path_max, cms_statfile, setcmsstat, host_stat}

-- A host that is tried at a time.
pub record Try : Type 0 where
  pub at : ℕ
  pub host : Str

-- The calls of setcmsstat in the loop of main, whose results are only logged.
unfoldable pub try_hosts : Str → Allowed → List Try → Fs → Fs
unfolding setcmsstat
try_hosts dir ok [] fs = fs
try_hosts dir ok (t ∷ tries) fs = try_hosts dir ok tries ((setcmsstat dir ok t.at t.host fs).0)

abbrev pub is_tried : List Try → Str → Bool
is_tried [] host = false
is_tried (t ∷ tries) host = streq t.host host || is_tried tries host

-- The path of the status file fits its buffer.
abbrev pub Fits : Str → Str → Type 0
Fits dir host = length dir + length host + 2 ≤ path_max

-- A try whose touch succeeds, not before a time.
pub record IsTouch (dir : Str) (ok : Allowed) (begin : ℕ) (t : Try) : Type 0 where
  pub fits : Fits dir t.host
  pub opens : ok.opens (cms_statfile dir t.host) ≡ true
  pub sets_times : ok.sets_times (cms_statfile dir t.host) ≡ true
  pub late : begin ≤ t.at

take_all : (n : ℕ) (s : Str) → length s ≤ n → take n s ≡ s
take_all zero [] h = refl
take_all zero (c ∷ s) h = absurd (omega arith)
take_all (suc n) [] h = refl
take_all (suc n) (c ∷ s) h = ap (λ r. c ∷ r) (take_all n s (omega arith))

cms_statfile-Fits : (dir host : Str) → Fits dir host → cms_statfile dir host ≡ dir ++ (b'/' ∷ host)
unfolding cms_statfile
cms_statfile-Fits dir host h =
    take_all 4095 (dir ++ (b'/' ∷ host)) (omega (arith, length-append dir (b'/' ∷ host)))

append_cancel : (dir a b : Str) → dir ++ a ≡ dir ++ b → a ≡ b
append_cancel [] a b e = e
append_cancel (c ∷ dir) a b e = append_cancel dir a b cc

-- Hosts of different names have different status files.
cms_statfile-streq :
    (dir a b : Str)
    → Fits dir a
    → Fits dir b
    → streq a b ≡ false
    → streq (cms_statfile dir a) (cms_statfile dir b) ≡ false
cms_statfile-streq dir a b h k e =
    elim (Bool-cases (streq (cms_statfile dir a) (cms_statfile dir b))) [
      | inr apart ↦ apart
      | inl same ↦
          let paths : cms_statfile dir a ≡ cms_statfile dir b =
            (streq_iff (cms_statfile dir a) (cms_statfile dir b)).0 same in
          let bodies : dir ++ (b'/' ∷ a) ≡ dir ++ (b'/' ∷ b) =
            sym (cms_statfile-Fits dir a h) ∙ paths ∙ cms_statfile-Fits dir b k in
          let tails : b'/' ∷ a ≡ b'/' ∷ b = append_cancel dir (b'/' ∷ a) (b'/' ∷ b) bodies in
          let names : a ≡ b = cc in let yes : streq a b ≡ true = (streq_iff a b).1 names in cc
    ]

module _ (dir : Str) (ok : Allowed) (begin : ℕ) where
  touch_same :
      (t : Try) (host : Str) (fs : Fs)
      → IsTouch dir ok begin t
      → streq t.host host ≡ true
      → host_stat dir ((setcmsstat dir ok t.at t.host fs).0) host ≡ accessed t.at
  unfolding setcmsstat setstatfile host_stat
  touch_same t host fs h e =
      rw
        (← (streq_iff t.host host).0 e, h.opens, h.sets_times, streq_refl (cms_statfile dir t.host))
        refl

  touch_other :
      (t : Try) (host : Str) (fs : Fs)
      → IsTouch dir ok begin t
      → Fits dir host
      → streq t.host host ≡ false
      → host_stat dir ((setcmsstat dir ok t.at t.host fs).0) host ≡ host_stat dir fs host
  unfolding setcmsstat setstatfile host_stat
  touch_other t host fs h k e =
      rw (h.opens, h.sets_times, cms_statfile-streq dir t.host host h.fits k e) refl

  pub try_hosts-untried :
      (tries : List Try) (host : Str) (fs : Fs)
      → All (IsTouch dir ok begin) tries
      → Fits dir host
      → is_tried tries host ≡ false
      → host_stat dir (try_hosts dir ok tries fs) host ≡ host_stat dir fs host
  unfolding try_hosts
  try_hosts-untried [] host fs h k e = refl
  try_hosts-untried (t ∷ tries) host fs h k e =
      try_hosts-untried tries host ((setcmsstat dir ok t.at t.host fs).0) h.1 k (ground arith)
      ∙ touch_other t host fs h.0 k (ground arith)

  pub try_hosts-tried :
      (tries : List Try) (host : Str) (fs : Fs)
      → All (IsTouch dir ok begin) tries
      → Fits dir host
      → is_tried tries host ≡ true
      → (t : ℕ) × (host_stat dir (try_hosts dir ok tries fs) host ≡ accessed t) × (begin ≤ t)
  unfolding try_hosts
  try_hosts-tried [] host fs h k e = absurd (ground arith)
  try_hosts-tried (t ∷ tries) host fs h k e =
      let fs' = (setcmsstat dir ok t.at t.host fs).0 in
      elim (Bool-cases (is_tried tries host)) [
        | inl again ↦ try_hosts-tried tries host fs' h.1 k again
        | inr last ↦ (
          t.at,
          try_hosts-untried tries host fs' h.1 k last ∙ touch_same t host fs h.0 (ground arith),
          h.0.late,
        )
      ]
