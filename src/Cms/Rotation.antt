-- ===== src/Cms/Rotation.antt =====
-- How the list of hosts (lib/getcmslist.c) changes by the hosts that main of rmsgw/rmsgw.c tries: each
-- of them is touched by setcmsstat (lib/setcmsstat.c), and the list is ordered by those times.
use rmsgw.Prelude.{
  ℕ, ◌≤◌, ◌<◌, ◌≡◌, refl, ap, ◌∙◌, inl, inr, Bool, true, false, ◌&&◌, some, List, [], ◌∷◌, ◌++◌,
  arith, ltb, leb, if◌then◌else◌, Bool-cases, Option-cases, All, Str,
}
use mathlib.Core.Bool.{Bool-set}
use mathlib.Core.List.{Perm, Permᴰ}
use mathlib.Core.Logic.{∥∥₁_elim}
use rmsgw.Cms.Node.{Cms, CmsNode, mk_node}
use rmsgw.Cms.Order.{IsOrdered}
use rmsgw.Cms.Hosts.{Stat, accessed, missing, unreadable, stat_time, getcmslist}
use rmsgw.Cms.Selection.{and-and_swap, entries, wanted, listed, all_succeed, getcmslist-listed}
use rmsgw.Files.{Fs, Allowed, host_stat}
use rmsgw.Files.Tries.{Try, try_hosts, is_tried, Fits, IsTouch, try_hosts-untried, try_hosts-tried}

-- Every element passes a test.
abbrev all_pass : (CmsNode → Bool) → List CmsNode → Bool
all_pass ok [] = true
all_pass ok (p ∷ l) = ok p && all_pass ok l

all_pass-Perm :
    (ok : CmsNode → Bool) {l l' : List CmsNode} → Permᴰ l l' → all_pass ok l ≡ all_pass ok l'
all_pass-Perm ok Permᴰ.nil = refl
all_pass-Perm ok (Permᴰ.cons e d) = rw (e, all_pass-Perm ok d) refl
all_pass-Perm ok (Permᴰ.swap {a' = a'} {b' = b'} {l = l} e k) =
    rw (e, k) (and-and_swap (ok b') (ok a') (all_pass ok l))
all_pass-Perm ok (Permᴰ.trans d k) = all_pass-Perm ok d ∙ all_pass-Perm ok k

-- A host counts as tried exactly when its time is not before the first try.
abbrev fits_time : List Try → ℕ → CmsNode → Bool
fits_time tries begin p =
    if is_tried tries p.cms_host then leb begin p.cms_stat_time else ltb p.cms_stat_time begin

-- The list is in two parts: the hosts that were not tried stand before those that were.
abbrev pub IsRotated : List Try → List CmsNode → Type 0
IsRotated tries l =
    (fresh used : List CmsNode) × (l ≡ fresh ++ used)
    × All (λ p. is_tried tries p.cms_host ≡ false) fresh
    × All (λ p. is_tried tries p.cms_host ≡ true) used

older_tried :
    (tries : List Try) (begin n : ℕ) (l : List CmsNode)
    → begin ≤ n
    → All (λ q. n ≤ q.cms_stat_time) l
    → all_pass (fits_time tries begin) l ≡ true
    → All (λ p. is_tried tries p.cms_host ≡ true) l
older_tried tries begin n [] h k e = tt
older_tried tries begin n (p ∷ l) h k e = elim (Bool-cases (is_tried tries p.cms_host)) [
  | inl hit ↦ (hit, older_tried tries begin n l h k.1 (ground arith))
  | inr miss ↦ absurd (ground (arith, k.0))
]

ordered-IsRotated :
    (tries : List Try) (begin : ℕ) (l : List CmsNode)
    → IsOrdered l
    → all_pass (fits_time tries begin) l ≡ true
    → IsRotated tries l
ordered-IsRotated tries begin [] h e = ([], [], refl, tt, tt)
ordered-IsRotated tries begin (p ∷ l) h e = elim (Bool-cases (is_tried tries p.cms_host)) [
  | inl hit ↦ (
    [],
    p ∷ l,
    refl,
    tt,
    (hit, older_tried tries begin p.cms_stat_time l (ground arith) h.0 (ground arith)),
  )
  | inr miss ↦
      let (fresh, used, whole, a, b) = ordered-IsRotated tries begin l h.1 (ground arith) in
      (p ∷ fresh, used, ap (λ r. p ∷ r) whole, (miss, a), b)
]

module _ (dir : Str) (ok : Allowed) (begin : ℕ) (fs : Fs) (tries : List Try) where
  -- Every status file that there was is older than the tries.
  abbrev pub AreOld : Type 0
  AreOld = (host : Str) (t : ℕ) → host_stat dir fs host ≡ accessed t → t < begin

  old_time :
      (f : Stat) (t : ℕ)
      → 1 ≤ begin
      → ((u : ℕ) → f ≡ accessed u → u < begin)
      → stat_time f ≡ some t
      → t < begin
  old_time (accessed u) t b h e = let same : u ≡ t = cc in omega (arith, h u refl, same)
  old_time missing t b h e = let same : 0 ≡ t = cc in omega (arith, same)
  old_time unreadable t b h e = cc

  fits_time-listed :
      (c : Cms) (t : ℕ)
      → 1 ≤ begin
      → AreOld
      → All (IsTouch dir ok begin) tries
      → Fits dir c.cms_host
      → stat_time (host_stat dir (try_hosts dir ok tries fs) c.cms_host) ≡ some t
      → fits_time tries begin (mk_node c t) ≡ true
  fits_time-listed c t b old h k e = elim (Bool-cases (is_tried tries c.cms_host)) [
    | inl hit ↦
        let (u, found, late) = try_hosts-tried dir ok begin tries c.cms_host fs h k hit in
        let time : some u ≡ some t = rw found at e in
        let same : u ≡ t = cc in rw hit (ground (arith, same))
    | inr miss ↦
        let stays = try_hosts-untried dir ok begin tries c.cms_host fs h k miss in
        let before : stat_time (host_stat dir fs c.cms_host) ≡ some t = rw stays at e in
        let early = old_time (host_stat dir fs c.cms_host) t b (old c.cms_host) before in
        rw miss (ground (arith, early))
  ]

  all_pass-listed :
      (es : List Cms)
      → 1 ≤ begin
      → AreOld
      → All (IsTouch dir ok begin) tries
      → All (λ c. Fits dir c.cms_host) es
      → all_pass (fits_time tries begin) (listed (host_stat dir (try_hosts dir ok tries fs)) es)
        ≡ true
  all_pass-listed [] b old h k = refl
  all_pass-listed (c ∷ es) b old h k = elim (Bool-cases (wanted c)) [
    | inr miss ↦ rw miss (all_pass-listed es b old h k.1)
    | inl hit ↦
        elim (Option-cases (stat_time (host_stat dir (try_hosts dir ok tries fs) c.cms_host))) [
          | inl skipped ↦ rw (hit, skipped) (all_pass-listed es b old h k.1)
          | inr (t, time) ↦
              rw (hit, time, fits_time-listed c t b old h k.0 time) (all_pass-listed es b old h k.1)
        ]
  ]

-- When some hosts of the host file have been tried, each with a touch of its status file that succeeds
-- and not before a time to which every status file was older, the next list holds the same accepted
-- hosts, and those that were not tried all stand before those that were. The paths of the status
-- files fit their buffer, the allocations succeed and no line makes the parser leave its buffer.
pub getcmslist-IsRotated :
    (dir : Str) (ok : Allowed) (begin : ℕ) (fs : Fs) (tries : List Try) (cbuf : Str)
    (lines : List Str) (es : List Cms)
    → entries cbuf lines ≡ some es
    → 1 ≤ begin
    → AreOld dir ok begin fs tries
    → All (IsTouch dir ok begin) tries
    → All (λ c. Fits dir c.cms_host) es
    → let stat = host_stat dir (try_hosts dir ok tries fs) in
      (l : List CmsNode) × (getcmslist stat all_succeed cbuf (some lines) ≡ some l)
      × Perm l (listed stat es)
      × IsRotated tries l
getcmslist-IsRotated dir ok begin fs tries cbuf lines es e b old h k =
    let stat = host_stat dir (try_hosts dir ok tries fs) in
    let (l, ends, ordered, perm, stable) = getcmslist-listed stat cbuf lines e in
    let pass = fits_time tries begin in
    let same : all_pass pass l ≡ all_pass pass (listed stat es) =
      ∥∥₁_elim perm (Bool-set (all_pass pass l) (all_pass pass (listed stat es)))
        (all_pass-Perm pass) in
    (
      l,
      ends,
      perm,
      ordered-IsRotated tries begin l ordered
          (same ∙ all_pass-listed dir ok begin fs tries es b old h k),
    )
