-- ===== src/Monitor/Keys.antt =====
-- gwStatRun of rmsgwmon/rmsgwmon.c: the loop over the keys. What `select` and `getch` give is an
-- argument, and so is the code of the key F3. The drawing of each round is left out.
use rmsgw.Prelude.{
  ℕ, zero, suc, ◌+◌, ◌-◌, ◌≤◌, ◌≡◌, refl, sym, ap, ◌∙◌, ◌⊎◌, inl, inr, Bool, true, false, not, ◌||◌,
  List, [], ◌∷◌, ◌++◌, arith, ◌==◌, if◌then◌else◌, Bool-cases, All, within, ℤ, pos, negsuc,
}

-- A round of the loop: `select` is interrupted, fails, runs out of time, or there is a key.
pub data Round : Type 0 where
  interrupted : Round
  select_failed : Round
  no_key : Round
  pressed : ℕ → Round

-- The end of the loop with the interval that was set, or the rounds are over before it.
pub data Watch : Type 0 where
  quits : ℕ → Watch
  exits_1 : Watch
  watching : ℕ → Watch

-- `if (interval < 1) interval = 5`
unfoldable pub sane_interval : ℤ → ℕ
sane_interval (pos zero) = 5
sane_interval (pos (suc n)) = suc n
sane_interval (negsuc n) = 5

unfoldable pub is_digit : ℕ → Bool
is_digit key = within b'0' b'9' key

-- The interval that a digit sets, where 0 stands for 10.
unfoldable pub key_interval : ℕ → ℕ
key_interval key = (if key == b'0' then b'9' + 1 else key) - 48

unfoldable pub is_quit : ℕ → ℕ → Bool
is_quit key_f3 key =
    key == key_f3 || (key == 27 || (key == b'Q' || (key == b'q' || (key == b'X' || key == b'x'))))

unfoldable pub watch : ℕ → ℕ → List Round → Watch
unfolding is_digit key_interval is_quit
watch key_f3 interval [] = watching interval
watch key_f3 interval (interrupted ∷ rounds) = watch key_f3 interval rounds
watch key_f3 interval (select_failed ∷ rounds) = exits_1
watch key_f3 interval (no_key ∷ rounds) = watch key_f3 interval rounds
watch key_f3 interval (pressed key ∷ rounds) =
    let set = watch key_f3 (key_interval key) rounds in
    let same = watch key_f3 interval rounds in
    if is_digit key then set else if is_quit key_f3 key then quits interval else same

unfoldable pub gw_stat_run : ℕ → ℤ → List Round → Watch
unfolding watch sane_interval
gw_stat_run key_f3 interval rounds = watch key_f3 (sane_interval interval) rounds

-- Neither a failure nor a key that quits.
abbrev pub is_calm : ℕ → Round → Bool
is_calm key_f3 interrupted = true
is_calm key_f3 select_failed = false
is_calm key_f3 no_key = true
is_calm key_f3 (pressed key) = is_digit key || not (is_quit key_f3 key)

-- The interval behind some rounds: the last digit's, or the one before.
abbrev pub interval_after : ℕ → List Round → ℕ
interval_after interval [] = interval
interval_after interval (interrupted ∷ rounds) = interval_after interval rounds
interval_after interval (select_failed ∷ rounds) = interval_after interval rounds
interval_after interval (no_key ∷ rounds) = interval_after interval rounds
interval_after interval (pressed key ∷ rounds) =
    if is_digit key
    then interval_after (key_interval key) rounds
    else interval_after interval rounds

not_lem : (b : Bool) → not b ≡ true → b ≡ false
not_lem true h = cc
not_lem false h = refl

watch-quit :
    (key_f3 interval : ℕ) (later : List Round) (key : ℕ)
    → is_digit key ≡ false
    → is_quit key_f3 key ≡ true
    → watch key_f3 interval (pressed key ∷ later) ≡ quits interval
unfolding watch
watch-quit key_f3 interval later key d q = rw (d, q) refl

watch-calm :
    (key_f3 interval : ℕ) (rounds later : List Round)
    → All (λ r. is_calm key_f3 r ≡ true) rounds
    → watch key_f3 interval (rounds ++ later) ≡ watch key_f3 (interval_after interval rounds) later
unfolding watch
watch-calm key_f3 interval [] later h = refl
watch-calm key_f3 interval (interrupted ∷ rounds) later h =
    watch-calm key_f3 interval rounds later h.1
watch-calm key_f3 interval (select_failed ∷ rounds) later h = cc
watch-calm key_f3 interval (no_key ∷ rounds) later h = watch-calm key_f3 interval rounds later h.1
watch-calm key_f3 interval (pressed key ∷ rounds) later h = elim (Bool-cases (is_digit key)) [
  | inl digit ↦ rw digit (watch-calm key_f3 (key_interval key) rounds later h.1)
  | inr other ↦
      let stays : is_quit key_f3 key ≡ false = not_lem (is_quit key_f3 key) (rw other at h.0) in
      rw (other, stays) (watch-calm key_f3 interval rounds later h.1)
]

key_interval-bounds :
    (key : ℕ) → is_digit key ≡ true → (1 ≤ key_interval key) × (key_interval key ≤ 10)
unfolding is_digit key_interval
key_interval-bounds key h = elim (Bool-cases (key == b'0')) [
  | inl e ↦ rw e (omega arith, omega arith)
  | inr e ↦ rw e (ground arith, ground arith)
]

-- The interval behind some rounds is the one before, or one that a digit sets.
interval_after-cases :
    (interval : ℕ) (rounds : List Round)
    → let n = interval_after interval rounds in ((1 ≤ n) × (n ≤ 10)) ⊎ (n ≡ interval)
interval_after-cases interval [] = inr refl
interval_after-cases interval (interrupted ∷ rounds) = interval_after-cases interval rounds
interval_after-cases interval (select_failed ∷ rounds) = interval_after-cases interval rounds
interval_after-cases interval (no_key ∷ rounds) = interval_after-cases interval rounds
interval_after-cases interval (pressed key ∷ rounds) = elim (Bool-cases (is_digit key)) [
  | inl digit ↦ rw digit (elim (interval_after-cases (key_interval key) rounds) [
    | inl range ↦ inl range
    | inr same ↦ inl (rw same (key_interval-bounds key digit))
  ])
  | inr other ↦ rw other (interval_after-cases interval rounds)
]

-- What the loop starts with: the interval that was asked for, or 5.
sane_interval-cases :
    (interval : ℤ) {n : ℕ}
    → n ≡ sane_interval interval
    → ((1 ≤ n) × (n ≤ 10)) ⊎ ((interval ≡ pos n) × (1 ≤ n))
unfolding sane_interval
sane_interval-cases (pos zero) e = inl (omega (arith, e), omega (arith, e))
sane_interval-cases (pos (suc m)) e = inr (ap pos (sym e), omega (arith, e))
sane_interval-cases (negsuc m) e = inl (omega (arith, e), omega (arith, e))

-- A key that quits ends the monitor's loop, whatever rounds without a failure and without such a key
-- stood before it; the interval is then from 1 to 10, or the one that was asked for, which is at
-- least 1.
pub gw_stat_run_lem :
    (key_f3 : ℕ) (interval : ℤ) (rounds later : List Round) (key : ℕ)
    → All (λ r. is_calm key_f3 r ≡ true) rounds
    → is_digit key ≡ false
    → is_quit key_f3 key ≡ true
    → (n : ℕ) × (gw_stat_run key_f3 interval (rounds ++ (pressed key ∷ later)) ≡ quits n)
      × (((1 ≤ n) × (n ≤ 10)) ⊎ ((interval ≡ pos n) × (1 ≤ n)))
unfolding gw_stat_run
gw_stat_run_lem key_f3 interval rounds later key h d q =
    let first = sane_interval interval in
    (
      interval_after first rounds,
      watch-calm key_f3 first rounds (pressed key ∷ later) h
          ∙ watch-quit key_f3 (interval_after first rounds) later key d q,
      elim (interval_after-cases first rounds) [
        | inl range ↦ inl range
        | inr same ↦ sane_interval-cases interval same
      ],
    )
