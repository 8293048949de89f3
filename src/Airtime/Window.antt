-- ===== src/Airtime/Window.antt =====
-- Counters kept by period against the history of what was logged: the arrays of
-- src/meshtastic_airtime.c hold the last `count` periods.
use meshtastic_zephyr.Prelude.{
  ℕ, zero, suc, ◌+◌, ◌%◌, ◌^◌, ◌≤◌, ◌<◌, ◌==◌, ◌/◌, ltb, leb, true, false, ◌&&◌, List, [], ◌∷◌,
  if◌then◌else◌, get_or, set, length, arith, ◌≡◌, ◌≢◌, refl, sym, ap, ◌∙◌, ◌⊎◌, inl, inr,
  get_or-set, get_or-set_self, ℕ_discrete, length-set,
}
use meshtastic_zephyr.Airtime.{add_at, tick_buckets, sum32}

-- What was logged: the second, and the milliseconds.
pub record Logged : Type 0 where
  pub sec : ℕ
  pub ms : ℕ

-- The milliseconds logged in the periods `i` modulo `count`, among the last `count` ones.
unfoldable pub within : ℕ → ℕ → ℕ → ℕ → List Logged → ℕ
within width count now i [] = 0
within width count now i (l ∷ ls) =
    let rest = within width count now i ls in
    let period = l.sec / width in
    if ltb (now / width) (period + count) && (period % count == i) then rest + l.ms else rest

-- The milliseconds logged in the last `count` periods.
unfoldable pub recent : ℕ → ℕ → ℕ → List Logged → ℕ
recent width count now [] = 0
recent width count now (l ∷ ls) =
    let rest = recent width count now ls in
    if ltb (now / width) (l.sec / width + count) then rest + l.ms else rest

-- Nothing was logged after `now`.
unfoldable pub Past : ℕ → ℕ → List Logged → Type 0
Past width now [] = 0 ≤ now
Past width now (l ∷ ls) = (l.sec / width ≤ now / width) × Past width now ls

-- What the proofs use of a period's length and of the number of periods.
pub record IsClock (width count : ℕ) : Type 0 where
  pub some_periods : 1 < count
  pub first_second : 1 / width ≡ 0
  pub at_start : 0 / width ≡ 0
  pub second : (n : ℕ) → ((n + 1) / width ≡ n / width) ⊎ ((n + 1) / width ≡ n / width + 1)
  pub wraps : (p : ℕ) → p % count < count
  pub apart : (q p : ℕ) → q % count ≡ p % count → q < p → p < q + count → q ≡ p
  pub again : (q : ℕ) → (q + count) % count ≡ q % count

pub minute_clock : IsClock 10 6
minute_clock = record {
  some_periods = omega arith;
  first_second = refl;
  at_start = refl;
  second = λ n. omega arith;
  wraps = λ p. omega arith;
  apart = λ q p e lt near. omega arith;
  again = λ q. omega arith;
}

pub hour_clock : IsClock 60 60
hour_clock = record {
  some_periods = omega arith;
  first_second = refl;
  at_start = refl;
  second = λ n. omega arith;
  wraps = λ p. omega arith;
  apart = λ q p e lt near. omega arith;
  again = λ q. omega arith;
}

module _ (width count : ℕ) (c : IsClock width count) where
  within_same :
      (now later i : ℕ) (ls : List Logged)
      → later / width ≡ now / width
      → within width count later i ls ≡ within width count now i ls
  unfolding within
  within_same now later i [] e = refl
  within_same now later i (l ∷ ls) e = rw (e, within_same now later i ls e)

  -- A new period starts with nothing logged in it, and pushes out what its own slot held.
  within_new :
      (now later : ℕ) (ls : List Logged)
      → Past width now ls
      → later / width ≡ now / width + 1
      → within width count later ((later / width) % count) ls ≡ 0
  unfolding within Past
  within_new now later [] p e = refl
  within_new now later (l ∷ ls) p e =
      ground (arith, within_new now later ls p.1 e, c.apart (l.sec / width) (later / width))

  within_other :
      (now later i : ℕ) (ls : List Logged)
      → Past width now ls
      → later / width ≡ now / width + 1
      → i ≢ (later / width) % count
      → within width count later i ls ≡ within width count now i ls
  unfolding within Past
  within_other now later i [] p e h = refl
  within_other now later i (l ∷ ls) p e h =
      ground (arith, within_other now later i ls p.1 e h, c.again (l.sec / width))

  -- The buckets hold what was logged in the last `count` periods, modulo 2 ^ 32.
  abbrev pub Holds : ℕ → List ℕ → List Logged → Type 0
  Holds now buckets ls =
      (length buckets ≡ count)
      × Past width now ls
      × ((i : ℕ) → i < count → get_or buckets i 0 ≡ within width count now i ls % 2 ^ 32)

  pub add_at-Holds :
      (now ms : ℕ) (buckets : List ℕ) (ls : List Logged)
      → Holds now buckets ls
      → Holds now (add_at buckets ((now / width) % count) ms) (record { sec = now; ms = ms } ∷ ls)
  unfolding within Past
  add_at-Holds now ms buckets ls h =
      let slot = (now / width) % count in
      let sum = (get_or buckets slot 0 + ms) % 2 ^ 32 in
      (
        length-set buckets slot sum ∙ h.0,
        (omega arith, h.1),
        λ i lt. elim (ℕ_discrete i slot) [
          | yes here ↦
              let own =
                get_or-set_self 0 buckets slot sum (omega (arith, h.0, c.wraps (now / width))) in
              ground (arith, own, h.2 i lt, c.some_periods)
          | no other ↦ ground (arith, get_or-set 0 buckets slot i sum, h.2 i lt)
        ],
      )

  Past-later : (now : ℕ) (ls : List Logged) → Past width now ls → Past width (now + 1) ls
  unfolding Past
  Past-later now [] p = omega arith
  Past-later now (l ∷ ls) p = ground (arith, Past-later now ls p.1, c.second now)

  periods_differ : (p : ℕ) → p % count ≢ (p + 1) % count
  periods_differ p e = ground (arith, c.apart p (p + 1), c.some_periods)

  tick_stays :
      (period last : ℕ) (buckets : List ℕ)
      → last ≡ period
      → tick_buckets period buckets last ≡ (buckets, last)
  unfolding tick_buckets
  tick_stays period last buckets e = let same : (last == period) ≡ true = ground arith in rw same

  tick_moves :
      (period last : ℕ) (buckets : List ℕ)
      → last ≢ period
      → tick_buckets period buckets last ≡ (set buckets period 0, period)
  unfolding tick_buckets
  tick_moves period last buckets e =
      let differ : (last == period) ≡ false = ground arith in rw differ

  emptied-Holds :
      (now : ℕ) (buckets : List ℕ) (ls : List Logged)
      → Holds now buckets ls
      → (now + 1) / width ≡ now / width + 1
      → Holds (now + 1) (set buckets (((now + 1) / width) % count) 0) ls
  emptied-Holds now buckets ls h next =
      let slot = ((now + 1) / width) % count in
      (
        length-set buckets slot 0 ∙ h.0,
        Past-later now ls h.1,
        λ i lt. elim (ℕ_discrete i slot) [
          | yes here ↦
              let own =
                get_or-set_self 0 buckets slot 0
                  (omega (arith, h.0, c.wraps ((now + 1) / width))) in
              rw (here, own, within_new now (now + 1) ls h.1 next)
          | no other ↦
              rw (within_other now (now + 1) i ls h.1 next other)
                (get_or-set 0 buckets slot i 0 (λ q. other (sym q)) ∙ h.2 i lt)
        ],
      )

  pub tick_buckets-Holds :
      (now last : ℕ) (buckets : List ℕ) (ls : List Logged)
      → Holds now buckets ls
      → last ≡ (now / width) % count
      → Holds (now + 1) (tick_buckets (((now + 1) / width) % count) buckets last).0 ls
        × ((tick_buckets (((now + 1) / width) % count) buckets last).1
            ≡ ((now + 1) / width) % count)
  tick_buckets-Holds now last buckets ls h e = elim (c.second now) [
    | inl same ↦
        let here : last ≡ ((now + 1) / width) % count = e ∙ ap (λ p. p % count) (sym same) in
        rw (tick_stays (((now + 1) / width) % count) last buckets here) (
          (
            h.0,
            Past-later now ls h.1,
            λ i lt. h.2 i lt ∙ ap (λ n. n % 2 ^ 32) (sym (within_same now (now + 1) i ls same)),
          ),
          here,
        )
    | inr next ↦
        let moved : last ≢ ((now + 1) / width) % count =
          λ q. periods_differ (now / width) (sym e ∙ q ∙ ap (λ p. p % count) next) in
        rw (tick_moves (((now + 1) / width) % count) last buckets moved)
          (emptied-Holds now buckets ls h next, refl)
  ]

  pub first-Holds : (buckets : List ℕ) (ls : List Logged) → Holds 0 buckets ls → Holds 1 buckets ls
  first-Holds buckets ls h = (
    h.0,
    Past-later 0 ls h.1,
    λ i lt. h.2 i lt ∙ rw (within_same 0 1 i ls (c.first_second ∙ sym c.at_start)),
  )

  -- The sum of `n` slots from `j` on.
  slots_sum : ℕ → ℕ → ℕ → List Logged → ℕ
  slots_sum now zero j ls = 0
  slots_sum now (suc n) j ls = within width count now j ls + slots_sum now n (j + 1) ls

  slots_sum_nil : (now n j : ℕ) → slots_sum now n j [] ≡ 0
  unfolding slots_sum within
  slots_sum_nil now zero j = refl
  slots_sum_nil now (suc n) j = omega (arith, slots_sum_nil now n (j + 1))

  slots_sum_cons :
      (now n j : ℕ) (l : Logged) (ls : List Logged)
      → slots_sum now n j (l ∷ ls) ≡ (
          if ltb (now / width) (l.sec / width + count)
            && leb j ((l.sec / width) % count)
            && ltb ((l.sec / width) % count) (j + n)
          then slots_sum now n j ls + l.ms
          else slots_sum now n j ls)
  unfolding slots_sum within
  slots_sum_cons now zero j l ls = ground arith
  slots_sum_cons now (suc n) j l ls = ground (arith, slots_sum_cons now n (j + 1) l ls)

  slots_sum-recent :
      (now : ℕ) (ls : List Logged) → slots_sum now count 0 ls ≡ recent width count now ls
  unfolding recent
  slots_sum-recent now [] = slots_sum_nil now count 0
  slots_sum-recent now (l ∷ ls) =
      ground
        (arith, slots_sum_cons now count 0 l ls, slots_sum-recent now ls, c.wraps (l.sec / width))

  sum32_slots :
      (now j sum : ℕ) (buckets : List ℕ) (ls : List Logged)
      → sum < 2 ^ 32
      → ((i m : ℕ)
          → m ≡ j + i
          → i < length buckets
          → get_or buckets i 0 ≡ within width count now m ls % 2 ^ 32)
      → sum32 sum buckets ≡ (sum + slots_sum now (length buckets) j ls) % 2 ^ 32
  unfolding sum32 slots_sum
  sum32_slots now j sum [] ls lt h = omega arith
  sum32_slots now j sum (b ∷ bs) ls lt h =
      let rest =
        sum32_slots now (j + 1) ((sum + b) % 2 ^ 32) bs ls (omega arith)
          (λ i m e low. h (suc i) m (omega arith) (omega arith)) in
      omega (arith, rest, h 0 j (omega arith) (omega arith))

  -- The sum of the buckets is what was logged in the last `count` periods, modulo 2 ^ 32.
  pub sum32-Holds :
      (now : ℕ) (buckets : List ℕ) (ls : List Logged)
      → Holds now buckets ls
      → sum32 0 buckets ≡ recent width count now ls % 2 ^ 32
  sum32-Holds now buckets ls h =
      let slots =
        sum32_slots now 0 0 buckets ls (omega arith)
          (λ i m e lt. let same : m ≡ i = omega arith in rw same (h.2 i (omega (arith, h.0)))) in
      ground (arith, slots, slots_sum-recent now ls, ap (λ n. slots_sum now n 0 ls) h.0)
