-- ===== src/Sidecar/Breaker.antt =====
-- `AtomicCircuit` of secureprompt-api/src/ml_sidecar/client.rs: its methods, each taken as one step,
-- and the single stores of which other tasks may see the state between.
use secureprompt.Prelude.{
  ℕ, suc, ◌+◌, ◌-◌, ◌%◌, ◌^◌, ◌≤◌, ◌<◌, ◌≡◌, refl, sym, Bool, true, false, not, subst, List, [],
  ◌∷◌, length, leb, nat_beq, if◌then◌else◌, arith,
}

abbrev pub failure_threshold : ℕ
failure_threshold = 5

abbrev pub open_duration_secs : ℕ
open_duration_secs = 30

-- `open_since` is in seconds of the Unix clock, zero for closed.
pub record AtomicCircuit : Type 0 where
  pub consecutive_failures : ℕ
  pub open_since : ℕ

abbrev pub new_circuit : AtomicCircuit
new_circuit = record { consecutive_failures = 0; open_since = 0 }

-- `is_open` at this second.
unfoldable pub is_open : ℕ → AtomicCircuit → Bool × AtomicCircuit
is_open now c =
    if nat_beq c.open_since 0
    then (false, c)
    else if leb open_duration_secs (now - c.open_since)
    then (false, new_circuit)
    else (true, c)

unfoldable pub record_success : AtomicCircuit → AtomicCircuit
record_success c = record c { consecutive_failures = 0; open_since = 0 }

-- `record_failure`: whether this failure has opened the circuit. The count wraps.
unfoldable pub record_failure : ℕ → AtomicCircuit → Bool × AtomicCircuit
record_failure now c =
    let c' = record c { consecutive_failures = (c.consecutive_failures + 1) % 2 ^ 32 } in
    if nat_beq ((c.consecutive_failures + 1) % 2 ^ 32) failure_threshold
    then (true, record c' { open_since = now })
    else (false, c')

-- What a task does to the circuit: a look, or the end of a call, at a second.
pub data Event : Type 0 where
  looks : (now : ℕ) → Event
  succeeds : Event
  fails : (now : ℕ) → Event

abbrev pub after : Event → AtomicCircuit → AtomicCircuit
after (looks now) c = (is_open now c).1
after succeeds c = record_success c
after (fails now) c = (record_failure now c).1

abbrev pub run : List Event → AtomicCircuit → AtomicCircuit
run [] c = c
run (e ∷ events) c = run events (after e c)

-- The specification: closed after so many failures in a row, fewer than five, or open since a second,
-- with some failures after that.
pub data Breaker : Type 0 where
  closed : (failures : ℕ) → Breaker
  open_from : (since late : ℕ) → Breaker

abbrev pub has_lapsed : ℕ → ℕ → Bool
has_lapsed since now = leb open_duration_secs (now - since)

abbrev pub step : Event → Breaker → Breaker
step (looks now) (closed n) = closed n
step (looks now) (open_from since late) =
    if has_lapsed since now then closed 0 else open_from since late
step succeeds b = closed 0
step (fails now) (closed n) = if leb 4 n then open_from now 0 else closed (n + 1)
step (fails now) (open_from since late) = open_from since (late + 1)

abbrev pub steps : List Event → Breaker → Breaker
steps [] b = b
steps (e ∷ events) b = steps events (step e b)

-- The circuit stands for this state, and has counted at most so many failures.
abbrev pub Stands : ℕ → AtomicCircuit → Breaker → Type 0
Stands most c (closed n) = (n < 5) × (n ≤ most) × (c.consecutive_failures ≡ n) × (c.open_since ≡ 0)
Stands most c (open_from since late) =
    (0 < since) × (5 + late ≤ most) × (c.consecutive_failures ≡ 5 + late) × (c.open_since ≡ since)

-- The clock is past its origin.
abbrev pub IsDated : Event → Type 0
IsDated (looks now) = Unit
IsDated succeeds = Unit
IsDated (fails now) = 0 < now

abbrev pub AllDated : List Event → Type 0
AllDated [] = Unit
AllDated (e ∷ events) = IsDated e × AllDated events

after-step :
    (e : Event) (c : AtomicCircuit) (b : Breaker) (most : ℕ)
    → IsDated e
    → most + 1 < 2 ^ 32
    → Stands most c b
    → Stands (most + 1) (after e c) (step e b)
unfolding is_open record_success record_failure
after-step (looks now) c (closed n) most d few h = ground arith
after-step (looks now) c (open_from since late) most d few h = ground arith
after-step succeeds c b most d few h = (omega arith, omega arith, refl, refl)
after-step (fails now) c (closed n) most d few h = ground arith
after-step (fails now) c (open_from since late) most d few h = ground arith

run-steps :
    (events : List Event) (c : AtomicCircuit) (b : Breaker) (most : ℕ)
    → AllDated events
    → most + length events < 2 ^ 32
    → Stands most c b
    → Stands (most + length events) (run events c) (steps events b)
run-steps [] c b most d few h =
    let same : most ≡ most + 0 = omega arith in subst (λ k. Stands k c b) same h
run-steps (e ∷ events) c b most d few h =
    let shift : most + 1 + length events ≡ most + suc (length events) = omega arith in
    subst (λ k. Stands k (run events (after e c)) (steps events (step e b))) shift
      (run-steps events (after e c) (step e b) (most + 1) d.1 (omega arith)
        (after-step e c b most d.0 (omega arith) h))

-- Whether calls are held back at this second.
abbrev pub is_blocking : ℕ → Breaker → Bool
is_blocking now (closed n) = false
is_blocking now (open_from since late) = not (has_lapsed since now)

is_open-Stands :
    (now most : ℕ) (c : AtomicCircuit) (b : Breaker)
    → Stands most c b
    → (is_open now c).0 ≡ is_blocking now b
unfolding is_open
is_open-Stands now most c (closed n) h = ground arith
is_open-Stands now most c (open_from since late) h = ground arith

-- After any sequence of fewer than 2^32 looks, successes and failures, each as one step and each
-- failure at a second after the clock's origin, `is_open` answers as the specification: the circuit is
-- open exactly when the fifth failure in a row, without a success or a look that found it lapsed in
-- between, was less than 30 seconds ago.
pub is_open-run :
    (events : List Event) (now : ℕ)
    → AllDated events
    → length events < 2 ^ 32
    → (is_open now (run events new_circuit)).0 ≡ is_blocking now (steps events (closed 0))
is_open-run events now d few =
    is_open-Stands now (0 + length events) (run events new_circuit) (steps events (closed 0)) (
      run-steps events new_circuit (closed 0) 0 d (omega arith)
        (omega arith, omega arith, refl, refl))

-- The two stores of `record_success`, between which other tasks may run.
unfoldable pub store_failures : AtomicCircuit → AtomicCircuit
store_failures c = record c { consecutive_failures = 0 }

unfoldable pub store_open_since : AtomicCircuit → AtomicCircuit
store_open_since c = record c { open_since = 0 }

-- Only looks and failures.
abbrev pub NoSuccess : List Event → Type 0
NoSuccess [] = Unit
NoSuccess (looks now ∷ events) = NoSuccess events
NoSuccess (succeeds ∷ events) = ⊥
NoSuccess (fails now ∷ events) = NoSuccess events

-- Five failures in a row between the two stores of a success.
abbrev pub torn : (a b c d e : ℕ) → AtomicCircuit → AtomicCircuit
torn a b c d e circuit =
    store_open_since
      (run (fails a ∷ fails b ∷ fails c ∷ fails d ∷ fails e ∷ []) (store_failures circuit))

look_shut : (t : ℕ) (c : AtomicCircuit) → c.open_since ≡ 0 → (is_open t c).1 ≡ c
unfolding is_open
look_shut t c shut = ground arith

fail_past :
    (t : ℕ) (c : AtomicCircuit)
    → c.open_since ≡ 0
    → 5 ≤ c.consecutive_failures
    → c.consecutive_failures + 1 < 2 ^ 32
    → ((record_failure t c).1.open_since ≡ 0)
      × ((record_failure t c).1.consecutive_failures ≡ c.consecutive_failures + 1)
unfolding record_failure
fail_past t c shut past few = ground arith

closed_past :
    (events : List Event) (c : AtomicCircuit) (now : ℕ)
    → NoSuccess events
    → c.open_since ≡ 0
    → 5 ≤ c.consecutive_failures
    → c.consecutive_failures + length events < 2 ^ 32
    → (is_open now (run events c)).0 ≡ false
unfolding is_open
closed_past [] c now n shut past few = ground arith
closed_past (looks t ∷ events) c now n shut past few =
    let kept : (is_open t c).1 ≡ c = look_shut t c shut in
    subst (λ k. (is_open now (run events k)).0 ≡ false) (sym kept)
      (closed_past events c now n shut past (omega arith))
closed_past (succeeds ∷ events) c now n shut past few = absurd n
closed_past (fails t ∷ events) c now n shut past few =
    let next = fail_past t c shut past (omega arith) in
    closed_past events (record_failure t c).1 now n next.0 (omega (arith, next.1))
      (omega (arith, next.1))

-- Where five calls fail between the two stores of a success, the circuit stays closed through any
-- fewer than 2^32 - 6 looks and failures that follow, as long as no call succeeds.
pub is_open-torn :
    (a b c d e : ℕ) (circuit : AtomicCircuit) (events : List Event) (now : ℕ)
    → NoSuccess events
    → length events < 2 ^ 32 - 6
    → (is_open now (run events (torn a b c d e circuit))).0 ≡ false
unfolding store_failures store_open_since record_failure
is_open-torn a b c d e circuit events now n few =
    closed_past events (torn a b c d e circuit) now n refl (omega arith) (omega arith)
