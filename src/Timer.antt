-- ===== src/Timer.antt =====
-- cpu/timer.c and include/timer.h: the wall clock from the registers of the RTC, and the timers of the
-- kernel. The list `ktimer_list` is a list of timers, `active` is its membership, and the callbacks
-- that `ktimer_run` calls are its result, in order.
pub mod Civil
pub mod Queue
mod Tests
use project_lariat.Prelude.{
  Bool, List, [], false, if◌then◌else◌, leb, ltb, suc, true, zero, ℕ, ◌%◌, ◌*◌, ◌+◌, ◌-◌, ◌/◌, ◌==◌,
  ◌^◌, ◌||◌, ◌∷◌,
}

unfoldable pub bcd_to_bin : ℕ → ℕ
bcd_to_bin v = v % 16 + v / 16 * 10

-- The month counted from March.
unfoldable pub from_march : ℕ → ℕ
from_march m = if ltb 2 m then m - 3 else m + 9

-- For years whose dates lie behind the day 719468 of the algorithm.
unfoldable pub days_from_civil : ℕ → ℕ → ℕ → ℕ
days_from_civil y m d =
    let year = if leb m 2 then y - 1 else y in
    let era = year / 400 in
    let yoe = year - era * 400 in
    let doy = (153 * from_march m + 2) / 5 + d - 1 in
    let doe = yoe * 365 + yoe / 4 - yoe / 100 + doy in era * 146097 + doe - 719468

-- What `clock_init` reads: the registers, and bit 2 of the status that says that they are binary.
pub record Rtc : Type 0 where
  pub sec : ℕ
  pub minute : ℕ
  pub hour : ℕ
  pub day : ℕ
  pub mon : ℕ
  pub year : ℕ
  pub is_binary : Bool

-- `boot_unix_seconds`; the converted values are kept in a byte.
unfoldable pub clock_init : Rtc → ℕ
clock_init r =
    let conv : ℕ → ℕ = λ v. if r.is_binary then v else bcd_to_bin v % 256 in
    days_from_civil (2000 + conv r.year) (conv r.mon) (conv r.day) * 86400
    + conv r.hour * 3600
    + conv r.minute * 60
    + conv r.sec

-- `struct ktimer`; `id` stands for its address, with its callback and the argument.
pub record Ktimer : Type 0 where
  pub id : ℕ
  pub expires : ℕ

-- The timer of that address is in the list.
unfoldable pub is_active : ℕ → List Ktimer → Bool
is_active id [] = false
is_active id (t ∷ ts) = t.id == id || is_active id ts

unfoldable pub reschedule : Ktimer → List Ktimer → List Ktimer
reschedule t [] = []
reschedule t (x ∷ xs) = if x.id == t.id then t ∷ xs else x ∷ reschedule t xs

unfoldable pub ktimer_add : ℕ → ℕ → ℕ → List Ktimer → List Ktimer
ktimer_add id delay_ticks tick_count ts =
    let delay = if delay_ticks == 0 then 1 else delay_ticks in
    let t : Ktimer = record { id = id; expires = (tick_count + delay) % 2 ^ 64 } in
    if is_active id ts then reschedule t ts else t ∷ ts

unfoldable pub ktimer_cancel : ℕ → List Ktimer → List Ktimer
ktimer_cancel id [] = []
ktimer_cancel id (x ∷ xs) = if x.id == id then xs else x ∷ ktimer_cancel id xs

-- The loop of `ktimer_run` with the room that is left in `fired`: the timers that are fired, and the
-- list.
unfoldable pub collect : ℕ → ℕ → List Ktimer → List Ktimer × List Ktimer
collect zero tick_count ts = ([], ts)
collect (suc room) tick_count [] = ([], [])
collect (suc room) tick_count (t ∷ ts) = elim (leb t.expires tick_count) [
  | true ↦ let taken = collect room tick_count ts in (t ∷ taken.0, taken.1)
  | false ↦ let passed = collect (suc room) tick_count ts in (passed.0, t ∷ passed.1)
]

abbrev pub max_fired : ℕ
max_fired = 16

unfoldable pub ktimer_run : ℕ → List Ktimer → List Ktimer × List Ktimer
ktimer_run tick_count ts = collect max_fired tick_count ts

-- The list runs on the next tick: `tick_count`, the timers that are fired, and the list.
unfoldable pub timer_lapic_tick : ℕ → List Ktimer → ℕ × List Ktimer × List Ktimer
timer_lapic_tick tick_count ts =
    let now = (tick_count + 1) % 2 ^ 64 in
    let (fired, left) = ktimer_run now ts in (now, fired, left)

abbrev pub timer_hz : ℕ
timer_hz = 100

unfoldable pub clock_monotonic_ns : ℕ → ℕ
clock_monotonic_ns tick_count = tick_count * (1000000000 / timer_hz) % 2 ^ 64

unfoldable pub clock_realtime_ns : ℕ → ℕ → ℕ
clock_realtime_ns boot_unix_seconds tick_count =
    (boot_unix_seconds * 1000000000 + clock_monotonic_ns tick_count) % 2 ^ 64
