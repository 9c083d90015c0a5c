-- ===== src/Timer/Tests.antt =====
-- cpu/timer.c: some dates and timers.
use project_lariat.Prelude.{List, [], false, refl, ◌∷◌, ◌≡◌}
use project_lariat.Timer.{
  Ktimer, Rtc, bcd_to_bin, clock_init, days_from_civil, from_march, ktimer_run,
}
use project_lariat.Timer.Civil.{days_from_civil-calendar}
use project_lariat.Timer.Queue.{Fires, ktimer_run-Fires}

-- The 1st of February 1970 is 31 days after the 1st of January.
days_from_civil-calendar_example : days_from_civil 1970 2 1 ≡ 31
days_from_civil-calendar_example = days_from_civil-calendar 31

abbrev three_timers : List Ktimer
three_timers =
    record { id = 1; expires = 30 }
    ∷ record { id = 2; expires = 90 }
    ∷ record { id = 3; expires = 50 }
    ∷ []

ktimer_run-Fires_example : Fires 16 50 three_timers (ktimer_run 50 three_timers)
ktimer_run-Fires_example = ktimer_run-Fires 50 three_timers

-- The registers of the RTC in BCD: the 29th of February 2024, 12:34:56.
abbrev leap_day : Rtc
leap_day = record {
  sec = 86;
  minute = 52;
  hour = 18;
  day = 41;
  mon = 2;
  year = 36;
  is_binary = false;
}

leap_day_seconds : clock_init leap_day ≡ 1709210096
unfolding clock_init days_from_civil from_march bcd_to_bin
leap_day_seconds = refl
