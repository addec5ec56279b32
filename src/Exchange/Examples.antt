-- ===== src/Exchange/Examples.antt =====
-- Test 2: concrete runs of the producer and the consumer.
use operating_systems_course.Common.{◌≡◌, refl, true, List, [], ◌∷◌, replicate}
use operating_systems_course.Exchange.Defs.{
  returned, start, process_value, check_mutex, check_cond, produce, consume, producer_step,
  consumer_step, Turn, of_producer, of_consumer, producer_wakes, consumer_wakes, step, run,
  schedule, finish,
}
use operating_systems_course.Exchange.Rounds.{IsRun}
use operating_systems_course.Exchange.Invariant.{run-IsRun}
use operating_systems_course.Exchange.Ending.{schedule_finishes}

-- The consumer comes too early, sleeps, is woken by the first value and takes it.
abbrev early : List Turn
early =
    of_consumer ∷ of_consumer ∷ of_consumer ∷ of_producer ∷ of_producer ∷ of_producer ∷ of_producer
    ∷ of_consumer ∷ consumer_wakes ∷ producer_wakes ∷ []

-- The last value in is the first one out.
early_takes_last : ((run early start).processed_value_sum ≡ 1) × ((run early start).count ≡ 1)
unfolding run step producer_step consumer_step check_mutex check_cond produce consume process_value
early_takes_last = (refl, refl)

run-IsRun_example : IsRun (run early start)
run-IsRun_example = run-IsRun early

schedule_finishes_example :
    ((schedule 167 (λ n. true) start).producer ≡ returned)
    × ((schedule 167 (λ n. true) start).consumer ≡ returned)
    × ((finish (schedule 167 (λ n. true) start)).printed ≡ replicate 6 true)
schedule_finishes_example = schedule_finishes (λ n. true)
