-- ===== src/IoTStatistic/Tests.antt =====
-- A statistic that counts its values, its runs, and instances of its theorems.
use fiware_io_tagent_cpluspl.Common.{
  ℕ, ◌+◌, codes, bytes_key, nat_key, true, some, [], ◌∷◌, ◌≡◌, refl, arith,
}
use fiware_io_tagent_cpluspl.IoTStatistic.{IoTStatistic, new_statistic, add, acc_time}
use fiware_io_tagent_cpluspl.IoTStatistic.Buckets.{
  IsBounded, addition, access, run, run-new_statistic, counter, value_or_empty, counter-add,
}

-- An accumulator is the number of its values and their sum.
abbrev Total : Type 0
Total = ℕ × ℕ

abbrev no_values : Total
no_values = (0, 0)

abbrev feed_total : Total → ℕ → Total
feed_total acc value = (acc.0 + 1, acc.1 + value)

run-new_statistic_example : IsBounded no_values feed_total (
    run no_values feed_total
      (addition 3700 (codes "ok") 5 ∷ access 7300 (codes "ok") ∷ [])
      (new_statistic no_values feed_total (codes "stat")))
run-new_statistic_example =
    run-new_statistic no_values feed_total (codes "stat")
      (addition 3700 (codes "ok") 5 ∷ access 7300 (codes "ok") ∷ [])

abbrev one_hour : IoTStatistic {V = ℕ} no_values feed_total
one_hour = record {
  name = codes "stat";
  enabled = true;
  accumulators = (3600, (codes "ok", (1, 5)) ∷ []) ∷ [];
}

counter-add_example :
    counter no_values feed_total
      (acc_time no_values feed_total 3700)
      (codes "ok")
      (add no_values feed_total 3700 (codes "ok") 7 one_hour)
    ≡ some (
        feed_total
          (value_or_empty no_values feed_total (
            counter no_values feed_total
              (acc_time no_values feed_total 3700)
              (codes "ok")
              one_hour))
          7)
counter-add_example =
    counter-add no_values feed_total 3700 (codes "ok") 7 one_hour (omega arith, (tt, tt)) refl
