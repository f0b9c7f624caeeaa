-- ===== src/AuthLimit/Tests.antt =====
-- Runs of the login brake, and the theorems on it at concrete inputs.
use beaver_mq.Prelude.{◌+◌, ◌-◌, ◌%◌, ◌^◌, ◌≡◌, refl, true, [], ◌∷◌, Bytes, codes, str_eq, arith}
use beaver_mq.AuthLimit.Table.{
  Table, empty_entry, delay_of, find_locked, norm_key, record_failure, retry_after_ms,
}
use beaver_mq.AuthLimit.Retry.{failures_at, record_failure-retry}

abbrev address : Bytes
address = codes "10.0.0.1"

-- An address that has failed six times.
abbrev small_table : Table
small_table =
    empty_entry
    ∷ record { key = address; failures = 6; next_ms = 1500; last_ms = 1000; used = true }
    ∷ []

sixth : delay_of 6 ≡ 500
unfolding delay_of
sixth = refl

ceiling : delay_of 40 ≡ 30000
unfolding delay_of
ceiling = refl

waits : (retry_after_ms address 1200 small_table).1 ≡ 300
unfolding retry_after_ms str_eq
waits = refl

record_failure-retry_example :
    let failures =
      (failures_at (find_locked (norm_key address) small_table) 2000 small_table + 1) % 2 ^ 32 in
    retry_after_ms address 2400 (record_failure address 2000 small_table)
    ≡ (record_failure address 2000 small_table, 2000 + delay_of failures - 2400)
record_failure-retry_example =
    record_failure-retry address 2000 2400 small_table refl (omega arith) (omega arith)
      (omega arith) (omega arith)
