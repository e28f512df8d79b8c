-- ===== src/Relay/ControllerTests.antt =====
-- relay/src/redis-coordinator.ts: the theorems about a controller's lease on a table.
use surfgate.Common.{
  ℕ, ◌≡◌, ◌≢◌, ◌∙◌, refl, ap, true, none, some, List, [], ◌∷◌, ok, arith, length, ℕ_discrete,
}
use surfgate.Contracts.Text.{Text, text_eq, codes, Text-discrete}
use surfgate.Relay.Coordinator.{
  LeaseInput, acquire_controller, release_controller, controller_key, release_script,
}
use surfgate.Relay.Attempts.{
  Attempt, acquires, renews, releases, key_of, Refused, FromOthers, attempt, run_attempts,
}
use surfgate.Relay.Controller.{controller_exclusive, controller_lapses, controller_released}
use surfgate.Contracts.Ids.{is_tenant_id, is_session_id}
use surfgate.Relay.RedisTable.{Table, put, table, table-RedisLaws}

abbrev lease_of : Text → LeaseInput
lease_of owner = record {
  tenant_id = codes "ten_01ARZ3NDEKTSV4RRFFQ69G5FAV";
  session_id = codes "ses_01ARZ3NDEKTSV4RRFFQ69G5FAV";
  owner_id = owner;
  ttl_ms = 5000;
}

abbrev first_lease : LeaseInput
first_lease = lease_of (codes "relay-a")

abbrev second_lease : LeaseInput
second_lease = lease_of (codes "relay-bc")

abbrev empty_table : Table
empty_table k = none

abbrev leased_table : Table
leased_table = put empty_table (key_of first_lease) (some (codes "relay-a", 6000))

acquisition : acquire_controller table first_lease empty_table 1000 ≡ ok (true, leased_table)
unfolding acquire_controller is_tenant_id is_session_id controller_key Text-discrete ℕ_discrete
acquisition = refl

abbrev released_table : Table
released_table = put leased_table (key_of first_lease) none

release : release_controller table first_lease leased_table 2000 ≡ ok released_table
unfolding release_controller is_tenant_id is_session_id controller_key Text-discrete ℕ_discrete
    release_script
release = refl

owners_differ : codes "relay-bc" ≢ codes "relay-a"
owners_differ h =
    let sizes : length (codes "relay-bc") ≡ length (codes "relay-a") = ap length h in
    omega (arith, sizes)

abbrev others : List (ℕ × Attempt)
others =
    (1500, renews second_lease) ∷ (2000, acquires second_lease) ∷ (2500, releases second_lease) ∷ []

others_first : FromOthers table (codes "relay-a") 1000 6000 others
others_first = (
  omega arith,
  omega arith,
  owners_differ,
  (omega arith, omega arith, owners_differ, (omega arith, omega arith, owners_differ, tt)),
)

abbrev earlier : List (ℕ × Attempt)
earlier = (1500, acquires second_lease) ∷ []

earlier_first : FromOthers table (codes "relay-a") 1000 2000 earlier
earlier_first = (omega arith, omega arith, owners_differ, tt)

earlier_run : run_attempts table leased_table earlier ≡ leased_table
unfolding run_attempts attempt acquire_controller is_tenant_id is_session_id controller_key
    Text-discrete ℕ_discrete
earlier_run = refl

controller_exclusive_example :
    Refused table (key_of first_lease) leased_table others
    × (table.get (run_attempts table leased_table others) 3000 (key_of first_lease)
        ≡ some (codes "relay-a"))
controller_exclusive_example =
    controller_exclusive table table-RedisLaws first_lease empty_table leased_table 1000 3000 others
      acquisition others_first (omega arith) (omega arith)

controller_lapses_example :
    (s2 : Table) × (acquire_controller table second_lease
        (run_attempts table leased_table others)
        7000
      ≡ ok (true, s2))
controller_lapses_example =
    controller_lapses table table-RedisLaws first_lease second_lease empty_table leased_table 1000
      7000 others refl refl acquisition others_first (omega arith)
      (record { positive = omega arith; in_range = omega arith })

controller_released_example :
    (s3 : Table) × (acquire_controller table second_lease released_table 2100 ≡ ok (true, s3))
controller_released_example =
    controller_released table table-RedisLaws first_lease second_lease empty_table leased_table
      released_table 1000 2000 2100 earlier refl refl acquisition earlier_first (omega arith)
      (omega arith) (omega arith)
      (ap (λ s. release_controller table first_lease s 2000) earlier_run ∙ release)
      (record { positive = omega arith; in_range = omega arith })
