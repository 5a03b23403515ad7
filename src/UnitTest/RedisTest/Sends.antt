-- ===== src/UnitTest/RedisTest/Sends.antt =====
-- RedisTest.cpp, SetUnitTest: the sizes of its requests.
use seed_core.Prelude.{ℕ, ◌<◌, ◌≤◌, Bool, true, false, List, [], ◌∷◌, arith, length}
use seed_core.Prelude.Int.{ℤ, two31}
use seed_core.Prelude.Decimal.{decimal, digits}
use seed_core.Redis.Resp.{encode, bulks}
use seed_core.Redis.Builder.{c_str, Arg, string}
use seed_core.Redis.Builder.Encoding.{texts, Fits}
use seed_core.Redis.Sync.{word}
use seed_core.Redis.Sync.Results.{Sendable}
use seed_core.Redis.Sync.Commands.{Command}
use seed_core.Redis.Sync.Forms.{form}
use seed_core.Redis.Session.Program.{finished, undefined, ask, AllSendable}
use seed_core.UnitTest.RedisTest.{Test, test_eq, printed}
use seed_core.UnitTest.RedisTest.Lists.{key, member1, member2, set_unit_test}

AllSendable-printed :
    (fuel line : ℕ) (test : Test) → AllSendable fuel test → AllSendable fuel (printed line test)
unfolding printed
AllSendable-printed fuel line (finished lines) s = tt
AllSendable-printed fuel line undefined s = tt
AllSendable-printed fuel line (ask command next) (s, more) =
    (s, λ code out. AllSendable-printed fuel line (next code out) (more code out))

AllSendable-test_eq :
    (fuel line : ℕ) (b : Bool) (rest : Test)
    → AllSendable fuel rest
    → AllSendable fuel (test_eq line b rest)
AllSendable-test_eq fuel line true rest s = s
AllSendable-test_eq fuel line false rest s = AllSendable-printed fuel line rest s

-- A test whose requests are all within the sizes and the fuel.
pub record SendsAll (fuel : ℕ) (test : Test) : Type 0 where
  pub each : AllSendable fuel test

module _ (fuel : ℕ) (enough : 100 ≤ fuel) where
  within :
      (args : List Arg)
      → length args < two31
      → Fits args
      → length (encode (texts args)) < 100
      → Sendable fuel args
  within args few fits small = record {
    few = few;
    fits = fits;
    small = omega arith;
    enough = omega arith;
  }

  del-Sendable : Sendable fuel (word "DEL" ∷ string key ∷ [])
  unfolding encode bulks decimal digits c_str
  del-Sendable = within _ (omega arith) (omega arith, (omega arith, tt)) (omega arith)

  smembers-Sendable : Sendable fuel (word "SMEMBERS" ∷ string key ∷ [])
  unfolding encode bulks decimal digits c_str
  smembers-Sendable = within _ (omega arith) (omega arith, (omega arith, tt)) (omega arith)

  sadd-Sendable :
      Sendable fuel (word "SADD" ∷ string key ∷ string member1 ∷ [])
      × Sendable fuel (word "SADD" ∷ string key ∷ string member2 ∷ [])
  unfolding encode bulks decimal digits c_str
  sadd-Sendable = (
    within _ (omega arith) (omega arith, (omega arith, (omega arith, tt))) (omega arith),
    within _ (omega arith) (omega arith, (omega arith, (omega arith, tt))) (omega arith),
  )

  srem-Sendable :
      Sendable fuel (word "SREM" ∷ string key ∷ string member1 ∷ [])
      × Sendable fuel (word "SREM" ∷ string key ∷ string member2 ∷ [])
  unfolding encode bulks decimal digits c_str
  srem-Sendable = (
    within _ (omega arith) (omega arith, (omega arith, (omega arith, tt))) (omega arith),
    within _ (omega arith) (omega arith, (omega arith, (omega arith, tt))) (omega arith),
  )

  at_finish : SendsAll fuel (finished [])
  at_finish = record { each = tt }

  asks :
      (command : Command) (next : ℤ → (form command).A → Test)
      → Sendable fuel (form command).args
      → ((code : ℤ) (out : (form command).A) → SendsAll fuel (next code out))
      → SendsAll fuel (ask command next)
  asks command next s more = record { each = (s, λ code out. (more code out).each) }

  tests :
      (line : ℕ) (b : Bool) (rest : Test) → SendsAll fuel rest → SendsAll fuel (test_eq line b rest)
  tests line b rest s = record { each = AllSendable-test_eq fuel line b rest s.each }

  pub set_unit_test-SendsAll : SendsAll fuel set_unit_test
  unfolding set_unit_test
  set_unit_test-SendsAll = asks _ _ del-Sendable λ _ _. asks _ _ sadd-Sendable.0 λ _ _.
      tests 253 _ _ (
        asks _ _ sadd-Sendable.0 λ _ _. tests 255 _ _ (
          asks _ _ sadd-Sendable.1 λ _ _. tests 257 _ _ (
            asks _ _ smembers-Sendable λ _ _. tests 260 _ _ (
              tests 261 _ _ (
                asks _ _ srem-Sendable.0 λ _ _. tests 263 _ _ (
                  asks _ _ srem-Sendable.0 λ _ _. tests 265 _ _ (
                    asks _ _ srem-Sendable.1 λ _ _. tests 267 _ _ (
                      asks _ _ smembers-Sendable
                        λ _ _. tests 269 _ _ (tests 270 _ _ at_finish)))))))))
