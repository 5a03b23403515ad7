-- ===== src/Redis/Builder/Committed.antt =====
-- RedisHelper.h: the flag that a builder's `Commit` sets.
use seed_core.Prelude.{ℕ, ◌≡◌, refl, true, false, List, Bytes}
use seed_core.Prelude.Int.{ℤ}
use seed_core.Redis.Builder.{Builder, Arg, commit, write_head, request, put_all, new_builder}

-- `Commit` always leaves the builder committed.
commit_committed : (sprintf : ℕ → ℕ → ℤ → Bytes) (b : Builder) → (commit sprintf b).committed ≡ true
unfolding commit write_head
commit_committed sprintf b =
    elim b.committed as (λ t. b.committed ≡ t → (commit sprintf b).committed ≡ true) [
      | true ↦ λ e. rw e refl
      | false ↦ λ e. rw e refl
    ]
      refl

pub request_committed :
    (sprintf : ℕ → ℕ → ℤ → Bytes) (args : List Arg) → (request sprintf args).committed ≡ true
unfolding request
request_committed sprintf args = commit_committed sprintf (put_all sprintf new_builder args)
