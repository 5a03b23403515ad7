-- ===== src/Redis/Async/Batches.antt =====
-- RedisMgr.cpp, OnExecRedisTask: how the queued commands are cut into batches.
use seed_core.Prelude.{
  ℕ, ◌≤◌, ◌<◌, ◌≡◌, ◌≢◌, refl, ap, ◌∙◌, Bool, true, false, ◌||◌, List, [], ◌∷◌, ◌++◌, length, ltb,
  ◌==◌, Run, done, ◌>>=◌, >>=-ext, arith, append_assoc, append-nil, length-append, if◌then◌else◌,
}
use seed_core.Redis.Builder.{Builder}
use seed_core.Redis.Async.{task_loop, redis_async_batch_cmd_count, is_empty}

abbrev pub flatten : List (List Builder) → List Builder
flatten [] = []
flatten (b ∷ bs) = b ++ flatten bs

-- The batches executed one after the other.
abbrev pub run_all {ℓ} : {M : Type ℓ} → (List Builder → M → Run M) → List (List Builder) → M → Run M
run_all exec [] m = done m
run_all exec (b ∷ bs) m = exec b m >>= run_all exec bs

-- Every batch has from 1 to 16 commands.
abbrev pub Bounded : List (List Builder) → Type 0
Bounded [] = Unit {0}
Bounded (b ∷ bs) = (0 < length b) × (length b ≤ redis_async_batch_cmd_count) × Bounded bs

-- The batches that the commands `cmds` make behind those in `vec`.
cut : List Builder → List Builder → List (List Builder)
cut vec [] = []
cut vec (b ∷ head) =
    elim ((length (vec ++ b ∷ []) == redis_async_batch_cmd_count) || is_empty head) [
      | true ↦ (vec ++ b ∷ []) ∷ cut [] head
      | false ↦ cut (vec ++ b ∷ []) head
    ]

task_loop-cut {ℓ} :
    {M : Type ℓ} (exec : List Builder → M → Run M) (vec cmds : List Builder) (m : M)
    → task_loop exec vec cmds m ≡ run_all exec (cut vec cmds) m
unfolding task_loop cut
task_loop-cut exec vec [] m = refl
task_loop-cut {M = M} exec vec (b ∷ head) m =
    elim ((length (vec ++ b ∷ []) == redis_async_batch_cmd_count) || is_empty head)
      as (λ t.
        (if t
          then ((if ltb 0 (length (vec ++ b ∷ [])) then exec (vec ++ b ∷ []) m else done m)
              >>= task_loop exec [] head)
          else task_loop exec (vec ++ b ∷ []) head m)
        ≡ run_all exec
            (elim t [ true ↦ (vec ++ b ∷ []) ∷ cut [] head | false ↦ cut (vec ++ b ∷ []) head ])
            m) [
              | true ↦
                  ap (λ (r : Run M). r >>= task_loop exec [] head) full
                  ∙ >>=-ext (exec (vec ++ b ∷ []) m) _ _ (task_loop-cut exec [] head)
              | false ↦ task_loop-cut exec (vec ++ b ∷ []) head m
            ]
  where
    full :
        (if ltb 0 (length (vec ++ b ∷ [])) then exec (vec ++ b ∷ []) m else done m)
        ≡ exec (vec ++ b ∷ []) m
    full = ground (arith, length-append vec (b ∷ []))

cut-flatten :
    (vec : List Builder) (b : Builder) (head : List Builder)
    → flatten (cut vec (b ∷ head)) ≡ vec ++ b ∷ head
unfolding cut
cut-flatten vec b [] =
    elim (length (vec ++ b ∷ []) == redis_async_batch_cmd_count)
      as (λ t.
        flatten (elim (t || true) [ true ↦ (vec ++ b ∷ []) ∷ [] | false ↦ [] ]) ≡ vec ++ b ∷ []) [
          | true ↦ append-nil (vec ++ b ∷ [])
          | false ↦ append-nil (vec ++ b ∷ [])
        ]
cut-flatten vec b (c ∷ head) =
    elim ((length (vec ++ b ∷ []) == redis_async_batch_cmd_count) || false)
      as (λ t.
        flatten (elim t [
          | true ↦ (vec ++ b ∷ []) ∷ cut [] (c ∷ head)
          | false ↦ cut (vec ++ b ∷ []) (c ∷ head)
        ])
        ≡ vec ++ b ∷ c ∷ head) [
          | true ↦
              ap (◌++◌ (vec ++ b ∷ [])) (cut-flatten [] c head)
              ∙ append_assoc vec (b ∷ []) (c ∷ head)
          | false ↦ cut-flatten (vec ++ b ∷ []) c head ∙ append_assoc vec (b ∷ []) (c ∷ head)
        ]

not_full :
    (n : ℕ) (t : Bool)
    → ((n == redis_async_batch_cmd_count) || t) ≡ false
    → n ≢ redis_async_batch_cmd_count
not_full n t e = ground arith

cut-Bounded :
    (vec cmds : List Builder) → length vec < redis_async_batch_cmd_count → Bounded (cut vec cmds)
unfolding cut
cut-Bounded vec [] h = tt
cut-Bounded vec (b ∷ head) h =
    elim ((length (vec ++ b ∷ []) == redis_async_batch_cmd_count) || is_empty head)
        as (λ t.
          ((length (vec ++ b ∷ []) == redis_async_batch_cmd_count) || is_empty head) ≡ t
          → Bounded (elim t [
            | true ↦ (vec ++ b ∷ []) ∷ cut [] head
            | false ↦ cut (vec ++ b ∷ []) head
          ])) [
            | true ↦ λ e. (
              omega (arith, length-append vec (b ∷ [])),
              omega (arith, length-append vec (b ∷ [])),
              cut-Bounded [] head (omega arith),
            )
            | false ↦ λ e. cut-Bounded (vec ++ b ∷ []) head (
                ground (
                  arith,
                  length-append vec (b ∷ []),
                  not_full (length (vec ++ b ∷ [])) (is_empty head) e,
                ))
          ]
      refl

cut_all : (cmds : List Builder) → flatten (cut [] cmds) ≡ cmds
unfolding cut
cut_all [] = refl
cut_all (b ∷ head) = cut-flatten [] b head

-- The loop cuts the queued commands, in their order and each once, into batches of one to sixteen,
-- and executes these one after the other.
pub task_loop_lem {ℓ} :
    {M : Type ℓ} (exec : List Builder → M → Run M) (cmds : List Builder)
    → (batches : List (List Builder)) × (flatten batches ≡ cmds)
      × Bounded batches
      × ((m : M) → task_loop exec [] cmds m ≡ run_all exec batches m)
task_loop_lem exec cmds = (
  cut [] cmds,
  cut_all cmds,
  cut-Bounded [] cmds (omega arith),
  λ m. task_loop-cut exec [] cmds m,
)
