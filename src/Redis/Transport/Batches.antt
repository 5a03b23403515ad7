-- ===== src/Redis/Transport/Batches.antt =====
-- RedisMgr.cpp, pipelineSendAndGetReply: how many replies a batch brings.
use seed_core.Prelude.{
  ℕ, zero, suc, ◌+◌, ◌<◌, ◌≡◌, refl, sym, ap, ◌∙◌, ◌⊎◌, inl, inr, List, [], ◌∷◌, ◌++◌, Option, none,
  some, arith, length, Run, done, starved, fault, ◌>>=◌, length-append,
}
use seed_core.Prelude.Int.{pos_part, two31, to_s32-pos}
use seed_core.Redis.Builder.{Builder}
use seed_core.Redis.Reply.{Reply}
use seed_core.Redis.Transport.{Status, redis_ok, redis_err, Context, Net, after_reader, read_loop}
use seed_core.Redis.Transport.Pipeline.{
  Batch, write_all, after_reply, collect, pipeline_send_and_get_reply, collect_after, reply_count,
}

pub reply_count_lem : (n : ℕ) → n < two31 → reply_count n ≡ n
unfolding reply_count
reply_count_lem n h = ap pos_part (to_s32-pos n h)

module _ {S : Type 0} (net : Net S) where
  -- What `n` reads add to a batch.
  abbrev Counted : ℕ → Batch S → Batch S → Type 0
  Counted n r s =
      ((s.status ≡ redis_ok) × (length s.replies ≡ length r.replies + n))
      ⊎ ((s.status ≡ redis_err) × (length s.replies < length r.replies + n))

  step_Counted :
      (rest : Batch S → Run (Batch S)) (n : ℕ) (r s : Batch S) (x : Run (Option Reply × Context S))
      → ((q t : Batch S) → q.status ≡ redis_ok → rest q ≡ done t → Counted n q t)
      → r.status ≡ redis_ok
      → (x >>= after_reply net rest r) ≡ done s
      → Counted (suc n) r s
  unfolding after_reply
  step_Counted rest n r s (done (none, c)) ih fine e = inr (ground arith)
  step_Counted rest n r s (done (some reply, c)) ih fine e =
      more (ih (record r { context = c; replies = r.replies ++ reply ∷ [] }) s fine e)
    where
      more :
          Counted n (record r { context = c; replies = r.replies ++ reply ∷ [] }) s
          → Counted (suc n) r s
      more (inl (o, l)) = inl (o, omega (arith, l, length-append r.replies (reply ∷ [])))
      more (inr (o, l)) = inr (o, omega (arith, l, length-append r.replies (reply ∷ [])))
  step_Counted rest n r s starved ih fine e = cc
  step_Counted rest n r s fault ih fine e = cc

  collect-Counted :
      (fuel n : ℕ) (r s : Batch S)
      → r.status ≡ redis_ok
      → collect net fuel n r ≡ done s
      → Counted n r s
  unfolding collect
  collect-Counted fuel zero r s fine e = inl (ground arith)
  collect-Counted fuel (suc n) r s fine e =
      step_Counted (collect net fuel n) n r s
        (after_reader (read_loop net fuel) (net.reply_from_reader r.context))
        (λ q t ok_ runs. collect-Counted fuel n q t ok_ runs) fine e

  write_all_err :
      (fuel : ℕ) (bs : List Builder) (ct : Context S) (r : Batch S)
      → write_all net fuel bs ct ≡ done r
      → r.status ≡ redis_err
      → 0 < length bs
  write_all_err fuel [] ct r e f = unfold write_all in ground arith
  write_all_err fuel (b ∷ bs) ct r e f = omega arith

  collect_after-Counted :
      (fuel n : ℕ) (replies : List Reply) (st : Status) (r s : Batch S)
      → r.status ≡ st
      → (st ≡ redis_err → 0 < n)
      → collect_after net fuel n replies st r ≡ done s
      → Counted n (record r { replies = replies }) s
  unfolding collect_after
  collect_after-Counted fuel n replies redis_err r s e f runs =
      let some_n : 0 < n = f refl in inr (ground arith)
  collect_after-Counted fuel n replies redis_ok r s e f runs =
      collect-Counted fuel n (record r { replies = replies }) s e runs

  after_write_all :
      (fuel : ℕ) (bs : List Builder) (ct : Context S) (replies : List Reply) (s : Batch S)
      (x : Run (Batch S))
      → write_all net fuel bs ct ≡ x
      → length bs < two31
      → (x >>= λ r. collect_after net fuel (reply_count (length bs)) replies r.status r) ≡ done s
      → ((s.status ≡ redis_ok) × (length s.replies ≡ length replies + length bs))
        ⊎ ((s.status ≡ redis_err) × (length s.replies < length replies + length bs))
  after_write_all fuel bs ct replies s (done r) e few runs =
      collect_after-Counted fuel (length bs) replies r.status r s refl
        (λ f. write_all_err fuel bs ct r e f)
        (ap (λ n. collect_after net fuel n replies r.status r)
            (sym (reply_count_lem (length bs) few))
          ∙ runs)
  after_write_all fuel bs ct replies s starved e few runs = cc
  after_write_all fuel bs ct replies s fault e few runs = cc

  -- A batch of fewer than 2^31 requests that comes back reports success exactly when it has added a
  -- reply for each request to the caller's vector; when it reports failure it has added fewer.
  pub pipeline_send_and_get_reply_counts :
      (fuel : ℕ) (ct : Context S) (bs : List Builder) (replies : List Reply) (s : Batch S)
      → length bs < two31
      → pipeline_send_and_get_reply net fuel ct bs replies ≡ done s
      → ((s.status ≡ redis_ok) × (length s.replies ≡ length replies + length bs))
        ⊎ ((s.status ≡ redis_err) × (length s.replies < length replies + length bs))
  pipeline_send_and_get_reply_counts fuel ct bs replies s few runs =
      after_write_all fuel bs ct replies s (write_all net fuel bs ct) refl few
        (unfold pipeline_send_and_get_reply in runs)
