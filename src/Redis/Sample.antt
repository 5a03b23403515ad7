-- ===== src/Redis/Sample.antt =====
-- RedisMgr.cpp, TestPipeline: three requests in one batch on the main thread's connection.
use seed_core.Prelude.{List, [], ◌∷◌, Run, done, ◌>>=◌, ℕ}
use seed_core.Prelude.Int.{pos}
use seed_core.Redis.Builder.{Builder, request}
use seed_core.Redis.Transport.{Status}
use seed_core.Redis.Transport.Pipeline.{pipeline_send_and_get_reply}
use seed_core.Redis.Mgr.{Mgr, Host, connection_idx, at, with_ctx}
use seed_core.Redis.Sync.{word}

module _ {S E Q : Type 0} (host : Host S E Q) where
  unfoldable pub sample_requests : List Builder
  sample_requests =
      request host.sprintf (word "GET" ∷ word "xuping" ∷ [])
      ∷ request host.sprintf (word "SET" ∷ word "xuping1" ∷ word "this is test" ∷ [])
      ∷ request host.sprintf (word "GET" ∷ word "xuping1" ∷ [])
      ∷ []

  -- What the status says is only logged.
  unfoldable pub test_pipeline : ℕ → Mgr S E Q → Run (Status × Mgr S E Q)
  unfolding sample_requests
  test_pipeline fuel m = connection_idx (pos 0) m.connect_num >>= λ i. at m.connections i >>= λ c.
      pipeline_send_and_get_reply host.net fuel c.ctx sample_requests [] >>= λ r.
      done (r.status, with_ctx m i r.context)
