-- ===== src/Redis/Tests/Startup.antt =====
-- The start of the module with two workers, each connection of which is accepted.
use seed_core.Prelude.{ℕ, ◌≡◌, refl, true, List, [], ◌∷◌, some, arith}
use seed_core.Prelude.Int.{pos, to_s32}
use seed_core.Xml.Example.{settings}
use seed_core.Redis.Builder.{Builder}
use seed_core.Redis.Reply.{nil, error}
use seed_core.Redis.Mgr.{Mgr, Host}
use seed_core.Redis.Mgr.Execute.{create_redis_context}
use seed_core.Redis.Mgr.Initialize.{
  load_config_file, rounds, connect_loop, after_create, after_connect, after_load, initialize,
}
use seed_core.Redis.Mgr.Startup.{AllIdle, initialize_lem}
use seed_core.Redis.Async.Queue.{IsReady}
use seed_core.Redis.Tests.{machine, fresh_context, two_workers, connected}

abbrev accepting : Host ℕ ℕ (List Builder)
accepting = record (machine nil) {
  connect_with_timeout = λ config e. (some fresh_context, e);
  command_auth = λ c p. (some (error []), c);
}

abbrev no_connections : Mgr ℕ ℕ (List Builder)
no_connections = record two_workers { connections = []; connect_num = pos 0 }

abbrev started : Mgr ℕ ℕ (List Builder)
started = record two_workers {
  config = record two_workers.config {
    ip = 3 ∷ [];
    port = pos 2;
    connect_tv_sec = pos 2;
    pass_word = 3 ∷ [];
  };
  connections = connected fresh_context ∷ connected fresh_context ∷ connected fresh_context ∷ [];
}

starts : initialize accepting settings [] no_connections ≡ (true, started)
unfolding initialize load_config_file after_load rounds to_s32 connect_loop after_create
    after_connect create_redis_context
starts = refl

initialize_lem_example : IsReady started × AllIdle accepting started.connections
unfolding load_config_file
initialize_lem_example =
    initialize_lem accepting settings [] no_connections started 2 refl refl (omega arith)
      (omega arith) starts
