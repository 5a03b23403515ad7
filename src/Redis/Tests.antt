-- ===== src/Redis/Tests.antt =====
-- Examples: a peer, a host and a module with two workers, and the theorems at requests of theirs.
mod Requests
mod Connections
mod Commands
mod Reports
mod Sessions
mod Startup
use seed_core.Prelude.{
  ℕ, zero, suc, ◌+◌, ◌<◌, ◌≡◌, ◌≢◌, refl, Bool, true, false, List, [], ◌∷◌, ◌++◌, Option, none,
  some, Bytes, arith, length, codes, Run, done, get_elem?,
}
use seed_core.Prelude.Int.{ℤ, pos, two31}
use seed_core.Prelude.Decimal.{decimal, digits}
use seed_core.Redis.Resp.{encode, bulks}
use seed_core.Redis.Builder.{Builder, Arg, string, number, IsSprintf, formatted, c_str, request}
use seed_core.Redis.Builder.Encoding.{text, texts, Fits, Holds, request-Holds}
use seed_core.Redis.Reply.{Reply}
use seed_core.Redis.Transport.{Sent, wrote, interrupted, Context, Net, redis_ok}
use seed_core.Redis.Transport.Write.{Accepts}
use seed_core.Redis.Mgr.{Config, Connection, Mgr, Host, connection_idx}
use seed_core.Redis.Async.Queue.{IsReady}
use seed_core.Redis.Sync.{word}
use seed_core.Redis.Sync.Results.{Reaches, Sendable}

-- A formatter whose buffers are never too small.
abbrev print : ℕ → ℕ → ℤ → Bytes
print size mark v = formatted mark v

print-IsSprintf : IsSprintf print
print-IsSprintf = record { whole = λ size mark v h. refl }

-- A socket whose first send is interrupted by a signal; later it takes a byte at a time.
abbrev send_slowly : ℕ → Bytes → Sent × ℕ
send_slowly zero bs = (interrupted, 1)
send_slowly (suc n) bs = (wrote 1, suc (suc n))

-- A server that gives the same answer to every request.
abbrev server : Reply → Net ℕ
server r = record {
  send = send_slowly;
  buffer_read = λ c. (redis_ok, c);
  reply_from_reader = λ c. (some (some r), c);
}

abbrev Live : ℕ → Type 0
Live n = 0 < n

server-Accepts : (r : Reply) → Accepts (server r) Live
server-Accepts r = record {
  taken = λ s bs. 1;
  next = λ s bs. suc s;
  answers = λ s bs alive filled. answer s bs alive;
  some_bytes = λ s bs alive filled. omega arith;
  no_more = λ s bs alive filled. omega arith;
  stays = λ s bs alive filled. omega arith;
}
  where
    answer : (s : ℕ) (bs : Bytes) → 0 < s → send_slowly s bs ≡ (wrote 1, suc s)
    answer zero bs h = absurd (omega arith)
    answer (suc n) bs h = refl

-- The outside is a clock, and a list of commands is a list.
abbrev machine : Reply → Host ℕ ℕ (List Builder)
machine r = record {
  net = server r;
  connect_with_timeout = λ config e. (none, e);
  command_auth = λ c p. (none, c);
  now = λ e. (e, e + 1);
  sleep = λ n e. e + n;
  sprintf = print;
  empty_list = [];
  insert_head = λ b q. b ∷ q;
  cut_list = λ q. (q, []);
  start_async = λ t e. e;
}

abbrev fresh_context : Context ℕ
fresh_context = record { err = 0; blocking = true; obuf = 0; socket = 1 }

abbrev failed_context : Context ℕ
failed_context = record fresh_context { err = 1 }

abbrev connected : Context ℕ → Connection ℕ (List Builder)
connected c = record {
  ctx = c;
  thread_cmd_list = [];
  thread_idx = pos 1;
  has_task_handler = false;
  post_task = false;
}

-- Two workers; the connection of the first has failed.
abbrev two_workers : Mgr ℕ ℕ (List Builder)
two_workers = record {
  config = record {
    ip = codes "127.0.0.1";
    port = pos 6379;
    connect_num = pos 2;
    connect_tv_sec = pos 3;
    pass_word = [];
    reattempt_time = pos 0;
  };
  connections = connected fresh_context ∷ connected fresh_context ∷ connected failed_context ∷ [];
  connect_num = pos 2;
  env = 0;
}

two_workers-IsReady : IsReady two_workers
two_workers-IsReady = record {
  workers = 2;
  some_worker = omega arith;
  small = omega arith;
  counted = refl;
  connected = refl;
}

abbrev get_words : List Arg
get_words = word "GET" ∷ string (codes "name") ∷ []

abbrev get_all_words : List Arg
get_all_words = word "HGETALL" ∷ string (codes "user") ∷ []

get_words-Fits : Fits get_words
unfolding c_str
get_words-Fits = (omega arith, (omega arith, tt))

get_words_size : length (encode (texts get_words)) ≡ 23
unfolding encode bulks decimal digits c_str
get_words_size = refl

get_words-Sendable : Sendable 100 get_words
get_words-Sendable = record {
  few = omega arith;
  fits = get_words-Fits;
  small = omega (arith, get_words_size);
  enough = omega (arith, get_words_size);
}

get_all_words-Sendable : Sendable 100 get_all_words
get_all_words-Sendable = record {
  few = omega arith;
  fits = unfold c_str in (omega arith, (omega arith, tt));
  small = omega (arith, size);
  enough = omega (arith, size);
}
  where
    size : length (encode (texts get_all_words)) ≡ 27
    size = unfold encode bulks decimal digits c_str in refl

abbrev get_name : Builder
get_name = request print get_words

get_name-Holds : Holds get_name (encode (texts get_words))
get_name-Holds = request-Holds print-IsSprintf get_words (omega arith) get_words-Fits
