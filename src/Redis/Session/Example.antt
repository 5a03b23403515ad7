-- ===== src/Redis/Session/Example.antt =====
-- An example of a server that keeps data: strings and sets, behind a socket that takes a byte of
-- what it is offered, and a host around it.
use seed_core.Prelude.{
  ltb, ◌≢◌, ap, ◌≤◌, Bool, ℕ, ◌+◌, ◌≡◌, ◌<◌, refl, sym, true, false, List, [], ◌∷◌, ◌++◌, Option,
  none, some, Bytes, codes, arith, append-nil, length, if◌then◌else◌,
}
use seed_core.Prelude.Int.{ℤ, pos}
use seed_core.Redis.Resp.{decode}
use seed_core.Redis.Builder.{Builder, IsSprintf, formatted}
use seed_core.Redis.Reply.{Reply, Replies, end, more, str, arr, int, status, error, bytes_eq}
use seed_core.Redis.Transport.{Sent, wrote, Context, Net, redis_ok}
use seed_core.Redis.Transport.Heard.{Took}
use seed_core.Redis.Transport.Write.{Accepts}
use seed_core.Redis.Mgr.{Mgr, Host, Connection, connection_idx}
use seed_core.Redis.Session.{Answer, Session, IsIdle, mem, without}
use seed_core.Redis.Session.Served.{Connected}
use seed_core.Redis.Session.Strings.{IsStrings, got}

decode_empty : (args : List Bytes) (rest : Bytes) → decode [] ≢ some (args, rest)
unfolding decode
decode_empty args rest e = cc

-- `held` are the bytes of the next reply that the client's reader has, while there is a request.
pub record Peer (D : Type 0) : Type 0 where
  pub heard : Bytes
  pub kept : D
  pub held : ℕ

abbrev held_of : {D : Type 0} → Peer D → ℕ
held_of s = elim s.heard [ [] ↦ 0 | b ∷ bs ↦ s.held ]

held_waiting :
    {D : Type 0} (h : Bytes) (k : D) (n : ℕ) (args : List Bytes) (rest : Bytes)
    → decode h ≡ some (args, rest)
    → held_of (record { heard = h; kept = k; held = n }) ≡ n
held_waiting [] k n args rest e = absurd (decode_empty args rest e)
held_waiting (b ∷ bs) k n args rest e = refl

held_sent :
    {D : Type 0} (h bs : Bytes) (b : ℕ) (k : D) (n : ℕ)
    → held_of (record { heard = h ++ b ∷ bs; kept = k; held = n }) ≡ n
held_sent [] bs b k n = refl
held_sent (c ∷ cs) bs b k n = refl

module _ {D : Type 0} (answer : Answer D) where
  abbrev send_byte : Peer D → Bytes → Sent × Peer D
  send_byte s [] = (wrote 0, s)
  send_byte s (b ∷ bs) = (wrote 1, record s { heard = s.heard ++ b ∷ []; held = held_of s })

  -- The reply to a whole request, once both its bytes are there, after which nothing is left of it.
  abbrev reply_to :
      Context (Peer D)
      → Option (List Bytes × Bytes)
      → Bool
      → Option (Option Reply) × Context (Peer D)
  reply_to c none early = (some none, c)
  reply_to c (some (args, rest)) true = (some none, c)
  reply_to c (some (args, rest)) false =
      let (r, d) = answer args c.socket.kept in
      (some (some r), record c { socket = record { heard = rest; kept = d; held = 0 } })

  -- A read brings a byte.
  abbrev pub peer : Net (Peer D)
  peer = record {
    send = send_byte;
    buffer_read =
        λ c. (redis_ok, record c { socket = record c.socket { held = held_of c.socket + 1 } });
    reply_from_reader = λ c. reply_to c (decode c.socket.heard) (ltb (held_of c.socket) 2);
  }

  abbrev pub Always : Peer D → Type 0
  Always s = Unit {0}

  pub peer-Accepts : Accepts peer Always
  peer-Accepts = record {
    taken = λ s bs. 1;
    next = λ s bs. (send_byte s bs).1;
    answers = λ s bs alive filled. takes_one s bs filled;
    some_bytes = λ s bs alive filled. omega arith;
    no_more = λ s bs alive filled. omega arith;
    stays = λ s bs alive filled. tt;
  }
    where
      takes_one :
          (s : Peer D) (bs : Bytes) → 0 < length bs → send_byte s bs ≡ (wrote 1, (send_byte s bs).1)
      takes_one s [] h = absurd (omega arith)
      takes_one s (b ∷ bs) h = refl

  not_yet : (n : ℕ) → n < 2 → ltb n 2 ≡ true
  not_yet n h = ground arith

  by_now : (n : ℕ) → 2 ≤ n → ltb n 2 ≡ false
  by_now n h = ground arith

  pub peer-Session : Session peer Always answer
  peer-Session = record {
    heard = λ s. s.heard;
    store = λ s. s.kept;
    got = λ s. held_of s;
    size = λ r. 2;
    some_size = λ r. omega arith;
    sends = hears;
    quiet = λ s alive e. ap (λ (h : Bytes). elim h [ [] ↦ 0 | b ∷ bs ↦ s.held ]) e;
    waits = λ c args rest alive fine whole less.
        (c, rw (whole, not_yet (held_of c.socket) less) refl, tt, fine, refl, refl, refl);
    arrives = λ c args rest alive fine whole less. (
      record c { socket = record c.socket { held = held_of c.socket + 1 } },
      refl,
      tt,
      fine,
      refl,
      refl,
      omega
          (arith, held_waiting c.socket.heard c.socket.kept (held_of c.socket + 1) args rest whole),
    );
    parses = λ c args rest alive fine whole enough. (
      record c { socket = record { heard = rest; kept = (answer args c.socket.kept).1; held = 0 } },
      rw (whole, by_now (held_of c.socket) enough) refl,
      tt,
      fine,
      refl,
      refl,
    );
  }
    where
      hears :
          (s : Peer D) (bs : Bytes)
          → Took {D = D × ℕ}
              (λ (t : Peer D). t.heard)
              (λ (t : Peer D). (t.kept, held_of t))
              s
              bs
              (send_byte s bs)
      hears s [] = (omega arith, sym (append-nil s.heard), refl)
      hears s (b ∷ bs) = (
        omega arith,
        refl,
        ap (λ (n : ℕ). (s.kept, n)) (held_sent s.heard [] b s.kept (held_of s)),
      )

-- Strings and sets, by key.
pub record Data : Type 0 where
  pub strings : Bytes → Option Bytes
  pub sets : Bytes → List Bytes

abbrev pub no_data : Data
no_data = record { strings = λ k. none; sets = λ k. [] }

abbrev pub update : {A : Type 0} → (Bytes → A) → Bytes → A → Bytes → A
update f k v j = if bytes_eq k j then v else f j

abbrev pub listed : List Bytes → Replies
listed [] = end
listed (x ∷ xs) = more (str x) (listed xs)

-- A command with a key and one with two operands.
abbrev one_key : Bytes → Bytes → Data → Reply × Data
one_key name k d =
    if bytes_eq name (codes "GET")
    then (got (d.strings k), d)
    else if bytes_eq name (codes "DEL")
    then (int (pos 1), record d { sets = update d.sets k [] })
    else if bytes_eq name (codes "SMEMBERS")
    then (arr (listed (d.sets k)), d)
    else (error [], d)

abbrev two_operands : Bytes → Bytes → Bytes → Data → Reply × Data
two_operands name k x d =
    let there = mem x (d.sets k) in
    if bytes_eq name (codes "SET")
    then (status (codes "OK"), record d { strings = update d.strings k (some x) })
    else if bytes_eq name (codes "SADD")
    then (
      int (if there then pos 0 else pos 1),
      record d { sets = update d.sets k (if there then d.sets k else x ∷ d.sets k) },
    )
    else if bytes_eq name (codes "SREM")
    then (
      int (if there then pos 1 else pos 0),
      record d { sets = update d.sets k (without x (d.sets k)) },
    )
    else (error [], d)

unfoldable pub small_redis : Answer Data
unfolding bytes_eq
small_redis (name ∷ k ∷ []) d = one_key name k d
small_redis (name ∷ k ∷ x ∷ []) d = two_operands name k x d
small_redis _ d = (error [], d)

pub small_redis-IsStrings : IsStrings small_redis
unfolding small_redis
small_redis-IsStrings = record {
  value = λ d k. d.strings k;
  set_reply = λ k v d. refl;
  value-set = λ k v j d. refl;
  get_reply = λ k d. refl;
  value-get = λ k j d. refl;
}

-- The host is a clock, and a list of commands is a list.
abbrev print : ℕ → ℕ → ℤ → Bytes
print size mark v = formatted mark v

pub print-IsSprintf : IsSprintf print
print-IsSprintf = record { whole = λ size mark v h. refl }

-- A host, a connection, a module with one worker, and its main thread, whatever the server answers
-- and keeps.
abbrev pub machine_of : {D : Type 0} → Answer D → Host (Peer D) ℕ (List Builder)
machine_of answer = record {
  net = peer answer;
  connect_with_timeout = λ config e. (none, e);
  command_auth = λ c p. (none, c);
  now = λ e. (e, e + 1);
  sleep = λ n e. e + n;
  sprintf = print;
  empty_list = [];
  insert_head = λ b q. b ∷ q;
  cut_list = λ q. (q, []);
  start_async = λ t e. e;
}

abbrev pub fresh_of : {D : Type 0} → D → Context (Peer D)
fresh_of d = record {
  err = 0;
  blocking = true;
  obuf = 0;
  socket = record { heard = []; kept = d; held = 0 };
}

abbrev pub to_server_of : {D : Type 0} → D → Connection (Peer D) (List Builder)
to_server_of d = record {
  ctx = fresh_of d;
  thread_cmd_list = [];
  thread_idx = pos 1;
  has_task_handler = false;
  post_task = false;
}

abbrev pub worker_of : {D : Type 0} → D → Mgr (Peer D) ℕ (List Builder)
worker_of d = record {
  config = record {
    ip = codes "127.0.0.1";
    port = pos 6379;
    connect_num = pos 1;
    connect_tv_sec = pos 3;
    pass_word = [];
    reattempt_time = pos 0;
  };
  connections = to_server_of d ∷ to_server_of d ∷ [];
  connect_num = pos 1;
  env = 0;
}

pub fresh-IsIdle :
    {D : Type 0} (answer : Answer D) (d : D) → IsIdle (peer-Session answer) (fresh_of d) d
unfolding peer-Session
fresh-IsIdle answer d = record { alive = tt; fine = refl; waiting = refl; stored = refl }

pub main_thread_of :
    {D : Type 0} (answer : Answer D) (d : D)
    → Connected (peer-Session answer) (worker_of d) (pos 0) 0 d
unfolding connection_idx
main_thread_of answer d = record {
  ct = fresh_of d;
  reached = record { chosen = refl; conn = to_server_of d; there = refl; at = refl };
  idle = fresh-IsIdle answer d;
}

-- The same for strings and sets, of which there are none at first.
abbrev pub machine : Host (Peer Data) ℕ (List Builder)
machine = machine_of small_redis

abbrev pub fresh : Context (Peer Data)
fresh = fresh_of no_data

abbrev pub to_server : Connection (Peer Data) (List Builder)
to_server = to_server_of no_data

abbrev pub one_worker : Mgr (Peer Data) ℕ (List Builder)
one_worker = worker_of no_data

pub main_thread : Connected (peer-Session small_redis) one_worker (pos 0) 0 no_data
main_thread = main_thread_of small_redis no_data

-- A server that gives the same answer to every request.
abbrev pub always : Reply → Answer (Unit {0})
always r args d = (r, d)

pub peer_size : {D : Type 0} (answer : Answer D) → (peer-Session answer).size ≡ (λ r. 2)
unfolding peer-Session
peer_size answer = refl
