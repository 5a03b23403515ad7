-- ===== src/Redis/Session.antt =====
-- The synchronous interface of RedisMgr over a server that keeps data: redis itself is the parameter
-- `answer`, from a request and its data to a reply and its new data.
pub mod Served
pub mod Program
pub mod Batches
pub mod Replies
pub mod Apart
pub mod Threads
pub mod Task
pub mod Strings
pub mod Example
use seed_core.Prelude.{
  ℕ, ◌≡◌, Bool, true, false, List, [], ◌∷◌, Option, none, some, Bytes, ◌<◌, ◌≤◌, if◌then◌else◌,
}
use seed_core.Redis.Resp.{decode}
use seed_core.Redis.Reply.{Reply, bytes_eq}
use seed_core.Redis.Transport.{redis_ok, Context, Net}
use seed_core.Redis.Transport.Heard.{Took}

-- What a request does to the data `D` of a server, and what the server replies.
abbrev pub Answer : Type 0 → Type 0
Answer D = List Bytes → D → Reply × D

module _ {S : Type 0} (net : Net S) (live : S → Type 0) {D : Type 0} (answer : Answer D) where
  -- A peer over a connection that works, behind a reader that collects its replies in pieces.
  -- `heard` is what the peer has received and the client has no reply to yet, `store` are the data
  -- in front of that, and `got` is the number of bytes of replies that the reader holds. A reply `r`
  -- has `size r` bytes. While the reader has less than the reply to the next whole request, it says
  -- that there is none yet, and a read brings at least one byte more; as soon as it has all of the
  -- reply, it gives it out. Nothing comes without a request.
  pub record Session : Type 0 where
    pub heard : S → Bytes
    pub store : S → D
    pub got : S → ℕ
    pub size : Reply → ℕ
    pub some_size : (r : Reply) → 0 < size r
    pub sends :
        (s : S) (bs : Bytes)
        → Took {D = D × ℕ} heard (λ (t : S). (store t, got t)) s bs (net.send s bs)
    pub quiet : (s : S) → live s → heard s ≡ [] → got s ≡ 0
    pub waits :
        (c : Context S) (args : List Bytes) (rest : Bytes)
        → live c.socket
        → c.err ≡ 0
        → decode (heard c.socket) ≡ some (args, rest)
        → got c.socket < size (answer args (store c.socket)).0
        → (c' : Context S) × (net.reply_from_reader c ≡ (some none, c'))
          × live c'.socket
          × (c'.err ≡ 0)
          × (heard c'.socket ≡ heard c.socket)
          × (store c'.socket ≡ store c.socket)
          × (got c'.socket ≡ got c.socket)
    pub arrives :
        (c : Context S) (args : List Bytes) (rest : Bytes)
        → live c.socket
        → c.err ≡ 0
        → decode (heard c.socket) ≡ some (args, rest)
        → got c.socket < size (answer args (store c.socket)).0
        → (c' : Context S) × (net.buffer_read c ≡ (redis_ok, c'))
          × live c'.socket
          × (c'.err ≡ 0)
          × (heard c'.socket ≡ heard c.socket)
          × (store c'.socket ≡ store c.socket)
          × (got c.socket < got c'.socket)
    pub parses :
        (c : Context S) (args : List Bytes) (rest : Bytes)
        → live c.socket
        → c.err ≡ 0
        → decode (heard c.socket) ≡ some (args, rest)
        → size (answer args (store c.socket)).0 ≤ got c.socket
        → (c' : Context S) × (net.reply_from_reader c
            ≡ (some (some (answer args (store c.socket)).0), c'))
          × live c'.socket
          × (c'.err ≡ 0)
          × (heard c'.socket ≡ rest)
          × (store c'.socket ≡ (answer args (store c.socket)).1)

module _ {S : Type 0} {net : Net S} {live : S → Type 0} {D : Type 0} {answer : Answer D} where
  -- The peer has heard `bs` and not answered it, and its data are `d`.
  pub record Awaits (p : Session net live answer) (ct : Context S) (bs : Bytes) (d : D)
      : Type 0 where
    pub alive : live ct.socket
    pub fine : ct.err ≡ 0
    pub waiting : p.heard ct.socket ≡ bs
    pub stored : p.store ct.socket ≡ d

  -- Between two requests.
  abbrev pub IsIdle : Session net live answer → Context S → D → Type 0
  IsIdle p ct d = Awaits p ct [] d

-- Sets of texts, as lists.
abbrev pub mem : Bytes → List Bytes → Bool
mem x [] = false
mem x (y ∷ ys) = if bytes_eq x y then true else mem x ys

abbrev pub without : Bytes → List Bytes → List Bytes
without x [] = []
without x (y ∷ ys) = let rest = without x ys in if bytes_eq x y then rest else y ∷ rest
