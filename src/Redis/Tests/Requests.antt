-- ===== src/Redis/Tests/Requests.antt =====
-- Requests and replies: the encoding, the wire and the reading of replies.
use seed_core.Prelude.{
  ℕ, ◌+◌, ◌≡◌, ◌<◌, refl, ◌⊎◌, true, false, List, [], ◌∷◌, ◌++◌, some, Bytes, arith, length, codes,
  done,
}
use seed_core.Redis.Resp.{encode, decode}
use seed_core.Redis.StringMap.{StringMap, find, IsSorted}
use seed_core.Redis.Builder.{Builder, get_send_buff}
use seed_core.Redis.Builder.Encoding.{texts, decode-get_send_buff-request}
use seed_core.Redis.Reply.{Reply, Replies, str, arr, nil, end, more, parse_string_map}
use seed_core.Redis.Reply.Laws.{first_value, parse_string_map_lem}
use seed_core.Redis.Transport.{Context, Wire, redis_ok, redis_err, aim, buffer_write}
use seed_core.Redis.Transport.Request.{Drained, buffer_write-Holds}
use seed_core.Redis.Transport.Interrupt.{top_byte, buffer_write_interrupted}
use seed_core.Redis.Transport.Pipeline.{Batch, write_all, pipeline_send_and_get_reply}
use seed_core.Redis.Transport.Batches.{pipeline_send_and_get_reply_counts}
use seed_core.Redis.Tests.{
  print-IsSprintf, server, Live, server-Accepts, fresh_context, get_words, get_words-Fits,
  get_words_size, get_name, get_name-Holds,
}

decode-get_send_buff-request_example :
    decode (get_send_buff get_name ++ []) ≡ some (texts get_words, [])
decode-get_send_buff-request_example =
    decode-get_send_buff-request print-IsSprintf get_words [] (omega arith) get_words-Fits

buffer_write-Holds_example :
    (v : Wire ℕ) × (buffer_write (server nil) 100 (aim fresh_context get_name) ≡ done (redis_ok, v))
    × (v.sent ≡ encode (texts get_words))
    × (v.context.err ≡ 0)
    × Drained (record get_name { cmd = v.mem }) (encode (texts get_words))
    × Live v.context.socket
buffer_write-Holds_example =
    buffer_write-Holds (server nil) (server-Accepts nil) 100 fresh_context get_name
      (encode (texts get_words)) (omega arith) refl get_name-Holds (omega (arith, get_words_size))
      (omega (arith, get_words_size))

-- A builder whose length has counted down.
abbrev spent : Builder
spent = record { count = 1; committed = true; cmd = 0 ∷ 0 ∷ 0 ∷ 0 ∷ codes "*0"; seek = 4 }

abbrev interrupted_context : Context ℕ
interrupted_context = record fresh_context { socket = 0 }

buffer_write_interrupted_example :
    (v : Wire ℕ) × (buffer_write (server nil) 102 (aim interrupted_context get_name)
      ≡ done (redis_ok, v))
    × (v.sent ≡ top_byte (length (encode (texts get_words)) + 1) ∷ encode (texts get_words))
buffer_write_interrupted_example =
    buffer_write_interrupted (server nil) (server-Accepts nil) 100 interrupted_context get_name
      (encode (texts get_words)) 1 refl (omega arith) refl get_name-Holds
      (omega (arith, get_words_size)) (omega (arith, get_words_size))
      (omega (arith, get_words_size))

-- A builder that was not committed.
abbrev open_builder : Builder
open_builder = record spent { committed = false }

abbrev refused : Batch ℕ
refused = record {
  status = redis_err;
  context = fresh_context;
  builders = open_builder ∷ [];
  replies = [];
  sent = [];
}

pipeline_send_and_get_reply_counts_example :
    ((refused.status ≡ redis_ok) × (length refused.replies ≡ 0 + 1))
    ⊎ ((refused.status ≡ redis_err) × (length refused.replies < 0 + 1))
pipeline_send_and_get_reply_counts_example =
    pipeline_send_and_get_reply_counts (server nil) 1 fresh_context (open_builder ∷ []) [] refused
      (omega arith) (unfold pipeline_send_and_get_reply write_all in refl)

abbrev fields : Replies
fields =
    more (str (codes "a"))
      (more (str (codes "1")) (more (str (codes "a")) (more (str (codes "2")) (more nil end))))

abbrev field_pairs : List (Reply × Reply)
field_pairs = (str (codes "a"), str (codes "1")) ∷ (str (codes "a"), str (codes "2")) ∷ []

parse_string_map_lem_example :
    (m : StringMap) × (parse_string_map (arr fields) [] ≡ done (true, m))
    × IsSorted m
    × ((i : Bytes) → find i m ≡ first_value i field_pairs)
parse_string_map_lem_example =
    parse_string_map_lem fields field_pairs (nil ∷ []) refl (omega arith) (omega arith)
      (omega arith)
