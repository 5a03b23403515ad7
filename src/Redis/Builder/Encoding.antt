-- ===== src/Redis/Builder/Encoding.antt =====
-- What a committed builder holds: the request in the protocol's encoding, behind its own length.
use seed_core.Prelude.{
  ℕ, suc, ◌+◌, ◌-◌, ◌≤◌, ◌<◌, ◌≡◌, refl, sym, ap, ap₂, subst, take-replicate, ◌∙◌, true, false,
  List, [], ◌∷◌, ◌++◌, map, arith, some, Bytes, length, drop, replicate, append_assoc, append-nil,
  length-append, length-replicate, drop-append,
}
use seed_core.Prelude.Int.{ℤ, pos, to_s32, to_s32-pos, two31}
use seed_core.Prelude.Decimal.{decimal, decimal_ℤ, length-decimal}
use seed_core.Redis.Memory.{le32}
use seed_core.Redis.Resp.{crlf, bulk, bulks, encode, decode, decode-encode}
use seed_core.Redis.Builder.{
  Builder, Arg, string, chars, number, IsSprintf, formatted, c_str, put, put_all, commit,
  write_head, new_builder, request, get_send_buff, head_content_buff,
}

-- The bytes that an operand stands for.
abbrev pub text : Arg → Bytes
text (string a) = a
text (chars a) = c_str a
text (number v) = decimal_ℤ v

abbrev pub texts : List Arg → List Bytes
texts = map text

-- Every operand's length is that of an `s32`.
abbrev pub Fits : List Arg → Type 0
Fits [] = Unit {0}
Fits (a ∷ args) = (length (text a) < two31) × Fits args

-- `b` is committed, and what it sends is `payload`, with its length in the four bytes in front.
pub record Holds (b : Builder) (payload : Bytes) : Type 0 where
  pub free : Bytes
  pub laid_out : b.cmd ≡ free ++ (le32 (length payload) ++ payload)
  pub starts : b.seek ≡ length free + 4
  pub is_committed : b.committed ≡ true

-- The buffer of a request before its `Commit`.
abbrev filled : List Arg → Builder
filled args = record new_builder {
  cmd = new_builder.cmd ++ bulks (texts args);
  count = 0 + length args;
}

decimal_ℤ-pos : (n : ℕ) → decimal_ℤ (pos n) ≡ decimal n
unfolding decimal_ℤ
decimal_ℤ-pos n = refl

module _ {sprintf : ℕ → ℕ → ℤ → Bytes} (law : IsSprintf sprintf) where
  -- Sixteen bytes hold every header: `%d` prints an `s32` in ten digits.
  header_lem :
      (size mark n : ℕ)
      → 16 ≤ size
      → n < two31
      → sprintf size mark (to_s32 (pos n)) ≡ mark ∷ (decimal n ++ crlf)
  header_lem size mark n room small =
      rw (to_s32-pos n small) (law.whole size mark (pos n) bound ∙ rw decimal_ℤ-pos refl)
    where
      bound : length (formatted mark (pos n)) < size
      bound =
          rw (decimal_ℤ-pos n) (omega (arith, length-append (decimal n) crlf, length-decimal n 9))

  -- The header of an operand and its bytes are one bulk string.
  bulk_lem :
      (val : Bytes)
      → length val < two31
      → sprintf 32 b'$' (to_s32 (pos (length val))) ++ (val ++ crlf) ≡ bulk val
  bulk_lem val h =
      ap (λ (t : Bytes). t ++ (val ++ crlf)) (header_lem 32 b'$' (length val) (omega arith) h)
      ∙ ap (◌∷◌ b'$') (append_assoc (decimal (length val)) crlf (val ++ crlf))

  put-bulk :
      (b : Builder) (a : Arg)
      → length (text a) < two31
      → put sprintf b a ≡ record b { cmd = b.cmd ++ bulk (text a); count = b.count + 1 }
  unfolding put
  put-bulk b (string a) h = rw (bulk_lem a h) refl
  put-bulk b (chars a) h = rw (bulk_lem (c_str a) h) refl
  put-bulk b (number v) h = rw (bulk_lem (decimal_ℤ v) h) refl

  -- A chain of `<<` appends one bulk string for each operand and counts them.
  put_all-bulks :
      (b : Builder) (args : List Arg)
      → Fits args
      → put_all sprintf b args
        ≡ record b { cmd = b.cmd ++ bulks (texts args); count = b.count + length args }
  put_all-bulks b [] h = unfold put_all bulks in ground (arith, append-nil b.cmd)
  put_all-bulks b (a ∷ args) (h, hs) =
      put_all-cons
      ∙ ap (λ (c : Builder). put_all sprintf c args) (put-bulk b a h)
      ∙ put_all-bulks (record b { cmd = b.cmd ++ bulk (text a); count = b.count + 1 }) args hs
      ∙ regroup
    where
      put_all-cons : put_all sprintf b (a ∷ args) ≡ put_all sprintf (put sprintf b a) args
      put_all-cons = unfold put_all in refl

      regroup :
          record b {
            cmd = (b.cmd ++ bulk (text a)) ++ bulks (texts args);
            count = b.count + 1 + length args;
          }
          ≡ record b {
            cmd = b.cmd ++ bulks (text a ∷ texts args);
            count = b.count + suc (length args);
          }
      regroup =
          unfold bulks in ground (arith, append_assoc b.cmd (bulk (text a)) (bulks (texts args)))

  length-texts : (args : List Arg) → length (texts args) ≡ length args
  length-texts [] = refl
  length-texts (a ∷ args) = ap suc (length-texts args)

  -- What `Commit` writes over the free bytes, for a header of at most fifteen.
  write_head-Holds :
      (b : Builder) (head body : Bytes)
      → b.cmd ≡ replicate head_content_buff 0 ++ body
      → length head < 16
      → Holds (write_head sprintf b (head_content_buff - (length head + 4)) head) (head ++ body)
  unfolding write_head
  write_head-Holds b head body e h = record {
    free = replicate seek 0;
    laid_out = rw e (
        ap₂ (λ (f : Bytes) (r : Bytes). f ++ r)
          (take-replicate seek head_content_buff 0 body (omega arith)) behind);
    starts = omega (arith, length-replicate {A = ℕ} seek 0);
    is_committed = refl;
  }
    where
      seek : ℕ
      seek = head_content_buff - (length head + 4)

      whole : Bytes
      whole = replicate head_content_buff 0 ++ body

      size : length whole - seek - 4 ≡ length (head ++ body)
      size = omega (arith, length-append head body)

      rest : drop (seek + (length head + 4)) whole ≡ body
      rest =
          drop-append (replicate head_content_buff 0) body (seek + (length head + 4)) (omega arith)

      behind :
          (le32 (length whole - seek - 4) ++ head) ++ drop (seek + (length head + 4)) whole
          ≡ le32 (length (head ++ body)) ++ (head ++ body)
      behind = rw (size, rest) (append_assoc (le32 (length (head ++ body))) head body)

  commit-Holds :
      (b : Builder) (n : ℕ) (body : Bytes)
      → b.committed ≡ false
      → b.cmd ≡ replicate head_content_buff 0 ++ body
      → b.count ≡ n
      → n < two31
      → Holds (commit sprintf b) ((b'*' ∷ (decimal n ++ crlf)) ++ body)
  unfolding commit
  commit-Holds b n body open_ e counted small =
      rw (open_, head) (write_head-Holds b (b'*' ∷ (decimal n ++ crlf)) body e bound)
    where
      head : sprintf 16 b'*' (to_s32 (pos b.count)) ≡ b'*' ∷ (decimal n ++ crlf)
      head = rw counted (header_lem 16 b'*' n (omega arith) small)

      bound : length (b'*' ∷ (decimal n ++ crlf)) < 16
      bound = omega (arith, length-append (decimal n) crlf, length-decimal n 9)

  encode_lem :
      (args : List Arg)
      → (b'*' ∷ (decimal (length args) ++ crlf)) ++ bulks (texts args) ≡ encode (texts args)
  unfolding encode
  encode_lem args =
      rw (length-texts args)
        (ap (◌∷◌ b'*') (append_assoc (decimal (length args)) crlf (bulks (texts args))))

  -- Every request of operands that fit is laid out whole, with its length in front.
  pub request-Holds :
      (args : List Arg)
      → length args < two31
      → Fits args
      → Holds (request sprintf args) (encode (texts args))
  unfolding request
  request-Holds args small fits = rw (put_all-bulks new_builder args fits) (
      subst (Holds (commit sprintf (filled args))) (encode_lem args) (
        commit-Holds (filled args) (length args) (bulks (texts args)) refl refl (omega arith)
          small))

  -- The bytes behind the request's start are its encoding.
  pub get_send_buff-Holds :
      (b : Builder) (payload : Bytes) → Holds b payload → get_send_buff b ≡ payload
  unfolding get_send_buff
  get_send_buff-Holds b payload h =
      rw (h.laid_out, h.starts)
        (ap (drop (length h.free + 4)) (sym (append_assoc h.free (le32 (length payload)) payload))
          ∙ drop-append (h.free ++ le32 (length payload)) payload (length h.free + 4)
              (omega (arith, length-append h.free (le32 (length payload)))))

  -- For fewer than 2^31 operands, each shorter than 2^31, and a SafeSprintf that prints whole what
  -- fits: a server that reads what a request sends gets the operands back, each whole and in
  -- order, and whatever is sent behind them.
  pub decode-get_send_buff-request :
      (args : List Arg) (rest : Bytes)
      → length args < two31
      → Fits args
      → decode (get_send_buff (request sprintf args) ++ rest) ≡ some (texts args, rest)
  decode-get_send_buff-request args rest small fits =
      rw (get_send_buff-Holds _ _ (request-Holds args small fits)) (decode-encode (texts args) rest)
