-- ===== src/Redis/Builder.antt =====
-- RedisHelper.h, class RedisCmdBuilder: the buffer in which one request is put together. The first
-- twenty bytes are kept free for the header, which `Commit` writes right in front of the arguments:
-- the length of the request as an `int32_t`, then `*<count>\r\n`.
-- `SafeSprintf` is not in the repository: it is the parameter `sprintf`, where `sprintf size mark v`
-- is the text that the format `<mark>%d\r\n` leaves in a buffer of `size` bytes for the value `v`.
pub mod Encoding
pub mod Committed
use seed_core.Prelude.{
  ℕ, suc, ◌+◌, ◌-◌, ◌<◌, ◌≡◌, Bool, true, false, List, [], ◌∷◌, ◌++◌, Bytes, length, take, drop,
  replicate, if◌then◌else◌, ◌==◌, Run, done, fault, ltb,
}
use seed_core.Prelude.Int.{ℤ, pos, negsuc, to_s32}
use seed_core.Prelude.Decimal.{decimal_ℤ}
use seed_core.Redis.Memory.{le32}
use seed_core.Redis.Resp.{crlf}

-- HEAD_CONTENT_BUFF
abbrev pub head_content_buff : ℕ
head_content_buff = 20

pub record Builder : Type 0 where
  pub count : ℕ
  pub committed : Bool
  pub cmd : Bytes
  pub seek : ℕ

abbrev pub formatted : ℕ → ℤ → Bytes
formatted mark v = mark ∷ (decimal_ℤ v ++ crlf)

-- What is relied on: a text that fits with its final NUL is left whole.
pub record IsSprintf (sprintf : ℕ → ℕ → ℤ → Bytes) : Type 0 where
  pub whole :
      (size mark : ℕ) (v : ℤ)
      → length (formatted mark v) < size
      → sprintf size mark v ≡ formatted mark v

pub new_builder : Builder
new_builder = record { count = 0; committed = false; cmd = replicate head_content_buff 0; seek = 0 }

-- `_cmd.resize(buffSize)` cuts the buffer, or fills it up with NULs.
pub new_builder_sized : ℕ → Builder
unfolding new_builder
new_builder_sized buff_size = record new_builder {
  cmd = take buff_size new_builder.cmd ++ replicate (buff_size - head_content_buff) 0;
}

-- A C string ends at its first NUL.
unfoldable pub c_str : Bytes → Bytes
c_str [] = []
c_str (c ∷ s) = if c == 0 then [] else c ∷ c_str s

-- The right operand of `<<`: the overloads for std::string, const char * and the template for
-- numbers.
pub data Arg : Type 0 where
  string chars : Bytes → Arg
  number : ℤ → Arg

module _ (sprintf : ℕ → ℕ → ℤ → Bytes) where
  -- `<<` of a std::string: `%d` reads the low half of the length as an int.
  unfoldable pub put_string : Builder → Bytes → Builder
  put_string b val = record b {
    cmd = b.cmd ++ (sprintf 32 b'$' (to_s32 (pos (length val))) ++ (val ++ crlf));
    count = b.count + 1;
  }

  unfoldable pub put_chars : Builder → Bytes → Builder
  put_chars b val = record b {
    cmd = b.cmd ++ (sprintf 32 b'$' (to_s32 (pos (length (c_str val)))) ++ (c_str val ++ crlf));
    count = b.count + 1;
  }

  -- `<<` of a StrView at `mem`: the length is cut to an s32 before the bytes are copied. A negative
  -- length, and one that runs past the memory, is a fault.
  unfoldable pub put_view : Builder → Bytes → ℕ → Run Builder
  put_view b mem len = elim (to_s32 (pos len)) [
    | pos n ↦
        if ltb (length mem) n
        then fault
        else done (record b {
          cmd = b.cmd ++ (sprintf 32 b'$' (pos n) ++ (take n mem ++ crlf));
          count = b.count + 1;
        })
    | negsuc n ↦ fault
  ]

  unfoldable pub put_number : Builder → ℤ → Builder
  unfolding put_string
  put_number b val = put_string b (decimal_ℤ val)

  unfoldable pub put : Builder → Arg → Builder
  unfolding put_string put_chars put_number
  put b (string val) = put_string b val
  put b (chars val) = put_chars b val
  put b (number val) = put_number b val

  -- A chain of `<<`, and a loop of them.
  unfoldable pub put_all : Builder → List Arg → Builder
  unfolding put
  put_all b [] = b
  put_all b (a ∷ args) = put_all (put b a) args

  -- `_cmd.replace(_seek, headLen, buff, headLen)`
  abbrev replace : Bytes → ℕ → ℕ → Bytes → Bytes
  replace cmd seek n buff = take seek cmd ++ (buff ++ drop (seek + n) cmd)

  abbrev cmd_head : Builder → Bytes
  cmd_head b = sprintf 16 b'*' (to_s32 (pos b.count))

  write_head : Builder → ℕ → Bytes → Builder
  write_head b seek head = record b {
    committed = true;
    cmd = replace b.cmd seek (length head + 4) (le32 (length b.cmd - seek - 4) ++ head);
    seek = seek + 4;
  }

  unfoldable pub commit : Builder → Builder
  unfolding write_head
  commit b =
      if b.committed
      then b
      else write_head b (head_content_buff - (length (cmd_head b) + 4)) (cmd_head b)

  -- A builder, one chain of `<<` and a `Commit`: how every request of the module is made.
  unfoldable pub request : List Arg → Builder
  unfolding put_all commit new_builder
  request args = commit (put_all new_builder args)

-- GetSendBuff
pub get_send_buff : Builder → Bytes
get_send_buff b = drop b.seek b.cmd
