-- ===== src/UnitTest/RedisTest/Strings.antt =====
-- RedisTest.cpp: StringUnitTest, up to its pause and behind it.
use seed_core.Prelude.{◌+◌, Bool, true, false, not, [], ◌++◌, Bytes, length, ◌==◌}
use seed_core.Prelude.Int.{ℤ, pos, negsuc, ◌==ℤ◌, to_u64}
use seed_core.Redis.Reply.{bytes_eq}
use seed_core.Redis.Sync.{result_ok, result_nodata}
use seed_core.Redis.Sync.Strings.{option_xx, option_nx}
use seed_core.Redis.Sync.Commands.{
  del_cmd, exists_cmd, set_string_cmd, get_cmd, set_string_with_option_cmd, append_cmd, incr_cmd,
  incrby_cmd, decr_cmd, decrby_cmd,
}
use seed_core.Redis.Session.Program.{finished}
use seed_core.UnitTest.RedisTest.{build_test_key, Test, call, test_eq, ◌>>=◌, ◌>>◌}

abbrev key1 : Bytes
key1 = build_test_key "key1"

abbrev key2 : Bytes
key2 = build_test_key "key2"

abbrev val1 : Bytes
val1 = build_test_key "val1"

abbrev val2 : Bytes
val2 = build_test_key "val2"

-- Lines 36 to 46: the key is deleted, and a key that was there has to be.
unfoldable pub del_key1 : Bool → Test → Test
del_key1 true rest = do
  (ret, del) ← call (del_cmd key1)
  test_eq 40 (ret ==ℤ result_ok)
  test_eq 41 (del)
  rest
del_key1 false rest = do (ret, del) ← call (del_cmd key1); rest

-- The lines before the test sleeps for four seconds, while the second key expires.
unfoldable pub string_unit_test : Test
unfolding bytes_eq del_key1
string_unit_test = do
  (ret, exists) ← call (exists_cmd key1)
  test_eq 35 (ret ==ℤ result_ok)
  del_key1 exists
  (ret, _) ← call (set_string_cmd key1 val1)
  test_eq 48 (ret ==ℤ result_ok)
  (ret, exists) ← call (exists_cmd key1)
  test_eq 50 (ret ==ℤ result_ok)
  test_eq 51 (exists)
  let tmp : Bytes = []
  (ret, tmp) ← call (get_cmd key1 tmp)
  test_eq 54 (ret ==ℤ result_ok)
  test_eq 55 (bytes_eq val1 tmp)
  (ret, del) ← call (del_cmd key1)
  test_eq 58 (ret ==ℤ result_ok)
  test_eq 59 (del)
  (ret, tmp) ← call (get_cmd key1 tmp)
  test_eq 61 (ret ==ℤ result_nodata)
  (ret, success) ← call (set_string_with_option_cmd key1 val1 option_nx 0)
  test_eq 63 (ret ==ℤ result_ok)
  test_eq 64 (success)
  (ret, success) ← call (set_string_with_option_cmd key1 val1 option_nx 0)
  test_eq 66 (ret ==ℤ result_ok)
  test_eq 67 (not success)
  (ret, success) ← call (set_string_with_option_cmd key1 val2 option_xx 0)
  test_eq 69 (ret ==ℤ result_ok)
  test_eq 70 (success)
  (ret, tmp) ← call (get_cmd key1 tmp)
  test_eq 72 (ret ==ℤ result_ok)
  test_eq 73 (bytes_eq val2 tmp)
  (ret, success) ← call (set_string_with_option_cmd key2 val2 option_nx 3000)
  test_eq 75 (ret ==ℤ result_ok)
  test_eq 76 (success)
  (ret, tmp) ← call (get_cmd key2 tmp)
  test_eq 78 (ret ==ℤ result_ok)
  test_eq 79 (bytes_eq val2 tmp)
  finished []

-- The lines behind the pause; `tmp` is what they find in the variable.
unfoldable pub string_unit_test_later : Bytes → Test
unfolding bytes_eq
string_unit_test_later tmp = do
  (ret, tmp) ← call (get_cmd key2 tmp)
  test_eq 82 (ret ==ℤ result_nodata)
  (_, _) ← call (set_string_cmd key1 val1)
  let out_len : ℤ = pos 0
  (ret, out_len) ← call (append_cmd key1 val2 out_len)
  test_eq 86 (ret ==ℤ result_ok)
  test_eq 87 (to_u64 out_len == length val1 + length val2)
  (ret, tmp) ← call (get_cmd key1 tmp)
  let tmp2 = val1 ++ val2
  test_eq 91 (bytes_eq tmp tmp2)
  let cr_tmp : ℤ = pos 0
  (ret, cr_tmp) ← call (incr_cmd key1 cr_tmp)
  (_, success) ← call (del_cmd key1)
  (ret, cr_tmp) ← call (incr_cmd key1 cr_tmp)
  test_eq 96 (ret ==ℤ result_ok)
  test_eq 97 (pos 1 ==ℤ cr_tmp)
  (ret, cr_tmp) ← call (incr_cmd key1 cr_tmp)
  test_eq 99 (ret ==ℤ result_ok)
  test_eq 100 (pos 2 ==ℤ cr_tmp)
  (ret, cr_tmp) ← call (incrby_cmd key1 (pos 10) cr_tmp)
  test_eq 102 (ret ==ℤ result_ok)
  test_eq 103 (pos 12 ==ℤ cr_tmp)
  (ret, cr_tmp) ← call (decrby_cmd key1 (pos 10) cr_tmp)
  test_eq 105 (ret ==ℤ result_ok)
  test_eq 106 (pos 2 ==ℤ cr_tmp)
  (ret, cr_tmp) ← call (decr_cmd key1 cr_tmp)
  test_eq 108 (ret ==ℤ result_ok)
  test_eq 109 (pos 1 ==ℤ cr_tmp)
  (ret, cr_tmp) ← call (decr_cmd key1 cr_tmp)
  test_eq 111 (ret ==ℤ result_ok)
  test_eq 112 (pos 0 ==ℤ cr_tmp)
  (ret, cr_tmp) ← call (decr_cmd key1 cr_tmp)
  test_eq 114 (ret ==ℤ result_ok)
  test_eq 115 (negsuc 0 ==ℤ cr_tmp)
  (_, del) ← call (del_cmd key1)
  test_eq 117 (del)
  finished []
