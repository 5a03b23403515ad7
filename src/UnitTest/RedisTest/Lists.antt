-- ===== src/UnitTest/RedisTest/Lists.antt =====
-- RedisTest.cpp: ListUnitTest and SetUnitTest.
use seed_core.Prelude.{ℕ, zero, suc, ◌-◌, not, List, [], ◌∷◌, Bytes, length, ◌==◌}
use seed_core.Prelude.Int.{pos, negsuc, ◌==ℤ◌}
use seed_core.Prelude.Decimal.{decimal}
use seed_core.Redis.Reply.{bytes_eq}
use seed_core.Redis.Sync.{result_ok, result_nodata}
use seed_core.Redis.Sync.Commands.{
  del_cmd, push_list_tail_batch_cmd, get_list_by_range_cmd, trim_list_cmd, sadd_cmd, smembers_cmd,
  srem_cmd,
}
use seed_core.Redis.Session.Program.{finished, undefined}
use seed_core.UnitTest.RedisTest.{build_test_key, Test, call, test_eq, ◌>>=◌, ◌>>◌}

abbrev pub key : Bytes
key = build_test_key "settest"

abbrev pub member1 : Bytes
member1 = build_test_key "member1"

abbrev pub member2 : Bytes
member2 = build_test_key "member2"

unfoldable pub set_unit_test : Test
set_unit_test = do
  (ret, del) ← call (del_cmd key)
  (ret, _) ← call (sadd_cmd key member1)
  test_eq 253 (ret ==ℤ result_ok)
  (ret, _) ← call (sadd_cmd key member1)
  test_eq 255 (not (ret ==ℤ result_ok))
  (ret, _) ← call (sadd_cmd key member2)
  test_eq 257 (ret ==ℤ result_ok)
  (ret, members) ← call (smembers_cmd key)
  test_eq 260 (ret ==ℤ result_ok)
  test_eq 261 (length members == 2)
  (ret, _) ← call (srem_cmd key member1)
  test_eq 263 (ret ==ℤ result_ok)
  (ret, _) ← call (srem_cmd key member1)
  test_eq 265 (ret ==ℤ result_nodata)
  (ret, _) ← call (srem_cmd key member2)
  test_eq 267 (ret ==ℤ result_ok)
  (ret, members) ← call (smembers_cmd key)
  test_eq 269 (ret ==ℤ result_ok)
  test_eq 270 (length members == 0)
  finished []

-- `for (i = 0; i < iNum; i++) vecContent.push_back(std::to_string(i))`
abbrev i_num : ℕ
i_num = 10

unfoldable pub numbered : ℕ → ℕ → List Bytes
numbered zero i = []
numbered (suc n) i = decimal i ∷ numbered n (suc i)

-- The loop of lines 231 to 234, over what is left of the two vectors.
unfoldable pub compare_elements : List Bytes → List Bytes → Test → Test
unfolding bytes_eq
compare_elements [] _ rest = rest
compare_elements (x ∷ xs) [] rest = undefined
compare_elements (x ∷ xs) (y ∷ ys) rest = test_eq 233 (bytes_eq x y) (compare_elements xs ys rest)

unfoldable pub list_unit_test : Test
unfolding numbered compare_elements
list_unit_test = do
  let key = build_test_key "listkey"
  let vec_content = numbered i_num 0
  (ret, del) ← call (del_cmd key)
  (ret, len) ← call (push_list_tail_batch_cmd key vec_content 0)
  test_eq 225 (ret ==ℤ result_ok)
  test_eq 226 (len == i_num)
  (ret, vec_ret) ← call (get_list_by_range_cmd key (pos 0) (pos (i_num - 1)))
  test_eq 230 (length vec_content == length vec_ret)
  compare_elements vec_content vec_ret
  (ret, _) ← call (trim_list_cmd key (pos 1) (negsuc 0))
  test_eq 237 (ret ==ℤ result_ok)
  (ret, vec_ret) ← call (get_list_by_range_cmd key (pos 0) (pos (i_num - 1)))
  test_eq 240 (ret ==ℤ result_ok)
  test_eq 241 (length vec_ret == length vec_content - 1)
  finished []
