-- ===== src/UnitTest/RedisTest/Hashes.antt =====
-- RedisTest.cpp: HashUnitTest.
use seed_core.Prelude.{false, not, [], ◌∷◌, Bytes, length, ◌==◌}
use seed_core.Prelude.Int.{ℤ, pos, negsuc, ◌==ℤ◌}
use seed_core.Redis.Reply.{bytes_eq}
use seed_core.Redis.Sync.{result_ok, result_nodata}
use seed_core.Redis.Sync.Commands.{
  del_cmd, hset_cmd, hget_cmd, hset_nx_cmd, hmset_cmd, hmget_cmd, hget_all_cmd, hlen_cmd,
  hexists_cmd, hincrby_cmd, hkeys_cmd,
}
use seed_core.Redis.Session.Program.{finished}
use seed_core.UnitTest.RedisTest.{build_test_key, Test, call, at, test_eq, ◌>>=◌, ◌>>◌}

unfoldable pub hash_unit_test : Test
unfolding bytes_eq
hash_unit_test = do
  let key = build_test_key "hashtest"
  let filed1 = build_test_key "filed1"
  let filed2 = build_test_key "filed2"
  let val1 = build_test_key "val1"
  let val2 = build_test_key "val2"
  let tmp : Bytes = []
  (ret, del) ← call (del_cmd key)
  (ret, _) ← call (hset_cmd key filed1 val1)
  test_eq 131 (ret ==ℤ result_ok)
  (ret, tmp) ← call (hget_cmd key filed1 tmp)
  test_eq 133 (ret ==ℤ result_ok)
  test_eq 134 (bytes_eq tmp val1)
  (ret, tmp) ← call (hget_cmd key filed2 tmp)
  test_eq 136 (ret ==ℤ result_nodata)
  (ret, _) ← call (hset_nx_cmd key filed1 val2)
  test_eq 138 (not (ret ==ℤ result_ok))
  (ret, tmp) ← call (hget_cmd key filed1 tmp)
  test_eq 140 (ret ==ℤ result_ok)
  test_eq 141 (bytes_eq tmp val1)
  (ret, _) ← call (hset_nx_cmd key filed2 val2)
  test_eq 143 (ret ==ℤ result_ok)
  (ret, tmp) ← call (hget_cmd key filed2 tmp)
  test_eq 145 (ret ==ℤ result_ok)
  test_eq 146 (bytes_eq tmp val2)
  (ret, del) ← call (del_cmd key)
  test_eq 148 (ret ==ℤ result_ok)
  test_eq 149 (del)
  (ret, _) ← call (hmset_cmd key ((filed1, val1) ∷ (filed2, val2) ∷ []))
  test_eq 151 (ret ==ℤ result_ok)
  (ret, tmp) ← call (hget_cmd key filed1 tmp)
  test_eq 153 (ret ==ℤ result_ok)
  test_eq 154 (bytes_eq tmp val1)
  (ret, tmp) ← call (hget_cmd key filed2 tmp)
  test_eq 156 (ret ==ℤ result_ok)
  test_eq 157 (bytes_eq tmp val2)
  (ret, vals) ← call (hmget_cmd key (filed1 ∷ filed2 ∷ []))
  test_eq 160 (ret ==ℤ result_ok)
  val ← at vals 0
  test_eq 161 (bytes_eq val val1)
  val ← at vals 1
  test_eq 162 (bytes_eq val val2)
  (ret, del) ← call (del_cmd key)
  test_eq 164 (ret ==ℤ result_ok)
  test_eq 165 (del)
  (ret, _) ← call (hmset_cmd key ((filed1, val1) ∷ []))
  test_eq 167 (ret ==ℤ result_ok)
  (ret, vals) ← call (hmget_cmd key (filed1 ∷ filed2 ∷ []))
  test_eq 169 (ret ==ℤ result_ok)
  test_eq 170 (length vals == 2)
  val ← at vals 1
  test_eq 171 (length val == 0)
  (ret, map_filed_val) ← call (hget_all_cmd key)
  test_eq 174 (ret ==ℤ result_ok)
  test_eq 175 (length map_filed_val == 1)
  let filed_len : ℤ = pos 0
  (ret, filed_len) ← call (hlen_cmd key filed_len)
  test_eq 178 (ret ==ℤ result_ok)
  test_eq 179 (filed_len ==ℤ pos 1)
  (_, del) ← call (del_cmd key)
  (ret, filed_len) ← call (hlen_cmd key filed_len)
  test_eq 182 (ret ==ℤ result_ok)
  test_eq 183 (filed_len ==ℤ pos 0)
  (ret, _) ← call (hmset_cmd key ((filed1, val1) ∷ []))
  (ret, filed_len) ← call (hlen_cmd key filed_len)
  test_eq 186 (ret ==ℤ result_ok)
  test_eq 187 (filed_len ==ℤ pos 1)
  let b_exists = false
  (ret, b_exists) ← call (hexists_cmd key filed2 b_exists)
  test_eq 190 (ret ==ℤ result_ok)
  test_eq 191 (not b_exists)
  (ret, b_exists) ← call (hexists_cmd key filed1 b_exists)
  test_eq 193 (ret ==ℤ result_ok)
  test_eq 194 (b_exists)
  let i_filed_val : ℤ = pos 0
  (ret, i_filed_val) ← call (hincrby_cmd key filed2 (pos 10) i_filed_val)
  test_eq 197 (ret ==ℤ result_ok)
  test_eq 198 (i_filed_val ==ℤ pos 10)
  (ret, i_filed_val) ← call (hincrby_cmd key filed2 (pos 10) i_filed_val)
  test_eq 200 (ret ==ℤ result_ok)
  test_eq 201 (i_filed_val ==ℤ pos 20)
  (ret, i_filed_val) ← call (hincrby_cmd key filed2 (negsuc 9) i_filed_val)
  test_eq 203 (ret ==ℤ result_ok)
  test_eq 204 (i_filed_val ==ℤ pos 10)
  (ret, vals) ← call (hkeys_cmd key)
  test_eq 206 (ret ==ℤ result_ok)
  test_eq 207 (length vals == 2)
  val ← at vals 0
  test_eq 208 (bytes_eq val filed1)
  val ← at vals 1
  test_eq 209 (bytes_eq val filed2)
  finished []
