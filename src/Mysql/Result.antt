-- ===== src/Mysql/Result.antt =====
-- MysqlBase.h and MysqlBase.cpp: the rows that a statement leaves.
pub mod Rows
use seed_core.Prelude.{
  ℕ, zero, suc, Bool, true, false, List, [], ◌∷◌, ◌++◌, Option, none, some, Bytes, length,
  get_elem?, if◌then◌else◌, Run, done, starved, fault, ◌>>=◌,
}
use seed_core.Prelude.Int.{ℤ, pos, negsuc, ltb_ℤ, to_s32}
use seed_core.Mysql.{Row, Client}

-- FiledRow. The lengths are an address: their place belongs to the result, not to the row.
pub record FiledRow : Type 0 where
  pub row : Row
  pub row_field_lengths : Option ℕ
  pub filed_count : ℤ

pub record MysqlResult (R : Type 0) : Type 0 where
  pub result : Option R
  pub rows : List FiledRow

-- `_row[index]` of an array
unfoldable pub at_index : {A : Type 0} → List A → ℤ → Run A
at_index xs (pos i) = elim (get_elem? xs i) [ none ↦ fault | some x ↦ done x ]
at_index xs (negsuc i) = fault

unfoldable pub get_string : FiledRow → ℤ → Run (Option Bytes)
unfolding at_index
get_string f index = if ltb_ℤ index f.filed_count then at_index f.row index else done none

unfoldable pub row_count : {R : Type 0} → MysqlResult R → ℤ
row_count r = to_s32 (pos (length r.rows))

-- A row's place is given out, or nothing. A place before the first row is a fault.
unfoldable pub get_row : {R : Type 0} → MysqlResult R → ℤ → Run (Option FiledRow)
unfolding at_index
get_row r index =
    if ltb_ℤ index (to_s32 (pos (length r.rows)))
    then (at_index r.rows index >>= λ row. done (some row))
    else done none

module _ {H W R : Type 0} (client : Client H W R) where
  -- What stands in the row's lengths now; they may be missing.
  unfoldable pub lengths_of : R → Option ℕ → List ℕ
  lengths_of r none = []
  lengths_of r (some p) = client.lengths_at r p

  -- The buffer of a field, with its length.
  unfoldable pub buff_of : R → FiledRow → ℤ → Option Bytes → Run (Option (Bytes × ℤ))
  unfolding at_index lengths_of
  buff_of r f index none = done none
  buff_of r f index (some b) =
      at_index (lengths_of r f.row_field_lengths) index >>= λ n. done (some (b, to_s32 (pos n)))

  unfoldable pub get_buff : R → FiledRow → ℤ → Run (Option (Bytes × ℤ))
  unfolding buff_of
  get_buff r f index =
      if ltb_ℤ index f.filed_count then (at_index f.row index >>= buff_of r f index) else done none

  -- `while (row)`, with fuel for the rows.
  unfoldable pub fetch_loop : ℕ → ℤ → Option Row × R → List FiledRow → Run (R × List FiledRow)
  fetch_loop zero count p rows = starved
  fetch_loop (suc fuel) count (none, r) rows = done (r, rows)
  fetch_loop (suc fuel) count (some row, r) rows =
      let f : FiledRow = record {
        row = row;
        row_field_lengths = client.fetch_lengths r;
        filed_count = count;
      } in
      fetch_loop fuel count (client.fetch_row r) (rows ++ f ∷ [])

  -- A MysqlResult by its constructor.
  abbrev pub no_result : MysqlResult R
  no_result = record { result = none; rows = [] }

  unfoldable pub init_result : ℕ → Option R → List FiledRow → Run (MysqlResult R)
  unfolding fetch_loop
  init_result fuel none rows = done (record { result = none; rows = rows })
  init_result fuel (some r) rows =
      fetch_loop fuel (to_s32 (pos (client.num_fields r))) (client.fetch_row r) rows >>= λ (r', rs).
      done (record { result = some r'; rows = rs })

  -- MysqlResult::Init
  unfoldable pub init : ℕ → H → MysqlResult R → Run (MysqlResult R × H)
  unfolding init_result
  init fuel h res =
      let (result, h') = client.store_result h in
      init_result fuel result res.rows >>= λ res'. done (res', h')
