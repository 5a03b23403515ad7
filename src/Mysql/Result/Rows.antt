-- ===== src/Mysql/Result/Rows.antt =====
-- MysqlBase.cpp, MysqlResult::Init: the rows of a result, in their order.
use seed_core.Prelude.{
  ℕ, zero, suc, ◌<◌, ◌≤◌, ◌≡◌, refl, sym, ap, subst, ◌∙◌, true, false, List, [], ◌∷◌, ◌++◌,
  append_assoc, append-nil, map, Option, none, some, arith, length, length-map, get_elem?-map,
  get_elem?, get_elem?_in_range, Run, done, fault,
}
use seed_core.Prelude.Int.{ℤ, pos, ltb_ℤ, to_s32, to_s32-pos, two31}
use seed_core.Mysql.{Row, Client}
use seed_core.Mysql.Result.{
  FiledRow, MysqlResult, at_index, row_count, get_row, fetch_loop, no_result, init_result, init,
}

-- mysql_fetch_row gives the rows of `left` one after another, and then no more.
pub record IsCursor {H W R : Type 0} (client : Client H W R) : Type 0 where
  pub left : R → List Row
  pub at_end : (r : R) → left r ≡ [] → (client.fetch_row r).0 ≡ none
  pub at_row :
      (r : R) (row : Row) (rows : List Row)
      → left r ≡ row ∷ rows
      → ((client.fetch_row r).0 ≡ some row) × (left (client.fetch_row r).1 ≡ rows)

with_first : {A B : Type 0} (p : A × B) (a : A) → p.0 ≡ a → p ≡ (a, p.1)
with_first p a e = ap (λ x. (x, p.1)) e

abbrev pub row_of : FiledRow → Row
row_of f = f.row

module _ {H W R : Type 0} (client : Client H W R) (cursor : IsCursor client) where
  pub fetch_loop_lem :
      (rows : List Row) (fuel : ℕ) (count : ℤ) (r : R) (acc : List FiledRow)
      → cursor.left r ≡ rows
      → length rows < fuel
      → (r' : R) × (fs : List FiledRow) × (fetch_loop client fuel count (client.fetch_row r) acc
          ≡ done (r', acc ++ fs))
        × (map row_of fs ≡ rows)
  unfolding fetch_loop
  fetch_loop_lem rows zero count r acc e room = absurd (omega (arith, room))
  fetch_loop_lem [] (suc fuel) count r acc e room = (
    (client.fetch_row r).1,
    [],
    rw (with_first (client.fetch_row r) none (cursor.at_end r e), append-nil acc) refl,
    refl,
  )
  fetch_loop_lem (row ∷ rows) (suc fuel) count r acc e room =
      let (got, next) = cursor.at_row r row rows e in
      let r' = (client.fetch_row r).1 in
      let f : FiledRow = record {
        row = row;
        row_field_lengths = client.fetch_lengths r';
        filed_count = count;
      } in
      let (r'', fs, ran, same) =
        fetch_loop_lem rows fuel count r' (acc ++ f ∷ []) next (omega arith) in
      (
        r'',
        f ∷ fs,
        subst (λ q. fetch_loop client (suc fuel) count q acc ≡ done (r'', acc ++ f ∷ fs))
            (sym (with_first (client.fetch_row r) (some row) got))
            (subst
              (λ l.
                fetch_loop client fuel count (client.fetch_row r') (acc ++ f ∷ []) ≡ done (r'', l))
              (append_assoc acc (f ∷ []) fs) ran),
        ap (λ rs. row ∷ rs) same,
      )

-- The rows of a result are there in their order, and none behind them.
pub record Holds {R : Type 0} (res : MysqlResult R) (rows : List Row) : Type 0 where
  pub counted : row_count res ≡ pos (length rows)
  pub inside :
      (i : ℕ)
      → i < length rows
      → (f : FiledRow) × (get_row res (pos i) ≡ done (some f)) × (get_elem? rows i ≡ some f.row)
  pub outside : (i : ℕ) → length rows ≤ i → get_row res (pos i) ≡ done none

below : (a b : ℕ) → a < b → ltb_ℤ (pos a) (pos b) ≡ true
below a b h = ground arith

not_below : (a b : ℕ) → b ≤ a → ltb_ℤ (pos a) (pos b) ≡ false
not_below a b h = ground arith

at_index-some :
    {A : Type 0} (xs : List A) (i : ℕ) (a : A)
    → get_elem? xs i ≡ some a
    → at_index xs (pos i) ≡ done a
unfolding at_index
at_index-some {A = A} xs i a e =
    ap (λ o. elim o as (λ (o : Option A). Run A) [ none ↦ fault | some x ↦ done x ]) e

rows-Holds :
    {R : Type 0} (res : MysqlResult R) → length res.rows < two31 → Holds res (map row_of res.rows)
unfolding row_count get_row
rows-Holds res small = record {
  counted = to_s32-pos (length res.rows) small ∙ ap pos (sym (length-map row_of res.rows));
  inside = λ i lt.
      let (f, e) = get_elem?_in_range res.rows i (omega (arith, length-map row_of res.rows)) in
      (
        f,
        rw
            (
              to_s32-pos (length res.rows) small,
              below i (length res.rows) (omega (arith, length-map row_of res.rows)),
              at_index-some res.rows i f e,
            )
            refl,
        get_elem?-map row_of res.rows i f e,
      );
  outside = λ i le.
      rw
        (
          to_s32-pos (length res.rows) small,
          not_below i (length res.rows) (omega (arith, length-map row_of res.rows)),
        )
        refl;
}

module _ {H W R : Type 0} (client : Client H W R) (cursor : IsCursor client) where
  -- MysqlResult::Init on a fresh result, behind a statement that has left a result of fewer than 2^31
  -- rows, with more fuel than rows: it comes back, and it then has all the rows of the result, in their order, and GetRow answers
  -- nothing behind them. The client gives out the rows one after another.
  pub init_lem :
      (fuel : ℕ) (h h' : H) (r : R)
      → client.store_result h ≡ (some r, h')
      → length (cursor.left r) < fuel
      → length (cursor.left r) < two31
      → (res : MysqlResult R) × (init client fuel h (no_result client) ≡ done (res, h'))
        × Holds res (cursor.left r)
  unfolding init init_result
  init_lem fuel h h' r stored room small =
      let (r', fs, ran, same) =
        fetch_loop_lem client cursor (cursor.left r) fuel (to_s32 (pos (client.num_fields r))) r []
          refl room in
      let res : MysqlResult R = record { result = some r'; rows = fs } in
      (
        res,
        rw stored (rw ran refl),
        subst (Holds res) same
            (rows-Holds res (omega (arith, length-map row_of fs, ap length same))),
      )
