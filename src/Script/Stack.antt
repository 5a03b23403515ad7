-- ===== src/Script/Stack.antt =====
-- ScriptEngine.cpp: what a call into a script leaves on the stack of Lua.
use seed_core.Prelude.{
  ℕ, zero, suc, ◌+◌, ◌≤◌, ◌<◌, ◌≡◌, refl, sym, ap, ◌∙◌, Bool, true, false, List, ◌∷◌, ◌++◌, none,
  some, Bytes, arith, length, length-append, take, drop, drop-append, drop_add, length-take,
  length-drop, if◌then◌else◌,
}
use seed_core.Prelude.Int.{pos, negsuc, to_s8, inc, neg, ltb_ℤ, ◌==ℤ◌}
use seed_core.Script.{Lua, IsLua}
use seed_core.Script.Streams.{InputStream, lua_result_count, input_stream}
use seed_core.Script.Engine.{
  CallBack, lua_trace_name, run_call_back, pop_trace, after_call, traced_call, exec_function,
  exec_global_function,
}

findex_lem : (n : ℕ) → n < 128 → to_s8 (neg (inc (pos n))) ≡ negsuc n
unfolding to_s8
findex_lem n h = let e : n + 1 ≡ suc n = omega arith in rw e (ground arith)

some_arguments : (n : ℕ) → ltb_ℤ (pos 0) (pos (suc n)) ≡ true
some_arguments n = ground arith

is_traced : (j : ℕ) → (negsuc j ==ℤ pos 0) ≡ false
is_traced j = ground arith

module _ {L V : Type 0} (lua : Lua L) (laws : IsLua lua V) where
  -- A function that reads the results leaves the stack as it was.
  abbrev pub Keeps : CallBack L → Type 0
  Keeps none = Unit {0}
  Keeps (some cb) = (s : InputStream) (l : L) → laws.stack (cb s l) ≡ laws.stack l

  run_call_back_lem :
      (cb : CallBack L) (l : L) → Keeps cb → laws.stack (run_call_back lua cb l) ≡ laws.stack l
  unfolding run_call_back
  run_call_back_lem none l k = refl
  run_call_back_lem (some cb) l k = k (input_stream lua l true) l

  pop_one :
      (l : L) (v : V) (vs : List V) → laws.stack l ≡ v ∷ vs → laws.stack (lua.pop (pos 1) l) ≡ vs
  pop_one l v vs e = laws.popping 1 l ∙ ap (drop 1) e

  -- The results are popped, whatever the callback is.
  results_popped :
      (cb : CallBack L) (l : L) (rs vs : List V)
      → Keeps cb
      → length rs ≡ lua_result_count
      → laws.stack l ≡ rs ++ vs
      → laws.stack (lua.pop (pos lua_result_count) (run_call_back lua cb l)) ≡ vs
  results_popped cb l rs vs k len e =
      laws.popping lua_result_count (run_call_back lua cb l)
      ∙ ap (drop lua_result_count) (run_call_back_lem cb l k ∙ e)
      ∙ drop-append rs vs lua_result_count (sym len)

  after_call_plain :
      (n : ℕ) (cb : CallBack L) (l : L)
      → Keeps cb
      → n < length (laws.stack l)
      → (r : Bool × L) → lua.pcall (pos n) (pos lua_result_count) (pos 0) l ≡ r
      → laws.stack (after_call lua cb (pos 0) r).1 ≡ drop (n + 1) (laws.stack l)
  unfolding after_call pop_trace
  after_call_plain n cb l k lt (false, l') e =
      let (v, f) = laws.failing n lua_result_count (pos 0) l lt (ap (λ (p : Bool × L). p.0) e) in
      pop_one l' v _ (ap (λ (p : Bool × L). laws.stack p.1) (sym e) ∙ f)
  after_call_plain n cb l k lt (true, l') e =
      let (rs, len, f) =
        laws.calling n lua_result_count (pos 0) l lt (ap (λ (p : Bool × L). p.0) e) in
      results_popped cb l' rs _ k len (ap (λ (p : Bool × L). laws.stack p.1) (sym e) ∙ f)

  after_call_traced :
      (n j : ℕ) (cb : CallBack L) (l : L) (v : V) (vs : List V)
      → Keeps cb
      → n < length (laws.stack l)
      → drop (n + 1) (laws.stack l) ≡ v ∷ vs
      → (r : Bool × L) → lua.pcall (pos n) (pos lua_result_count) (negsuc j) l ≡ r
      → laws.stack (after_call lua cb (negsuc j) r).1 ≡ vs
  unfolding after_call pop_trace
  after_call_traced n j cb l v vs k lt below (false, l') e =
      let (w, f) = laws.failing n lua_result_count (negsuc j) l lt (ap (λ (p : Bool × L). p.0) e) in
      rw (is_traced j) (
        laws.popping 2 l'
        ∙ ap (drop 2) (ap (λ (p : Bool × L). laws.stack p.1) (sym e) ∙ f)
        ∙ ap (drop 1) below)
  after_call_traced n j cb l v vs k lt below (true, l') e =
      let (rs, len, f) =
        laws.calling n lua_result_count (negsuc j) l lt (ap (λ (p : Bool × L). p.0) e) in
      rw (is_traced j) (
        pop_one (lua.pop (pos lua_result_count) (run_call_back lua cb l')) v vs (
          results_popped cb l' rs _ k len (ap (λ (p : Bool × L). laws.stack p.1) (sym e) ∙ f)
          ∙ below))

  -- The handler of errors, below the function and its `n` arguments.
  below_function :
      (n : ℕ) (l : L) (v : V) (vs : List V)
      → laws.stack l ≡ v ∷ vs
      → n < length vs
      → (n < length (laws.stack (lua.insert (negsuc (n + 1)) l)))
        × (drop (n + 1) (laws.stack (lua.insert (negsuc (n + 1)) l)) ≡ v ∷ drop (n + 1) vs)
  below_function n l v vs e lt =
      let f = laws.inserting (n + 1) l v vs e (omega arith) in
      let len = length-take (n + 1) vs (omega arith) in
      (
        omega (arith, ap length f, len, length-append (take (n + 1) vs) (v ∷ drop (n + 1) vs)),
        ap (drop (n + 1)) f ∙ drop-append (take (n + 1) vs) (v ∷ drop (n + 1) vs) (n + 1) (sym len),
      )

  traced_call_lem :
      (n : ℕ) (cb : CallBack L) (l : L) (v : V) (vs : List V)
      → Keeps cb
      → laws.stack l ≡ v ∷ vs
      → n < length vs
      → laws.stack (traced_call lua (pos n) (negsuc n) cb l).1 ≡ drop (n + 1) vs
  unfolding traced_call
  traced_call_lem n cb l v vs k e lt =
      elim (lua.is_function (negsuc 0) l)
        as (λ (f : Bool).
          laws.stack
            (if f
              then after_call lua cb (negsuc (n + 1)) (
                  lua.pcall (pos n) (pos lua_result_count) (negsuc (n + 1))
                    (lua.insert (negsuc (n + 1)) l))
              else after_call lua cb (pos 0)
                  (lua.pcall (pos n) (pos lua_result_count) (pos 0) (lua.pop (pos 1) l))).1
          ≡ drop (n + 1) vs) [
            | true ↦
                let (room, below) = below_function n l v vs e lt in
                after_call_traced n (n + 1) cb (lua.insert (negsuc (n + 1)) l) v (drop (n + 1) vs) k
                  room below _ refl
            | false ↦
                let f = pop_one l v vs e in
                after_call_plain n cb (lua.pop (pos 1) l) k (omega (arith, ap length f)) _ refl
                ∙ ap (drop (n + 1)) f
          ]

  -- ExecFunction with `n` arguments, at most 127, that stand on the stack above the function, a free
  -- place, and
  -- a callback that leaves the stack as it was: on every branch, that of an error and that of a
  -- value that is no function included, the function and its arguments are gone, and what was below
  -- them is there, whether there is a handler of errors or not.
  pub exec_function_lem :
      (n : ℕ) (cb : CallBack L) (l : L)
      → n < 128
      → n < length (laws.stack l)
      → length (laws.stack l) < laws.limit
      → Keeps cb
      → laws.stack (exec_function lua (pos n) cb l).1 ≡ drop (n + 1) (laws.stack l)
  unfolding exec_function
  exec_function_lem n cb l small lt room k =
      rw (findex_lem n small)
        (elim (lua.is_function (negsuc n) l)
          as (λ (f : Bool).
            laws.stack
              (if f
                then traced_call lua (pos n) (negsuc n) cb (lua.get_global lua_trace_name l)
                else (false, lua.pop (pos (n + 1)) l)).1
            ≡ drop (n + 1) (laws.stack l)) [
              | true ↦
                  let (v, e) = laws.getting_global lua_trace_name l room in
                  traced_call_lem n cb (lua.get_global lua_trace_name l) v (laws.stack l) k e lt
              | false ↦ laws.popping (n + 1) l
            ])

  called_lem :
      (n : ℕ) (cb : CallBack L) (l : L) (f : V) (vs : List V)
      → n < 128
      → n ≤ length vs
      → length vs + 1 < laws.limit
      → Keeps cb
      → laws.stack l ≡ f ∷ vs
      → laws.stack
          (exec_function lua
            (pos n)
            cb
            (if ltb_ℤ (pos 0) (pos n) then lua.insert (neg (inc (pos n))) l else l)).1
        ≡ drop n vs
  called_lem zero cb l f vs small le room k e =
      exec_function_lem 0 cb l small (omega (arith, ap length e)) (omega (arith, ap length e)) k
      ∙ ap (drop 1) e
  called_lem (suc n) cb l f vs small le room k e =
      let i = laws.inserting (suc n) l f vs e le in
      let len = length-take (suc n) vs le in
      let e' : suc n + 1 ≡ suc (suc n) = omega arith in
      let moved = lua.insert (negsuc (suc n)) l in
      rw (e', some_arguments n)
        (exec_function_lem (suc n) cb moved small
            (omega (arith, ap length i, len, length-append (take (suc n) vs) (f ∷ drop (suc n) vs)))
            (omega (
              arith,
              ap length i,
              len,
              length-append (take (suc n) vs) (f ∷ drop (suc n) vs),
              length-drop (suc n) vs,
            ))
            k
          ∙ ap (drop (suc n + 1)) i
          ∙ sym (drop_add (suc n) 1 (take (suc n) vs ++ f ∷ drop (suc n) vs))
          ∙ ap (drop 1) (drop-append (take (suc n) vs) (f ∷ drop (suc n) vs) (suc n) (sym len)))

  -- ExecGlobalFunction with `n` arguments, at most 127, on the stack, two free places, and a callback that leaves the
  -- stack as it was: if the global value is a function, the arguments are gone at the end; if it is
  -- not, they all stay on the stack.
  pub exec_global_function_lem :
      (func : Bytes) (n : ℕ) (cb : CallBack L) (l : L)
      → n < 128
      → n ≤ length (laws.stack l)
      → length (laws.stack l) + 1 < laws.limit
      → Keeps cb
      → laws.stack (exec_global_function lua func (pos n) cb l).1 ≡ (
          if lua.is_function (negsuc 0) (lua.get_global func l)
          then drop n (laws.stack l)
          else laws.stack l)
  unfolding exec_global_function
  exec_global_function_lem func n cb l small le room k =
      let (v, e) = laws.getting_global func l (omega arith) in
      elim (lua.is_function (negsuc 0) (lua.get_global func l))
        as (λ (f : Bool).
          laws.stack
            (if f
              then exec_function lua (pos n) cb (
                  if ltb_ℤ (pos 0) (pos n)
                  then lua.insert (neg (inc (pos n))) (lua.get_global func l)
                  else lua.get_global func l)
              else (false, lua.pop (pos 1) (lua.get_global func l))).1
          ≡ (if f then drop n (laws.stack l) else laws.stack l)) [
            | true ↦ called_lem n cb (lua.get_global func l) v (laws.stack l) small le room k e
            | false ↦ pop_one (lua.get_global func l) v (laws.stack l) e
          ]
