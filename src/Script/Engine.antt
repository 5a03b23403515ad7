-- ===== src/Script/Engine.antt =====
-- ScriptEngine.cpp, and LuaInterchangeCaller of LuaInterchange.cpp: calls into a script, and
-- functions of the program that scripts call.
use seed_core.Prelude.{
  Bool, true, false, List, ◌++◌, Option, none, some, Bytes, codes, if◌then◌else◌,
}
use seed_core.Prelude.Int.{ℤ, pos, negsuc, ltb_ℤ, to_s8, inc, dec, neg, ◌==ℤ◌}
use seed_core.Redis.Builder.{c_str}
use seed_core.Script.{Lua}
use seed_core.Script.Streams.{
  InputStream, OutputStream, Datum, str, lua_result_count, input_stream, write, write_all,
}

-- LUA_TRACE_NAME
abbrev pub lua_trace_name : Bytes
lua_trace_name = codes "__G__TRACKBACK__"

-- CALL_FUNCTION
abbrev pub call_function : Bytes
call_function = codes "call"

-- What reads the results, if it is not null.
abbrev pub CallBack : Type 0 → Type 0
CallBack L = Option (InputStream → L → L)

module _ {L : Type 0} (lua : Lua L) where
  unfoldable pub run_call_back : CallBack L → L → L
  run_call_back none l = l
  run_call_back (some cb) l = cb (input_stream lua l true) l

  -- The handler of errors is below the results if there is one, that is if its index is not zero.
  unfoldable pub pop_trace : ℤ → L → L
  pop_trace trace l = if trace ==ℤ pos 0 then l else lua.pop (pos 1) l

  -- What follows lua_pcall. The error's text is only logged.
  unfoldable pub after_call : CallBack L → ℤ → Bool × L → Bool × L
  unfolding run_call_back pop_trace
  after_call cb trace (false, l) =
      (false, if trace ==ℤ pos 0 then lua.pop (pos 1) l else lua.pop (pos 2) l)
  after_call cb trace (true, l) =
      (true, pop_trace trace (lua.pop (pos lua_result_count) (run_call_back cb l)))

  -- The call, with the handler of errors put below the function if it is one.
  unfoldable pub traced_call : ℤ → ℤ → CallBack L → L → Bool × L
  unfolding after_call
  traced_call argc findex cb l =
      if lua.is_function (negsuc 0) l
      then after_call cb (dec findex)
          (lua.pcall argc (pos lua_result_count) (dec findex) (lua.insert (dec findex) l))
      else after_call cb (pos 0) (lua.pcall argc (pos lua_result_count) (pos 0) (lua.pop (pos 1) l))

  -- ExecFunction, for an `argc` of 8 bits
  unfoldable pub exec_function : ℤ → CallBack L → L → Bool × L
  unfolding traced_call
  exec_function argc cb l =
      let findex = to_s8 (neg (inc argc)) in
      if lua.is_function findex l
      then traced_call argc findex cb (lua.get_global lua_trace_name l)
      else (false, lua.pop (neg findex) l)

  -- ExecGlobalFunction
  unfoldable pub exec_global_function : Bytes → ℤ → CallBack L → L → Bool × L
  unfolding exec_function
  exec_global_function func argc cb l =
      let l' = lua.get_global func l in
      if lua.is_function (negsuc 0) l'
      then exec_function argc cb (if ltb_ℤ (pos 0) argc then lua.insert (neg (inc argc)) l' else l')
      else (false, lua.pop (pos 1) l')

  -- PreCall: the names are the first of the values that are passed.
  unfoldable pub pre_call : Bytes → Bytes → L → OutputStream × L
  unfolding write
  pre_call module_ func l =
      write lua (str func) (write lua (str module_) (record { count = pos 0 }, l))

  -- LuaInterchangeCaller::Call, which passes the count as 8 bits.
  unfoldable pub call : CallBack L → OutputStream × L → Bool × L
  unfolding exec_global_function
  call cb (s, l) = exec_global_function call_function (to_s8 s.count) cb l

  -- CallScriptFunc, with what the function writes, if it is not null.
  unfoldable pub call_script_func : Bytes → Bytes → List Datum → CallBack L → L → Bool × L
  unfolding pre_call call
  call_script_func module_ func ds cb l = call cb (write_all lua ds (pre_call module_ func l))

  -- ReloadScript
  unfoldable pub reload_script : Bytes → L → L
  unfolding exec_global_function
  reload_script module_ l =
      (exec_global_function (codes "reload") (pos 1) none (lua.push_string (c_str module_) l)).1

  -- CallPtfMod
  unfoldable pub call_ptf_mod : Bytes → L → L
  unfolding exec_global_function
  call_ptf_mod mod_name l =
      (exec_global_function (codes "ptfmod") (pos 1) none (lua.push_string (c_str mod_name) l)).1

  -- SetSearchPath, for a path that fits the buffer.
  unfoldable pub set_search_path : Bytes → L → L
  set_search_path path l =
      let l1 = lua.get_field (negsuc 0) (codes "path") (lua.get_global (codes "package") l) in
      lua.pop (pos 2) (
        lua.set_field (negsuc 2) (codes "path")
          (lua.push_string (path ++ codes "/?.lua") (lua.to_string (negsuc 0) l1).1))

  -- ExecScriptFile, whose text goes on the stack whether it could be loaded or not.
  unfoldable pub exec_script_file : Bytes → L → Bool × L
  unfolding exec_function
  exec_script_file file l =
      exec_function (pos 0) none
        (lua.load_string (codes "return require \"" ++ file ++ codes "\"") l).1

  -- Initialize, for the path of the environment. The link file decides nothing of its result.
  unfoldable pub initialize : Bytes → Bool × L
  unfolding set_search_path exec_script_file
  initialize envir =
      let l = set_search_path (envir ++ codes "/script") (lua.open_libs lua.new_state) in
      (true, (exec_script_file (codes "link") (lua.register_log (codes "print") l)).1)

  -- RegModuleFunc: the module's table, made if it is not there.
  unfoldable pub module_table : Bytes → L → L
  module_table path l =
      if lua.is_nil (negsuc 0) l
      then (let l1 = lua.create_table (lua.push_string path (lua.pop (pos 1) l)) in
          lua.raw_get (negsuc 1) (lua.push_string path (lua.raw_set (negsuc 2) l1)))
      else l

  -- RegModuleFunc, for a name that fits the buffer.
  unfoldable pub reg_module_func : Bytes → Bytes → L → L
  unfolding module_table
  reg_module_func module_ func l =
      let path = codes "serverd." ++ c_str module_ in
      let l1 = lua.get_field (negsuc 0) (codes "loaded") (lua.get_global (codes "package") l) in
      let l2 = module_table path (lua.raw_get (negsuc 1) (lua.push_string path l1)) in
      let l3 = lua.push_closure (lua.new_userdata (lua.push_string (c_str func) l2)) in
      lua.pop (pos 3) (lua.raw_set (negsuc 2) l3)

  -- LuaCall, for a function of the program that writes `ds` of what it reads: what it answers is the
  -- number of its results.
  unfoldable pub lua_call : (InputStream → L → List Datum × L) → L → ℤ × L
  lua_call func l =
      let (ds, l1) = func (input_stream lua l false) l in
      let (output, l2) = write_all lua ds (record { count = pos 0 }, l1) in (output.count, l2)
