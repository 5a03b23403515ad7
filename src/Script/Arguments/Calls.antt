-- ===== src/Script/Arguments/Calls.antt =====
-- ScriptEngine.cpp, CallScriptFunc: what a call leaves on the stack of Lua.
