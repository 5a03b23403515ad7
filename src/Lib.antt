-- ===== src/Lib.antt =====
-- SeedCore's modules: logic/Core/RedisMgr, logic/Core/MysqlMgr, logic/Core/ScriptEngine and
-- logic/Logic/UnitTest, with their interfaces in logic/Interface.
--
-- Redis. A program thread calls a command of the interface. The command puts a request together in
-- a RedisCmdBuilder (RedisHelper.h), execCmd (RedisMgr.cpp) chooses the connection of the thread,
-- RedisWraaper (RedisHelper.cpp) sends the builder's buffer and waits for the reply, and the command
-- reads the reply through a RedisResult (RedisHelper.cpp). An asynchronous command puts its builder
-- into the list of a worker's connection, and a task of the kernel's queue sends the list in batches.
--
-- Mysql. LoadConfigFile opens for each name of the configuration one connection for the main thread
-- and one for each worker. PushMysqlHandler chooses a worker by an id and starts a job (MysqlBase),
-- which the kernel's queue executes on the worker's connection (DBConnection), answers and releases.
--
-- Scripts. CallScriptFunc writes two names and the arguments to the stack of Lua, calls the global
-- function `call`, and lets a function of the program read the results; LuaCall is the way back.
--
-- Unit tests. The module starts the tests that the configuration names and keeps the ids of those
-- that are under way. The tests of redis are callers of the interface.
--
-- Files and code:
--   Prelude            the shared names, lists, tests, integers, decimal text. A number is a native
--                      natural number; `to_s32`, `to_u32` and `to_u64` are the conversions.
--   Redis/Builder      RedisCmdBuilder. Commit is `commit`, `<<` is `put`, GetSendBuff is
--                      `get_send_buff`; `Encoding` relates it to redis's protocol (Redis/Resp).
--   Redis/Memory       loads and stores of an `int32_t` in a byte buffer, little end first.
--   Redis/StringMap    std::map of strings, as its pairs in key order.
--   Redis/Reply        RedisResult, one function for each of its functions.
--   Redis/Transport    redisBufferWriteInner is `buffer_write`, redisGetReplyInner `get_reply`,
--                      sendAndGetReply `send_and_get_reply`, and in `Pipeline`
--                      pipelineSendAndGetReply is `pipeline_send_and_get_reply`.
--   Redis/Mgr          the static members of RedisMgr, GetRedisConnection and
--                      GetRedisConnectionInAsync; in `Execute` CreateRedisContext,
--                      execTaskByTimeOut, execCmd and batchExecCmd.
--   Redis/Async        addAsyncTask and OnExecRedisTask; in `Commands` RedisAsyncCall.cpp.
--   Redis/Sync         RedisSyncCall.cpp: the ways to read a reply are `*_result`, and the commands
--                      are in `Keys`, `Strings`, `Hashes`, `Lists` and `Sets`. `Commands` is the
--                      interface IRedisSyncCall as one data type with its dispatch, `Forms` what
--                      each of its functions sends and how it reads the reply.
--   Redis/Session      the module as its callers see it, over a server that keeps data: `Answer` is
--                      what the server does to its data, `Program` a caller of the interface,
--                      `run_program` that caller over the module and `over_data` the same caller
--                      over the data alone. `Replies` are HGetAll and RPush over such a server,
--                      `Task` is OnExecRedisTask, and `Threads` are two callers on two threads, in
--                      any order of their commands.
--   Redis/Profile      GetProfileAndReset; in `Flush` Launched, OnFlushConnectionTimer,
--                      OnFlushConnection and ProfileInfo.
--   Redis/Mgr/Initialize  Initialize and LoadConfigFile of RedisMgr.cpp.
--   Redis/Sample       TestPipeline.
--   Redis/Tests        a peer, a host and a module with two workers, and examples.
--   Xml                the reader of configurations, a parameter of all the loads.
--   Mysql              the client library as the parameter `Client`.
--   Mysql/Connection   DBConnection: `open_`, `reopen`, `is_active`, `execute`, `escape_string_ex`.
--   Mysql/Result       FiledRow and MysqlResult; Init is `init`, GetRow `get_row`.
--   Mysql/Mgr          MysqlMgr's members, PushMysqlHandler, GetDBConnection; in `Load` LoadConfigFile,
--                      in `Access` the operations that work at once, in `Base` the calls of the queue
--                      for a job (OnExecute, OnSuccess, OnFailed, OnRelease), in `Base/Steps` the life
--                      of the jobs as a relation of steps.
--   Script             Lua as the parameter `Lua` with the laws `IsLua`; in `Streams` LuaInputStream and
--                      LuaOutputStream, in `Engine` ScriptEngine and LuaInterchangeCaller.
--   UnitTest           the registry, LoadConfig, Launched and the ids. `RedisTest` is RedisTest.cpp: a
--                      test gives the lines whose TEST_EQ fails, a variable without a value starts
--                      as 0, and StringUnitTest is cut in two where it sleeps.
--   Mysql/Tests, Script/Tests, UnitTest/Tests, Xml/Example  examples: a server, a Lua machine, ids, a
--                      configuration.
--
-- The model is that of the debug build, the only one that the sources compile to. Code that can fail
-- returns a `Run`: a result, `starved` if the fuel ran out, `fault` where the code reads out of
-- bounds or divides by zero. The loops that the outside decides, those of sends, of reads and of
-- reconnects, take fuel. For the loop of sends one unit more than the bytes of the request is
-- enough, since a working socket takes at least a byte of what it is offered. For the loop of reads
-- the bytes of the reply are enough, since a read brings at least a byte; `reply_bytes` adds them up
-- for a caller. For the loop of reconnects two units more than the seconds of the limit are enough, since a round sleeps a second.
-- For the pings of a mysql connection one unit more than the ticks of a fine clock in 30 minutes and a
-- millisecond is enough, whatever the length of a tick, if a failing ping takes one. The loops over rows and elements need one unit more than those.
-- A command is one step of its thread, and a socket does not depend on what goes over another one.
-- Where an ASSERT fails, the model goes on with the code behind it.
--
-- Parameters are what is not in the repository: hiredis and the socket (`Net`), the clock, `Sleep`,
-- `SafeSprintf`, the lock-free list and the kernel's queue (`Host`), the mysql client with its clocks
-- (`Client`), Lua (`Lua`), the XML reader (`Xml`) and the handlers of the program. What is relied on
-- are `IsSprintf` (a text that fits is printed whole), `Accepts` (a working socket), `Session`
-- (a peer that reads requests as the protocol says, answers them in order and keeps data, and a reader
-- that gets its replies in pieces of a byte or more), `IsStrings` and `IsSets` (what redis documents
-- of SET and GET and of the sets), the two records `IsClock` (time does not run backwards), `IsCursor`
-- (rows come one after another), `Siblings` (a list of elements comes to an end) and `IsLua` (what the
-- manual says of the stack, which has a limited number of places, and of integers of 64 bits).
--
-- Not modelled: what the watches of a profile measure, the timer that logs the statistics of mysql,
-- log texts, and the freeing of memory; the lock-free list is atomic here. RecordExecKey does nothing.
-- Of the script engine, Log, PrintLuaStack and the sample call TestCallLuaFunction are left out, and
-- of the unit tests MysqlTest.cpp and ScriptEngineTest.cpp. The getters of IRowData only hand a text
-- to a parser that is not in the repository. Copies of other projects' libraries in the repository
-- are parameters at most.
pub mod Prelude
pub mod Xml
pub mod Redis
pub mod Mysql
pub mod Script
pub mod UnitTest
